-- ===== src/Handler.antt =====
-- src/include/jdwp_packet.hpp: `GenericHandler` and `Handler`, with the dispatch of events to them
-- (src/jdwp_packet.cpp). An object of a class derived from `Handler` is given by the `Handle`
-- functions that the class overrides; they may throw, and they act on what the program's handlers
-- share, of type `W`.
pub mod Print
pub mod Printed
use roastery.Prelude.{Option, none, some, List, [], ◌∷◌}
use roastery.Outcome.{ok}
use roastery.Action.{Action, ◌>>◌}
use roastery.EventClass.{EventClass, JdwpEvent}

-- `handle` is `Handle` of one of the classes of `AllEvents`, and `handle_interface` is
-- `Handle(IJdwpEvent&)`.
pub record Handler (W : Type 0) : Type 0 where
  pub handle : EventClass → Option (JdwpEvent → Action W (Unit {0}))
  pub handle_interface : Option (JdwpEvent → Action W (Unit {0}))

module _ {W : Type 0} where
  -- `Handle(Interface&)` of `GenericHandler`: it ignores the message, if it is not overridden.
  unfoldable pub call_handle_interface : Handler W → JdwpEvent → Action W (Unit {0})
  call_handle_interface handler event w = elim handler.handle_interface [
    | none ↦ (ok tt, w)
    | some f ↦ f event w
  ]

  -- `Handle(NextMsgType&)` of `GenericHandler`: it calls the function above, if it is not overridden.
  unfoldable pub call_handle : Handler W → EventClass → JdwpEvent → Action W (Unit {0})
  unfolding call_handle_interface
  call_handle handler class event w = elim (handler.handle class) [
    | none ↦ call_handle_interface handler event w
    | some f ↦ f event w
  ]

  -- `Dispatch`: the function of the event's class.
  unfoldable pub dispatch : JdwpEvent → Handler W → Action W (Unit {0})
  unfolding call_handle
  dispatch event handler = call_handle handler event.class event

  -- The inner loop of the reader of a connection: every handler, in the order of registration.
  unfoldable pub dispatch_to_all : JdwpEvent → List (Handler W) → Action W (Unit {0})
  unfolding dispatch
  dispatch_to_all event [] = λ w. (ok tt, w)
  dispatch_to_all event (handler ∷ handlers) = do
    dispatch event handler
    dispatch_to_all event handlers

  -- The outer loop: every event, in the order of the packet.
  unfoldable pub dispatch_events : List JdwpEvent → List (Handler W) → Action W (Unit {0})
  unfolding dispatch_to_all
  dispatch_events [] handlers = λ w. (ok tt, w)
  dispatch_events (event ∷ events) handlers = do
    dispatch_to_all event handlers
    dispatch_events events handlers
