-- ===== src/Connection/Handling.antt =====
-- src/jdwp_con.cpp: what the handling of a packet depends on and changes.
use roastery.Prelude.{◌≡◌, refl, Bool, true, false, List, if◌then◌else◌}
use roastery.Outcome.{Outcome, ok, raised, undefined, out_of_fuel}
use roastery.Bytes.{Bytes}
use roastery.Action.{Action, ◌>>=◌, lift}
use roastery.Fields.{Tuple}
use roastery.EventClass.{EventClass, JdwpEvent, event_fields}
use roastery.Event.{header_is_event, from_composite}
use roastery.Handler.{dispatch_events}
use roastery.Socket.{Platform, Socket}
use roastery.Connection.{Connection, impl_con, on_world, handle_packet}

-- Handling a packet changes only what the handlers act on.
module _ {W : Type 0} (initial : (c : EventClass) → Tuple (event_fields c)) (p : Platform) where
  abbrev handled : Outcome Bool → Outcome (List JdwpEvent) → Action (Connection W) (Unit {0})
  handled event_or_reply events = do
    is_event ← lift event_or_reply
    if is_event
        then (do es ← lift events; λ c. on_world (dispatch_events es c.event_handlers) c)
        else lift (ok tt)

  abbrev pub IsFramed : Connection W → Bool → Socket → Action (Connection W) (Unit {0}) → Type 0
  IsFramed a b s act =
      act (record a { should_cancel = b; socket = s })
      ≡ ((act a).0, record a { should_cancel = b; socket = s; world = (act a).1.world })

  handled-IsFramed :
      (a : Connection W) (b : Bool) (s : Socket) (event_or_reply : Outcome Bool)
      (events : Outcome (List JdwpEvent))
      → IsFramed a b s (handled event_or_reply events)
  handled-IsFramed a b s (ok true) (ok es) = refl
  handled-IsFramed a b s (ok true) (raised fault) = refl
  handled-IsFramed a b s (ok true) undefined = refl
  handled-IsFramed a b s (ok true) out_of_fuel = refl
  handled-IsFramed a b s (ok false) events = refl
  handled-IsFramed a b s (raised fault) events = refl
  handled-IsFramed a b s undefined events = refl
  handled-IsFramed a b s out_of_fuel events = refl

  pub handle_packet-IsFramed :
      (a : Connection W) (b : Bool) (s : Socket) (header packet : Bytes)
      → IsFramed a b s (handle_packet p initial header packet)
  unfolding handle_packet
  handle_packet-IsFramed a b s header packet =
      handled-IsFramed a b s (header_is_event header) (from_composite initial impl_con packet)
