-- ===== src/Connection/Wrapper.antt =====
-- src/jdwp_con.cpp: the interface `IJdwpCon` and its implementation `JdwpCon`, which owns a
-- `JdwpCon::Impl`, another implementation, and passes its calls on to it.
use roastery.Prelude.{ℕ, List}
use roastery.Outcome.{ok}
use roastery.Bytes.{Bytes}
use roastery.Action.{Action, lift}
use roastery.Handles.{Handles, construct_object, move_construct, move_assign, destruct, on_impl}
use roastery.Socket.{Platform, Answer}
use roastery.Socket.Connect.{Network}
use roastery.Handler.{Handler}
use roastery.Connection
use roastery.Connection.{Connection, impl_con}
use roastery.Connection.Outgoing.{IJdwpCommandPacket}
use roastery.Connection.Constructor.{new_connection, new_local_connection}

-- The virtual functions of `IJdwpCon`, over objects of type `S` whose handlers act on a `W`.
pub record IJdwpCon (S W : Type 0) : Type 0 where
  pub get_obj_id_size_impl : Action S ℕ
  pub get_method_id_size_impl : Action S ℕ
  pub get_field_id_size_impl : Action S ℕ
  pub get_frame_id_size_impl : Action S ℕ
  pub register_event_handler_impl : Handler W → Action S (Unit {0})
  pub send_message_impl : IJdwpCommandPacket → Action S (Unit {0})

-- The program's objects of the class `JdwpCon`, whose handlers act on a `W`.
abbrev pub JdwpCons : Type 0 → Type 0
JdwpCons W = Handles (Connection W)

module _ {W : Type 0} where
  -- The functions of `IJdwpCon` that are not virtual call those that are.
  module _ {S : Type 0} where
    unfoldable pub get_obj_id_size : IJdwpCon S W → Action S ℕ
    get_obj_id_size con = con.get_obj_id_size_impl

    unfoldable pub get_method_id_size : IJdwpCon S W → Action S ℕ
    get_method_id_size con = con.get_method_id_size_impl

    unfoldable pub get_field_id_size : IJdwpCon S W → Action S ℕ
    get_field_id_size con = con.get_field_id_size_impl

    unfoldable pub get_frame_id_size : IJdwpCon S W → Action S ℕ
    get_frame_id_size con = con.get_frame_id_size_impl

    unfoldable pub register_event_handler : IJdwpCon S W → Handler W → Action S (Unit {0})
    register_event_handler con handler = con.register_event_handler_impl handler

    unfoldable pub send_message : IJdwpCon S W → IJdwpCommandPacket → Action S (Unit {0})
    send_message con message = con.send_message_impl message

  -- `JdwpCon::Impl`.
  unfoldable pub impl : IJdwpCon (Connection W) W
  unfolding Connection.register_event_handler Connection.send_message
  impl = record {
    get_obj_id_size_impl = lift (ok impl_con.get_obj_id_size);
    get_method_id_size_impl = lift (ok impl_con.get_method_id_size);
    get_field_id_size_impl = lift (ok impl_con.get_field_id_size);
    get_frame_id_size_impl = lift (ok impl_con.get_frame_id_size);
    register_event_handler_impl = λ handler c. (ok tt, Connection.register_event_handler handler c);
    send_message_impl = λ message c. (ok tt, Connection.send_message message c);
  }

  -- `JdwpCon`, for the object `this`.
  unfoldable pub jdwp_con : ℕ → IJdwpCon (JdwpCons W) W
  unfolding on_impl impl get_obj_id_size get_method_id_size get_field_id_size get_frame_id_size
      register_event_handler send_message
  jdwp_con this = record {
    get_obj_id_size_impl = on_impl this (get_obj_id_size impl);
    get_method_id_size_impl = on_impl this (get_method_id_size impl);
    get_field_id_size_impl = on_impl this (get_field_id_size impl);
    get_frame_id_size_impl = on_impl this (get_frame_id_size impl);
    register_event_handler_impl = λ handler. on_impl this (register_event_handler impl handler);
    send_message_impl = λ message. on_impl this (send_message impl message);
  }

  -- `JdwpCon(address, port)` and `JdwpCon(port)`; `world` is what the handlers will act on.
  unfoldable pub new_jdwp_con :
      W
      → Platform
      → Network
      → Bytes
      → ℕ
      → List Answer
      → List Answer
      → Action (JdwpCons W) (Unit {0})
  unfolding construct_object new_connection
  new_jdwp_con world p network address port answers reads =
      construct_object (new_connection world p network address port answers reads)

  unfoldable pub new_local_jdwp_con :
      W → Platform → Network → ℕ → List Answer → List Answer → Action (JdwpCons W) (Unit {0})
  unfolding construct_object new_local_connection
  new_local_jdwp_con world p network port answers reads =
      construct_object (new_local_connection world p network port answers reads)

  -- `JdwpCon(JdwpCon&&)`, `operator=(JdwpCon&&)` and `~JdwpCon`, which are defaulted.
  unfoldable pub move_jdwp_con : ℕ → JdwpCons W → JdwpCons W
  unfolding move_construct
  move_jdwp_con other = move_construct other

  unfoldable pub assign_jdwp_con : ℕ → ℕ → JdwpCons W → JdwpCons W
  unfolding move_assign
  assign_jdwp_con this other = move_assign this other

  unfoldable pub destroy_jdwp_con : ℕ → JdwpCons W → JdwpCons W
  unfolding destruct
  destroy_jdwp_con this = destruct this
