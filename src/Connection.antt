-- ===== src/Connection.antt =====
-- src/jdwp_con.cpp: `JdwpCon::Impl`, its state and what its two threads and its callers do to it.
-- The queue and the list of handlers have locks, so that each access is one step.
pub mod Outgoing
pub mod Constructor
pub mod Steps
pub mod Reading
pub mod History
pub mod Order
pub mod Drain
pub mod Packets
pub mod Incoming
pub mod Observing
pub mod Interleaving
pub mod Malformed
pub mod Failure
pub mod Shutdown
pub mod Underflow
pub mod Calls
pub mod Progress
pub mod Handling
pub mod Simulation
pub mod SplitAccesses
pub mod WholeRound
pub mod SplitWrites
pub mod SplitReads
pub mod Atomic
pub mod Delivery
pub mod Wrapper
use roastery.Prelude.{
  ℕ, ◌+◌, ◌-◌, ◌%◌, ◌^◌, Bool, true, false, Option, none, some, List, [], ◌∷◌, ◌++◌, if◌then◌else◌,
}
use roastery.Outcome.{Outcome, ok, undefined}
use roastery.Bytes.{Bytes}
use roastery.HostOrder.{read_ntohl}
use roastery.Con.{Con}
use roastery.Action.{Action, ◌>>=◌, ◌>>◌, lift}
use roastery.Fields.{Tuple}
use roastery.EventClass.{EventClass, event_fields}
use roastery.Event.{header_is_event, from_composite}
use roastery.Packet.{header_len}
use roastery.Socket
use roastery.Socket.{Platform, Answer, Socket, can_read, read, write}
use roastery.Handler.{Handler, dispatch_events}
use Outgoing.{IJdwpCommandPacket, serialize}

-- `next_packet` is the variable of the writing thread, with a packet that was taken from the queue
-- and is not yet written; `writer_in_loop` and `reader_in_loop` say that the thread has found
-- `should_cancel` false at the head of its loop and has not come back there; `world` is what the
-- handlers act on. `incoming_messages` is never used.
pub record Connection (W : Type 0) : Type 0 where
  pub socket : Socket
  pub should_cancel : Bool
  pub outgoing_messages : List IJdwpCommandPacket
  pub next_packet : Option IJdwpCommandPacket
  pub writer_in_loop : Bool
  pub reader_in_loop : Bool
  pub event_handlers : List (Handler W)
  pub world : W

-- The four `Get...SizeImpl`, which return 0.
abbrev pub impl_con : Con
impl_con = record {
  get_obj_id_size = 0;
  get_method_id_size = 0;
  get_field_id_size = 0;
  get_frame_id_size = 0;
}

-- What the calls of one round of the reading thread get: `poll` with errno, and the `read`s of the
-- two `Read`s.
pub record Round : Type 0 where
  pub revents : Option ℕ
  pub errno : ℕ
  pub header_reads : List Answer
  pub body_reads : List Answer

module _ {W : Type 0} where
  -- `RegisterEventHandlerImpl`.
  unfoldable pub register_event_handler : Handler W → Connection W → Connection W
  register_event_handler handler c = record c {
    event_handlers = c.event_handlers ++ (handler ∷ []);
  }

  -- `SendMessageImpl`.
  unfoldable pub send_message : IJdwpCommandPacket → Connection W → Connection W
  send_message message c = record c { outgoing_messages = c.outgoing_messages ++ (message ∷ []) }

  -- `this->should_cancel = true` of the destructor.
  unfoldable pub cancel : Connection W → Connection W
  cancel c = record c { should_cancel = true }

  -- `front` and `pop` of the queue, behind the test that it is not empty: an empty queue has no front.
  unfoldable pub take_next : List IJdwpCommandPacket → Action (Connection W) (Unit {0})
  take_next [] c = (undefined, c)
  take_next (message ∷ messages) c =
      (ok tt, record c { next_packet = some message; outgoing_messages = messages })

  -- A call of the connection's socket, or of its handlers.
  abbrev pub on_socket {ℓ} : {A : Type ℓ} → Action Socket A → Action (Connection W) A
  on_socket call c = let (r, socket) = call c.socket in (r, record c { socket = socket })

  abbrev pub on_world {ℓ} : {A : Type ℓ} → Action W A → Action (Connection W) A
  on_world call c = let (r, world) = call c.world in (r, record c { world = world })

  -- The end of the variable's scope.
  abbrev pub destroy_next : Action (Connection W) (Unit {0})
  destroy_next c = (ok tt, record c { next_packet = none })

  -- `this->socket->Write(next_packet->Serialize(*this))`, with the answers of the `send`s.
  unfoldable pub write_next :
      Platform → List Answer → IJdwpCommandPacket → Action (Connection W) (Unit {0})
  unfolding serialize write
  write_next p sends message = do
    text ← lift (serialize message impl_con)
    on_socket (write p sends text)
    destroy_next

  -- What the fields of new events hold is given by `initial`.
  module _ (p : Platform) (initial : (c : EventClass) → Tuple (event_fields c)) where
    -- What is done with a packet: the events of an event packet go to the handlers, and any other
    -- is forgotten.
    unfoldable pub handle_packet : Bytes → Bytes → Action (Connection W) (Unit {0})
    unfolding header_is_event from_composite dispatch_events
    handle_packet header packet = do
      is_event ← lift (header_is_event header)
      if is_event
          then (do
            events ← lift (from_composite initial impl_con packet)
            λ c. on_world (dispatch_events events c.event_handlers) c)
          else lift (ok tt)

    unfoldable pub read_packet : Round → Action (Connection W) (Unit {0})
    unfolding read read_ntohl handle_packet
    read_packet round = do
      header ← on_socket (read p round.header_reads header_len)
      total_len ← lift (read_ntohl 0 header)
      body ← on_socket (read p round.body_reads ((total_len + (2 ^ 32 - header_len)) % 2 ^ 32))
      handle_packet header (header ++ body)

    -- One round of `IncomingMessageQueueHandler`.
    unfoldable pub incoming_round : Round → Action (Connection W) (Unit {0})
    unfolding can_read read_packet
    incoming_round round = do
      more ← on_socket (can_read p round.revents round.errno)
      if more then read_packet round else lift (ok tt)
