-- ===== src/Tests/Lifecycles.antt =====
-- Connections that break, end or are moved, over the packets of Tests/Connections.antt.
use roastery.Prelude.{
  false, ℕ, ◌+◌, ◌≡◌, refl, true, some, none, List, [], ◌∷◌, ◌++◌, replicate, arith,
}
use roastery.Outcome.{ok, raised, undefined}
use roastery.Bytes.{Bytes, value_of, read_range, memory_of}
use roastery.Action.{Action}
use roastery.HostOrder.{read_ntohl}
use roastery.Socket.{write, Answer, bytes, failed, connection_closed}
use roastery.Fields.{numeric}
use roastery.Numeric.{bool}
use roastery.Handles.{Handles, pointer, move_construct, on_impl}
use roastery.Handles.Moved.{on_impl-move_construct}
use roastery.Connection.{Connection, impl_con, send_message, take_next, write_next, incoming_round}
use roastery.Connection.Outgoing.{IJdwpCommandPacket, serialize}
use roastery.Connection.Steps.{
  Label, sends, writer_tests, takes, writes, Run, step_test_write, step_send, step_take, step_write,
  ended, then_step,
}
use roastery.Connection.History.{stream}
use roastery.Connection.Failure.{Sends, text_of, Run-write_next}
use roastery.Connection.Shutdown.{IsFinishing, Run-IsFinishing}
use roastery.Connection.Underflow.{at_end, incoming_round_underflow}
use roastery.Command.RespFields.{single, repeated_tuple, repeated_tuple-replicate}
use roastery.Tests.Sockets.{linux, open_socket}
use roastery.Tests.Connections.{
  initial, start, version, version_bytes, answers, version_lem, round, round-IsReady,
  version-IsShort,
}

-- The peer closes the stream within the packet.
abbrev broken : List Answer
broken = bytes 4 ∷ failed 32 ∷ []

abbrev held : Connection Bytes
held = record start { writer_in_loop = true; next_packet = some version }

held-Run : Run linux initial start (sends version ∷ writer_tests ∷ takes ∷ []) held
unfolding send_message take_next
held-Run =
    then_step (step_send version)
      (then_step (step_test_write refl refl) (then_step (step_take refl refl refl) ended))

Run-write_next_example :
    (delivered : List IJdwpCommandPacket) × (text : Bytes) × (k : ℕ) × (version ∷ []
      ≡ delivered ++ (version ∷ []))
    × (stream delivered ≡ ok text)
    × Sends
        ((9 ∷ []) ++ text)
        (text_of (serialize version impl_con))
        k
        (write_next linux broken version held)
Run-write_next_example =
    Run-write_next linux initial broken version held-Run (tt, (tt, (tt, tt))) version-IsShort refl
      (tt, (refl, tt))

-- Two packets are queued when the connection is cancelled, and the writing thread is in its loop.
abbrev cancelled : Connection Bytes
cancelled = record start {
  should_cancel = true;
  writer_in_loop = true;
  outgoing_messages = version ∷ version ∷ [];
}

abbrev last_written : Connection Bytes
last_written = record cancelled {
  writer_in_loop = false;
  outgoing_messages = version ∷ version ∷ [];
  socket = record start.socket { outbox = (9 ∷ []) ++ version_bytes };
}

cancelled_written :
    write_next linux answers version
      (record cancelled { next_packet = some version; outgoing_messages = version ∷ [] })
    ≡ (ok tt, record last_written { writer_in_loop = true; outgoing_messages = version ∷ [] })
unfolding write_next write
cancelled_written = rw version_lem refl

abbrev last_steps : List (Label Bytes)
last_steps = takes ∷ writes answers ∷ sends version ∷ []

cancelled-Run : Run linux initial cancelled last_steps last_written
unfolding send_message take_next
cancelled-Run =
    then_step (step_take refl refl refl)
      (then_step (step_write refl refl cancelled_written) (then_step (step_send version) ended))

Run-IsFinishing_example : IsFinishing cancelled last_steps last_written
Run-IsFinishing_example = Run-IsFinishing linux initial cancelled-Run refl

-- A header that gives 5 as the length of the packet, and three bytes behind it.
abbrev short_header : Bytes
short_header = 0 ∷ 0 ∷ 0 ∷ 5 ∷ 0 ∷ 0 ∷ 0 ∷ 7 ∷ 128 ∷ 0 ∷ 0 ∷ []

abbrev underflowing : Connection Bytes
underflowing = record start {
  socket = record open_socket { inbox = short_header ++ (1 ∷ 2 ∷ 3 ∷ []) };
}

incoming_round_underflow_example :
    incoming_round linux initial round underflowing
    ≡ (raised connection_closed, at_end underflowing)
unfolding read_ntohl value_of read_range memory_of
incoming_round_underflow_example =
    incoming_round_underflow linux initial round short_header (1 ∷ 2 ∷ 3 ∷ []) 5 underflowing
      (omega arith) (round-IsReady 4 (omega arith)) refl refl refl refl (omega arith) (omega arith)

-- Numbers stand for `Impl`s: an object of 10 and one of 20, and a null one.
abbrev handles : Handles ℕ
handles = record { pointers = some 10 ∷ some 20 ∷ none ∷ []; destroyed = [] }

abbrev increment : Action ℕ (Unit {0})
increment n = (ok tt, n + 1)

abbrev moved : Handles ℕ
moved = record { pointers = some 10 ∷ none ∷ none ∷ some 20 ∷ []; destroyed = [] }

on_impl-move_construct_example :
    (on_impl 1 increment moved ≡ (undefined, moved))
    × ((on_impl 3 increment moved).0 ≡ ok tt)
    × (pointer (on_impl 3 increment moved).1.pointers 3 ≡ some 21)
unfolding pointer move_construct
on_impl-move_construct_example = on_impl-move_construct increment 1 handles {impl = 20} refl

repeated_tuple-replicate_example :
    repeated_tuple (single (numeric bool)) 32 ≡ replicate 33 (single (numeric bool))
repeated_tuple-replicate_example = repeated_tuple-replicate (single (numeric bool)) 32
