-- ===== src/Tests/Interleavings.antt =====
-- A connection whose threads are within their calls at the same time.
use roastery.Prelude.{◌≡◌, refl, true, Option, some, none, List, [], ◌∷◌, ◌++◌, drop}
use roastery.Bytes.{Bytes, big_endian, memory_of, value_of, read_range, char_at}
use roastery.HostOrder.{read_ntohl}
use roastery.Event.{header_is_event}
use roastery.Socket.{bytes, can_read}
use roastery.Socket.Iterations.{send_once, read_once}
use roastery.Connection.{Connection, handle_packet, send_message, take_next, cancel}
use roastery.Connection.Steps.{
  Label, sends, takes, cancels, Run, messages, step_send, step_take, step_cancel, writes,
  writer_tests, reader_tests, step_test_write, step_test_read,
}
use roastery.Connection.Calls.{
  not_writing, not_reading, threads, Calls, accesses, begins_write, calls_send, ends_write,
  begins_round, calls_read_header, ends_header, calls_read_body, ends_round, no_calls, then_call,
}
use roastery.Connection.Atomic.{Calls-Run}
use roastery.Connection.Delivery.{Calls-IsOrdered}
use roastery.Connection.History.{IsOrdered}
use roastery.Tests.Sockets.{linux}
use roastery.Tests.Connections.{
  initial, start, version, version_bytes, version_lem, version-IsShort,
}

-- The command was written and the reply of 13 bytes was read; the rest of the stream is left.
abbrev both_done : Connection Bytes
both_done = record start {
  should_cancel = true;
  socket = record start.socket {
    outbox = (9 ∷ []) ++ version_bytes;
    inbox = drop 13 start.socket.inbox;
  };
}

abbrev calls_made : List (Option (Label Bytes))
calls_made =
    some (sends version)
    ∷ some writer_tests
    ∷ some takes
    ∷ none
    ∷ some reader_tests
    ∷ none
    ∷ some (writes (bytes 4 ∷ []))
    ∷ none
    ∷ some cancels
    ∷ none
    ∷ none
    ∷ some (writes (bytes 40 ∷ []))
    ∷ none
    ∷ none
    ∷ none
    ∷ []

-- The connection is cancelled while a `Write` and a round are under way.
start-Calls :
    Calls linux initial calls_made
      (threads start not_writing not_reading)
      (threads both_done not_writing not_reading)
unfolding send_message take_next cancel can_read send_once read_once read_ntohl handle_packet
    header_is_event char_at big_endian memory_of value_of read_range
start-Calls = then_call (accesses tt (step_send version)) (
    then_call (accesses tt (step_test_write refl refl)) (
      then_call (accesses tt (step_take refl refl refl)) (
        then_call (begins_write version refl refl refl version_lem) (
          then_call (accesses tt (step_test_read refl refl)) (
            then_call (begins_round (some 1) 0 refl refl) (
              then_call (calls_send (bytes 4) refl refl) (
                then_call (calls_read_header (bytes 7) refl refl) (
                  then_call (accesses tt step_cancel) (
                    then_call (calls_read_header (bytes 14) refl refl) (
                      then_call (ends_header refl refl) (
                        then_call (calls_send (bytes 40) refl refl) (
                          then_call (ends_write refl) (
                            then_call (calls_read_body (bytes 14) refl refl)
                              (then_call (ends_round refl refl) no_calls))))))))))))))

Calls-Run_example :
    (ls : List (Label Bytes)) × Run linux initial start ls both_done × (messages ls ≡ version ∷ [])
Calls-Run_example = Calls-Run linux initial start both_done refl start-Calls

Calls-IsOrdered_example : IsOrdered (9 ∷ []) (version ∷ []) both_done
Calls-IsOrdered_example =
    Calls-IsOrdered linux initial start both_done refl start-Calls
      (
        tt,
        (
          tt,
          (
            tt,
            (tt, (tt, (tt, ((tt, tt), (tt, (tt, (tt, (tt, ((tt, tt), (tt, (tt, (tt, tt)))))))))))),
          ),
        ),
      )
      version-IsShort
