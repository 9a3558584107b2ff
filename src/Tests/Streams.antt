-- ===== src/Tests/Streams.antt =====
-- The reading thread over streams of packets, and the addresses of a host.
use roastery.Prelude.{◌≡◌, refl, List, [], ◌∷◌, ◌++◌, length, arith}
use roastery.Outcome.{ok, raised}
use roastery.Bytes.{Bytes, big_endian, memory_of}
use roastery.EventClass.{kind_of_byte}
use roastery.Event.{new_event}
use roastery.Event.Malformed.{illegal}
use roastery.Handler.{dispatch_events}
use roastery.Handler.Print.{label, print_event, print_handler}
use roastery.Connection.{Connection, send_message, incoming_round}
use roastery.Connection.Incoming.{with_inbox, receives-Run}
use roastery.Connection.Interleaving.{Run-observe}
use roastery.Connection.Malformed.{body_with, incoming_round-illegal}
use roastery.Connection.Observing.{observe, IsReading}
use roastery.Connection.Packets.{Incoming, header_of}
use roastery.Connection.Steps.{Label, sends, reader_tests, receives, Run, step_send, then_step}
use roastery.Socket.Connect.{SockaddrIn6, htons, connect}
use roastery.Socket.Addresses.{connect-next}
use roastery.Tests.Sockets.{linux, network, addr}
use roastery.Tests.Connections.{
  initial, start, version, packets, round, round-IsReady, blank-IsClear, packets-AreIncoming,
  packets-IsReady, rounds, rounds-AreReady, vm_death, vm_death-Encodes,
}

-- A command is queued before the two packets come.
abbrev labels : List (Label Bytes)
labels =
    sends version
    ∷ reader_tests
    ∷ receives round
    ∷ reader_tests
    ∷ receives (record round { errno = 4 })
    ∷ []

abbrev read_and_queued : Connection Bytes
read_and_queued = record (with_inbox (6 ∷ []) start) {
  outgoing_messages = version ∷ [];
  world = label ++ (99 ∷ 10 ∷ []);
}

labels-Run : Run linux initial start labels read_and_queued
unfolding send_message dispatch_events print_event
labels-Run = then_step (step_send version) (
    receives-Run linux initial rounds packets (6 ∷ []) (send_message version start) (omega arith)
      blank-IsClear refl refl refl packets-AreIncoming rounds-AreReady refl refl)

Run-observe_example :
    (left : List Incoming) × (observe labels packets (print_handler ∷ []) []
      ≡ (ok left, label ++ (99 ∷ 10 ∷ [])))
    × IsReading left (6 ∷ []) read_and_queued
Run-observe_example =
    Run-observe linux initial packets (6 ∷ []) labels-Run (omega arith) blank-IsClear
      (tt, (tt, (packets-IsReady, (tt, (packets-IsReady, tt))))) (omega arith) packets-AreIncoming
      ((3, refl), refl)

-- Two events are announced, and the kind of the second is kUserDefined.
abbrev malformed : Bytes
malformed = body_with 1 2 (99 ∷ ((0 ∷ 0 ∷ 0 ∷ 7 ∷ []) ++ [])) 5 []

abbrev misled : Connection Bytes
misled = record start {
  socket = record start.socket {
    inbox = header_of (length malformed) 8 0 64 100 ++ (malformed ++ (6 ∷ []));
  };
}

user_defined-illegal : new_event (kind_of_byte 5) ≡ raised illegal
unfolding new_event kind_of_byte
user_defined-illegal = refl

incoming_round-illegal_example :
    incoming_round linux initial round misled ≡ (raised illegal, with_inbox (6 ∷ []) misled)
unfolding big_endian memory_of
incoming_round-illegal_example =
    incoming_round-illegal linux initial round 8 1 2 5 (vm_death ∷ [])
      (99 ∷ ((0 ∷ 0 ∷ 0 ∷ 7 ∷ []) ++ [])) [] (6 ∷ []) misled (omega arith) blank-IsClear
      (round-IsReady 11 (omega arith)) (omega arith) (omega arith) vm_death-Encodes (omega arith)
      user_defined-illegal refl refl

abbrev first_addr : SockaddrIn6
first_addr = record { sin6_port = 0; sin6_addr = 2 }

-- The first address refuses, and the second accepts.
connect-next_example :
    connect linux network [] 3262 ≡ ok (3, record addr { sin6_port = htons 3262 })
connect-next_example =
    connect-next linux network [] 3262 3 (first_addr ∷ []) (addr ∷ []) (111 ∷ []) [] refl refl refl
      refl
