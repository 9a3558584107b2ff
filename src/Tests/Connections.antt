-- ===== src/Tests/Connections.antt =====
-- A connection whose threads take turns, over the socket of Tests/Sockets.antt.
use roastery.Prelude.{
  true, ℕ, ◌≡◌, refl, false, replicate, All-replicate, ◌≤◌, none, some, List, [], ◌∷◌, ◌++◌, All,
  length, ap, arith,
}
use roastery.Outcome.{ok, ok-injective}
use roastery.Bytes.{Bytes, big_endian, memory_of, value_of}
use roastery.HostOrder.{htonl}
use roastery.Numeric
use roastery.Fields.Valid.{IsClearTuple}
use roastery.Fields.{Tuple, serialize_tuple, serialize_field}
use roastery.EventClass.{kind_to_byte, get_kind, EventClass, JdwpEvent, event_fields}
use roastery.Command
use roastery.Command.{Command}
use roastery.Command.VirtualMachine
use roastery.Packet.{serialize_impl}
use roastery.Socket.{bytes, Answer, write}
use roastery.Socket.Writes.{IsMoving}
use roastery.Handler.{dispatch_events}
use roastery.Handler.Print.{label, print_event, print_handler}
use roastery.Connection.{Connection, Round, impl_con, take_next, write_next, send_message}
use roastery.Connection.Outgoing.{IJdwpCommandPacket, command_packet, serialize}
use roastery.Connection.Steps.{
  sends, takes, writes, receives, Run, step_send, step_take, step_write, ended, then_step,
  writer_tests, reader_tests, step_test_write,
}
use roastery.Connection.History.{IsShort, stream, IsOrdered}
use roastery.Connection.Order.{Run-IsOrdered}
use roastery.Connection.Drain.{drained, drain-Run}
use roastery.Connection.Incoming.{IsReady, with_inbox, receives-Run, AreReady}
use roastery.Connection.Packets.{Incoming, reply, composite, body, wire, IsIncoming}
use roastery.Event.Composite.{Encodes, event, no_events}
use roastery.Tests.Blank.{blank_tuple, blank_tuple-IsClear}
use roastery.Tests.Sockets.{linux, open_socket, fourteen, fourteen-IsMoving}

abbrev pub initial : (c : EventClass) → Tuple (event_fields c)
initial c = blank_tuple (event_fields c)

-- The peer sends a reply of two bytes, and then a packet with the end of the virtual machine.
abbrev pub vm_death : JdwpEvent
vm_death = record { class = EventClass.vm_death; fields = (7, tt) }

abbrev pub packets : List Incoming
packets =
    reply 5 0 (1 ∷ 2 ∷ []) ∷ composite 1 2 (vm_death ∷ []) (99 ∷ ((0 ∷ 0 ∷ 0 ∷ 7 ∷ []) ++ [])) ∷ []

abbrev pub start : Connection Bytes
start = record {
  socket = record open_socket { inbox = wire packets ++ (6 ∷ []) };
  should_cancel = false;
  outgoing_messages = [];
  next_packet = none;
  writer_in_loop = false;
  reader_in_loop = false;
  event_handlers = print_handler ∷ [];
  world = [];
}

abbrev pub version : IJdwpCommandPacket
version =
    command_packet (Command.virtual_machine VirtualMachine.version) (record { id = 4; fields = tt })

abbrev pub version_bytes : Bytes
version_bytes = 0 ∷ 0 ∷ 0 ∷ 11 ∷ 0 ∷ 0 ∷ 0 ∷ 4 ∷ 0 ∷ 1 ∷ 1 ∷ []

pub version_lem : serialize version impl_con ≡ ok version_bytes
unfolding serialize serialize_impl memory_of htonl Command.command_set Command.command value_of
    VirtualMachine.command
version_lem = refl

pub version-IsShort : All IsShort (version ∷ [])
version-IsShort = (λ text e. omega (arith, ap length (ok-injective (rw version_lem at e))), tt)

abbrev two_times : List Answer
two_times = replicate 22 (bytes 3)

two_times-IsMoving : All IsMoving two_times
two_times-IsMoving = All-replicate IsMoving 22 (bytes 3) (omega arith)

abbrev pub answers : List Answer
answers = bytes 4 ∷ bytes 40 ∷ []

pub version_written :
    write_next linux answers version
      (record start { writer_in_loop = true; next_packet = some version })
    ≡ (
      ok tt,
      record start {
        writer_in_loop = true;
        socket = record start.socket { outbox = (9 ∷ []) ++ version_bytes };
      },
    )
unfolding write_next write
version_written = rw version_lem refl

-- The packet is sent, taken from the queue and written.
version-Run :
    Run linux initial start
      (sends version ∷ writer_tests ∷ takes ∷ writes answers ∷ [])
      (record start { socket = record start.socket { outbox = (9 ∷ []) ++ version_bytes } })
unfolding send_message take_next
version-Run = then_step (step_send version) (
    then_step (step_test_write refl refl) (
      then_step (step_take refl refl refl)
        (then_step (step_write refl refl version_written) ended)))

Run-IsOrdered_example :
    IsOrdered
      (9 ∷ [])
      (version ∷ [])
      (record start { socket = record start.socket { outbox = (9 ∷ []) ++ version_bytes } })
Run-IsOrdered_example =
    Run-IsOrdered linux initial version-Run (tt, (tt, (tt, ((tt, (tt, tt)), tt)))) version-IsShort

-- Two packets wait.
abbrev queued : Connection Bytes
queued = record start { outgoing_messages = version ∷ version ∷ [] }

queued_bytes : stream (version ∷ version ∷ []) ≡ ok (version_bytes ++ version_bytes)
unfolding stream
queued_bytes = rw version_lem refl

drain-Run_example :
    Run linux initial queued
      (writer_tests
        ∷ takes
        ∷ writes two_times
        ∷ writer_tests
        ∷ takes
        ∷ writes (bytes 1 ∷ two_times)
        ∷ [])
      (drained (version_bytes ++ version_bytes) queued)
drain-Run_example =
    drain-Run linux initial (two_times ∷ (bytes 1 ∷ two_times) ∷ []) queued refl refl refl refl
      queued_bytes refl
      ((two_times-IsMoving, omega arith), (((omega arith, two_times-IsMoving), omega arith), tt))
      (omega arith)

abbrev pub round : Round
round = record { revents = some 1; errno = 0; header_reads = fourteen; body_reads = fourteen }

pub vm_death-Encodes : Encodes impl_con (vm_death ∷ []) (99 ∷ ((0 ∷ 0 ∷ 0 ∷ 7 ∷ []) ++ []))
unfolding kind_to_byte get_kind serialize_tuple serialize_field Numeric.serialize Numeric.write_back
    memory_of
vm_death-Encodes = event (omega arith, tt) refl no_events

pub packets-AreIncoming : All IsIncoming packets
unfolding big_endian memory_of
packets-AreIncoming = ((omega arith, tt), ((omega arith, (omega arith, vm_death-Encodes)), tt))

pub round-IsReady : (n : ℕ) → n ≤ 14 → IsReady linux round n
round-IsReady n h = (1, refl, refl, refl, fourteen-IsMoving, omega arith, fourteen-IsMoving, h)

pub packets-IsReady : All (λ packet. IsReady linux round (length (body packet))) packets
unfolding big_endian memory_of
packets-IsReady = (round-IsReady 2 (omega arith), (round-IsReady 10 (omega arith), tt))

-- Another errno than in `round`.
abbrev pub rounds : List Round
rounds = round ∷ record round { errno = 4 } ∷ []

pub rounds-AreReady : AreReady linux rounds packets
unfolding big_endian memory_of
rounds-AreReady = (round-IsReady 2 (omega arith), (round-IsReady 10 (omega arith), tt))

-- Zero is an ID of no bytes.
pub blank-IsClear : (c : EventClass) → IsClearTuple impl_con (event_fields c) (initial c)
blank-IsClear c = blank_tuple-IsClear impl_con (event_fields c)

receives-Run_example :
    Run linux initial start
      (reader_tests ∷ receives round ∷ reader_tests ∷ receives (record round { errno = 4 }) ∷ [])
      (record (with_inbox (6 ∷ []) start) { world = label ++ (99 ∷ 10 ∷ []) })
unfolding dispatch_events print_event
receives-Run_example =
    receives-Run linux initial rounds packets (6 ∷ []) start (omega arith) blank-IsClear refl refl
      refl packets-AreIncoming rounds-AreReady refl refl
