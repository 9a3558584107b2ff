-- ===== src/Tests/Sessions.antt =====
-- A session of `main` with a peer that sends the packets of Tests/Connections.antt.
use roastery.Prelude.{◌≡◌, refl, sym, subst, List, [], ◌∷◌, ◌++◌, arith}
use roastery.Outcome.{ok}
use roastery.Bytes.{Bytes}
use roastery.EventClass.{kind_to_byte, get_kind}
use roastery.Socket.Connect.{Network, connect, connect_loop, htons}
use roastery.Socket.Constructor.{jdwp_handshake}
use roastery.Handler.{dispatch_events}
use roastery.Handler.Print.{label, print_event, print_handler}
use roastery.Connection.{Connection, register_event_handler, send_message}
use roastery.Connection.Packets.{wire}
use roastery.Connection.History.{IsOrdered}
use roastery.Connection.Incoming.{with_inbox, reader_rounds, receives-Run}
use roastery.Connection.Observing.{IsReading}
use roastery.Connection.Steps.{
  Label, Run, Run-append, registers, sends, step_register, step_send, ended, then_step,
}
use roastery.Program.{version_command, main_connection}
use roastery.Program.Version.{greeted, main_connection-greeted}
use roastery.Program.Session.{main-prints_events}
use roastery.Tests.Sockets.{linux, network, addr, fourteen, fourteen-IsMoving}
use roastery.Tests.Connections.{
  initial, packets, rounds, rounds-AreReady, packets-IsReady, blank-IsClear, packets-AreIncoming,
}

abbrev virtual_machine : Network
virtual_machine = record network { peer = λ addr. jdwp_handshake ++ (wire packets ++ (6 ∷ [])) }

greeted_lem :
    main_connection linux virtual_machine fourteen fourteen
    ≡ (ok tt, greeted 3 (wire packets ++ (6 ∷ [])))
unfolding connect connect_loop htons
greeted_lem =
    main_connection-greeted linux virtual_machine fourteen fourteen (wire packets ++ (6 ∷ []))
      {addr = record addr { sin6_port = htons 3262 }} refl (omega arith) fourteen-IsMoving
      fourteen-IsMoving (omega arith) (omega arith) refl

-- The two packets are read between the two calls of `main`.
abbrev steps : List (Label Bytes)
steps = registers print_handler ∷ (reader_rounds rounds ++ (sends (version_command 0) ∷ []))

abbrev last : Connection Bytes
last = record (with_inbox (6 ∷ []) (greeted 3 [])) {
  event_handlers = print_handler ∷ [];
  outgoing_messages = version_command 0 ∷ [];
  world = label ++ (99 ∷ 10 ∷ []);
}

steps-Run : Run linux initial (main_connection linux virtual_machine fourteen fourteen).1 steps last
unfolding register_event_handler send_message dispatch_events print_event
steps-Run =
    subst (λ q. Run linux initial q.1 steps last) (sym greeted_lem)
      (then_step (step_register print_handler) (
        Run-append linux initial
          (receives-Run linux initial rounds packets (6 ∷ [])
            (register_event_handler print_handler (greeted 3 (wire packets ++ (6 ∷ []))))
            (omega arith) blank-IsClear refl refl refl packets-AreIncoming rounds-AreReady refl
            refl)
          (then_step (step_send (version_command 0)) ended)))

main-prints_events_example :
    ((main_connection linux virtual_machine fourteen fourteen).0 ≡ ok tt)
    × (last.world ≡ label ++ (99 ∷ 10 ∷ []))
    × IsOrdered jdwp_handshake (version_command 0 ∷ []) last
    × IsReading [] (6 ∷ []) last
unfolding connect connect_loop htons kind_to_byte get_kind
main-prints_events_example =
    main-prints_events linux virtual_machine initial fourteen fourteen 0 packets (6 ∷ [])
      {addr = record addr { sin6_port = htons 3262 }} refl (omega arith) fourteen-IsMoving
      fourteen-IsMoving (omega arith) (omega arith) refl blank-IsClear packets-AreIncoming steps-Run
      refl (tt, (tt, (tt, (tt, (tt, (tt, tt))))))
      (tt, (tt, (packets-IsReady, (tt, (packets-IsReady, (tt, tt)))))) (omega arith)
