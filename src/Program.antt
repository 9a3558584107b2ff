-- ===== src/Program.antt =====
-- src/roast.cpp: `main`, a connection with a handler that prints the kinds of events, and one
-- command.
pub mod Version
pub mod Session
use roastery.Prelude.{ℕ, List, [], ◌∷◌}
use roastery.Outcome.{Outcome}
use roastery.Bytes.{Bytes}
use roastery.Command.{Command}
use roastery.Command.VirtualMachine
use roastery.Packet.{CommandPacket, new_packet}
use roastery.Socket.{Platform, Answer}
use roastery.Socket.Connect.{Network}
use roastery.Handler.Print.{print_handler}
use roastery.Connection.{Connection}
use roastery.Connection.Outgoing.{IJdwpCommandPacket, command_packet}
use roastery.Connection.Constructor.{new_connection}
use roastery.Connection.Steps.{Label, registers, sends}

-- The characters of "127.0.0.1".
abbrev pub address : Bytes
address = b'1' ∷ b'2' ∷ b'7' ∷ b'.' ∷ b'0' ∷ b'.' ∷ b'0' ∷ b'.' ∷ b'1' ∷ []

-- `std::make_unique<VersionCommand>()`, when the next ID is `next_id`.
abbrev pub version_command : ℕ → IJdwpCommandPacket
version_command next_id =
    let (packet, _) = new_packet (Command.virtual_machine VirtualMachine.version) tt next_id in
    command_packet (Command.virtual_machine VirtualMachine.version) packet

-- What `main` calls on its connection, in this order, until it waits for the key; the threads of the
-- connection are running by then.
abbrev pub main_calls : ℕ → List (Label Bytes)
main_calls next_id = registers print_handler ∷ sends (version_command next_id) ∷ []

-- Its handlers act on `std::cout`; what `main` itself prints is left out.
-- The connection of `main`.
abbrev pub main_connection :
    Platform → Network → List Answer → List Answer → Outcome (Unit {0}) × Connection Bytes
main_connection p network answers reads = new_connection [] p network address 3262 answers reads
