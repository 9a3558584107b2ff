-- ===== src/Program/Version.antt =====
-- src/roast.cpp: what `main` sends.
use roastery.Prelude.{
  append-nil, ℕ, ◌<◌, ◌≤◌, ◌≡◌, refl, sym, ap, ◌∙◌, some, List, [], ◌∷◌, ◌++◌, length, All, arith,
}
use roastery.Outcome.{ok, ok-injective}
use roastery.Bytes.{Bytes}
use roastery.HostOrder.Laws.{memory_of-htonl}
use roastery.Command
use roastery.Command.{Command}
use roastery.Command.VirtualMachine
use roastery.Packet.{new_packet, serialize_impl}
use roastery.Packet.Framing.{header_bytes, length-header_bytes}
use roastery.Socket.{Platform, Answer}
use roastery.Socket.Connect.{Network, SockaddrIn6, connect}
use roastery.Socket.Writes.{IsMoving}
use roastery.Socket.Constructor.{jdwp_handshake, same}
use roastery.Socket.Handshake.{new_socket-handshake}
use roastery.Connection.{Connection}
use roastery.Connection.Outgoing.{serialize}
use roastery.Connection.Constructor.{new_connection, new_members}
use roastery.Connection.History.{stream, IsShort}
use roastery.Program.{address, version_command, main_connection}

pub stream-version :
    (next_id : ℕ) → stream (version_command next_id ∷ []) ≡ ok (header_bytes 1 1 0 next_id)
unfolding stream serialize serialize_impl new_packet Command.command_set Command.command
    VirtualMachine.command
stream-version next_id =
    rw (memory_of-htonl 11, memory_of-htonl next_id)
      (ap ok
        (append-nil (header_bytes 1 1 0 next_id ++ []) ∙ append-nil (header_bytes 1 1 0 next_id)))

-- The connection of `main` when the peer shakes hands.
abbrev pub greeted : ℕ → Bytes → Connection Bytes
greeted fd rest =
    new_members []
      (record { sock_fd = some fd; outbox = jdwp_handshake; inbox = rest; closed = [] })

pub main_connection-greeted :
    (p : Platform) (network : Network) (answers reads : List Answer) (rest : Bytes) {fd : ℕ}
    {addr : SockaddrIn6}
    → connect p network address 3262 ≡ ok (fd, addr)
    → 0 < p.bufsiz
    → All IsMoving answers
    → All IsMoving reads
    → 14 ≤ length answers
    → 14 ≤ length reads
    → network.peer addr ≡ jdwp_handshake ++ rest
    → main_connection p network answers reads ≡ (ok tt, greeted fd rest)
unfolding new_connection
main_connection-greeted p network answers reads rest e room ha hr ma mr greets =
    let size = ap length greets in
    ap (λ r. (r.0, new_members [] r.1))
      (new_socket-handshake p network address 3262 answers reads e room ha hr ma mr
          (omega (arith, size))
        ∙ rw (greets, same) refl)

-- Its packet has eleven bytes.
pub version-IsShort : (next_id : ℕ) → All IsShort (version_command next_id ∷ [])
unfolding stream
version-IsShort next_id = (
  λ text e. omega (
    arith,
    length-header_bytes 1 1 0 next_id,
    ap length (sym (append-nil text) ∙ ok-injective (rw e at (stream-version next_id))),
  ),
  tt,
)
