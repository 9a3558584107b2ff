-- ===== src/Socket/Constructor.antt =====
-- src/jdwp_socket.cpp: the constructor of `JdwpSocket::Impl` with the JDWP handshake.
use roastery.Prelude.{
  ℕ, Bool, true, false, ◌&&◌, none, some, List, [], ◌∷◌, ◌++◌, length, ◌==◌, if◌then◌else◌,
}
use roastery.Outcome.{Outcome, ok, raised, jdwp_exception}
use roastery.Bytes.{Bytes}
use roastery.Action.{Action, ◌>>=◌, ◌>>◌, continue}
use roastery.Socket.{Platform, Answer, Socket, descriptor, write, read}
use roastery.Socket.Connect.{Network, SockaddrIn6, connect}

-- `kJdwpHandshake`: the characters of "JDWP-Handshake".
abbrev pub jdwp_handshake : Bytes
jdwp_handshake =
    b'J' ∷ b'D' ∷ b'W' ∷ b'P' ∷ b'-' ∷ b'H' ∷ b'a' ∷ b'n' ∷ b'd' ∷ b's' ∷ b'h' ∷ b'a' ∷ b'k' ∷ b'e'
    ∷ []

-- The characters of "localhost".
abbrev pub localhost : Bytes
localhost = b'l' ∷ b'o' ∷ b'c' ∷ b'a' ∷ b'l' ∷ b'h' ∷ b'o' ∷ b's' ∷ b't' ∷ []

-- `==` of two strings.
unfoldable pub same : Bytes → Bytes → Bool
same [] [] = true
same (a ∷ xs) (b ∷ bs) = (a == b) && same xs bs
same _ _ = false

-- Where the reply is another, the descriptor is closed: `sock_fd` keeps it, but no object is made.
unfoldable pub check_reply : Bytes → Action Socket (Unit {0})
unfolding same
check_reply reply s = if same reply jdwp_handshake then (ok tt, s) else (
  raised (jdwp_exception "Bad handshake reply"),
  record s { closed = s.closed ++ descriptor s.sock_fd },
)

-- Before there is a connection.
abbrev pub unconnected : Socket
unconnected = record { sock_fd = none; outbox = []; inbox = []; closed = [] }

abbrev pub connection : Network → ℕ × SockaddrIn6 → Socket
connection network (sock_fd, addr) = record {
  sock_fd = some sock_fd;
  outbox = [];
  inbox = network.peer addr;
  closed = [];
}

-- The body of the constructor, with the answers of its `send`s and of its `read`s.
unfoldable pub shake_hands : Platform → List Answer → List Answer → Action Socket (Unit {0})
unfolding check_reply
shake_hands p sends reads = do
  write p sends jdwp_handshake
  reply ← read p reads (length jdwp_handshake)
  check_reply reply

-- `Impl(address, port)`.
unfoldable pub new_socket :
    Platform → Network → Bytes → ℕ → List Answer → List Answer → Outcome (Unit {0}) × Socket
unfolding connect shake_hands
new_socket p network address port sends reads =
    continue (connect p network address port)
      (λ made s. shake_hands p sends reads (connection network made)) unconnected

-- `Impl(port)`.
unfoldable pub new_local_socket :
    Platform → Network → ℕ → List Answer → List Answer → Outcome (Unit {0}) × Socket
unfolding new_socket
new_local_socket p network port sends reads = new_socket p network localhost port sends reads
