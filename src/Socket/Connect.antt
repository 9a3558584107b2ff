-- ===== src/Socket/Connect.antt =====
-- src/jdwp_socket.cpp: `Connect`. The operating system's calls are given by their results.
use roastery.Prelude.{ℕ, Option, none, some, List, [], ◌∷◌, ◌==◌, if◌then◌else◌, reverse}
use roastery.Outcome.{Outcome, ok, raised, out_of_fuel, system_error, ◌>>=◌}
use roastery.Bytes.{Bytes, value_of, memory_of}
use roastery.Socket.{Platform}

-- `struct sockaddr_in6`: the port in network byte order, and the part that the code does not touch.
pub record SockaddrIn6 : Type 0 where
  pub sin6_port : ℕ
  pub sin6_addr : ℕ

-- A descriptor, or -1 with an errno.
pub data Created : Type 0 where
  created : ℕ → Created
  not_created : ℕ → Created

-- The list of addresses, or a code (as the bits of an int) with what errno holds.
pub data Resolved : Type 0 where
  resolved : List SockaddrIn6 → Resolved
  not_resolved : ℕ → ℕ → Resolved

-- The results of `socket` and `getaddrinfo`; those of the calls of `connect`, with the errno where
-- it is -1; the errno before them; and the stream that the peer at an address sends.
pub record Network : Type 0 where
  pub socket : Created
  pub getaddrinfo : Bytes → Resolved
  pub connects : List (Option ℕ)
  pub errno : ℕ
  pub peer : SockaddrIn6 → Bytes

-- `htons` of arpa/inet.h on a little-endian host, as `htonl`.
unfoldable pub htons : ℕ → ℕ
htons host = value_of (reverse (memory_of 2 host))

-- The loop over the addresses: it ends at the first that is connected to, and else `errno` is that
-- of the last.
unfoldable pub connect_loop : ℕ → List SockaddrIn6 → List (Option ℕ) → ℕ → Outcome SockaddrIn6
connect_loop port [] connects errno = raised (system_error errno)
connect_loop port (curr ∷ res) [] errno = out_of_fuel
connect_loop port (curr ∷ res) (none ∷ connects) errno = ok (record curr { sin6_port = port })
connect_loop port (curr ∷ res) (some e ∷ connects) errno = connect_loop port res connects e

-- `Connect`: the descriptor, and the address that it is connected to.
unfoldable pub connect : Platform → Network → Bytes → ℕ → Outcome (ℕ × SockaddrIn6)
unfolding htons connect_loop
connect p network address port_host =
    let port = htons port_host in
    elim network.socket [
      | not_created errno ↦ raised (system_error errno)
      | created sock_fd ↦ elim (network.getaddrinfo address) [
        | not_resolved gai_err errno ↦
            raised (system_error (if gai_err == p.eai_system then errno else gai_err))
        | resolved res ↦ do
          curr ← connect_loop port res network.connects network.errno
          ok (sock_fd, curr)
      ]
    ]
