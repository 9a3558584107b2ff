-- ===== src/Socket/Addresses.antt =====
-- src/jdwp_socket.cpp: which of the addresses that `getaddrinfo` gives `Connect` connects to.
use roastery.Prelude.{
  ℕ, ◌≡◌, refl, ap, ◌∙◌, Option, none, some, List, [], ◌∷◌, ◌++◌, append-nil, map, length, arith,
}
use roastery.Outcome.{Outcome, ok, raised, system_error, ◌>>=◌}
use roastery.Bytes.{Bytes}
use roastery.Socket.{Platform}
use roastery.Socket.Connect.{SockaddrIn6, Network, created, resolved, htons, connect_loop, connect}

-- The errno of the last of some failures, or the one before them.
abbrev pub last_errno : ℕ → List ℕ → ℕ
last_errno errno [] = errno
last_errno errno (e ∷ errnos) = last_errno e errnos

connect_loop-accepted :
    (port : ℕ) (refused others : List SockaddrIn6) (addr : SockaddrIn6) (errnos : List ℕ)
    (more : List (Option ℕ)) (errno : ℕ)
    → length errnos ≡ length refused
    → connect_loop port (refused ++ (addr ∷ others)) (map some errnos ++ (none ∷ more)) errno
      ≡ ok (record addr { sin6_port = port })
unfolding connect_loop
connect_loop-accepted port [] others addr [] more errno e = refl
connect_loop-accepted port (curr ∷ refused) others addr (last ∷ errnos) more errno e =
    connect_loop-accepted port refused others addr errnos more last (omega (arith, e))
connect_loop-accepted port [] others addr (last ∷ errnos) more errno e = absurd (omega (arith, e))
connect_loop-accepted port (curr ∷ refused) others addr [] more errno e = absurd (omega (arith, e))

connect_loop-refused :
    (port : ℕ) (refused : List SockaddrIn6) (errnos : List ℕ) (more : List (Option ℕ)) (errno : ℕ)
    → length errnos ≡ length refused
    → connect_loop port refused (map some errnos ++ more) errno
      ≡ raised (system_error (last_errno errno errnos))
unfolding connect_loop
connect_loop-refused port [] [] more errno e = refl
connect_loop-refused port (curr ∷ refused) (last ∷ errnos) more errno e =
    connect_loop-refused port refused errnos more last (omega (arith, e))
connect_loop-refused port [] (last ∷ errnos) more errno e = absurd (omega (arith, e))
connect_loop-refused port (curr ∷ refused) [] more errno e = absurd (omega (arith, e))

-- What `Connect` comes to behind some refusals, when the next address, if there is one, accepts.
abbrev pub reached : ℕ → ℕ → Outcome SockaddrIn6 → Outcome (ℕ × SockaddrIn6)
reached sock_fd port_host next = do
  curr ← next
  ok (sock_fd, record curr { sin6_port = htons port_host })

abbrev pub next_of : ℕ → List SockaddrIn6 → Outcome SockaddrIn6
next_of errno [] = raised (system_error errno)
next_of errno (addr ∷ others) = ok addr

next_again :
    (sock_fd port_host errno : ℕ) (next : List SockaddrIn6)
    → ((do curr ← next_of errno next; ok (record curr { sin6_port = htons port_host })) >>= λ curr.
        ok (sock_fd, curr))
      ≡ reached sock_fd port_host (next_of errno next)
next_again sock_fd port_host errno [] = refl
next_again sock_fd port_host errno (addr ∷ others) = refl

connect_loop-next :
    (port : ℕ) (refused next : List SockaddrIn6) (errnos : List ℕ) (more : List (Option ℕ))
    (errno : ℕ)
    → length errnos ≡ length refused
    → connect_loop port (refused ++ next) (map some errnos ++ (none ∷ more)) errno
      ≡ (do curr ← next_of (last_errno errno errnos) next; ok (record curr { sin6_port = port }))
connect_loop-next port refused [] errnos more errno e =
    ap (λ r. connect_loop port r (map some errnos ++ (none ∷ more)) errno) (append-nil refused)
    ∙ connect_loop-refused port refused errnos (none ∷ more) errno e
connect_loop-next port refused (addr ∷ others) errnos more errno e =
    connect_loop-accepted port refused others addr errnos more errno e

-- If `socket` returns a descriptor, `getaddrinfo` a list of addresses, and `connect` refuses the first
-- ones of these, each with an errno, and accepts the next one, then `Connect` returns the descriptor,
-- connected to that address with the port in network byte order in it, whatever addresses follow;
-- and if all addresses are refused, it throws `system_error` with the errno of the last of them, or, if
-- there are none, with the errno that was set before.
pub connect-next :
    (p : Platform) (network : Network) (address : Bytes) (port_host sock_fd : ℕ)
    (refused next : List SockaddrIn6) (errnos : List ℕ) (more : List (Option ℕ))
    → network.socket ≡ created sock_fd
    → network.getaddrinfo address ≡ resolved (refused ++ next)
    → network.connects ≡ map some errnos ++ (none ∷ more)
    → length errnos ≡ length refused
    → connect p network address port_host
      ≡ reached sock_fd port_host (next_of (last_errno network.errno errnos) next)
unfolding connect
connect-next p network address port_host sock_fd refused next errnos more made found answers size =
    rw
      (
        made,
        found,
        answers,
        connect_loop-next (htons port_host) refused next errnos more network.errno size,
      )
      (next_again sock_fd port_host (last_errno network.errno errnos) next)
