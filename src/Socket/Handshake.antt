-- ===== src/Socket/Handshake.antt =====
-- src/jdwp_socket.cpp: what the constructor of `JdwpSocket::Impl` sends and demands.
use roastery.Prelude.{
  ℕ, ◌<◌, ◌≤◌, ◌≡◌, refl, sym, ap, ap₂, ◌∙◌, inl, inr, true, false, some, List, [], ◌∷◌, ◌++◌,
  length, take, drop, ◌==◌, ==_refl, ==→≡, if◌then◌else◌, All, Bool-cases, arith,
}
use roastery.Outcome.{ok, raised, jdwp_exception}
use roastery.Bytes.{Bytes}
use roastery.Action.{continue-eq-ok}
use roastery.Socket.{Platform, Answer, Socket, write, read}
use roastery.Socket.Connect.{Network, SockaddrIn6, connect}
use roastery.Socket.Constructor.{
  jdwp_handshake, same, check_reply, unconnected, connection, shake_hands, new_socket,
}
use roastery.Socket.Writes.{IsMoving, write-delivers}
use roastery.Socket.Keeps.{write-inbox}
use roastery.Socket.Reads.{read-TakesFront}
use roastery.Socket.Streams.{read-delivers}

same→≡ : (xs bs : Bytes) → same xs bs ≡ true → xs ≡ bs
unfolding same
same→≡ [] [] e = refl
same→≡ [] (b ∷ bs) e = cc
same→≡ (a ∷ xs) [] e = cc
same→≡ (a ∷ xs) (b ∷ bs) e = elim (Bool-cases (a == b)) [
  | inl h ↦ rw (==→≡ a b h, same→≡ xs bs (rw (h, same) at e)) refl
  | inr h ↦ let e' : false ≡ true = rw (h, same) at e in cc
]

pub same_refl : (bs : Bytes) → same bs bs ≡ true
unfolding same
same_refl [] = refl
same_refl (b ∷ bs) = rw (==_refl b, same) (same_refl bs)

-- The calls of the constructor on the connection when every `send` and `read` moves bytes and there
-- are enough of them.
shake_hands_lem :
    (p : Platform) (sends reads : List Answer) (s : Socket) {fd : ℕ}
    → 0 < p.bufsiz
    → s.sock_fd ≡ some fd
    → All IsMoving sends
    → All IsMoving reads
    → 14 ≤ length sends
    → 14 ≤ length reads
    → 14 ≤ length s.inbox
    → shake_hands p sends reads s
      ≡ check_reply
          (take 14 s.inbox)
          (record s { outbox = s.outbox ++ jdwp_handshake; inbox = drop 14 s.inbox })
unfolding shake_hands
shake_hands_lem p sends reads s room e hs hr ms mr mi =
    let sent = record s { outbox = s.outbox ++ jdwp_handshake } in
    rw
      (
        write-delivers p sends jdwp_handshake s e hs (omega arith) (omega arith),
        read-delivers p reads 14 sent room (omega arith) e hr (omega arith) (omega arith),
      )
      refl

-- The peer at the address that `Connect` has found sends at least 14 bytes, BUFSIZ is not 0, and
-- every `send` and `read` of the constructor moves bytes, with at least 14 answers for each: the
-- handshake is sent, and exactly 14 bytes of the stream are read. If they are "JDWP-Handshake" the
-- constructor returns an open socket, and the stream goes on behind them; if not it closes the
-- descriptor and throws `JdwpException` with "Bad handshake reply".
pub new_socket-handshake :
    (p : Platform) (network : Network) (address : Bytes) (port : ℕ) (sends reads : List Answer)
    {fd : ℕ} {addr : SockaddrIn6}
    → connect p network address port ≡ ok (fd, addr)
    → 0 < p.bufsiz
    → All IsMoving sends
    → All IsMoving reads
    → 14 ≤ length sends
    → 14 ≤ length reads
    → 14 ≤ length (network.peer addr)
    → let later : Socket = record {
      sock_fd = some fd;
      outbox = jdwp_handshake;
      inbox = drop 14 (network.peer addr);
      closed = [];
    } in
      (new_socket p network address port sends reads ≡ (
        if same (take 14 (network.peer addr)) jdwp_handshake
        then (ok tt, later)
        else (raised (jdwp_exception "Bad handshake reply"), record later { closed = fd ∷ [] })))
unfolding new_socket check_reply
new_socket-handshake p network address port sends reads {fd} {addr} e room hs hr ms mr mi =
    rw e (shake_hands_lem p sends reads (connection network (fd, addr)) room refl hs hr ms mr mi)

check_reply-ok :
    (reply : Bytes) (s : Socket) {later : Socket}
    → check_reply reply s ≡ (ok tt, later)
    → (reply ≡ jdwp_handshake) × (later ≡ s)
unfolding check_reply
check_reply-ok reply s e = elim (Bool-cases (same reply jdwp_handshake)) [
  | inl h ↦ (same→≡ reply jdwp_handshake h, sym (ap (λ r. r.1) (rw (h, check_reply) at e)))
  | inr h ↦ let e' = ap (λ r. r.0) (rw (h, check_reply) at e) in cc
]

shake_hands-ok :
    (p : Platform) (sends reads : List Answer) (s : Socket) {later : Socket}
    → shake_hands p sends reads s ≡ (ok tt, later)
    → jdwp_handshake ++ later.inbox ≡ s.inbox
unfolding shake_hands
shake_hands-ok p sends reads s e =
    let sent = write p sends jdwp_handshake s in
    let got = read p reads 14 sent.1 in
    let (_, _, e') = continue-eq-ok sent.0 _ sent.1 e in
    let (reply, returned, e'') = continue-eq-ok got.0 _ got.1 e' in
    let (same_reply, same_state) = check_reply-ok reply got.1 e'' in
    let (_, front) = read-TakesFront p reads 14 sent.1 (omega arith) reply returned in
    ap₂ (λ bs (st : Socket). bs ++ st.inbox) (sym same_reply) same_state
    ∙ front
    ∙ write-inbox p sends jdwp_handshake s

-- Over any answers of the system: if the constructor of a socket returns, then `Connect` has
-- returned, and the peer's stream is "JDWP-Handshake" followed by what the socket has still to read.
pub new_socket-ok :
    (p : Platform) (network : Network) (address : Bytes) (port : ℕ) (sends reads : List Answer)
    {later : Socket}
    → new_socket p network address port sends reads ≡ (ok tt, later)
    → (made : ℕ × SockaddrIn6) × (connect p network address port ≡ ok made)
      × (jdwp_handshake ++ later.inbox ≡ network.peer made.1)
unfolding new_socket
new_socket-ok p network address port sends reads e =
    let (made, connected, e') = continue-eq-ok (connect p network address port) _ unconnected e in
    (made, connected, shake_hands-ok p sends reads (connection network made) e')
