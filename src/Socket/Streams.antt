-- ===== src/Socket/Streams.antt =====
-- src/jdwp_socket.cpp: `Read` over a stream that the kernel hands out in pieces of any sizes.
use Prim.Native.Nat.{min}
use roastery.Prelude.{
  take_front, drop_front, length-append, ℕ, ◌+◌, ◌-◌, ◌%◌, ◌^◌, ◌<◌, ◌≤◌, ◌≡◌, refl, sym, ap, ap₂,
  ◌∙◌, inl, inr, Option, some, List, [], ◌∷◌, ◌++◌, length, take, drop, ltb, Bool-cases, ltb→lt,
  ltb_false→le, All, append_assoc, append-nil, drop_next, take_next, take-length-take,
  length-take_positive, length-drop, length-take_le, List-cases, min_positive, arith,
}
use roastery.Outcome.{ok, raised, logic_error}
use roastery.Bytes.{Bytes}
use roastery.Socket.{
  Platform, Answer, bytes, failed, Socket, descriptor, write, can_read, receive, read_loop, read,
  close, connection_closed, connected_open,
}
use roastery.Socket.Writes.{IsMoving}
use roastery.Socket.Reads.{read_loop-bytes, read_loop-end, read_loop-done, length-receive}

module _ (p : Platform) (room : 0 < p.bufsiz) where
  -- A `read` that moves bytes gets some, if the stream has any.
  length-receive_positive :
      (n wanted : ℕ) (s : Socket)
      → 0 < n
      → 0 < wanted
      → 0 < length s.inbox
      → 0 < length (receive p n wanted s)
  length-receive_positive n wanted s hn hw hs =
      length-take_positive (min n (min p.bufsiz wanted)) s.inbox
        (min_positive n (min p.bufsiz wanted) hn (min_positive p.bufsiz wanted room hw)) hs

  receive-take :
      (n wanted : ℕ) (s : Socket) (got : Bytes)
      → receive p n wanted s ≡ got
      → got ≡ take (length got) s.inbox
  receive-take n wanted s got e =
      rw⁻¹ e (sym (take-length-take (min n (min p.bufsiz wanted)) s.inbox))

  length-receive_stream :
      (n wanted : ℕ) (s : Socket) → length (receive p n wanted s) ≤ length s.inbox
  length-receive_stream n wanted s = (length-take_le (min n (min p.bufsiz wanted)) s.inbox).1

  module _ (len : ℕ) (small : len < 2 ^ 64) where
    read_loop_rest :
        (answers : List Answer) (r : ℕ) (out : Bytes) (s : Socket)
        → All IsMoving answers
        → r ≤ len
        → len ≤ r + length s.inbox
        → len ≤ r + length answers
        → read_loop p answers len r out s
          ≡ (ok (out ++ take (len - r) s.inbox), record s { inbox = drop (len - r) s.inbox })
    read_loop_rest [] r out s moving le stream enough =
        let none_left : len - r ≡ 0 = omega arith in
        rw (read_loop-done p [] len r out s (omega arith), none_left, append-nil out) refl
    read_loop_rest (failed errno ∷ answers) r out s moving le stream enough = absurd moving.0
    read_loop_rest (bytes n ∷ answers) r out s moving le stream enough =
        elim (Bool-cases (ltb r len)) [
          | inr done ↦
              let last = ltb_false→le r len done in
              let none_left : len - r ≡ 0 = omega arith in
              rw (read_loop-done p (bytes n ∷ answers) len r out s last, none_left, append-nil out)
                refl
          | inl more ↦
              let less = ltb→lt r len more in
              let some_got =
                length-receive_positive n (len - r) s moving.0 (omega arith) (omega arith) in
              elim (List-cases (receive p n (len - r) s)) [
                | inl end ↦ absurd (omega (arith, rw end at some_got))
                | inr (b, bs, e) ↦
                    let L = length (b ∷ bs) in
                    let m = (r + L) % 2 ^ 64 in
                    let fits = rw e at (length-receive p n (len - r) s) in
                    let front = receive-take n (len - r) s (b ∷ bs) e in
                    read_loop-bytes p answers len r out s less n b bs m e refl
                    ∙ read_loop_rest answers m (out ++ (b ∷ bs))
                        (record s { inbox = drop L s.inbox }) moving.1 (omega (arith, fits))
                        (omega (arith, fits, length-drop L s.inbox)) (omega (arith, fits))
                    ∙ ap₂ (λ got left. (ok got, record s { inbox = left }))
                        (append_assoc out (b ∷ bs) (take (len - m) (drop L s.inbox))
                          ∙ ap (λ got. out ++ (got ++ take (len - m) (drop L s.inbox))) front
                          ∙ ap (λ got. out ++ got)
                              (take_next L (len - m) (len - r) s.inbox (omega (arith, fits))))
                        (drop_next L (len - m) (len - r) s.inbox (omega (arith, fits)))
              ]
        ]

    read_loop_eof :
        (answers : List Answer) (r : ℕ) (out : Bytes) (s : Socket)
        → All IsMoving answers
        → r + length s.inbox < len
        → length s.inbox < length answers
        → read_loop p answers len r out s
          ≡ (raised connection_closed, close (record s { inbox = [] }))
    read_loop_eof [] r out s moving short enough = absurd (omega arith)
    read_loop_eof (failed errno ∷ answers) r out s moving short enough = absurd moving.0
    read_loop_eof (bytes n ∷ answers) r out s moving short enough =
        let less : r < len = omega arith in
        elim (List-cases (receive p n (len - r) s)) [
          | inl end ↦
              read_loop-end p answers len r out s less n end
              ∙ ap (λ stream. (raised connection_closed, close (record s { inbox = stream })))
                  (elim (List-cases s.inbox) [
                    | inl empty ↦ empty
                    | inr (c, cs, full) ↦
                        let some_got =
                          length-receive_positive n (len - r) s moving.0 (omega arith)
                            (rw full (omega arith)) in
                        absurd (omega (arith, rw end at some_got))
                  ])
          | inr (b, bs, e) ↦
              let m = (r + length (b ∷ bs)) % 2 ^ 64 in
              let fits = rw e at (length-receive p n (len - r) s) in
              let there = rw e at (length-receive_stream n (len - r) s) in
              let left = length-drop (length (b ∷ bs)) s.inbox in
              read_loop-bytes p answers len r out s less n b bs m e refl
              ∙ read_loop_eof answers m (out ++ (b ∷ bs))
                  (record s { inbox = drop (length (b ∷ bs)) s.inbox }) moving.1
                  (omega (arith, fits, there, left)) (omega (arith, fits, there, left))
        ]

-- However the kernel cuts the stream into pieces: if BUFSIZ is not 0, every `read` moves bytes, the
-- stream has the bytes that are asked for, fewer than 2 ^ 64, and there is an answer for each of
-- them, the `Read` of a connected socket returns. It returns these bytes, and the next call goes on
-- behind them.
pub read-delivers :
    (p : Platform) (answers : List Answer) (len : ℕ) (s : Socket) {fd : ℕ}
    → 0 < p.bufsiz
    → len < 2 ^ 64
    → s.sock_fd ≡ some fd
    → All IsMoving answers
    → len ≤ length s.inbox
    → len ≤ length answers
    → read p answers len s ≡ (ok (take len s.inbox), record s { inbox = drop len s.inbox })
unfolding read
read-delivers p answers len s room small e moving stream enough =
    connected_open "Cannot read while not connected" (read_loop p answers len 0 []) s e
    ∙ read_loop_rest p room len small answers 0 [] s moving (omega arith) (omega arith)
        (omega arith)
    ∙ ap (λ k. (ok (take k s.inbox), record s { inbox = drop k s.inbox })) (omega arith)

-- What the call does when the stream ends too early.
pub read_closes :
    (p : Platform) (answers : List Answer) (len : ℕ) (s : Socket) {fd : ℕ}
    → 0 < p.bufsiz
    → len < 2 ^ 64
    → s.sock_fd ≡ some fd
    → All IsMoving answers
    → length s.inbox < len
    → length s.inbox < length answers
    → read p answers len s ≡ (raised connection_closed, close (record s { inbox = [] }))
unfolding read
read_closes p answers len s room small e moving short enough =
    connected_open "Cannot read while not connected" (read_loop p answers len 0 []) s e
    ∙ read_loop_eof p room len small answers 0 [] s moving (omega arith) enough

-- The peer closes the stream before the bytes that are asked for, fewer than 2 ^ 64, have come;
-- BUFSIZ is not 0, every `read` moves what there is, and there are more answers than bytes. Then
-- the `Read` of a connected socket takes what has come, closes the socket and throws
-- `JdwpException` with "Connection closed". From then on the three methods of the socket throw
-- `logic_error` and change nothing.
pub read-eof :
    (p : Platform) (answers : List Answer) (len : ℕ) (s : Socket) {fd : ℕ}
    → 0 < p.bufsiz
    → len < 2 ^ 64
    → s.sock_fd ≡ some fd
    → All IsMoving answers
    → length s.inbox < len
    → length s.inbox < length answers
    → (read p answers len s ≡ (raised connection_closed, close (record s { inbox = [] })))
      × (let later = close (record s { inbox = [] }) in
          (later.closed ≡ s.closed ++ (fd ∷ []))
          × ((again : List Answer) (n : ℕ)
              → read p again n later
                ≡ (raised (logic_error "Cannot read while not connected"), later))
          × ((again : List Answer) (text : Bytes)
              → write p again text later
                ≡ (raised (logic_error "Cannot write while not connected"), later))
          × ((revents : Option ℕ) (errno : ℕ)
              → can_read p revents errno later
                ≡ (raised (logic_error "Cannot poll while not connected"), later)))
unfolding read write can_read close
read-eof p answers len s {fd} room small e moving short enough = (
  read_closes p answers len s room small e moving short enough,
  (
    ap (λ o. s.closed ++ descriptor o) e,
    λ again n. refl,
    λ again text. refl,
    λ revents errno. refl,
  ),
)

-- The stream begins with the bytes that are asked for.
pub read_front :
    (p : Platform) (answers : List Answer) (len : ℕ) (s : Socket) (front rest : Bytes) {fd : ℕ}
    → 0 < p.bufsiz
    → len < 2 ^ 64
    → s.sock_fd ≡ some fd
    → All IsMoving answers
    → len ≤ length answers
    → length front ≡ len
    → s.inbox ≡ front ++ rest
    → read p answers len s ≡ (ok front, record s { inbox = rest })
read_front p answers len s front rest room small e moving enough size parts =
    let there = ap length parts ∙ length-append front rest in
    read-delivers p answers len s room small e moving (omega (arith, there, size)) enough
    ∙ ap₂ (λ got left. (ok got, record s { inbox = left }))
        (ap (λ whole. take len whole) parts ∙ take_front len front rest size)
        (ap (λ whole. drop len whole) parts ∙ drop_front len front rest size)
