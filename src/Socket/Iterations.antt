-- ===== src/Socket/Iterations.antt =====
-- src/jdwp_socket.cpp: one iteration of the loop of `Write` and of that of `Read`.
use Prim.Native.Nat.{min}
use roastery.Prelude.{
  ℕ, ◌+◌, ◌-◌, ◌%◌, ◌^◌, ◌≡◌, refl, sym, ap, ap₂, ◌∙◌, subst, take, append-nil, true, false, inl,
  inr, List, [], ◌∷◌, ◌++◌, length, drop, ltb, ◌==◌, if◌then◌else◌, Bool-cases, List-cases,
}
use roastery.Outcome.{ok, raised, system_error, length_error}
use roastery.Bytes.{Bytes}
use roastery.Action.{Action, continue}
use roastery.Socket.{
  Platform, Answer, bytes, failed, Socket, is_retried, send, receive, close, connection_closed,
  write_loop, read_loop,
}

module _ (p : Platform) where
  -- A call of `send`, and what the loop makes of its result: the new `bytes_written`.
  unfoldable pub send_once : Answer → Bytes → ℕ → Action Socket ℕ
  unfolding close
  send_once (bytes n) text bytes_written s =
      let written = min n (length text - bytes_written) in
      (ok ((bytes_written + written) % 2 ^ 64), send written (drop bytes_written text) s)
  send_once (failed errno) text bytes_written s = elim (errno == p.epipe) [
    | true ↦ (raised connection_closed, close s)
    | false ↦ elim (is_retried p errno) [
      | true ↦ (ok ((bytes_written + (2 ^ 64 - 1)) % 2 ^ 64), s)
      | false ↦ (raised (system_error errno), s)
    ]
  ]

  -- A call of `read`: the new `bytes_read` and `out`.
  abbrev pub received : ℕ → Bytes → Bytes → Action Socket (ℕ × Bytes)
  received bytes_read out [] s = (raised connection_closed, close s)
  received bytes_read out (b ∷ bs) s = (
    ok ((bytes_read + length (b ∷ bs)) % 2 ^ 64, out ++ (b ∷ bs)),
    record s { inbox = drop (length (b ∷ bs)) s.inbox },
  )

  unfoldable pub read_once : Answer → ℕ → ℕ → Bytes → Action Socket (ℕ × Bytes)
  unfolding close
  read_once (failed errno) len bytes_read out s =
      (raised (if is_retried p errno then length_error else system_error errno), s)
  read_once (bytes n) len bytes_read out s =
      received bytes_read out (receive p n (len - bytes_read) s) s

  pub write_loop-send_once :
      (answer : Answer) (answers : List Answer) (text : Bytes) (w : ℕ) (s : Socket)
      → ltb w (length text) ≡ true
      → write_loop p (answer ∷ answers) text w s
        ≡ continue
            (send_once answer text w s).0
            (λ w'. write_loop p answers text w')
            (send_once answer text w s).1
  unfolding write_loop send_once
  write_loop-send_once (bytes n) answers text w s more = rw (more, write_loop) refl
  write_loop-send_once (failed errno) answers text w s more = elim (Bool-cases (errno == p.epipe)) [
    | inl broken ↦ rw (more, broken, write_loop, send_once) refl
    | inr other ↦ elim (Bool-cases (is_retried p errno)) [
      | inl again ↦ rw (more, other, again, write_loop, send_once) refl
      | inr final ↦ rw (more, other, final, write_loop, send_once) refl
    ]
  ]

  pub read_loop-read_once :
      (answer : Answer) (answers : List Answer) (len r : ℕ) (out : Bytes) (s : Socket)
      → ltb r len ≡ true
      → read_loop p (answer ∷ answers) len r out s
        ≡ continue
            (read_once answer len r out s).0
            (λ got. read_loop p answers len got.0 got.1)
            (read_once answer len r out s).1
  unfolding read_loop read_once
  read_loop-read_once (failed errno) answers len r out s more = rw (more, read_loop) refl
  read_loop-read_once (bytes n) answers len r out s more =
      elim (List-cases (receive p n (len - r) s)) [
        | inl end ↦ rw (more, end, read_loop) refl
        | inr (b, bs, e) ↦ rw (more, e, read_loop) refl
      ]

  -- What a `send` that lets the loop go on does to any socket.
  pub send_once-ok :
      (answer : Answer) (text : Bytes) (w : ℕ) (s : Socket) {later : ℕ} {t : Socket}
      → send_once answer text w s ≡ (ok later, t)
      → (new : Bytes) × ((other : Socket)
          → send_once answer text w other
            ≡ (ok later, record other { outbox = other.outbox ++ new }))
  unfolding send_once
  send_once-ok (bytes n) text w s e =
      let k = min n (length text - w) in
      (take k (drop w text), λ other. ap (λ r. (r, send k (drop w text) other)) (ap (λ r. r.0) e))
  send_once-ok (failed errno) text w s e = elim (Bool-cases (errno == p.epipe)) [
    | inl broken ↦ let e' = ap (λ r. r.0) (rw (broken, send_once) at e) in cc
    | inr other ↦ elim (Bool-cases (is_retried p errno)) [
      | inl again ↦
          let e' = ap (λ r. r.0) (rw (other, again, send_once) at e) in
          (
            [],
            λ s'.
                rw (other, again, send_once)
                  (ap₂ (λ r outbox. (r, record s' { outbox = outbox })) e'
                    (sym (append-nil s'.outbox))),
          )
      | inr final ↦ let e' = ap (λ r. r.0) (rw (other, final, send_once) at e) in cc
    ]
  ]

  -- A `read` depends on no more of the socket than on the stream.
  received-ok :
      (r : ℕ) (out got : Bytes) (s : Socket) {later : ℕ × Bytes} {t : Socket}
      → received r out got s ≡ (ok later, t)
      → (t ≡ record s { inbox = t.inbox })
        × ((other : Socket)
            → other.inbox ≡ s.inbox
            → received r out got other ≡ (ok later, record other { inbox = t.inbox }))
  received-ok r out [] s e = let e' = ap (λ q. q.0) e in cc
  received-ok r out (b ∷ bs) s e = (
    sym (ap (λ q. q.1) e) ∙ ap (λ q. record s { inbox = q.1.inbox }) e,
    λ other same.
        ap₂ (λ q inbox. (q, record other { inbox = inbox })) (ap (λ q. q.0) e)
          (ap (λ inbox. drop (length (b ∷ bs)) inbox) same ∙ ap (λ q. q.1.inbox) e),
  )

  pub read_once-ok :
      (answer : Answer) (len r : ℕ) (out : Bytes) (s : Socket) {later : ℕ × Bytes} {t : Socket}
      → read_once answer len r out s ≡ (ok later, t)
      → (t ≡ record s { inbox = t.inbox })
        × ((other : Socket)
            → other.inbox ≡ s.inbox
            → read_once answer len r out other ≡ (ok later, record other { inbox = t.inbox }))
  unfolding read_once
  read_once-ok (failed errno) len r out s e = let e' = ap (λ q. q.0) e in cc
  read_once-ok (bytes n) len r out s {later} {t} e =
      let (same_state, elsewhere) = received-ok r out (receive p n (len - r) s) s e in
      (
        same_state,
        λ other same.
            subst
              (λ inbox.
                received r out (take (min n (min p.bufsiz (len - r))) inbox) other
                ≡ (ok later, record other { inbox = t.inbox }))
              (sym same) (elsewhere other same),
      )
