-- ===== src/Socket/Writes.antt =====
-- src/jdwp_socket.cpp: what `Write` has handed to the kernel, over any run of `send`.
use native.Mathlib.Nat.{min-le_right}
use Prim.Native.Nat.{min}
use roastery.Prelude.{
  String, ℕ, ◌+◌, ◌-◌, ◌%◌, ◌^◌, ◌<◌, ◌≤◌, ◌≡◌, refl, sym, ap, ◌∙◌, inl, inr, false, some, List, [],
  ◌∷◌, ◌++◌, length, take, drop, ltb, ◌==◌, Bool-cases, ltb→lt, ltb_false→le, All, take_next,
  append_assoc, append-nil, drop_all, drop_next, take-drop, le→ltb_false, Option-cases,
  min_positive, arith,
}
use roastery.Outcome.{Outcome, ok, raised, undefined, out_of_fuel}
use roastery.Bytes.{Bytes}
use roastery.Socket.{
  Platform, Answer, bytes, failed, Socket, is_retried, write_loop, write, send, close,
  connected_open, connected_closed,
}

-- An answer that the loop does not retry.
abbrev pub IsFinal : Platform → Answer → Type 0
IsFinal p (bytes n) = Unit
IsFinal p (failed errno) = is_retried p errno ≡ false

-- Behind `old`, a front of the text was sent, and all of it if the call returned.
abbrev pub SendsFront : Bytes → Bytes → Outcome (Unit {0}) × Socket → Type 0
SendsFront old text result =
    (k : ℕ) × (k ≤ length text)
    × (result.1.outbox ≡ old ++ take k text)
    × (result.0 ≡ ok tt → k ≡ length text)

-- The text has been sent.
pub write_loop-end :
    (p : Platform) (answers : List Answer) (text : Bytes) (w : ℕ) (s : Socket)
    → length text ≤ w
    → write_loop p answers text w s ≡ (ok tt, s)
unfolding write_loop
write_loop-end p [] text w s le = rw (le→ltb_false w (length text) le, write_loop) refl
write_loop-end p (answer ∷ answers) text w s le =
    rw (le→ltb_false w (length text) le, write_loop) refl

module _ (p : Platform) (old text : Bytes) (small : length text < 2 ^ 64) where
  -- The loop has ended: the whole text was sent.
  write_loop-done :
      (answers : List Answer) (w : ℕ) (s : Socket)
      → ltb w (length text) ≡ false
      → w ≤ length text
      → s.outbox ≡ old ++ take w text
      → SendsFront old text (write_loop p answers text w s)
  unfolding write_loop
  write_loop-done answers w s done le sent =
      let all_sent = ltb_false→le w (length text) done in
      rw (write_loop-end p answers text w s all_sent) (w, le, sent, λ e. omega (arith, all_sent))

  write_loop-SendsFront :
      (answers : List Answer) (w : ℕ) (s : Socket)
      → All (IsFinal p) answers
      → w ≤ length text
      → s.outbox ≡ old ++ take w text
      → SendsFront old text (write_loop p answers text w s)
  unfolding write_loop close
  write_loop-SendsFront [] w s final le sent = elim (Bool-cases (ltb w (length text))) [
    | inl more ↦ rw (more, write_loop) (w, le, sent, λ e. cc)
    | inr done ↦ write_loop-done [] w s done le sent
  ]
  write_loop-SendsFront (bytes n ∷ answers) w s final le sent =
      elim (Bool-cases (ltb w (length text))) [
        | inl more ↦
            let k = min n (length text - w) in
            let fits = min-le_right n (length text - w) in
            let m = (w + k) % 2 ^ 64 in
            rw (more, write_loop)
              (write_loop-SendsFront answers m (send k (drop w text) s) final.1
                (omega (arith, ltb→lt w (length text) more))
                (rw sent (
                  append_assoc old (take w text) (take k (drop w text))
                  ∙ ap (λ r. old ++ r)
                      (take_next w k m text (omega (arith, ltb→lt w (length text) more))))))
        | inr done ↦ write_loop-done (bytes n ∷ answers) w s done le sent
      ]
  write_loop-SendsFront (failed errno ∷ answers) w s final le sent =
      elim (Bool-cases (ltb w (length text))) [
        | inr done ↦ write_loop-done (failed errno ∷ answers) w s done le sent
        | inl more ↦ elim (Bool-cases (errno == p.epipe)) [
          | inl broken ↦ rw (more, broken, write_loop) (w, le, sent, λ e. cc)
          | inr other ↦ rw (more, other, final.0, write_loop) (w, le, sent, λ e. cc)
        ]
      ]

-- The same for a connected socket and for one that is not.
pub write-SendsFront :
    (p : Platform) (answers : List Answer) (text : Bytes) (s : Socket)
    → All (IsFinal p) answers
    → length text < 2 ^ 64
    → SendsFront s.outbox text (write p answers text s)
unfolding write
write-SendsFront p answers text s final small =
    let what : String = "Cannot write while not connected" in
    let loop = write_loop p answers text 0 in
    elim (Option-cases s.sock_fd) [
      | inl e ↦
          rw (connected_closed what loop s e) (0, omega arith, sym (append-nil s.outbox), λ e. cc)
      | inr (fd, e) ↦ rw (connected_open what loop s e) (
          write_loop-SendsFront p s.outbox text small answers 0 s final (omega arith)
            (sym (append-nil s.outbox)))
    ]

-- How many of `n` bytes a call has sent: all of them if it has returned.
abbrev pub IsSent : Outcome (Unit {0}) → ℕ → ℕ → Type 0
IsSent (ok u) n k = k ≡ n
IsSent (raised fault) n k = k ≤ n
IsSent undefined n k = k ≤ n
IsSent out_of_fuel n k = k ≤ n

front-IsSent : (r : Outcome (Unit {0})) (n k : ℕ) → k ≤ n → (r ≡ ok tt → k ≡ n) → IsSent r n k
front-IsSent (ok u) n k le whole = whole refl
front-IsSent (raised fault) n k le whole = le
front-IsSent undefined n k le whole = le
front-IsSent out_of_fuel n k le whole = le

-- Over any answers that are not retried, what a `Write` adds to what the kernel has accepted is a
-- front of the text, and if it returns it is the whole text: no byte is lost, doubled or moved.
-- The text is shorter than 2 ^ 64 bytes.
pub write-IsSent :
    (p : Platform) (answers : List Answer) (text : Bytes) (s : Socket)
    → All (IsFinal p) answers
    → length text < 2 ^ 64
    → (k : ℕ) × IsSent (write p answers text s).0 (length text) k
      × ((write p answers text s).1.outbox ≡ s.outbox ++ take k text)
write-IsSent p answers text s final small =
    let (k, le, front, whole) = write-SendsFront p answers text s final small in
    (k, front-IsSent (write p answers text s).0 (length text) k le whole, front)

-- An answer that moves bytes.
abbrev pub IsMoving : Answer → Type 0
IsMoving (bytes n) = 0 < n
IsMoving (failed errno) = ⊥

module _ (p : Platform) (text : Bytes) (small : length text < 2 ^ 64) where
  pub write_loop_rest :
      (answers : List Answer) (w : ℕ) (s : Socket)
      → All IsMoving answers
      → length text ≤ w + length answers
      → w ≤ length text
      → write_loop p answers text w s ≡ (ok tt, record s { outbox = s.outbox ++ drop w text })
  unfolding write_loop
  write_loop_rest [] w s moving enough le =
      rw
        (
          le→ltb_false w (length text) (omega arith),
          drop_all w text (omega arith),
          append-nil s.outbox,
          write_loop,
        )
        refl
  write_loop_rest (failed errno ∷ answers) w s moving enough le = absurd moving.0
  write_loop_rest (bytes n ∷ answers) w s moving enough le =
      elim (Bool-cases (ltb w (length text))) [
        | inr done ↦
            let end = ltb_false→le w (length text) done in
            rw (done, drop_all w text end, append-nil s.outbox, write_loop) refl
        | inl more ↦
            let less = ltb→lt w (length text) more in
            let k = min n (length text - w) in
            let m = (w + k) % 2 ^ 64 in
            let fits = min-le_right n (length text - w) in
            let moved = min_positive n (length text - w) moving.0 (omega arith) in
            let parts = ap (λ r. take k (drop w text) ++ r) (drop_next w k m text (omega arith)) in
            rw (more, write_loop)
              (write_loop_rest answers m (send k (drop w text) s) moving.1 (omega arith)
                  (omega arith)
                ∙ ap (λ r. (ok tt, record s { outbox = r }))
                    (append_assoc s.outbox (take k (drop w text)) (drop m text)
                      ∙ ap (λ r. s.outbox ++ r) (sym parts ∙ take-drop k (drop w text))))
      ]

-- Every answer moves bytes, and there are as many of them as bytes: the `Write` of a connected
-- socket returns, the kernel has accepted the text, and the socket is as before otherwise. The text
-- is shorter than 2 ^ 64 bytes.
pub write-delivers :
    (p : Platform) (answers : List Answer) (text : Bytes) (s : Socket) {fd : ℕ}
    → s.sock_fd ≡ some fd
    → All IsMoving answers
    → length text ≤ length answers
    → length text < 2 ^ 64
    → write p answers text s ≡ (ok tt, record s { outbox = s.outbox ++ text })
unfolding write
write-delivers p answers text s e moving enough small =
    connected_open "Cannot write while not connected" (write_loop p answers text 0) s e
    ∙ write_loop_rest p text small answers 0 s moving (omega arith) (omega arith)
