-- ===== src/Socket/Interrupted.antt =====
-- src/jdwp_socket.cpp: a `Write` whose `send` is interrupted.
use native.Mathlib.Nat.{min-eq_left, min-eq_right, le-min}
use Prim.Native.Nat.{min}
use roastery.Prelude.{
  ℕ, ◌+◌, ◌-◌, ◌%◌, ◌^◌, ◌<◌, ◌≤◌, ◌≡◌, refl, sym, ap, ◌∙◌, inl, inr, true, false, some, List, [],
  ◌∷◌, ◌++◌, length, take, drop, ◌==◌, lt→ltb, append_assoc, append-nil, drop_all, take_all,
  length-drop, length-take, List-cases, arith,
}
use roastery.Outcome.{ok, raised, length_error}
use roastery.Bytes.{Bytes}
use roastery.Socket.{
  Platform, Answer, bytes, failed, Socket, is_retried, send, receive, read_loop, read, write,
  write_loop, connected_open,
}
use roastery.Socket.Reads.{read_loop-bytes}
use roastery.Socket.Writes.{write_loop_rest, write_loop-end}

-- One round of the loop.
module _ (p : Platform) (answers : List Answer) (text : Bytes) (w : ℕ) (s : Socket)
    (less : w < length text) where
  write_loop-bytes :
      (n k m : ℕ)
      → k ≡ min n (length text - w)
      → m ≡ (w + k) % 2 ^ 64
      → write_loop p (bytes n ∷ answers) text w s
        ≡ write_loop p answers text m (send k (drop w text) s)
  unfolding write_loop
  write_loop-bytes n k m moved count =
      rw (count, moved, lt→ltb w (length text) less, write_loop) refl

  write_loop-retried :
      (errno m : ℕ)
      → is_retried p errno ≡ true
      → (errno == p.epipe) ≡ false
      → m ≡ (w + (2 ^ 64 - 1)) % 2 ^ 64
      → write_loop p (failed errno ∷ answers) text w s ≡ write_loop p answers text m s
  unfolding write_loop
  write_loop-retried errno m retried other count =
      rw (count, lt→ltb w (length text) less, other, retried, write_loop) refl

-- Bytes were sent before the failure.
interrupted_later :
    (p : Platform) (n errno : ℕ) (text : Bytes) (s : Socket) {fd : ℕ}
    → s.sock_fd ≡ some fd
    → is_retried p errno ≡ true
    → (errno == p.epipe) ≡ false
    → 0 < n
    → n < length text
    → length text < 2 ^ 64
    → write p (bytes n ∷ failed errno ∷ bytes (length text) ∷ []) text s
      ≡ (ok tt, record s { outbox = s.outbox ++ (take n text ++ drop (n - 1) text) })
unfolding write
interrupted_later p n errno text s e retried other h le small =
    let answers = bytes n ∷ failed errno ∷ bytes (length text) ∷ [] in
    let front = send n text s in
    let k = length text - (n - 1) in
    let tail = drop (n - 1) text in
    connected_open "Cannot write while not connected" (write_loop p answers text 0) s e
    ∙ write_loop-bytes p (failed errno ∷ bytes (length text) ∷ []) text 0 s (omega arith) n n n
        (sym (min-eq_left (omega arith))) (omega arith)
    ∙ write_loop-retried p (bytes (length text) ∷ []) text n front le errno (n - 1) retried other
        (omega arith)
    ∙ write_loop-bytes p [] text (n - 1) front (omega arith) (length text) k (length text)
        (sym (min-eq_right (omega arith))) (omega arith)
    ∙ write_loop_rest p text small [] (length text) (send k tail front) tt (omega arith)
        (omega arith)
    ∙ ap (λ r. (ok tt, record s { outbox = r }))
        (rw
          (
            take_all k tail (omega (arith, length-drop (n - 1) text)),
            drop_all (length text) text (omega arith),
          )
          (append-nil ((s.outbox ++ take n text) ++ tail)
            ∙ append_assoc s.outbox (take n text) tail))

-- The first `send` fails.
interrupted_first :
    (p : Platform) (errno : ℕ) (answers : List Answer) (text : Bytes) (s : Socket) {fd : ℕ}
    → s.sock_fd ≡ some fd
    → is_retried p errno ≡ true
    → (errno == p.epipe) ≡ false
    → 0 < length text
    → length text < 2 ^ 64
    → write p (failed errno ∷ answers) text s ≡ (ok tt, s)
unfolding write
interrupted_first p errno answers text s e retried other some_text small =
    connected_open "Cannot write while not connected" (write_loop p (failed errno ∷ answers) text 0)
      s e
    ∙ write_loop-retried p answers text 0 s some_text errno (2 ^ 64 - 1) retried other (omega arith)
    ∙ write_loop-end p answers text (2 ^ 64 - 1) s (omega arith)

-- A text of more than `n` bytes, `n` at least one, and so of at least two, and of fewer than 2 ^ 64, is
-- written to a connected socket, and a `send` fails with an errno that the code means to retry, and
-- not with `EPIPE`. If it is the first one, the `Write` returns and nothing was sent. If it comes
-- behind a `send` that took the first `n` bytes of the text, and the one behind it takes what it is
-- given, the `Write` returns, and the kernel has accepted these bytes and then the text from its byte
-- `n` - 1 on, so that byte twice.
pub write-repeats :
    (p : Platform) (n errno : ℕ) (answers : List Answer) (text : Bytes) (s : Socket) {fd : ℕ}
    → s.sock_fd ≡ some fd
    → is_retried p errno ≡ true
    → (errno == p.epipe) ≡ false
    → 0 < n
    → n < length text
    → length text < 2 ^ 64
    → (write p (failed errno ∷ answers) text s ≡ (ok tt, s))
      × (write p (bytes n ∷ failed errno ∷ bytes (length text) ∷ []) text s
          ≡ (ok tt, record s { outbox = s.outbox ++ (take n text ++ drop (n - 1) text) }))
write-repeats p n errno answers text s e retried other h le small = (
  interrupted_first p errno answers text s e retried other (omega arith) small,
  interrupted_later p n errno text s e retried other h le small,
)

-- A `read` that gives the first `n` bytes of the stream, fewer than are asked for and no more than
-- BUFSIZ, then one that fails with an errno that the code means to retry: the `Read` of a connected
-- socket, of fewer than 2 ^ 64 bytes, throws `length_error`, and the `n` bytes are neither returned
-- nor left in the stream.
pub read-retried :
    (p : Platform) (n errno len : ℕ) (answers : List Answer) (s : Socket) {fd : ℕ}
    → len < 2 ^ 64
    → s.sock_fd ≡ some fd
    → is_retried p errno ≡ true
    → 0 < n
    → n < len
    → n ≤ p.bufsiz
    → n ≤ length s.inbox
    → read p (bytes n ∷ failed errno ∷ answers) len s
      ≡ (raised length_error, record s { inbox = drop n s.inbox })
unfolding read read_loop
read-retried p n errno len answers s small e retried h more room stream =
    connected_open "Cannot read while not connected"
      (read_loop p (bytes n ∷ failed errno ∷ answers) len 0 []) s e
    ∙ elim (List-cases (receive p n (len - 0) s)) [
      | inl none_got ↦ absurd (omega (arith, rw none_got at size))
      | inr (b, bs, got) ↦
          let size' : length (b ∷ bs) ≡ n = rw got at size in
          read_loop-bytes p (failed errno ∷ answers) len 0 [] s (omega arith) n b bs n got
            (omega (arith, size'))
          ∙ rw (lt→ltb n len more, retried, read_loop)
              (ap (λ k. (raised length_error, record s { inbox = drop k s.inbox })) size')
    ]
  where
    size : length (receive p n (len - 0) s) ≡ n
    size =
        let whole : min n (min p.bufsiz (len - 0)) ≡ n = min-eq_left (le-min room (omega arith)) in
        rw whole (length-take n s.inbox stream)
