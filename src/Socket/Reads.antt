-- ===== src/Socket/Reads.antt =====
-- src/jdwp_socket.cpp: what `Read` takes from the peer's stream, over any run of `read`.
use native.Mathlib.Nat.{min-le_right}
use Prim.Native.Nat.{min}
use roastery.Prelude.{
  String, ℕ, ◌+◌, ◌-◌, ◌%◌, ◌^◌, ◌<◌, ◌≤◌, ◌≡◌, refl, ap, ◌∙◌, inl, inr, false, List, [], ◌∷◌, ◌++◌,
  length, take, drop, ltb, Bool-cases, ltb→lt, lt→ltb, ltb_false→le, le→ltb_false, append_assoc,
  take-drop, length-append, length-take_le, drop-length-take, List-cases, Option-cases, arith,
}
use roastery.Outcome.{Outcome, ok, raised, ok-injective}
use roastery.Bytes.{Bytes}
use roastery.Socket.{
  Platform, Answer, bytes, failed, Socket, receive, read_loop, read, close, close,
  connection_closed, connected_open, connected_closed,
}

-- One round of the loop.
module _ (p : Platform) (answers : List Answer) (len r : ℕ) (out : Bytes) (s : Socket)
    (less : r < len) where
  pub read_loop-bytes :
      (n b : ℕ) (bs : Bytes) (m : ℕ)
      → receive p n (len - r) s ≡ b ∷ bs
      → m ≡ (r + length (b ∷ bs)) % 2 ^ 64
      → read_loop p (bytes n ∷ answers) len r out s
        ≡ read_loop p answers len m
            (out ++ (b ∷ bs))
            (record s { inbox = drop (length (b ∷ bs)) s.inbox })
  unfolding read_loop
  read_loop-bytes n b bs m got count = rw (count, lt→ltb r len less, got, read_loop) refl

  pub read_loop-end :
      (n : ℕ)
      → receive p n (len - r) s ≡ []
      → read_loop p (bytes n ∷ answers) len r out s ≡ (raised connection_closed, close s)
  unfolding read_loop
  read_loop-end n got = rw (lt→ltb r len less, got, read_loop) refl

pub read_loop-done :
    (p : Platform) (answers : List Answer) (len r : ℕ) (out : Bytes) (s : Socket)
    → len ≤ r
    → read_loop p answers len r out s ≡ (ok out, s)
unfolding read_loop
read_loop-done p [] len r out s le = rw (le→ltb_false r len le, read_loop) refl
read_loop-done p (answer ∷ answers) len r out s le = rw (le→ltb_false r len le, read_loop) refl

-- The bytes that were read, with those that are left, are those of `whole`.
abbrev pub TakesFront : ℕ → Bytes → Outcome Bytes × Socket → Type 0
TakesFront len whole result =
    (got : Bytes) → result.0 ≡ ok got → (length got ≡ len) × (got ++ result.1.inbox ≡ whole)

-- What one `read` gives: no more than is wanted, from the front of the stream.
module _ (p : Platform) (n wanted : ℕ) (s : Socket) where
  pub length-receive : length (receive p n wanted s) ≤ wanted
  length-receive =
      let k = min n (min p.bufsiz wanted) in
      omega (
        arith,
        (length-take_le k s.inbox).0,
        min-le_right n (min p.bufsiz wanted),
        min-le_right p.bufsiz wanted,
      )

  pub receive-drop :
      (got : Bytes) → receive p n wanted s ≡ got → got ++ drop (length got) s.inbox ≡ s.inbox
  receive-drop got e =
      let k = min n (min p.bufsiz wanted) in
      rw⁻¹ e (ap (λ r. take k s.inbox ++ r) (drop-length-take k s.inbox) ∙ take-drop k s.inbox)

module _ (p : Platform) (len : ℕ) (small : len < 2 ^ 64) where
  done-TakesFront :
      (answers : List Answer) (r : ℕ) (out : Bytes) (s : Socket) (whole : Bytes)
      → length out ≡ r
      → r ≤ len
      → out ++ s.inbox ≡ whole
      → ltb r len ≡ false
      → TakesFront len whole (read_loop p answers len r out s)
  done-TakesFront answers r out s whole size le parts done =
      rw (read_loop-done p answers len r out s (ltb_false→le r len done))
        λ got e. rw⁻¹ (ok-injective e) (omega (arith, ltb_false→le r len done), parts)

  read_loop-TakesFront :
      (answers : List Answer) (r : ℕ) (out : Bytes) (s : Socket) (whole : Bytes)
      → length out ≡ r
      → r ≤ len
      → out ++ s.inbox ≡ whole
      → TakesFront len whole (read_loop p answers len r out s)
  unfolding read_loop
  read_loop-TakesFront [] r out s whole size le parts = elim (Bool-cases (ltb r len)) [
    | inr done ↦ done-TakesFront [] r out s whole size le parts done
    | inl more ↦ rw (more, read_loop) λ got e. cc
  ]
  read_loop-TakesFront (failed errno ∷ answers) r out s whole size le parts =
      elim (Bool-cases (ltb r len)) [
        | inr done ↦ done-TakesFront (failed errno ∷ answers) r out s whole size le parts done
        | inl more ↦ rw (more, read_loop) λ got e. cc
      ]
  read_loop-TakesFront (bytes n ∷ answers) r out s whole size le parts =
      elim (Bool-cases (ltb r len)) [
        | inr done ↦ done-TakesFront (bytes n ∷ answers) r out s whole size le parts done
        | inl more ↦
            let less = ltb→lt r len more in
            elim (List-cases (receive p n (len - r) s)) [
              | inl end ↦ rw (read_loop-end p answers len r out s less n end) λ got e. cc
              | inr (b, bs, e) ↦
                  let m = (r + length (b ∷ bs)) % 2 ^ 64 in
                  let fits = rw e at (length-receive p n (len - r) s) in
                  rw (read_loop-bytes p answers len r out s less n b bs m e refl) (
                    read_loop-TakesFront answers m (out ++ (b ∷ bs))
                      (record s { inbox = drop (length (b ∷ bs)) s.inbox }) whole
                      (omega (arith, length-append out (b ∷ bs), fits)) (omega (arith, fits))
                      (append_assoc out (b ∷ bs) (drop (length (b ∷ bs)) s.inbox)
                        ∙ ap (λ r. out ++ r) (receive-drop p n (len - r) s (b ∷ bs) e)
                        ∙ parts))
            ]
      ]

-- The same for a connected socket and for one that is not.
pub read-TakesFront :
    (p : Platform) (answers : List Answer) (len : ℕ) (s : Socket)
    → len < 2 ^ 64
    → TakesFront len s.inbox (read p answers len s)
unfolding read
read-TakesFront p answers len s small =
    let what : String = "Cannot read while not connected" in
    let loop = read_loop p answers len 0 [] in
    elim (Option-cases s.sock_fd) [
      | inl e ↦ rw (connected_closed what loop s e) λ got e. cc
      | inr (fd, e) ↦
          rw (connected_open what loop s e)
            (read_loop-TakesFront p len small answers 0 [] s s.inbox refl (omega arith) refl)
    ]

-- Over any run of `read`, failures included: if a `Read` of fewer than 2 ^ 64 bytes returns, then it
-- returns as many bytes as were asked for, and they are the next ones of the peer's stream, in
-- their order, none of them lost: with those that are left they are the stream before the call.
pub read-ok :
    (p : Platform) (answers : List Answer) (len : ℕ) (s : Socket) {got : Bytes}
    → len < 2 ^ 64
    → (read p answers len s).0 ≡ ok got
    → (length got ≡ len) × (got ++ (read p answers len s).1.inbox ≡ s.inbox)
read-ok p answers len s {got} small returned = read-TakesFront p answers len s small got returned
