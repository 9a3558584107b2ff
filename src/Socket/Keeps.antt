-- ===== src/Socket/Keeps.antt =====
-- src/jdwp_socket.cpp: what the methods of a socket leave as it is, whatever comes of them.
use roastery.Prelude.{
  String, ℕ, ◌+◌, ◌-◌, ◌%◌, ◌^◌, ◌≡◌, refl, ap, ◌∙◌, inl, inr, Option, List, [], ◌∷◌, ◌++◌, length,
  drop, ltb, ◌==◌, Bool-cases, ltb→lt, List-cases, Option-cases, append-nil,
}
use Prim.Native.Nat.{min}
use roastery.Bytes.{Bytes}
use roastery.Action.{Keeps}
use roastery.Socket.{
  Platform, Answer, bytes, failed, Socket, is_retried, send, receive, close, descriptor, write_loop,
  write, read_loop, read, can_read, connected_open, connected_closed,
}
use roastery.Socket.Reads.{read_loop-bytes, read_loop-end}

module _ (p : Platform) {V : Type 0} (view : Socket → V)
    (close-view : (s : Socket) → view (close s) ≡ view s) where
  module _ (send-view : (k : ℕ) (rest : Bytes) (s : Socket) → view (send k rest s) ≡ view s) where
    write_loop-Keeps :
        (answers : List Answer) (text : Bytes) (w : ℕ) → Keeps view (write_loop p answers text w)
    unfolding write_loop
    write_loop-Keeps [] text w s = refl
    write_loop-Keeps (bytes n ∷ answers) text w s = elim (Bool-cases (ltb w (length text))) [
      | inr done ↦ rw (done, write_loop) refl
      | inl more ↦
          let k = min n (length text - w) in
          let sent = send k (drop w text) s in
          rw (more, write_loop)
            (write_loop-Keeps answers text ((w + k) % 2 ^ 64) sent ∙ send-view k (drop w text) s)
    ]
    write_loop-Keeps (failed errno ∷ answers) text w s = elim (Bool-cases (ltb w (length text))) [
      | inr done ↦ rw (done, write_loop) refl
      | inl more ↦ elim (Bool-cases (errno == p.epipe)) [
        | inl broken ↦ rw (more, broken, write_loop) (close-view s)
        | inr other ↦ elim (Bool-cases (is_retried p errno)) [
          | inl again ↦
              rw (more, other, again, write_loop)
                (write_loop-Keeps answers text ((w + (2 ^ 64 - 1)) % 2 ^ 64) s)
          | inr final ↦ rw (more, other, final, write_loop) refl
        ]
      ]
    ]

    write-Keeps : (answers : List Answer) (text : Bytes) → Keeps view (write p answers text)
    unfolding write
    write-Keeps answers text s =
        let what : String = "Cannot write while not connected" in
        let loop = write_loop p answers text 0 in
        elim (Option-cases s.sock_fd) [
          | inl e ↦ rw (connected_closed what loop s e) refl
          | inr (fd, e) ↦ rw (connected_open what loop s e) (write_loop-Keeps answers text 0 s)
        ]

  module _
      (inbox-view : (inbox : Bytes) (s : Socket) → view (record s { inbox = inbox }) ≡ view s) where
    read_loop-Keeps :
        (answers : List Answer) (len r : ℕ) (out : Bytes)
        → Keeps view (read_loop p answers len r out)
    unfolding read_loop
    read_loop-Keeps [] len r out s = refl
    read_loop-Keeps (failed errno ∷ answers) len r out s = elim (Bool-cases (ltb r len)) [
      | inr done ↦ rw (done, read_loop) refl
      | inl more ↦ rw (more, read_loop) refl
    ]
    read_loop-Keeps (bytes n ∷ answers) len r out s = elim (Bool-cases (ltb r len)) [
      | inr done ↦ rw (done, read_loop) refl
      | inl more ↦
          let less = ltb→lt r len more in
          elim (List-cases (receive p n (len - r) s)) [
            | inl end ↦ rw (read_loop-end p answers len r out s less n end) (close-view s)
            | inr (b, bs, e) ↦
                let m = (r + length (b ∷ bs)) % 2 ^ 64 in
                let left = drop (length (b ∷ bs)) s.inbox in
                rw (read_loop-bytes p answers len r out s less n b bs m e refl) (
                  read_loop-Keeps answers len m (out ++ (b ∷ bs)) (record s { inbox = left })
                  ∙ inbox-view left s)
          ]
    ]

    read-Keeps : (answers : List Answer) (len : ℕ) → Keeps view (read p answers len)
    unfolding read
    read-Keeps answers len s =
        let what : String = "Cannot read while not connected" in
        let loop = read_loop p answers len 0 [] in
        elim (Option-cases s.sock_fd) [
          | inl e ↦ rw (connected_closed what loop s e) refl
          | inr (fd, e) ↦ rw (connected_open what loop s e) (read_loop-Keeps answers len 0 [] s)
        ]

-- Writing leaves what comes in alone.
pub write-inbox :
    (p : Platform) (answers : List Answer) (text : Bytes)
    → Keeps (λ s. s.inbox) (write p answers text)
unfolding close
write-inbox p = write-Keeps p (λ s. s.inbox) (λ s. refl) (λ k rest s. refl)

-- Reading leaves what was sent alone.
pub read-outbox :
    (p : Platform) (answers : List Answer) (len : ℕ) → Keeps (λ s. s.outbox) (read p answers len)
unfolding close
read-outbox p = read-Keeps p (λ s. s.outbox) (λ s. refl) (λ inbox s. refl)

-- Polling changes nothing.
pub can_read-unchanged :
    (p : Platform) (revents : Option ℕ) (errno : ℕ) (s : Socket)
    → (can_read p revents errno s).1 ≡ s
unfolding can_read
can_read-unchanged p revents errno s = elim (Option-cases s.sock_fd) [
  | inl e ↦ ap (λ r. r.1) (connected_closed "Cannot poll while not connected" _ s e)
  | inr (fd, e) ↦ ap (λ r. r.1) (connected_open "Cannot poll while not connected" _ s e)
]

-- The descriptors that were closed, and the one that is open.
abbrev pub descriptors : Socket → List ℕ
descriptors s = s.closed ++ descriptor s.sock_fd

close-descriptors : (s : Socket) → descriptors (close s) ≡ descriptors s
unfolding close
close-descriptors s = append-nil (s.closed ++ descriptor s.sock_fd)

pub write-descriptors :
    (p : Platform) (answers : List Answer) (text : Bytes) → Keeps descriptors (write p answers text)
write-descriptors p = write-Keeps p descriptors close-descriptors (λ k rest s. refl)

pub read-descriptors :
    (p : Platform) (answers : List Answer) (len : ℕ) → Keeps descriptors (read p answers len)
read-descriptors p = read-Keeps p descriptors close-descriptors (λ inbox s. refl)
