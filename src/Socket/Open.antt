-- ===== src/Socket/Open.antt =====
-- src/jdwp_socket.cpp: a `Write` that returns leaves the socket open.
use roastery.Prelude.{
  ℕ, ◌+◌, ◌-◌, ◌%◌, ◌^◌, ◌≡◌, refl, ap, ◌∙◌, inl, inr, some, List, [], ◌∷◌, length, drop, ltb, ◌==◌,
  Bool-cases,
}
use Prim.Native.Nat.{min}
use roastery.Outcome.{ok}
use roastery.Bytes.{Bytes}
use roastery.Socket.{
  Platform, Answer, bytes, failed, Socket, is_retried, send, write_loop, write, connected_open,
}

module _ (p : Platform) where
  write_loop-sock_fd :
      (answers : List Answer) (text : Bytes) (w : ℕ) (s : Socket)
      → (write_loop p answers text w s).0 ≡ ok tt
      → (write_loop p answers text w s).1.sock_fd ≡ s.sock_fd
  unfolding write_loop
  write_loop-sock_fd [] text w s = λ e. refl
  write_loop-sock_fd (bytes n ∷ answers) text w s = elim (Bool-cases (ltb w (length text))) [
    | inr done ↦ rw (done, write_loop) λ e. refl
    | inl more ↦
        let k = min n (length text - w) in
        rw (more, write_loop)
          (write_loop-sock_fd answers text ((w + k) % 2 ^ 64) (send k (drop w text) s))
  ]
  write_loop-sock_fd (failed errno ∷ answers) text w s = elim (Bool-cases (ltb w (length text))) [
    | inr done ↦ rw (done, write_loop) λ e. refl
    | inl more ↦ elim (Bool-cases (errno == p.epipe)) [
      | inl broken ↦ rw (more, broken, write_loop) λ e. cc
      | inr other ↦ elim (Bool-cases (is_retried p errno)) [
        | inl again ↦
            rw (more, other, again, write_loop)
              (write_loop-sock_fd answers text ((w + (2 ^ 64 - 1)) % 2 ^ 64) s)
        | inr final ↦ rw (more, other, final, write_loop) λ e. refl
      ]
    ]
  ]

  pub write-sock_fd :
      (answers : List Answer) (text : Bytes) (s : Socket) {fd : ℕ}
      → s.sock_fd ≡ some fd
      → (write p answers text s).0 ≡ ok tt
      → (write p answers text s).1.sock_fd ≡ some fd
  unfolding write
  write-sock_fd answers text s e returned =
      let loop = write_loop p answers text 0 in
      let opened = connected_open "Cannot write while not connected" loop s e in
      ap (λ r. r.1.sock_fd) opened ∙ write_loop-sock_fd answers text 0 s (rw opened at returned) ∙ e
