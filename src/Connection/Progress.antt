-- ===== src/Connection/Progress.antt =====
-- src/jdwp_socket.cpp: a `Write` or a `Read` of which some iterations were made.
use roastery.Prelude.{
  String, ℕ, Bool, ◌≡◌, refl, sym, ap, ◌∙◌, true, false, Option, some, List, [], ◌∷◌, ◌++◌, length,
  ltb, ltb_false→le, append_assoc, append-nil,
}
use roastery.Outcome.{ok}
use roastery.Bytes.{Bytes}
use roastery.Action.{continue}
use roastery.Socket.{
  Platform, Answer, Socket, can_read, write, write_loop, read, read_loop, connected_open,
}
use roastery.Socket.Writes.{write_loop-end}
use roastery.Socket.Reads.{read_loop-done}
use roastery.Socket.Iterations.{send_once, read_once, write_loop-send_once, read_loop-read_once}

module _ (p : Platform) where
  -- Some answers have brought a `Write` from its start to `w`, and have sent `sent`.
  abbrev pub HasSent : Bytes → ℕ → List Answer → Bytes → Type 0
  HasSent text w answers sent =
      (more : List Answer) (s : Socket)
      → write_loop p (answers ++ more) text 0 s
        ≡ write_loop p more text w (record s { outbox = s.outbox ++ sent })

  -- Some answers have brought a `Read` from its start to `r` and `out`, and the stream from `from` to
  -- `to`.
  abbrev pub HasRead : ℕ → ℕ → Bytes → List Answer → Bytes → Bytes → Type 0
  HasRead len r out answers from to =
      (more : List Answer) (s : Socket)
      → s.inbox ≡ from
      → read_loop p (answers ++ more) len 0 [] s
        ≡ read_loop p more len r out (record s { inbox = to })

  pub no_sends : (text : Bytes) → HasSent text 0 [] []
  no_sends text more s =
      ap (λ outbox. write_loop p more text 0 (record s { outbox = outbox }))
        (sym (append-nil s.outbox))

  pub no_reads : (len : ℕ) (from : Bytes) → HasRead len 0 [] [] from from
  no_reads len from more s e =
      ap (λ inbox. read_loop p more len 0 [] (record s { inbox = inbox })) e

  pub one_more_send :
      (answer : Answer) (text : Bytes) (w : ℕ) (answers : List Answer) (sent new : Bytes)
      {later : ℕ}
      → ltb w (length text) ≡ true
      → ((s : Socket)
          → send_once p answer text w s ≡ (ok later, record s { outbox = s.outbox ++ new }))
      → HasSent text w answers sent
      → HasSent text later (answers ++ (answer ∷ [])) (sent ++ new)
  one_more_send answer text w answers sent new {later} going_on sends_new h more s =
      let before = record s { outbox = s.outbox ++ sent } in
      ap (λ l. write_loop p l text 0 s) (append_assoc answers (answer ∷ []) more)
      ∙ h (answer ∷ more) s
      ∙ write_loop-send_once p answer more text w before going_on
      ∙ ap (λ r. continue r.0 (λ w'. write_loop p more text w') r.1) (sends_new before)
      ∙ ap (λ outbox. write_loop p more text later (record s { outbox = outbox }))
          (append_assoc s.outbox sent new)

  pub one_more_read :
      (answer : Answer) (len r : ℕ) (out : Bytes) (answers : List Answer) (from to onto : Bytes)
      {later : ℕ × Bytes}
      → ltb r len ≡ true
      → ((s : Socket)
          → s.inbox ≡ to
          → read_once p answer len r out s ≡ (ok later, record s { inbox = onto }))
      → HasRead len r out answers from to
      → HasRead len later.0 later.1 (answers ++ (answer ∷ [])) from onto
  one_more_read answer len r out answers from to onto {later} going_on reads_new h more s e =
      let before = record s { inbox = to } in
      ap (λ l. read_loop p l len 0 [] s) (append_assoc answers (answer ∷ []) more)
      ∙ h (answer ∷ more) s e
      ∙ read_loop-read_once p answer more len r out before going_on
      ∙ ap (λ q. continue q.0 (λ got. read_loop p more len got.0 got.1) q.1) (reads_new before refl)

  pub all_sent :
      (text : Bytes) (w : ℕ) (answers : List Answer) (sent : Bytes) (s : Socket) {fd : ℕ}
      → ltb w (length text) ≡ false
      → HasSent text w answers sent
      → s.sock_fd ≡ some fd
      → write p answers text s ≡ (ok tt, record s { outbox = s.outbox ++ sent })
  unfolding write
  all_sent text w answers sent s done h e =
      connected_open "Cannot write while not connected" (write_loop p answers text 0) s e
      ∙ ap (λ l. write_loop p l text 0 s) (sym (append-nil answers))
      ∙ h [] s
      ∙ write_loop-end p [] text w _ (ltb_false→le w (length text) done)

  pub all_read :
      (len r : ℕ) (out : Bytes) (answers : List Answer) (from to : Bytes) (s : Socket) {fd : ℕ}
      → ltb r len ≡ false
      → HasRead len r out answers from to
      → s.sock_fd ≡ some fd
      → s.inbox ≡ from
      → read p answers len s ≡ (ok out, record s { inbox = to })
  unfolding read
  all_read len r out answers from to s done h e same =
      connected_open "Cannot read while not connected" (read_loop p answers len 0 []) s e
      ∙ ap (λ l. read_loop p l len 0 [] s) (sym (append-nil answers))
      ∙ h [] s same
      ∙ read_loop-done p [] len r out _ (ltb_false→le r len done)

  -- What a poll finds depends on no more of the socket than on the descriptor.
  abbrev pub Polls : Bool → Option ℕ → ℕ → ℕ → Type 0
  Polls input revents errno fd =
      (s : Socket) → s.sock_fd ≡ some fd → can_read p revents errno s ≡ (ok input, s)

  pub can_read-Polls :
      (revents : Option ℕ) (errno : ℕ) (t : Socket) {fd : ℕ} {input : Bool}
      → t.sock_fd ≡ some fd
      → can_read p revents errno t ≡ (ok input, t)
      → Polls input revents errno fd
  unfolding can_read
  can_read-Polls revents errno t e found s e' =
      let what : String = "Cannot poll while not connected" in
      connected_open what _ s e' ∙ ap (λ r. (r.0, s)) (sym (connected_open what _ t e) ∙ found)
