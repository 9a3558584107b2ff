-- ===== src/Connection/Steps.antt =====
-- src/jdwp_con.cpp: the steps of a connection, those of its two threads and of its callers, in any
-- order. An exception in a thread ends the process, so only calls that return are steps.
use roastery.Prelude.{true, ◌≡◌, refl, ap, false, none, some, List, All, [], ◌∷◌, ◌++◌}
use roastery.Outcome.{ok}
use roastery.Fields.{Tuple}
use roastery.EventClass.{EventClass, event_fields}
use roastery.Socket.{Platform, Answer}
use roastery.Handler.{Handler}
use roastery.Connection.{
  Connection, Round, send_message, register_event_handler, cancel, take_next, write_next,
  incoming_round,
}
use roastery.Connection.Outgoing.{IJdwpCommandPacket}

-- Who does what: the callers send, register and cancel; the writing thread tests `should_cancel` and
-- goes into its loop, finds no packet and yields, or takes one from the queue and then writes it; the
-- reading thread tests `should_cancel` and goes into its loop, and does a round.
pub data Label (W : Type 0) : Type 0 where
  sends : IJdwpCommandPacket → Label W
  registers : Handler W → Label W
  cancels : Label W
  writer_tests : Label W
  yields : Label W
  takes : Label W
  writes : List Answer → Label W
  reader_tests : Label W
  receives : Round → Label W

module _ {W : Type 0} (p : Platform) (initial : (c : EventClass) → Tuple (event_fields c)) where
  pub data Step : Label W → Connection W → Connection W → Type 0 where
    step_send :
        {c : Connection W} (message : IJdwpCommandPacket)
        → Step (sends message) c (send_message message c)
    step_register :
        {c : Connection W} (handler : Handler W)
        → Step (registers handler) c (register_event_handler handler c)
    step_cancel : {c : Connection W} → Step cancels c (cancel c)
    step_test_write :
        {c : Connection W}
        → c.should_cancel ≡ false
        → c.writer_in_loop ≡ false
        → Step writer_tests c (record c { writer_in_loop = true })
    step_yield :
        {c : Connection W}
        → c.writer_in_loop ≡ true
        → c.next_packet ≡ none
        → c.outgoing_messages ≡ []
        → Step yields c (record c { writer_in_loop = false })
    step_take :
        {c d : Connection W}
        → c.writer_in_loop ≡ true
        → c.next_packet ≡ none
        → take_next c.outgoing_messages c ≡ (ok tt, d)
        → Step takes c d
    step_write :
        {c d : Connection W} {message : IJdwpCommandPacket} {answers : List Answer}
        → c.writer_in_loop ≡ true
        → c.next_packet ≡ some message
        → write_next p answers message c ≡ (ok tt, d)
        → Step (writes answers) c (record d { writer_in_loop = false })
    step_test_read :
        {c : Connection W}
        → c.should_cancel ≡ false
        → c.reader_in_loop ≡ false
        → Step reader_tests c (record c { reader_in_loop = true })
    step_receive :
        {c d : Connection W} {round : Round}
        → c.reader_in_loop ≡ true
        → incoming_round p initial round c ≡ (ok tt, d)
        → Step (receives round) c (record d { reader_in_loop = false })

  -- A run, the first step first.
  pub data Run : Connection W → List (Label W) → Connection W → Type 0 where
    ended : {c : Connection W} → Run c [] c
    then_step :
        {c d e : Connection W} {l : Label W} {ls : List (Label W)}
        → Step l c d
        → Run d ls e
        → Run c (l ∷ ls) e

-- Every answer to a `send` of a `Write` in such a step is one of these.
abbrev pub AllSends : {W : Type 0} → (Answer → Type 0) → Label W → Type 0
AllSends IsOne (writes answers) = All IsOne answers
AllSends IsOne l = Unit

-- One run behind another.
pub Run-append :
    {W : Type 0} (p : Platform) (initial : (c : EventClass) → Tuple (event_fields c))
    {ls later : List (Label W)} {c d e : Connection W}
    → Run p initial c ls d
    → Run p initial d later e
    → Run p initial c (ls ++ later) e
Run-append p initial ended behind = behind
Run-append p initial (then_step first rest) behind =
    then_step first (Run-append p initial rest behind)

-- What was given to `SendMessage` in a run, in its order.
abbrev pub messages : {W : Type 0} → List (Label W) → List IJdwpCommandPacket
messages [] = []
messages (sends message ∷ ls) = message ∷ messages ls
messages (l ∷ ls) = messages ls

pub messages-append :
    {W : Type 0} (ls later : List (Label W))
    → messages (ls ++ later) ≡ messages ls ++ messages later
messages-append [] later = refl
messages-append (sends message ∷ ls) later = ap (λ r. message ∷ r) (messages-append ls later)
messages-append (registers handler ∷ ls) later = messages-append ls later
messages-append (cancels ∷ ls) later = messages-append ls later
messages-append (writer_tests ∷ ls) later = messages-append ls later
messages-append (yields ∷ ls) later = messages-append ls later
messages-append (takes ∷ ls) later = messages-append ls later
messages-append (reader_tests ∷ ls) later = messages-append ls later
messages-append (writes answers ∷ ls) later = messages-append ls later
messages-append (receives round ∷ ls) later = messages-append ls later
