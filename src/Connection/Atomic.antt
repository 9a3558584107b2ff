-- ===== src/Connection/Atomic.antt =====
-- src/jdwp_con.cpp: why the steps of Connection/Steps.antt may be whole calls.
use roastery.Prelude.{
  ℕ, ◌≡◌, refl, sym, ap, ap₂, ◌∙◌, subst, Option, some, List, [], ◌++◌, append-nil, All, All-append,
  All-always, none,
}
use roastery.Fields.{Tuple}
use roastery.EventClass.{EventClass, event_fields}
use roastery.Socket.{Platform, Answer}
use roastery.Connection.{Connection}
use roastery.Connection.Steps.{
  Label, sends, registers, cancels, writer_tests, yields, takes, reader_tests, writes, receives,
  Run, Run-append, messages, messages-append, AllSends,
}
use roastery.Connection.Calls.{
  not_writing, not_reading, Threads, threads, Call, Calls, accesses, begins_write, calls_send,
  ends_write, begins_round, finds_nothing, calls_read_header, ends_header, calls_read_body,
  ends_round, no_calls, then_call, given_by, given, AllSendsAt,
}
use roastery.Connection.Simulation.{mixed, Simulates, Follows, stays}
use roastery.Connection.SplitAccesses.{access-Follows}
use roastery.Connection.SplitWrites.{begin-Follows, send-Follows, end-Follows}
use roastery.Connection.SplitReads.{
  poll-Follows, nothing-Follows, header-Follows, word-Follows, body-Follows, round-Follows,
}

module _ {W : Type 0} (p : Platform) (initial : (c : EventClass) → Tuple (event_fields c))
    (IsOne : Answer → Type 0) where
  Call-Follows :
      (fd : ℕ) {o : Option (Label W)} {f g : Threads W} (a : Connection W)
      → Call p initial o f g
      → AllSendsAt IsOne o
      → Simulates p initial IsOne fd a f
      → Follows p initial IsOne fd (given_by o) a g
  Call-Follows fd a (accesses {w = w} {r = r} h step) final sim =
      access-Follows p initial IsOne fd a w r h step sim
  Call-Follows fd a (begins_write {c = c} {r = r} message opened within held bytes) final sim =
      begin-Follows p initial IsOne fd a c r message within held bytes sim
  Call-Follows fd a
        (calls_send {c = c} {r = r} {text = text} {bytes_written = w} {later = later} {s = s} answer
          more e)
        final sim =
      send-Follows p initial IsOne fd a c r text w later s answer more e final.0 sim
  Call-Follows fd a (ends_write {c = c} {r = r} {text = text} {bytes_written = w} done) final sim =
      end-Follows p initial IsOne fd a c r text w done sim
  Call-Follows fd a (begins_round {c = c} {w = w} revents errno running found) final sim =
      poll-Follows p initial IsOne fd a c w revents errno running found sim
  Call-Follows fd a (finds_nothing {c = c} {w = w} revents errno running found) final sim =
      nothing-Follows p initial IsOne fd a c w revents errno running found sim
  Call-Follows fd a
        (calls_read_header {c = c} {w = w} {bytes_read = r} {out = out} {later = later} {s = s}
          answer more e)
        final sim =
      header-Follows p initial IsOne fd a c w r out later s answer more e sim
  Call-Follows fd a
        (ends_header {c = c} {w = w} {bytes_read = r} {total_len = total} {out = out} done word)
        final sim =
      word-Follows p initial IsOne fd a c w r total out done word sim
  Call-Follows fd a
        (calls_read_body {c = c} {w = w} {len = len} {bytes_read = r} {header = header} {out = out}
          {later = later} {s = s} answer more e)
        final sim =
      body-Follows p initial IsOne fd a c w len r header out later s answer more e sim
  Call-Follows fd a
        (ends_round {c = c} {d = d} {w = w} {len = len} {bytes_read = r} {header = header}
          {out = out} done e)
        final sim =
      round-Follows p initial IsOne fd a c d w len r header out done e sim

  Calls-Follows :
      (fd : ℕ) {os : List (Option (Label W))} {f g : Threads W} (a : Connection W)
      → Calls p initial os f g
      → All (AllSendsAt IsOne) os
      → Simulates p initial IsOne fd a f
      → Follows p initial IsOne fd (given os) a g
  Calls-Follows fd {f = f} a no_calls final sim = stays p initial IsOne f a sim
  Calls-Follows fd a (then_call {o = o} {os = os} first rest) final sim =
      let (ls, between, run, said, wrote, sim') = Call-Follows fd a first final.0 sim in
      let (later_ls, later, later_run, later_said, later_wrote, sim'') =
        Calls-Follows fd between rest final.1 sim' in
      (
        ls ++ later_ls,
        later,
        Run-append p initial run later_run,
        messages-append ls later_ls ∙ ap₂ (λ r r'. r ++ r') said later_said,
        All-append (AllSends IsOne) ls later_ls wrote later_wrote,
        sim'',
      )

  -- Between its calls, the connection is that of the whole calls.
  resting :
      (fd : ℕ) (a d : Connection W)
      → Simulates p initial IsOne fd a (threads d not_writing not_reading)
      → d ≡ a
  resting fd a d (sent, inbox, same, opened, none_sent, stream) =
      same
      ∙ ap₂ (λ new inbox. mixed a new inbox) none_sent stream
      ∙ ap (λ outbox. record a { socket = record a.socket { outbox = outbox } })
          (append-nil a.socket.outbox)

-- Whole calls for single steps, as below, and if every answer to a `send` of the single steps is of
-- one kind, then so is every answer in the whole calls of `Write`.
pub Calls-RunOf :
    {W : Type 0} (p : Platform) (initial : (c : EventClass) → Tuple (event_fields c))
    (IsOne : Answer → Type 0) (c d : Connection W) {os : List (Option (Label W))} {fd : ℕ}
    → c.socket.sock_fd ≡ some fd
    → Calls p initial os (threads c not_writing not_reading) (threads d not_writing not_reading)
    → All (AllSendsAt IsOne) os
    → (ls : List (Label W)) × Run p initial c ls d
      × (messages ls ≡ given os)
      × All (AllSends IsOne) ls
Calls-RunOf p initial IsOne c d {fd = fd} opened calls final =
    let (ls, later, run, said, wrote, sim) = Calls-Follows p initial IsOne fd c calls final (
      [],
      c.socket.inbox,
      ap (λ outbox. record c { socket = record c.socket { outbox = outbox } })
          (sym (append-nil c.socket.outbox)),
      opened,
      refl,
      refl,
    ) in
    (
      ls,
      subst (λ d. Run p initial c ls d) (sym (resting p initial IsOne fd later d sim)) run,
      said,
      wrote,
    )

any_answer : {W : Type 0} (o : Option (Label W)) → AllSendsAt (λ (answer : Answer). Unit) o
any_answer none = tt
any_answer (some (sends message)) = tt
any_answer (some (registers handler)) = tt
any_answer (some cancels) = tt
any_answer (some writer_tests) = tt
any_answer (some yields) = tt
any_answer (some takes) = tt
any_answer (some reader_tests) = tt
any_answer (some (writes answers)) = All-always (λ answer. tt) answers
any_answer (some (receives round)) = tt

-- Whole calls may be taken for single steps: from an open connection whose threads are in no call,
-- let the two threads and the callers go on in any order, each `send` of a `Write`, each `read` of the
-- two `Read`s of a round, and the handling of a packet a step of its own, so that packets are sent,
-- handlers registered, the connection cancelled and the other thread's calls made between any two
-- of these, until the threads are in no call again. Then a run whose steps are whole calls, of
-- `Write` and of rounds, leads from the same connection to the same connection, and in it the same
-- packets are given to `SendMessage` in the same order.
pub Calls-Run :
    {W : Type 0} (p : Platform) (initial : (c : EventClass) → Tuple (event_fields c))
    (c d : Connection W) {os : List (Option (Label W))} {fd : ℕ}
    → c.socket.sock_fd ≡ some fd
    → Calls p initial os (threads c not_writing not_reading) (threads d not_writing not_reading)
    → (ls : List (Label W)) × Run p initial c ls d × (messages ls ≡ given os)
Calls-Run p initial c d {os = os} opened calls =
    let (ls, run, said, _) =
      Calls-RunOf p initial (λ answer. Unit) c d opened calls (All-always any_answer os) in
    (ls, run, said)
