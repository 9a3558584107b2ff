-- ===== src/Connection/Delivery.antt =====
-- src/jdwp_con.cpp: what a connection has written when its threads and callers ran between the single
-- calls of `send` and `read`.
use roastery.Prelude.{◌≡◌, some, ℕ, Option, List, ◌++◌, All, subst, ap, sym}
use roastery.Fields.{Tuple}
use roastery.EventClass.{EventClass, event_fields}
use roastery.Socket.{Platform}
use roastery.Socket.Writes.{IsFinal}
use roastery.Connection.{Connection}
use roastery.Connection.Steps.{Label}
use roastery.Connection.Calls.{not_writing, not_reading, threads, Calls, AllSendsAt, given}
use roastery.Connection.History.{pending, IsOrdered, IsShort}
use roastery.Connection.Order.{Run-IsOrdered}
use roastery.Connection.Atomic.{Calls-RunOf}

-- From an open connection whose threads are in no call, let the two threads and the callers go on in
-- any order, each `send` of a `Write`, each `read` of the two `Read`s of a round, and the handling of
-- a packet a step of its own, until the threads are in no call again. If no `send` fails with an
-- errno that `Write` means to retry, and no packet has 2 ^ 64 bytes: of the packets that were
-- pending at first, followed by those given to `SendMessage` since, the first ones have been
-- written, each whole and in this order, behind what was written before, and the others are still
-- pending, in this order. So the bytes of two packets are never mixed, and no packet is lost.
pub Calls-IsOrdered :
    {W : Type 0} (p : Platform) (initial : (c : EventClass) → Tuple (event_fields c))
    (c d : Connection W) {os : List (Option (Label W))} {fd : ℕ}
    → c.socket.sock_fd ≡ some fd
    → Calls p initial os (threads c not_writing not_reading) (threads d not_writing not_reading)
    → All (AllSendsAt (IsFinal p)) os
    → All IsShort (pending c ++ given os)
    → IsOrdered c.socket.outbox (pending c ++ given os) d
Calls-IsOrdered p initial c d opened calls final small =
    let (ls, run, said, wrote) = Calls-RunOf p initial (IsFinal p) c d opened calls final in
    let all = ap (λ more. pending c ++ more) said in
    subst (λ all. IsOrdered c.socket.outbox all d) all
      (Run-IsOrdered p initial run wrote (subst (λ all. All IsShort all) (sym all) small))
