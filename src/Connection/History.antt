-- ===== src/Connection/History.antt =====
-- src/jdwp_con.cpp: what a run has sent, against what its callers gave to `SendMessage`.
use roastery.Prelude.{
  ◌^◌, ◌<◌, ◌≡◌, sym, ap, ◌∙◌, Option, none, some, List, [], ◌∷◌, ◌++◌, length, append_assoc,
  append-nil,
}
use roastery.Outcome.{Outcome, ok, ok-injective, ◌>>=◌, >>=-eq-ok}
use roastery.Bytes.{Bytes}
use roastery.Socket.{Platform}
use roastery.Socket.Writes.{IsFinal}
use roastery.Connection.{Connection, impl_con}
use roastery.Connection.Outgoing.{IJdwpCommandPacket, serialize}
use roastery.Connection.Steps.{AllSends, Label}

-- The packets' bytes, one after another.
unfoldable pub stream : List IJdwpCommandPacket → Outcome Bytes
unfolding serialize
stream [] = ok []
stream (message ∷ rest) = do
  text ← serialize message impl_con
  later ← stream rest
  ok (text ++ later)

-- What was given to the connection and is not yet written.
abbrev pub in_flight : Option IJdwpCommandPacket → List IJdwpCommandPacket
in_flight none = []
in_flight (some message) = message ∷ []

abbrev pub pending : {W : Type 0} → Connection W → List IJdwpCommandPacket
pending c = in_flight c.next_packet ++ c.outgoing_messages

-- The packets of `history` were written up to some point, each whole and in this order, behind `old`,
-- and the rest of them is pending.
abbrev pub IsOrdered : {W : Type 0} → Bytes → List IJdwpCommandPacket → Connection W → Type 0
IsOrdered old history c =
    (delivered : List IJdwpCommandPacket) × (text : Bytes) × (history ≡ delivered ++ pending c)
    × (stream delivered ≡ ok text)
    × (c.socket.outbox ≡ old ++ text)

-- A packet of fewer than 2 ^ 64 bytes, as every `string` is.
abbrev pub IsShort : IJdwpCommandPacket → Type 0
IsShort message = (text : Bytes) → serialize message impl_con ≡ ok text → length text < 2 ^ 64

-- No `send` fails with an errno that `Write` means to retry.
abbrev pub IsUninterrupted : {W : Type 0} → Platform → Label W → Type 0
IsUninterrupted p = AllSends (IsFinal p)

pub stream-append :
    (packets : List IJdwpCommandPacket) (message : IJdwpCommandPacket) {text more : Bytes}
    → stream packets ≡ ok text
    → serialize message impl_con ≡ ok more
    → stream (packets ++ (message ∷ [])) ≡ ok (text ++ more)
unfolding stream
stream-append [] message {text} {more} e h =
    rw h (ap ok (append-nil more ∙ ap (λ front. front ++ more) (ok-injective e)))
stream-append (packet ∷ packets) message {text} {more} e h =
    let (first, first_bytes, e') = >>=-eq-ok (serialize packet impl_con) _ e in
    let (later, later_bytes, e'') = >>=-eq-ok (stream packets) _ e' in
    rw (first_bytes, stream-append packets message later_bytes h)
      (ap ok (sym (append_assoc first later more) ∙ ap (λ front. front ++ more) (ok-injective e'')))
