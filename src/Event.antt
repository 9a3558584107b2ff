-- ===== src/Event.antt =====
-- src/jdwp_packet.cpp: `HeaderIsEvent`, `IJdwpEvent::FromEncoded` and `IJdwpEvent::FromComposite`.
pub mod Composite
pub mod Malformed
use Prim.Native.Nat.{bit_and}
use roastery.Prelude.{
  ℕ, zero, suc, ◌+◌, ◌^◌, Bool, true, false, ◌==◌, ltb, if◌then◌else◌, List, [], ◌∷◌,
}
use roastery.Outcome.{Outcome, ok, raised, jdwp_exception, ◌>>=◌, ◌>>◌, guard}
use roastery.Bytes.{Bytes, char_at, substr, substr_from}
use roastery.Con.{Con}
use roastery.Numeric
use roastery.Numeric.{byte, int}
use roastery.Fields.{Tuple, tuple_from_encoded}
use roastery.EventClass.{
  JdwpEventKind, EventClass, JdwpEvent, kind_to_byte, kind_of_byte, get_kind, event_fields,
}

-- `!(header[8] & 0x80) && header[9] == kEvent`: the second byte is read only if the first test
-- holds.
unfoldable pub header_is_event : Bytes → Outcome Bool
unfolding char_at
header_is_event header = do
  flags ← char_at header 8
  if bit_and flags 0x80 == 0
      then (do command_set ← char_at header 9; ok (command_set == 64))
      else ok false

-- The switch of `FromComposite`: the class of the object that is made.
unfoldable pub new_event : JdwpEventKind → Outcome EventClass
new_event JdwpEventKind.vm_start = ok EventClass.vm_start
new_event JdwpEventKind.single_step = ok EventClass.single_step
new_event JdwpEventKind.breakpoint = ok EventClass.breakpoint
new_event JdwpEventKind.method_entry = ok EventClass.method_entry
new_event JdwpEventKind.method_exit = ok EventClass.method_exit
new_event JdwpEventKind.method_exit_with_return_value = ok EventClass.method_exit_with_return_value
new_event JdwpEventKind.monitor_contended_enter = ok EventClass.monitor_contended_enter
new_event JdwpEventKind.monitor_contended_entered = ok EventClass.monitor_contended_entered
new_event JdwpEventKind.monitor_wait = ok EventClass.monitor_wait
new_event JdwpEventKind.monitor_waited = ok EventClass.monitor_waited
new_event JdwpEventKind.exception = ok EventClass.exception
new_event JdwpEventKind.thread_start = ok EventClass.thread_start
new_event JdwpEventKind.thread_death = ok EventClass.thread_death
new_event JdwpEventKind.class_prepare = ok EventClass.class_prepare
new_event JdwpEventKind.class_unload = ok EventClass.class_unload
new_event JdwpEventKind.field_access = ok EventClass.field_access
new_event JdwpEventKind.field_modification = ok EventClass.field_modification
new_event JdwpEventKind.vm_death = ok EventClass.vm_death
new_event _ = raised (jdwp_exception "Illegal eventKind in composite event")

-- `FromEncoded` of an object of the class whose fields hold `old`.
unfoldable pub from_encoded :
    (c : EventClass) → Tuple (event_fields c) → Con → Bytes → Outcome (ℕ × JdwpEvent)
unfolding kind_to_byte kind_of_byte get_kind tuple_from_encoded
from_encoded c old con encoded = do
  (_, event_kind) ← Numeric.from_encoded byte encoded
  guard (kind_to_byte (kind_of_byte event_kind) == kind_to_byte (get_kind c))
      (jdwp_exception "Wrong IJdwpEvent instance for event")
  rest ← substr_from 1 encoded
  (size, fields) ← tuple_from_encoded (event_fields c) old con rest 0
  ok (1 + size, record { class = c; fields = fields })

-- `i < event_cnt.GetValue()` from 0 on: the value is an `int32_t`, and a negative one ends the loop
-- at once.
abbrev pub rounds : ℕ → ℕ
rounds event_cnt = if ltb event_cnt (2 ^ 31) then event_cnt else 0

-- What the fields of a new object hold is given by `initial`.
module _ (initial : (c : EventClass) → Tuple (event_fields c)) (con : Con) where
  -- The loop, with the rounds that are left.
  unfoldable pub read_events : ℕ → ℕ → Bytes → Outcome (List JdwpEvent)
  unfolding new_event from_encoded substr
  read_events zero idx encoded = ok []
  read_events (suc n) idx encoded = do
    part ← substr idx 1 encoded
    (_, event_kind) ← Numeric.from_encoded byte part
    c ← new_event (kind_of_byte event_kind)
    rest ← substr_from idx encoded
    (size, ev) ← from_encoded c (initial c) con rest
    res ← read_events n (idx + size) encoded
    ok (ev ∷ res)

  -- 12 is the header and the suspend policy, which is skipped; the events follow the count.
  unfoldable pub from_composite : Bytes → Outcome (List JdwpEvent)
  unfolding header_is_event read_events
  from_composite encoded = do
    is_event ← header_is_event encoded
    guard is_event (jdwp_exception "Cannot parse non-event packet as a composite event")
    part ← substr 12 4 encoded
    (_, event_cnt) ← Numeric.from_encoded int part
    read_events (rounds event_cnt) 16 encoded
