-- ===== src/Tests/Requests.antt =====
-- Events, and the requests that serialize themselves.
use roastery.Prelude.{◌≡◌, refl, true, [], ◌∷◌, ◌++◌, arith}
use roastery.Outcome.{ok, raised}
use roastery.Bytes.{Bytes, char_at, big_endian, memory_of}
use roastery.Numeric
use roastery.Ids.{class_id, obj_id, array_id, get_size}
use roastery.Tags.{JdwpTag}
use roastery.Value
use roastery.Fields.{serialize_tuple, serialize_field}
use roastery.EventClass.{
  kind_of_byte, kind_to_byte, get_kind, event_fields, JdwpEvent, vm_death, kind_to_byte, get_kind,
}
use roastery.Event.Malformed.{illegal, from_composite-illegal}
use roastery.Event.{new_event, header_is_event, from_composite}
use roastery.Event.Composite.{Encodes, no_events, event, from_composite-Encodes}
use roastery.Command
use roastery.Command.ClassType
use roastery.Command.ObjectReference
use roastery.Command.ArrayReference
use roastery.Packet.{CommandPacket}
use roastery.Packet.SetValues.{
  serialize_class_values, serialize_object_values, serialize_array_region,
}
use roastery.Packet.SetValues.Layout.{field_values, array_values, set_values_layout}
use roastery.Packet.SetCommand.{
  SetCommand, Modifier, modifier_fields, alternative_0, serialize_modifiers, serialize_impl,
}
use roastery.Packet.SetCommand.Framing.{IsReadAs, set_command-IsReadAs}
use roastery.Tests.{con, con-IsSupported}
use roastery.Tests.Blank.{blank_tuple, blank_tuple-IsClear}

abbrev death : JdwpEvent
death = record { class = vm_death; fields = (7, tt) }

-- The kind of the event and its request.
abbrev death_bytes : Bytes
death_bytes = 99 ∷ ((0 ∷ 0 ∷ 0 ∷ 7 ∷ []) ++ [])

death_sent : serialize_tuple (event_fields vm_death) (7, tt) con ≡ ok (0 ∷ 0 ∷ 0 ∷ 7 ∷ [])
unfolding serialize_tuple serialize_field Numeric.serialize Numeric.write_back memory_of
death_sent = refl

death_encoded : Encodes con (death ∷ []) death_bytes
unfolding kind_to_byte get_kind
death_encoded = event (omega arith, tt) death_sent no_events

-- The header of a composite event: its command set is 64 and its command 100.
abbrev event_header : Bytes
event_header = 0 ∷ 0 ∷ 0 ∷ 21 ∷ 0 ∷ 0 ∷ 0 ∷ 1 ∷ 0 ∷ 64 ∷ 100 ∷ []

is_event : header_is_event event_header ≡ ok true
unfolding header_is_event char_at
is_event = refl

from_composite-Encodes_example :
    from_composite
      (λ c. blank_tuple (event_fields c))
      con
      (event_header ++ (2 ∷ (big_endian 4 1 ++ (death_bytes ++ []))))
    ≡ ok (death ∷ [])
from_composite-Encodes_example =
    from_composite-Encodes con (λ c. blank_tuple (event_fields c)) event_header 2 (death ∷ [])
      death_bytes [] con-IsSupported (λ c. blank_tuple-IsClear con (event_fields c)) refl is_event
      (omega arith) death_encoded

-- `kFramePop`.
no_class : new_event (kind_of_byte 3) ≡ raised illegal
unfolding new_event kind_of_byte
no_class = refl

from_composite-illegal_example :
    from_composite
      (λ c. blank_tuple (event_fields c))
      con
      (event_header ++ (2 ∷ (big_endian 4 2 ++ (death_bytes ++ (3 ∷ 1 ∷ [])))))
    ≡ raised illegal
from_composite-illegal_example =
    from_composite-illegal con (λ c. blank_tuple (event_fields c)) event_header 2 2 3 (death ∷ [])
      death_bytes (1 ∷ []) con-IsSupported (λ c. blank_tuple-IsClear con (event_fields c)) refl
      is_event (omega arith) death_encoded (omega arith) no_class

abbrev count : Modifier
count = record { alternative = alternative_0; values = (3, tt) }

abbrev request : SetCommand
request = record { packet_id = 9; event_kind = 2; suspend_policy = 1; modifiers = count ∷ [] }

count_sent : serialize_modifiers (count ∷ []) con ≡ ok (1 ∷ 0 ∷ 0 ∷ 0 ∷ 3 ∷ [])
unfolding serialize_modifiers serialize_tuple serialize_field Numeric.serialize Numeric.write_back
    memory_of
count_sent = refl

set_command-IsReadAs_example :
    (sent : Bytes) × (serialize_impl request con ≡ ok sent)
    × IsReadAs con (λ a. blank_tuple (modifier_fields a)) request sent
set_command-IsReadAs_example =
    set_command-IsReadAs request con (λ a. blank_tuple (modifier_fields a)) (1 ∷ 0 ∷ 0 ∷ 0 ∷ 3 ∷ [])
      con-IsSupported (λ a. blank_tuple-IsClear con (modifier_fields a)) ((omega arith, tt), tt)
      (omega arith) (omega arith) (omega arith) (omega arith) count_sent (omega arith)

abbrev number : Value.JdwpValue
number = record { tag = JdwpTag.int; value = Value.JdwpVal.int 0x12345678 }

abbrev of_class : CommandPacket (Command.class_type ClassType.set_values)
of_class = record { id = 1; fields = (0x1234, ((7, (number, tt)) ∷ [], tt)) }

abbrev of_object : CommandPacket (Command.object_reference ObjectReference.set_values)
of_object = record { id = 2; fields = (0x1234, ((7, (number, tt)) ∷ [], tt)) }

abbrev of_array : CommandPacket (Command.array_reference ArrayReference.set_values)
of_array = record { id = 3; fields = (0x1234, (5, ((number, tt) ∷ [], tt))) }

set_values_layout_example :
    (serialize_class_values of_class con
      ≡ ok (big_endian (get_size class_id con) 0x1234 ++ field_values con ((7, (number, tt)) ∷ [])))
    × (serialize_object_values of_object con
        ≡ ok (big_endian (get_size obj_id con) 0x1234 ++ field_values con ((7, (number, tt)) ∷ [])))
    × (serialize_array_region of_array con
        ≡ ok (
            big_endian (get_size array_id con) 0x1234
            ++ (big_endian 4 5 ++ array_values con ((number, tt) ∷ []))))
set_values_layout_example = set_values_layout con of_class of_object of_array con-IsSupported
