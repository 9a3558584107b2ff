-- ===== src/EventClass.antt =====
-- src/include/jdwp_packet.hpp and src/include/jdwp_type.hpp: the kinds of events, and the classes
-- of events with the kind and the fields that each gives to `EventBase`.
use roastery.Prelude.{ℕ, ◌==◌, if◌then◌else◌, List, [], ◌∷◌}
use roastery.Numeric.{byte, bool, int, long}
use roastery.Ids.{thread_id, reference_type_id, field_id}
use roastery.Fields.{FieldType, Tuple, numeric, id, tagged_object_id, location, string, value}

-- `JdwpEventKind`, an enum over `uint8_t`; `other` is a byte with no name.
pub data JdwpEventKind : Type 0 where
  single_step breakpoint frame_pop exception user_defined thread_start : JdwpEventKind
  thread_death class_prepare class_unload class_load field_access : JdwpEventKind
  field_modification exception_catch method_entry method_exit : JdwpEventKind
  method_exit_with_return_value monitor_contended_enter : JdwpEventKind
  monitor_contended_entered monitor_wait monitor_waited vm_start vm_death : JdwpEventKind
  other : ℕ → JdwpEventKind

unfoldable pub kind_to_byte : JdwpEventKind → ℕ
kind_to_byte single_step = 1
kind_to_byte breakpoint = 2
kind_to_byte frame_pop = 3
kind_to_byte exception = 4
kind_to_byte user_defined = 5
kind_to_byte thread_start = 6
kind_to_byte thread_death = 7
kind_to_byte class_prepare = 8
kind_to_byte class_unload = 9
kind_to_byte class_load = 10
kind_to_byte field_access = 20
kind_to_byte field_modification = 21
kind_to_byte exception_catch = 30
kind_to_byte method_entry = 40
kind_to_byte method_exit = 41
kind_to_byte method_exit_with_return_value = 42
kind_to_byte monitor_contended_enter = 43
kind_to_byte monitor_contended_entered = 44
kind_to_byte monitor_wait = 45
kind_to_byte monitor_waited = 46
kind_to_byte vm_start = 90
kind_to_byte vm_death = 99
kind_to_byte (other b) = b

-- `static_cast<JdwpEventKind>(b)`.
unfoldable pub kind_of_byte : ℕ → JdwpEventKind
kind_of_byte b =
    if b == 1
    then single_step
    else if b == 2
    then breakpoint
    else if b == 3
    then frame_pop
    else if b == 4
    then exception
    else if b == 5
    then user_defined
    else if b == 6
    then thread_start
    else if b == 7
    then thread_death
    else if b == 8
    then class_prepare
    else if b == 9
    then class_unload
    else if b == 10
    then class_load
    else if b == 20
    then field_access
    else if b == 21
    then field_modification
    else if b == 30
    then exception_catch
    else if b == 40
    then method_entry
    else if b == 41
    then method_exit
    else if b == 42
    then method_exit_with_return_value
    else if b == 43
    then monitor_contended_enter
    else if b == 44
    then monitor_contended_entered
    else if b == 45
    then monitor_wait
    else if b == 46
    then monitor_waited
    else if b == 90
    then vm_start
    else if b == 99
    then vm_death
    else other b

-- The classes of `AllEvents`.
pub data EventClass : Type 0 where
  vm_start single_step breakpoint method_entry method_exit : EventClass
  method_exit_with_return_value monitor_contended_enter : EventClass
  monitor_contended_entered monitor_wait monitor_waited exception thread_start : EventClass
  thread_death class_prepare class_unload field_access field_modification : EventClass
  vm_death : EventClass

-- The template argument `kind`, which `GetKind` returns.
unfoldable pub get_kind : EventClass → JdwpEventKind
get_kind EventClass.vm_start = JdwpEventKind.vm_start
get_kind EventClass.single_step = JdwpEventKind.single_step
get_kind EventClass.breakpoint = JdwpEventKind.breakpoint
get_kind EventClass.method_entry = JdwpEventKind.method_entry
get_kind EventClass.method_exit = JdwpEventKind.method_exit
get_kind EventClass.method_exit_with_return_value = JdwpEventKind.method_exit_with_return_value
get_kind EventClass.monitor_contended_enter = JdwpEventKind.monitor_contended_enter
get_kind EventClass.monitor_contended_entered = JdwpEventKind.monitor_contended_entered
get_kind EventClass.monitor_wait = JdwpEventKind.monitor_wait
get_kind EventClass.monitor_waited = JdwpEventKind.monitor_waited
get_kind EventClass.exception = JdwpEventKind.exception
get_kind EventClass.thread_start = JdwpEventKind.thread_start
get_kind EventClass.thread_death = JdwpEventKind.thread_death
get_kind EventClass.class_prepare = JdwpEventKind.class_prepare
get_kind EventClass.class_unload = JdwpEventKind.class_unload
get_kind EventClass.field_access = JdwpEventKind.field_access
get_kind EventClass.field_modification = JdwpEventKind.field_modification
get_kind EventClass.vm_death = JdwpEventKind.vm_death

-- The template argument `Fields`.
abbrev pub event_fields : EventClass → List FieldType
event_fields EventClass.vm_start = numeric int ∷ id thread_id ∷ []
event_fields EventClass.single_step = numeric int ∷ id thread_id ∷ location ∷ []
event_fields EventClass.breakpoint = numeric int ∷ id thread_id ∷ location ∷ []
event_fields EventClass.method_entry = numeric int ∷ id thread_id ∷ location ∷ []
event_fields EventClass.method_exit = numeric int ∷ id thread_id ∷ location ∷ []
event_fields EventClass.method_exit_with_return_value =
    numeric int ∷ id thread_id ∷ location ∷ value ∷ []
event_fields EventClass.monitor_contended_enter =
    numeric int ∷ id thread_id ∷ tagged_object_id ∷ location ∷ []
event_fields EventClass.monitor_contended_entered =
    numeric int ∷ id thread_id ∷ tagged_object_id ∷ location ∷ []
event_fields EventClass.monitor_wait =
    numeric int ∷ id thread_id ∷ tagged_object_id ∷ location ∷ numeric long ∷ []
event_fields EventClass.monitor_waited =
    numeric int ∷ id thread_id ∷ tagged_object_id ∷ location ∷ numeric bool ∷ []
event_fields EventClass.exception =
    numeric int ∷ id thread_id ∷ location ∷ tagged_object_id ∷ location ∷ []
event_fields EventClass.thread_start = numeric int ∷ id thread_id ∷ []
event_fields EventClass.thread_death = numeric int ∷ id thread_id ∷ []
event_fields EventClass.class_prepare =
    numeric int ∷ id thread_id ∷ numeric byte ∷ id reference_type_id ∷ string ∷ numeric int ∷ []
event_fields EventClass.class_unload = numeric int ∷ string ∷ []
event_fields EventClass.field_access =
    numeric int
    ∷ id thread_id
    ∷ location
    ∷ numeric byte
    ∷ id reference_type_id
    ∷ id field_id
    ∷ tagged_object_id
    ∷ []
event_fields EventClass.field_modification =
    numeric int
    ∷ id thread_id
    ∷ location
    ∷ numeric byte
    ∷ id reference_type_id
    ∷ id field_id
    ∷ tagged_object_id
    ∷ value
    ∷ []
event_fields EventClass.vm_death = numeric int ∷ []

-- An object of one of the classes.
pub record JdwpEvent : Type 0 where
  pub class : EventClass
  pub fields : Tuple (event_fields class)
