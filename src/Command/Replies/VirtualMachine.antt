-- ===== src/Command/Replies/VirtualMachine.antt =====
-- src/include/jdwp_packet.hpp: `RespFields`, the fields of a reply, of the classes of
-- `virtual_machine`.
use roastery.Prelude.{List, [], ◌∷◌}
use roastery.Numeric.{bool, byte, int, long}
use roastery.Ids.{reference_type_id, string_id, thread_group_id, thread_id}
use roastery.Fields.{id, numeric, string}
use roastery.Command.VirtualMachine
use roastery.Command.RespFields.{RespField, plain_vector, repeated_tuple, single, vector}

abbrev pub virtual_machine_reply : VirtualMachine.VirtualMachine → List RespField
virtual_machine_reply VirtualMachine.version =
    single string ∷ single (numeric int) ∷ single (numeric int) ∷ single string ∷ single string ∷ []
virtual_machine_reply VirtualMachine.classes_by_signature =
    vector (numeric byte ∷ id reference_type_id ∷ numeric int ∷ []) ∷ []
virtual_machine_reply VirtualMachine.all_classes =
    vector (numeric byte ∷ id reference_type_id ∷ string ∷ numeric int ∷ []) ∷ []
virtual_machine_reply VirtualMachine.all_threads = vector (id thread_id ∷ []) ∷ []
virtual_machine_reply VirtualMachine.top_level_thread_groups =
    plain_vector (id thread_group_id) ∷ []
virtual_machine_reply VirtualMachine.dispose = []
virtual_machine_reply VirtualMachine.id_sizes =
    single (numeric int)
    ∷ single (numeric int)
    ∷ single (numeric int)
    ∷ single (numeric int)
    ∷ single (numeric int)
    ∷ []
virtual_machine_reply VirtualMachine.suspend = []
virtual_machine_reply VirtualMachine.resume = []
virtual_machine_reply VirtualMachine.exit = []
virtual_machine_reply VirtualMachine.create_string = single (id string_id) ∷ []
virtual_machine_reply VirtualMachine.capabilities =
    single (numeric bool)
    ∷ single (numeric bool)
    ∷ single (numeric bool)
    ∷ single (numeric bool)
    ∷ single (numeric bool)
    ∷ single (numeric bool)
    ∷ single (numeric bool)
    ∷ []
virtual_machine_reply VirtualMachine.class_paths =
    single string ∷ vector (string ∷ []) ∷ vector (string ∷ []) ∷ []
virtual_machine_reply VirtualMachine.dispose_objects = []
virtual_machine_reply VirtualMachine.hold_events = []
virtual_machine_reply VirtualMachine.release_events = []
virtual_machine_reply VirtualMachine.capabilities_new = repeated_tuple (single (numeric bool)) 32
virtual_machine_reply VirtualMachine.set_default_stratum = []
virtual_machine_reply VirtualMachine.all_classes_with_generic =
    vector (numeric byte ∷ id reference_type_id ∷ string ∷ string ∷ numeric int ∷ []) ∷ []
virtual_machine_reply VirtualMachine.instance_counts = vector (numeric long ∷ []) ∷ []
