-- ===== src/Command/Replies/Types.antt =====
-- src/include/jdwp_packet.hpp: `RespFields`, the fields of a reply, of the classes of
-- `reference_type`, `class_type`, `array_type` and `method`.
use roastery.Prelude.{List, [], ◌∷◌}
use roastery.Numeric.{bool, byte, int, long}
use roastery.Ids.{
  class_id, class_loader_id, class_object_id, field_id, interface_id, method_id, reference_type_id,
}
use roastery.Fields.{id, numeric, string, tagged_object_id, value}
use roastery.Command.ReferenceType
use roastery.Command.ClassType
use roastery.Command.ArrayType
use roastery.Command.Method
use roastery.Command.RespFields.{RespField, single, vector}

abbrev pub reference_type_reply : ReferenceType.ReferenceType → List RespField
reference_type_reply ReferenceType.signature = single string ∷ []
reference_type_reply ReferenceType.class_loader = single (id class_loader_id) ∷ []
reference_type_reply ReferenceType.modifiers = single (numeric int) ∷ []
reference_type_reply ReferenceType.fields =
    vector (id field_id ∷ string ∷ string ∷ numeric int ∷ []) ∷ []
reference_type_reply ReferenceType.methods =
    vector (id method_id ∷ string ∷ string ∷ numeric int ∷ []) ∷ []
reference_type_reply ReferenceType.get_values = vector (value ∷ []) ∷ []
reference_type_reply ReferenceType.source_file = single string ∷ []
reference_type_reply ReferenceType.nested_types =
    vector (numeric byte ∷ id reference_type_id ∷ []) ∷ []
reference_type_reply ReferenceType.status = single (numeric int) ∷ []
reference_type_reply ReferenceType.interfaces = vector (id interface_id ∷ []) ∷ []
reference_type_reply ReferenceType.class_object = single (id class_object_id) ∷ []
reference_type_reply ReferenceType.source_debug_extension = single string ∷ []
reference_type_reply ReferenceType.signature_with_generic = single string ∷ single string ∷ []
reference_type_reply ReferenceType.fields_with_generic =
    vector (id field_id ∷ string ∷ string ∷ string ∷ numeric int ∷ []) ∷ []
reference_type_reply ReferenceType.methods_with_generic =
    vector (id method_id ∷ string ∷ string ∷ string ∷ numeric int ∷ []) ∷ []
reference_type_reply ReferenceType.instances = vector (tagged_object_id ∷ []) ∷ []
reference_type_reply ReferenceType.class_file_version =
    single (numeric int) ∷ single (numeric int) ∷ []
reference_type_reply ReferenceType.constant_pool =
    single (numeric int) ∷ vector (numeric byte ∷ []) ∷ []

abbrev pub class_type_reply : ClassType.ClassType → List RespField
class_type_reply ClassType.superclass = single (id class_id) ∷ []
class_type_reply ClassType.set_values = []
class_type_reply ClassType.invoke_method = single value ∷ single tagged_object_id ∷ []
class_type_reply ClassType.new_instance = single tagged_object_id ∷ single tagged_object_id ∷ []

abbrev pub array_type_reply : ArrayType.ArrayType → List RespField
array_type_reply ArrayType.new_instance = single tagged_object_id ∷ []

abbrev pub method_reply : Method.Method → List RespField
method_reply Method.line_table =
    single (numeric long) ∷ single (numeric long) ∷ vector (numeric long ∷ numeric int ∷ []) ∷ []
method_reply Method.variable_table =
    single (numeric int)
    ∷ vector (numeric long ∷ string ∷ string ∷ numeric int ∷ numeric int ∷ [])
    ∷ []
method_reply Method.bytecodes = vector (numeric byte ∷ []) ∷ []
method_reply Method.is_obsolete = single (numeric bool) ∷ []
method_reply Method.variable_table_with_generic =
    single (numeric long)
    ∷ vector (numeric long ∷ string ∷ string ∷ string ∷ numeric int ∷ numeric int ∷ [])
    ∷ []
