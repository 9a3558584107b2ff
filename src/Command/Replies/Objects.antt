-- ===== src/Command/Replies/Objects.antt =====
-- src/include/jdwp_packet.hpp: `RespFields`, the fields of a reply, of the classes of
-- `object_reference`, `string_reference`, `array_reference`, `class_loader_reference` and `class_object_reference`.
use roastery.Prelude.{List, [], ◌∷◌}
use roastery.Numeric.{bool, byte, int}
use roastery.Ids.{reference_type_id, thread_id}
use roastery.Fields.{array_region, id, numeric, string, tagged_object_id, value}
use roastery.Command.ObjectReference
use roastery.Command.StringReference
use roastery.Command.ArrayReference
use roastery.Command.ClassLoaderReference
use roastery.Command.ClassObjectReference
use roastery.Command.RespFields.{RespField, single, vector}

abbrev pub object_reference_reply : ObjectReference.ObjectReference → List RespField
object_reference_reply ObjectReference.reference_type =
    single (numeric byte) ∷ single (id reference_type_id) ∷ []
object_reference_reply ObjectReference.get_values = vector (value ∷ []) ∷ []
object_reference_reply ObjectReference.set_values = []
object_reference_reply ObjectReference.monitor_info =
    single (id thread_id) ∷ single (numeric int) ∷ vector (id thread_id ∷ []) ∷ []
object_reference_reply ObjectReference.invoke_method = single value ∷ single tagged_object_id ∷ []
object_reference_reply ObjectReference.disable_collection = []
object_reference_reply ObjectReference.enable_collection = []
object_reference_reply ObjectReference.is_collected = single (numeric bool) ∷ []
object_reference_reply ObjectReference.referring_objects = vector (tagged_object_id ∷ []) ∷ []

abbrev pub string_reference_reply : StringReference.StringReference → List RespField
string_reference_reply StringReference.value = single string ∷ []

abbrev pub array_reference_reply : ArrayReference.ArrayReference → List RespField
array_reference_reply ArrayReference.length = single (numeric int) ∷ []
array_reference_reply ArrayReference.get_values = single array_region ∷ []
array_reference_reply ArrayReference.set_values = []

abbrev pub class_loader_reference_reply : ClassLoaderReference.ClassLoaderReference → List RespField
class_loader_reference_reply ClassLoaderReference.visible_classes =
    vector (numeric byte ∷ id reference_type_id ∷ []) ∷ []

abbrev pub class_object_reference_reply : ClassObjectReference.ClassObjectReference → List RespField
class_object_reference_reply ClassObjectReference.reflected_type =
    single (numeric byte) ∷ single (id reference_type_id) ∷ []
