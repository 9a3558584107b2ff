-- ===== src/Command/VirtualMachine.antt =====
-- src/include/jdwp_packet.hpp: the classes of `virtual_machine` that `CommandPacketBase` implements.
-- `RedefineClassesCommand` is not among them: its `Fields` have a vector of plain fields, for which
-- `RecursiveSerialize` does not compile.
use roastery.Prelude.{ℕ, ◌≡◌, refl, Option, some, List, [], ◌∷◌, first_with}
use roastery.Numeric.{int}
use roastery.Ids.{obj_id, reference_type_id}
use roastery.Fields.{Element, single, vector, numeric, id, string}

pub data VirtualMachine : Type 0 where
  version classes_by_signature all_classes all_threads top_level_thread_groups dispose :
      VirtualMachine
  id_sizes suspend resume exit create_string capabilities class_paths dispose_objects :
      VirtualMachine
  hold_events release_events capabilities_new set_default_stratum : VirtualMachine
  all_classes_with_generic instance_counts : VirtualMachine

-- The codes of the enum `VirtualMachine`.
unfoldable pub command : VirtualMachine → ℕ
command version = 1
command classes_by_signature = 2
command all_classes = 3
command all_threads = 4
command top_level_thread_groups = 5
command dispose = 6
command id_sizes = 7
command suspend = 8
command resume = 9
command exit = 10
command create_string = 11
command capabilities = 12
command class_paths = 13
command dispose_objects = 14
command hold_events = 15
command release_events = 16
command capabilities_new = 17
command set_default_stratum = 19
command all_classes_with_generic = 20
command instance_counts = 21

-- `Fields` of each class.
abbrev pub request : VirtualMachine → List Element
request version = []
request classes_by_signature = single string ∷ []
request all_classes = []
request all_threads = []
request top_level_thread_groups = []
request dispose = []
request id_sizes = []
request suspend = []
request resume = []
request exit = single (numeric int) ∷ []
request create_string = single string ∷ []
request capabilities = []
request class_paths = []
request dispose_objects = vector (id obj_id ∷ numeric int ∷ []) ∷ []
request hold_events = []
request release_events = []
request capabilities_new = []
request set_default_stratum = single string ∷ []
request all_classes_with_generic = []
request instance_counts = vector (id reference_type_id ∷ []) ∷ []

-- The class with a given code.
unfoldable pub of_code : ℕ → Option VirtualMachine
unfolding command
of_code code = first_with command code (
    version ∷ classes_by_signature ∷ all_classes ∷ all_threads ∷ top_level_thread_groups ∷ dispose
    ∷ id_sizes ∷ suspend ∷ resume ∷ exit ∷ create_string ∷ capabilities ∷ class_paths
    ∷ dispose_objects ∷ hold_events ∷ release_events ∷ capabilities_new ∷ set_default_stratum
    ∷ all_classes_with_generic ∷ instance_counts ∷ [])

pub of_code-command : (c : VirtualMachine) → of_code (command c) ≡ some c
unfolding of_code command
of_code-command version = refl
of_code-command _ = refl
