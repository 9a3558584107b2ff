-- ===== src/Tests.antt =====
-- Runs of the definitions on concrete inputs, those of the repository's own tests among them
-- (test/src), and the theorems applied at concrete inputs.
mod FieldTypes
mod Blank
mod Packets
mod Requests
mod Sockets
mod Connections
mod Lifecycles
mod Sessions
mod Streams
mod Interleavings
use roastery.Con.{Con, IsSupported}
use roastery.Prelude.{arith}

-- The sizes of test/mock/mock_jdwp_con.hpp.
abbrev pub con : Con
con = record {
  get_obj_id_size = 8;
  get_method_id_size = 8;
  get_field_id_size = 8;
  get_frame_id_size = 8;
}

pub con-IsSupported : IsSupported con
con-IsSupported = record {
  obj_id = omega arith;
  method_id = omega arith;
  field_id = omega arith;
  frame_id = omega arith;
}
