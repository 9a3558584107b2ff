-- ===== src/Con.antt =====
-- src/include/jdwp_con.hpp: `IJdwpCon`, as far as the field types read it. The four sizes are
-- `uint8_t`; a connection answers each call with the same size.
use roastery.Prelude.{ℕ, ◌≤◌}

pub record Con : Type 0 where
  pub get_obj_id_size : ℕ
  pub get_method_id_size : ℕ
  pub get_field_id_size : ℕ
  pub get_frame_id_size : ℕ

-- The virtual machine's sizes fit the `uint64_t` in which an ID is kept.
pub record IsSupported (con : Con) : Type 0 where
  pub obj_id : con.get_obj_id_size ≤ 8
  pub method_id : con.get_method_id_size ≤ 8
  pub field_id : con.get_field_id_size ≤ 8
  pub frame_id : con.get_frame_id_size ≤ 8
