-- ===== src/ModbusServer/Unmapped.antt =====
-- The read methods of ModbusServer.cpp before `run__` has allocated the mapping, or after it has
-- failed to.
use mbtest.Prelude.{ℕ, ◌≡◌, refl, pos, none, List, Outcome, ok, undefined, if◌then◌else◌, leb}
use mbtest.Interfaces.{AllRegs, ModbusService}
use mbtest.ModbusServer.{
  ModbusServer, service, read_coil, read_input, read_discrete, read_holding, read_coil_all,
  read_input_all, read_discrete_all, read_holding_all, read_all,
}

-- A read of one cell refuses an index of ten or more; every other read is through a null pointer.
abbrev pub cell_read : ℕ → ℕ → Outcome (ℕ × ℕ)
cell_read n val = if leb 10 n then ok (0, val) else undefined

pub record Unmapped (m : ModbusService) : Type 0 where
  pub coil : (n val : ℕ) → m.read_coil (pos n) val ≡ cell_read n val
  pub input : (n val : ℕ) → m.read_input (pos n) val ≡ cell_read n val
  pub discrete : (n val : ℕ) → m.read_discrete (pos n) val ≡ cell_read n val
  pub holding : (n val : ℕ) → m.read_holding (pos n) val ≡ cell_read n val
  pub coil_all : (val : List ℕ) → m.read_coil_all val ≡ undefined
  pub input_all : (val : List ℕ) → m.read_input_all val ≡ undefined
  pub discrete_all : (val : List ℕ) → m.read_discrete_all val ≡ undefined
  pub holding_all : (val : List ℕ) → m.read_holding_all val ≡ undefined
  pub all : (val : AllRegs) → m.read_all val ≡ undefined

pub service-Unmapped :
    {C : Type 0} (view : ℕ → ModbusServer C) → (view 0).mb_mapping ≡ none → Unmapped (service view)
unfolding service read_coil read_input read_discrete read_holding read_coil_all read_input_all
    read_discrete_all read_holding_all read_all
service-Unmapped view e = record {
  coil = λ n val. rw e refl;
  input = λ n val. rw e refl;
  discrete = λ n val. rw e refl;
  holding = λ n val. rw e refl;
  coil_all = λ val. rw e refl;
  input_all = λ val. rw e refl;
  discrete_all = λ val. rw e refl;
  holding_all = λ val. rw e refl;
  all = λ val. rw e refl;
}
