-- ===== src/Interfaces.antt =====
-- Interfaces.h: the data and the services that the classes of the server offer one another.
use mbtest.Prelude.{ℕ, ℤ, pos, ◌≡◌, Outcome, ok, Option, none, some, List, get_elem?}

-- The four register tables: `tab_bits`, `tab_input_bits`, `tab_input_registers`, `tab_registers`.
pub record AllRegs : Type 0 where
  pub coils : List ℕ
  pub discrete : List ℕ
  pub inputs : List ℕ
  pub holding : List ℕ

-- `IModbusService`, as its methods behave at the time of a call. A method gets the old value of its
-- output parameter and returns its `int` with the new value. `handleModbusRequest`, which only
-- `ModbusConnection` calls, is `handle_modbus_request` of ModbusServer.
pub record ModbusService : Type 0 where
  pub read_coil : ℤ → ℕ → Outcome (ℕ × ℕ)
  pub read_input : ℤ → ℕ → Outcome (ℕ × ℕ)
  pub read_discrete : ℤ → ℕ → Outcome (ℕ × ℕ)
  pub read_holding : ℤ → ℕ → Outcome (ℕ × ℕ)
  pub read_coil_all : List ℕ → Outcome (ℕ × List ℕ)
  pub read_input_all : List ℕ → Outcome (ℕ × List ℕ)
  pub read_discrete_all : List ℕ → Outcome (ℕ × List ℕ)
  pub read_holding_all : List ℕ → Outcome (ℕ × List ℕ)
  pub read_all : AllRegs → Outcome (ℕ × AllRegs)

-- `IBaseService`, over the state of the server that keeps the connections. A worker is its address.
pub record BaseService (State : Type 0) : Type 0 where
  pub register_connection : ℕ → State → State
  pub deregister_connection : ℕ → State → State

-- `IGlobalService`
pub record GlobalService (State : Type 0) : Type 0 where
  pub delete_worker : ℕ → State → State

-- The answer to a read of one cell: 1 and the value, or 0 and the output parameter as it was.
abbrev pub cell_or : Option ℕ → ℕ → Outcome (ℕ × ℕ)
cell_or none val = ok (0, val)
cell_or (some v) val = ok (1, v)

-- What the clients of the service rely on: reads of one cell or of one table answer from the
-- tables `now`, and a read of all tables answers `snapshot`.
pub record Serves (m : ModbusService) (now snapshot : AllRegs) : Type 0 where
  pub coil : (n val : ℕ) → m.read_coil (pos n) val ≡ cell_or (get_elem? now.coils n) val
  pub input : (n val : ℕ) → m.read_input (pos n) val ≡ cell_or (get_elem? now.inputs n) val
  pub discrete : (n val : ℕ) → m.read_discrete (pos n) val ≡ cell_or (get_elem? now.discrete n) val
  pub holding : (n val : ℕ) → m.read_holding (pos n) val ≡ cell_or (get_elem? now.holding n) val
  pub coil_all : (val : List ℕ) → m.read_coil_all val ≡ ok (1, now.coils)
  pub input_all : (val : List ℕ) → m.read_input_all val ≡ ok (1, now.inputs)
  pub discrete_all : (val : List ℕ) → m.read_discrete_all val ≡ ok (1, now.discrete)
  pub holding_all : (val : List ℕ) → m.read_holding_all val ≡ ok (1, now.holding)
  pub all : (val : AllRegs) → m.read_all val ≡ ok (1, snapshot)
