-- ===== src/ModbusServer/Reads.antt =====
-- The read methods of ModbusServer.cpp on a server with its mapping, and on one without.
use mbtest.Prelude.{
  ℕ, ◌≡◌, refl, ap, inl, inr, pos, true, some, List, ok, ◌>>=◌, deref, arith, if◌then◌else◌, leb,
  leb→le, length, get_elem?, get_elem?_beyond, get_elem?_within, take-length, Bool-cases,
}
use mbtest.Interfaces.{AllRegs, cell_or, Serves}
use mbtest.Libmodbus.{Mapping, IsTable}
use mbtest.ModbusServer.{
  ModbusServer, copy, read_coil, read_input, read_discrete, read_holding, read_coil_all,
  read_input_all, read_discrete_all, read_holding_all, read_all, service,
}

-- The server holds the mapping `m`, whose tables have ten cells each.
pub record IsReady {C : Type 0} (s : ModbusServer C) (m : Mapping) : Type 0 where
  pub mapped : s.mb_mapping ≡ some m
  pub coils : IsTable 10 256 m.nb_bits m.tab_bits
  pub discrete : IsTable 10 256 m.nb_input_bits m.tab_input_bits
  pub inputs : IsTable 10 65536 m.nb_input_registers m.tab_input_registers
  pub holding : IsTable 10 65536 m.nb_registers m.tab_registers

-- The tables that a client sees, each from a mapping of its own.
abbrev pub tables : Mapping → Mapping → Mapping → Mapping → AllRegs
tables a b c d = record {
  coils = a.tab_bits;
  inputs = b.tab_input_registers;
  discrete = c.tab_input_bits;
  holding = d.tab_registers;
}

in_range_cell :
    (tab : List ℕ) (n val : ℕ)
    → length tab ≡ 10
    → (if leb 10 n then ok (0, val) else (deref (get_elem? tab n) >>= λ v. ok (1, v)))
      ≡ cell_or (get_elem? tab n) val
in_range_cell tab n val h = elim (Bool-cases (leb 10 n)) [
  | inl beyond ↦ rw (beyond, get_elem?_beyond tab n (omega (arith, leb→le 10 n beyond))) refl
  | inr within ↦ let (v, e) = get_elem?_within tab n (ground arith) in rw (within, e) refl
]

copy_whole : (tab : List ℕ) (n : ℕ) → n ≡ 10 → length tab ≡ 10 → copy tab n ≡ ok tab
unfolding copy
copy_whole tab n e h =
    let fits : leb n (length tab) ≡ true = ground arith in
    let whole : n ≡ length tab = omega arith in rw fits (rw whole (ap ok (take-length tab)))

module _ {C : Type 0} {s : ModbusServer C} {m : Mapping} (r : IsReady s m) where
  read_coil_lem : (n val : ℕ) → read_coil s (pos n) val ≡ cell_or (get_elem? m.tab_bits n) val
  unfolding read_coil
  read_coil_lem n val = rw r.mapped (in_range_cell m.tab_bits n val r.coils.1)

  pub read_input_lem :
      (n val : ℕ) → read_input s (pos n) val ≡ cell_or (get_elem? m.tab_input_registers n) val
  unfolding read_input
  read_input_lem n val = rw r.mapped (in_range_cell m.tab_input_registers n val r.inputs.1)

  pub read_discrete_lem :
      (n val : ℕ) → read_discrete s (pos n) val ≡ cell_or (get_elem? m.tab_input_bits n) val
  unfolding read_discrete
  read_discrete_lem n val = rw r.mapped (in_range_cell m.tab_input_bits n val r.discrete.1)

  read_holding_lem :
      (n val : ℕ) → read_holding s (pos n) val ≡ cell_or (get_elem? m.tab_registers n) val
  unfolding read_holding
  read_holding_lem n val = rw r.mapped (in_range_cell m.tab_registers n val r.holding.1)

  read_coil_all_lem : (val : List ℕ) → read_coil_all s val ≡ ok (1, m.tab_bits)
  unfolding read_coil_all
  read_coil_all_lem val = rw (r.mapped, copy_whole _ _ r.coils.0 r.coils.1) refl

  read_input_all_lem : (val : List ℕ) → read_input_all s val ≡ ok (1, m.tab_input_registers)
  unfolding read_input_all
  read_input_all_lem val = rw (r.mapped, copy_whole _ _ r.inputs.0 r.inputs.1) refl

  read_discrete_all_lem : (val : List ℕ) → read_discrete_all s val ≡ ok (1, m.tab_input_bits)
  unfolding read_discrete_all
  read_discrete_all_lem val = rw (r.mapped, copy_whole _ _ r.discrete.0 r.discrete.1) refl

  read_holding_all_lem : (val : List ℕ) → read_holding_all s val ≡ ok (1, m.tab_registers)
  unfolding read_holding_all
  read_holding_all_lem val = rw (r.mapped, copy_whole _ _ r.holding.0 r.holding.1) refl

module _ {C : Type 0} (view : ℕ → ModbusServer C) (a b c d : Mapping) where
  read_all_lem :
      (val : AllRegs)
      → IsReady (view 0) a
      → IsReady (view 1) b
      → IsReady (view 2) c
      → IsReady (view 3) d
      → read_all view val ≡ ok (1, tables a b c d)
  unfolding read_all
  read_all_lem val ra rb rc rd =
      rw
        (
          read_coil_all_lem ra,
          read_input_all_lem rb,
          read_discrete_all_lem rc,
          read_holding_all_lem rd,
        )
        refl

  -- If the server holds a mapping at each of the four times when a command can take the mutex, its
  -- methods keep the promise of `IModbusService`: single cells and single tables are those of the
  -- first time, and `read_all` answers each table as it was at a time of its own.
  pub service-Serves :
      IsReady (view 0) a
      → IsReady (view 1) b
      → IsReady (view 2) c
      → IsReady (view 3) d
      → Serves (service view) (tables a a a a) (tables a b c d)
  unfolding service
  service-Serves ra rb rc rd = record {
    coil = read_coil_lem ra;
    input = read_input_lem ra;
    discrete = read_discrete_lem ra;
    holding = read_holding_lem ra;
    coil_all = read_coil_all_lem ra;
    input_all = read_input_all_lem ra;
    discrete_all = read_discrete_all_lem ra;
    holding_all = read_holding_all_lem ra;
    all = λ val. read_all_lem val ra rb rc rd;
  }
