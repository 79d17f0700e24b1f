-- ===== src/ModbusServer/Destructor.antt =====
-- The destructor of ModbusServer.cpp after `run__`.
use mbtest.Prelude.{ℕ, ◌≡◌, refl, inl, inr, Bool, Option, none, some, ok, Option-cases, length}
use mbtest.Libmodbus.{Mapping, Libmodbus, IsLawful}
use mbtest.ModbusServer.{ModbusServer, construct, set_up, destroy}
use mbtest.ModbusServer.Setup.{set_up_without_context, set_up_without_mapping, set_up_with_mapping}

-- How many objects `modbus_new_tcp` and then `modbus_mapping_new` have allocated.
abbrev pub allocated : {C : Type 0} → Option C → Option Mapping → ℕ
allocated none m = 0
allocated (some c) none = 1
allocated (some c) (some m) = 2

module _ (L : Libmodbus) (lawful : IsLawful L) where
  -- The destructor frees as many objects as `run__` of a new server has allocated, on every outcome
  -- of its calls, if `modbus_tcp_listen` leaves a context a context.
  pub destroy_frees :
      (port : ℕ)
      → ((c : L.Context) → (c' : L.Context) × ((L.tcp_listen (some c) 5).0 ≡ some c'))
      → (r : Bool × ModbusServer L.Context) × (set_up L (construct L.Context port) ≡ ok r)
        × (length (destroy r.1) ≡ allocated (L.new_tcp 1502) (L.mapping_new 10 10 10 10))
  unfolding construct destroy
  destroy_frees port kept = elim (Option-cases (L.new_tcp 1502)) [
    | inl e ↦ (_, set_up_without_context L lawful (construct L.Context port) e, rw e refl)
    | inr (c, ec) ↦ elim (Option-cases (L.mapping_new 10 10 10 10)) [
      | inl em ↦
          (_, set_up_without_mapping L lawful (construct L.Context port) c ec em, rw (ec, em) refl)
      | inr (m, em) ↦
          let (c', e') = kept c in
          (
            _,
            set_up_with_mapping L lawful (construct L.Context port) c m ec em,
            rw (ec, em, e') refl,
          )
    ]
  ]
