-- ===== src/ModbusConnection/Laws.antt =====
-- A Modbus connection ends, and keeps the server as other theorems need it.
use mbtest.Prelude.{
  ℕ, zero, suc, ◌+◌, ◌<◌, ◌≡◌, refl, ap, ◌∙◌, Bool, false, ok, arith, inl, inr, Bool-cases,
}
use mbtest.Libmodbus.{Libmodbus}
use mbtest.ModbusServer.{ModbusServer, handle_modbus_request}
use mbtest.ModbusServer.Setup.{Reach}
use mbtest.ModbusConnection.{ModbusConnection, is_negative, loop, run}

module _ (L : Libmodbus) (running readable : ℕ → Bool)
    (others : ℕ → ModbusServer L.Context → ModbusServer L.Context) {Address State : Type 0}
    (conn : ModbusConnection Address State) where
  module _ (kept : (k : ℕ) (s : ModbusServer L.Context) → Reach L s → Reach L (others k s)) where
    loop_from :
        (n fuel k : ℕ) {s : ModbusServer L.Context}
        → running (k + n) ≡ false
        → n < fuel
        → Reach L s
        → (s' : ModbusServer L.Context) × (loop L running readable others conn.socket fuel k s
            ≡ ok s')
          × Reach L s'
    unfolding loop
    loop_from n zero k off enough r = absurd (omega arith)
    loop_from zero (suc fuel) k {s} off enough r =
        let stopped : running k ≡ false = ap running (omega arith) ∙ off in
        (s, rw (stopped, loop) refl, r)
    loop_from (suc n) (suc fuel) k {s} off enough r =
        let off' : running (suc k + n) ≡ false = ap running (omega arith) ∙ off in
        elim (Bool-cases (running k)) [
          | inl go_on ↦ elim (Bool-cases (readable k)) [
            | inl ready ↦
                let after : Reach L (handle_modbus_request L (others k s) conn.socket).1 =
                  Reach.handled conn.socket (kept k s r) refl in
                elim (Bool-cases
                  (is_negative (handle_modbus_request L (others k s) conn.socket).0)) [
                    | inl failed ↦ (_, rw (go_on, ready, failed, loop) refl, after)
                    | inr fine ↦
                        let (s', e, r') = loop_from n fuel (suc k) off' (omega arith) after in
                        (s', rw (go_on, ready, fine, loop) e, r')
                  ]
            | inr quiet ↦
                let (s', e, r') = loop_from n fuel (suc k) off' (omega arith) (kept k s r) in
                (s', rw (go_on, quiet, loop) e, r')
          ]
          | inr stopped ↦ (s, rw (stopped, loop) refl, r)
        ]

    -- On a server that accepts connections, whatever other Modbus connections do meanwhile that
    -- keeps it so, and whatever requests come in: if the flag of the connection is clear when its
    -- n-th round, counted from 0, reads it, `run__` returns, given more than `n` rounds of fuel.
    -- The server has then only been through requests, and the connection has been deregistered.
    pub run_lem :
        (n this fuel : ℕ) (s : ModbusServer L.Context) (base : State)
        → running n ≡ false
        → n < fuel
        → Reach L s
        → (s' : ModbusServer L.Context) × (run L running readable others conn this fuel s base
            ≡ ok (s', conn.server1.deregister_connection this base))
          × Reach L s'
    unfolding run
    run_lem n this fuel s base off enough r =
        let (s', e, r') = loop_from n fuel 0 (ap running (omega arith) ∙ off) enough r in
        (s', rw e refl, r')
