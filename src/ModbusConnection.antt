-- ===== src/ModbusConnection.antt =====
-- ModbusConnection.h and ModbusConnection.cpp: a connection of a Modbus client. Each round waits in
-- `select`; `fcntl` and the lines to `std::cout` change nothing that is modelled.
pub mod Laws
use mbtest.Prelude.{
  ℕ, zero, suc, ℤ, pos, negsuc, Bool, true, false, Outcome, ok, out_of_fuel, ◌>>=◌,
}
use mbtest.Posix.{Posix}
use mbtest.Worker.{cancel_io}
use mbtest.Interfaces.{BaseService}
use mbtest.Libmodbus.{Libmodbus}
use mbtest.ModbusServer.{ModbusServer, handle_modbus_request}

-- `n1 < 0`
abbrev pub is_negative : ℤ → Bool
is_negative (pos n) = false
is_negative (negsuc n) = true

-- The members, but for `server2_`, which is the server that `run__` gets.
pub record ModbusConnection (Address State : Type 0) : Type 0 where
  pub socket : ℤ
  pub clientaddr : Address
  pub server1 : BaseService State

-- The constructor
abbrev pub construct :
    {Address State : Type 0} → ℤ → Address → BaseService State → ModbusConnection Address State
construct socket clientaddr server1 = record {
  socket = socket;
  clientaddr = clientaddr;
  server1 = server1;
}

-- `stop__` of the connection at address `this`
abbrev pub stop :
    {Address State : Type 0} (P : Posix) → ModbusConnection Address State → ℕ → P.State → P.State
stop P c this s = cancel_io P this (P.close c.socket s)

module _ (L : Libmodbus) where
  module _ (running readable : ℕ → Bool)
      (others : ℕ → ModbusServer L.Context → ModbusServer L.Context) where
    -- The loop of `run__` on `fuel` rounds, from round `k` on. `running k` is the flag when round
    -- `k` reads it, `readable k` whether its `select` has set the bit of the socket, and `others k`
    -- what other connections have done to the server meanwhile.
    pub loop : ℤ → ℕ → ℕ → ModbusServer L.Context → Outcome (ModbusServer L.Context)
    loop sock zero k s = out_of_fuel
    loop sock (suc fuel) k s = elim (running k) [
      | true ↦ elim (readable k) [
        | true ↦
            let (n1, s') = handle_modbus_request L (others k s) sock in
            elim (is_negative n1) [ true ↦ ok s' | false ↦ loop sock fuel (suc k) s' ]
        | false ↦ loop sock fuel (suc k) (others k s)
      ]
      | false ↦ ok s
    ]

    -- `run__` of the connection at address `this`.
    pub run :
        {Address State : Type 0}
        → ModbusConnection Address State
        → ℕ
        → ℕ
        → ModbusServer L.Context
        → State
        → Outcome (ModbusServer L.Context × State)
    run c this fuel s base = do
      s' ← loop c.socket fuel 0 s
      ok (s', c.server1.deregister_connection this base)
