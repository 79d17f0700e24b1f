-- ===== src/Tests/Data.antt =====
-- Concrete mappings and servers.
use mbtest.Prelude.{ℕ, ◌≡◌, refl, pos, true, some, List, [], ◌∷◌, ok, arith}
use mbtest.Libmodbus.{Mapping}
use mbtest.Libmodbus.Memory.{memory as modbus}
use mbtest.ModbusServer.{ModbusServer, construct, set_up}
use mbtest.ModbusServer.Reads.{IsReady}
use mbtest.ModbusServer.Setup.{Reach, HasInputs}
use mbtest.ModbusServer.Inputs.{one_to_ten, five_on}

abbrev pub coils : List ℕ
coils = 1 ∷ 0 ∷ 0 ∷ 1 ∷ 0 ∷ 0 ∷ 0 ∷ 0 ∷ 0 ∷ 0 ∷ []

abbrev pub registers : List ℕ
registers = 700 ∷ 0 ∷ 0 ∷ 65535 ∷ 0 ∷ 0 ∷ 0 ∷ 0 ∷ 0 ∷ 9 ∷ []

abbrev pub mapping : Mapping
mapping = record {
  nb_bits = 10;
  tab_bits = coils;
  nb_input_bits = 10;
  tab_input_bits = five_on;
  nb_input_registers = 10;
  tab_input_registers = one_to_ten;
  nb_registers = 10;
  tab_registers = registers;
}

abbrev pub server : ModbusServer (Unit {0})
server = record { port = 1502; ctx = some tt; mb_mapping = some mapping; server_socket = pos 3 }

pub server-IsReady : IsReady server mapping
server-IsReady = record {
  mapped = refl;
  coils = omega arith;
  discrete = omega arith;
  inputs = omega arith;
  holding = omega arith;
}

pub server-HasInputs : HasInputs server mapping
server-HasInputs = record { ready = server-IsReady; registers = refl; bits = refl }

-- The server that `run__` sets up over the library of Libmodbus.Memory.
abbrev pub fresh : ModbusServer (Unit {0})
fresh = record {
  port = 1502;
  ctx = some tt;
  mb_mapping = some (record {
    nb_bits = 10;
    tab_bits = 0 ∷ 0 ∷ 0 ∷ 0 ∷ 0 ∷ 0 ∷ 0 ∷ 0 ∷ 0 ∷ 0 ∷ [];
    nb_input_bits = 10;
    tab_input_bits = five_on;
    nb_input_registers = 10;
    tab_input_registers = one_to_ten;
    nb_registers = 10;
    tab_registers = 0 ∷ 0 ∷ 0 ∷ 0 ∷ 0 ∷ 0 ∷ 0 ∷ 0 ∷ 0 ∷ 0 ∷ [];
  });
  server_socket = pos 3;
}

pub set_up-fresh : set_up modbus (construct (Unit {0}) 1502) ≡ ok (true, fresh)
unfolding set_up construct
set_up-fresh = refl

pub fresh-Reach : Reach modbus fresh
fresh-Reach = Reach.started 1502 set_up-fresh
