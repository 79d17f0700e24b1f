-- ===== src/Libmodbus.antt =====
-- libmodbus, a library outside the repository that ModbusServer.cpp calls: its register mapping,
-- its calls as a parameter, and what their manual pages say.
pub mod Memory
use mbtest.Prelude.{ℕ, ◌<◌, ◌≡◌, ℤ, Option, none, some, List, length, replicate, All}

-- `modbus_mapping_t`, as far as the program reads it: the number of cells and the array of each
-- table.
pub record Mapping : Type 0 where
  pub nb_bits : ℕ
  pub tab_bits : List ℕ
  pub nb_input_bits : ℕ
  pub tab_input_bits : List ℕ
  pub nb_input_registers : ℕ
  pub tab_input_registers : List ℕ
  pub nb_registers : ℕ
  pub tab_registers : List ℕ

-- A table of `n` cells below `bound`, held in an array of that size.
abbrev pub IsTable : ℕ → ℕ → ℕ → List ℕ → Type 0
IsTable n bound nb tab = (nb ≡ n) × (length tab ≡ n) × All (λ x. x < bound) tab

-- The calls, on a context pointer that may be null. Those that act on the context give it back.
pub record Libmodbus : Type 1 where
  pub Context : Type 0
  pub new_tcp : ℕ → Option Context
  pub mapping_new : ℕ → ℕ → ℕ → ℕ → Option Mapping
  pub tcp_listen : Option Context → ℕ → Option Context × ℤ
  pub set_socket : Option Context → ℤ → Option Context
  pub receive : Option Context → Option Context × ℤ × List ℕ
  pub reply : Option Context → List ℕ → ℤ → Option Mapping → Option Context × ℤ × Option Mapping

-- `modbus_mapping_new` allocates the four tables and sets them to zero. `modbus_reply` carries out
-- one request: it writes coils and holding registers at most, within the tables.
pub record IsLawful (L : Libmodbus) : Type 0 where
  pub mapping_new_zero :
      (a b c d : ℕ) (m : Mapping)
      → L.mapping_new a b c d ≡ some m
      → m ≡ record {
        nb_bits = a;
        tab_bits = replicate a 0;
        nb_input_bits = b;
        tab_input_bits = replicate b 0;
        nb_registers = c;
        tab_registers = replicate c 0;
        nb_input_registers = d;
        tab_input_registers = replicate d 0;
      }
  pub reply_writes :
      (c : Option L.Context) (query : List ℕ) (rc : ℤ) (m : Mapping) (a b : ℕ)
      → IsTable a 256 m.nb_bits m.tab_bits
      → IsTable b 65536 m.nb_registers m.tab_registers
      → (coils : List ℕ) × (holding : List ℕ) × ((L.reply c query rc (some m)).2
          ≡ some (record m { tab_bits = coils; tab_registers = holding }))
        × IsTable a 256 m.nb_bits coils
        × IsTable b 65536 m.nb_registers holding
