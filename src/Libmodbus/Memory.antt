-- ===== src/Libmodbus/Memory.antt =====
-- A Modbus library that always succeeds and whose every request sets the first coil: an instance of
-- the interface that meets what is asked of it.
use mbtest.Prelude.{ℕ, refl, sym, pos, some, List, [], ◌∷◌, replicate, arith}
use mathlib.Core.Option
use mathlib.Core.Option.{some-injective}
use mbtest.Libmodbus.{Mapping, IsTable, Libmodbus, IsLawful}

abbrev set_first : List ℕ → List ℕ
set_first [] = []
set_first (x ∷ xs) = 1 ∷ xs

abbrev set_first_coil : Mapping → Mapping
set_first_coil m = record m { tab_bits = set_first m.tab_bits }

abbrev zeros : ℕ → ℕ → ℕ → ℕ → Mapping
zeros a b c d = record {
  nb_bits = a;
  tab_bits = replicate a 0;
  nb_input_bits = b;
  tab_input_bits = replicate b 0;
  nb_registers = c;
  tab_registers = replicate c 0;
  nb_input_registers = d;
  tab_input_registers = replicate d 0;
}

abbrev pub memory : Libmodbus
memory = record {
  Context = Unit {0};
  new_tcp = λ port. some tt;
  mapping_new = λ a b c d. some (zeros a b c d);
  tcp_listen = λ c n. (c, pos 3);
  set_socket = λ c sock. c;
  receive = λ c. (c, pos 12, []);
  reply = λ c query rc m. (c, pos 12, Option.map set_first_coil m);
}

set_first-IsTable :
    (n nb : ℕ) (tab : List ℕ) → IsTable n 256 nb tab → IsTable n 256 nb (set_first tab)
set_first-IsTable n nb [] h = h
set_first-IsTable n nb (x ∷ xs) (size, len, (_, cells)) = (size, len, (omega arith, cells))

pub memory-IsLawful : IsLawful memory
memory-IsLawful = record {
  mapping_new_zero = λ a b c d m e. sym (some-injective _ _ e);
  reply_writes = λ c query rc m a b coils holding. (
    set_first m.tab_bits,
    m.tab_registers,
    refl,
    set_first-IsTable a m.nb_bits m.tab_bits coils,
    holding,
  );
}
