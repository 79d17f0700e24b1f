-- ===== src/Protocol/Code.antt =====
-- The command codes of protocol.h.
use mbtest.Prelude.{ℕ}

abbrev pub read_coil : ℕ
read_coil = 1

abbrev pub read_discrete : ℕ
read_discrete = 2

abbrev pub read_input : ℕ
read_input = 3

abbrev pub read_holding : ℕ
read_holding = 4

abbrev pub read_coil_all : ℕ
read_coil_all = 5

abbrev pub read_discrete_all : ℕ
read_discrete_all = 6

abbrev pub read_input_all : ℕ
read_input_all = 7

abbrev pub read_holding_all : ℕ
read_holding_all = 8

abbrev pub read_all : ℕ
read_all = 9
