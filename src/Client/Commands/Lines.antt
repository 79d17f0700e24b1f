-- ===== src/Client/Commands/Lines.antt =====
-- The `read` lines of mbclient.cpp, by table.
use mbtest.Prelude.{ℕ, ◌≡◌, ℤ, to_uint16, refl, All, true, false, List, [], ◌∷◌, ok, eq_bytes}
use mbtest.Wire.{ByteOrder}
use mbtest.Asio.{Asio, IsStream}
use mbtest.Interfaces.{AllRegs}
use mbtest.Protocol.{
  Command, coil, discrete, input, holding, coil_all, discrete_all, input_all, holding_all,
  IsWellFormed,
}
use mbtest.Client.{Client}
use mbtest.Client.Text.{codes, stoi}
use mbtest.Client.Text.Split.{join, IsWord, split_string-join}
use mbtest.Client.Reads.{
  Shows, read_coil-Shows, read_discrete-Shows, read_input-Shows, read_holding-Shows,
  read_coil_all-Shows, read_discrete_all-Shows, read_input_all-Shows, read_holding_all-Shows,
}
use mbtest.Client.Commands.{
  process_read_op, read_reg_by_type, read_all_regs_by_type, process_words, process_command,
}

-- The four tables, as the user names them.
pub data Table : Type 0 where
  discretes coils inputs holdings : Table

abbrev pub name : Table → List ℕ
name discretes = codes "discrete"
name coils = codes "coil"
name inputs = codes "input"
name holdings = codes "holding"

abbrev pub cell_of : Table → ℕ → Command
cell_of discretes n = discrete n
cell_of coils n = coil n
cell_of inputs n = input n
cell_of holdings n = holding n

abbrev pub table_of : Table → ℕ → Command
table_of discretes n = discrete_all n
table_of coils n = coil_all n
table_of inputs n = input_all n
table_of holdings n = holding_all n

module _ {A : Asio} (S : IsStream A) (order : ByteOrder) {now snapshot : AllRegs}
    (valid : IsWellFormed now) (valid' : IsWellFormed snapshot) where
  -- `read TABLE all` asks for the table and shows it.
  pub read_table-Shows :
      (t : Table) (rest : List (List ℕ))
      → Shows S order valid valid'
          (process_words A order (codes "read" ∷ name t ∷ codes "all" ∷ rest))
          (table_of t 0)
  unfolding process_words process_read_op read_all_regs_by_type
  read_table-Shows discretes rest = read_discrete_all-Shows S order valid valid'
  read_table-Shows coils rest = read_coil_all-Shows S order valid valid'
  read_table-Shows inputs rest = read_input_all-Shows S order valid valid'
  read_table-Shows holdings rest = read_holding_all-Shows S order valid valid'

  -- `read TABLE N` asks for the cell `N` modulo 65536 and shows it, if `N` is a number for `stoi`.
  pub read_cell-Shows :
      (t : Table) (arg : List ℕ) (rest : List (List ℕ)) (n : ℤ)
      → eq_bytes arg (codes "all") ≡ false
      → stoi arg ≡ ok n
      → Shows S order valid valid'
          (process_words A order (codes "read" ∷ name t ∷ arg ∷ rest))
          (cell_of t (to_uint16 n))
  unfolding process_words process_read_op read_reg_by_type
  read_cell-Shows discretes arg rest n single e =
      rw (single, e) (read_discrete-Shows S order valid valid' n)
  read_cell-Shows coils arg rest n single e =
      rw (single, e) (read_coil-Shows S order valid valid' n)
  read_cell-Shows inputs arg rest n single e =
      rw (single, e) (read_input-Shows S order valid valid' n)
  read_cell-Shows holdings arg rest n single e =
      rw (single, e) (read_holding-Shows S order valid valid' n)

module _ (A : Asio) (order : ByteOrder) where
  -- A line of words joined by blanks is taken apart into them.
  pub process_command-join :
      (x : ℕ) (w : List ℕ) (words : List (List ℕ)) (c c' : Client A.Socket)
      → IsWord 32 (x ∷ w)
      → All (IsWord 32) words
      → process_words A order ((x ∷ w) ∷ words) c ≡ ok c'
      → process_command A order (join 32 (x ∷ w) words) c ≡ ok (true, c')
  unfolding process_command join
  process_command-join x w words c c' hw h e = by_words words h e
    where
      by_words :
          (words : List (List ℕ))
          → All (IsWord 32) words
          → process_words A order ((x ∷ w) ∷ words) c ≡ ok c'
          → process_command A order (join 32 (x ∷ w) words) c ≡ ok (true, c')
      by_words [] h e = rw (split_string-join 32 refl (x ∷ w) [] hw h, e) refl
      by_words (v ∷ words) h e = rw (split_string-join 32 refl (x ∷ w) (v ∷ words) hw h, e) refl
