-- ===== src/Client/Commands/Entries.antt =====
-- The lines of a user of mbclient.cpp who only reads: what they are, and what a session of them
-- prints.
pub mod Texts
pub mod Screen
pub mod Unconnected
use mbtest.Prelude.{
  ℕ, suc, ◌+◌, ◌<◌, ◌%◌, ◌≡◌, refl, ap, ◌∙◌, Bool, true, false, ◌||◌, pos, List, [], ◌∷◌, ◌++◌,
  Outcome, ok, ◌>>=◌, arith, All, All-append, length, ◌==◌, append_assoc, append-nil, eq_bytes,
}
use mathlib.Core.Path.{subst}
use mbtest.Wire.{ByteOrder}
use mbtest.Asio.{Asio, IsStream, Holds}
use mbtest.Interfaces.{AllRegs}
use mbtest.Protocol.{Command, request, requests, answer, answers, IsWellFormed}
use mbtest.Client.{Client, Line, prompt, invalid_command, too_few_args, print}
use mbtest.Client.Text.{codes, split_string}
use mbtest.Client.Text.Split.{join, IsWord, split_string-join}
use mbtest.Client.Text.Decimal.{decimal, decimal-IsWord, decimal-not_all, stoi-decimal}
use mbtest.Client.Reads.{Shows, shown}
use mbtest.Client.Commands.{process_words, process_read_op}
use mbtest.Client.Commands.Lines.{
  Table, discretes, coils, inputs, holdings, name, cell_of, table_of, read_table-Shows,
  read_cell-Shows,
}
use mbtest.Client.Commands.Session.{IsCommand, session}

-- `read TABLE N`, `read TABLE all`, a line with an unknown first word, and `read` with fewer than
-- two words after it.
pub data Entry : Type 0 where
  cell : Table → ℕ → Entry
  table : Table → Entry
  unknown : List ℕ → List (List ℕ) → Entry
  short : List (List ℕ) → Entry

-- The words of the line.
abbrev pub first : Entry → List ℕ
first (cell t n) = codes "read"
first (table t) = codes "read"
first (unknown w words) = w
first (short words) = codes "read"

abbrev pub others : Entry → List (List ℕ)
others (cell t n) = name t ∷ decimal n ∷ []
others (table t) = name t ∷ codes "all" ∷ []
others (unknown w words) = words
others (short words) = words

abbrev pub line : Entry → List ℕ
line e = join 32 (first e) (others e)

abbrev pub lines : List Entry → List (List ℕ)
lines [] = []
lines (e ∷ es) = line e ∷ lines es

-- A word without a line end.
abbrev pub IsText : List ℕ → Type 0
IsText w = IsWord 32 w × All (λ x. (x == 10) ≡ false) w

abbrev pub is_keyword : List ℕ → Bool
is_keyword w =
    eq_bytes w (codes "connect")
    || eq_bytes w (codes "disconnect")
    || eq_bytes w (codes "read")
    || eq_bytes w (codes "start")
    || eq_bytes w (codes "stop")

-- The line can be typed: numbers are below 65536, words have no blanks in them, and the line is
-- not empty.
abbrev pub IsEntry : Entry → Type 0
IsEntry (cell t n) = n < 65536
IsEntry (table t) = Unit
IsEntry (unknown w words) =
    IsText w × All IsText words × (is_keyword w ≡ false) × (0 < length (join 32 w words))
IsEntry (short words) = All IsText words × (length words < 2)

-- The commands that the client sends.
abbrev pub commands : List Entry → List Command
commands [] = []
commands (cell t n ∷ es) = cell_of t n ∷ commands es
commands (table t ∷ es) = table_of t 0 ∷ commands es
commands (unknown w words ∷ es) = commands es
commands (short words ∷ es) = commands es

-- What the user sees, if the k-th command finds the tables `now k`.
abbrev pub screen : (ℕ → AllRegs) → (ℕ → AllRegs) → ℕ → List Entry → List Line
screen now snapshot k [] = prompt ∷ []
screen now snapshot k (cell t n ∷ es) =
    prompt ∷ shown (now k) (snapshot k) (cell_of t n) ++ screen now snapshot (suc k) es
screen now snapshot k (table t ∷ es) =
    prompt ∷ shown (now k) (snapshot k) (table_of t 0) ++ screen now snapshot (suc k) es
screen now snapshot k (unknown w words ∷ es) = prompt ∷ invalid_command ∷ screen now snapshot k es
screen now snapshot k (short words ∷ es) = prompt ∷ too_few_args ∷ screen now snapshot k es
