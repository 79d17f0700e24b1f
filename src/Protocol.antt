-- ===== src/Protocol.antt =====
-- protocol.h, and the exchange of bytes that it stands for: a command is one byte of code and two
-- bytes of argument; an answer is four bytes of length and as many bytes of payload. This is the
-- description that the theorems on TcpConnection.cpp and mbclient.cpp refer to.
pub mod Code
pub mod Lengths
use mbtest.Prelude.{
  ℕ, zero, suc, ◌+◌, ◌≤◌, ◌<◌, ◌≡◌, ◌⊎◌, Option, none, some, List, [], ◌∷◌, ◌++◌, length, get_elem?,
  All,
}
use mbtest.Wire.{be16, be32, be16s}
use mbtest.Interfaces.{AllRegs}

-- The commands with their arguments, which those for whole tables ignore, and what is none.
pub data Command : Type 0 where
  coil discrete input holding : ℕ → Command
  coil_all discrete_all input_all holding_all all_tables : ℕ → Command
  unknown : ℕ → ℕ → Command

abbrev pub code_of : Command → ℕ
code_of (coil n) = Code.read_coil
code_of (discrete n) = Code.read_discrete
code_of (input n) = Code.read_input
code_of (holding n) = Code.read_holding
code_of (coil_all n) = Code.read_coil_all
code_of (discrete_all n) = Code.read_discrete_all
code_of (input_all n) = Code.read_input_all
code_of (holding_all n) = Code.read_holding_all
code_of (all_tables n) = Code.read_all
code_of (unknown code arg) = code

abbrev pub argument_of : Command → ℕ
argument_of (coil n) = n
argument_of (discrete n) = n
argument_of (input n) = n
argument_of (holding n) = n
argument_of (coil_all n) = n
argument_of (discrete_all n) = n
argument_of (input_all n) = n
argument_of (holding_all n) = n
argument_of (all_tables n) = n
argument_of (unknown code arg) = arg

abbrev pub IsOther : Command → Type 0
IsOther (unknown code arg) = (code ≡ 0) ⊎ (10 ≤ code)
IsOther c = Unit

-- The command fits its three bytes, and an unknown code is none of the nine.
pub record IsSendable (c : Command) : Type 0 where
  pub small : code_of c < 256
  pub fits : argument_of c < 65536
  pub other : IsOther c

unfoldable pub request : Command → List ℕ
unfolding be16
request c = code_of c ∷ be16 (argument_of c)

-- A length-prefixed block.
unfoldable pub frame : List ℕ → List ℕ
frame payload = be32 (length payload) ++ payload

unfoldable pub cell_payload : Option ℕ → List ℕ
cell_payload none = []
cell_payload (some v) = v ∷ []

unfoldable pub word_payload : Option ℕ → List ℕ
word_payload none = []
word_payload (some v) = be16 v

-- Four blocks in one.
unfoldable pub all_payload : AllRegs → List ℕ
all_payload r =
    frame r.coils ++ frame r.discrete ++ frame (be16s r.inputs) ++ frame (be16s r.holding)

-- What the server sends back, if single tables are `now` and all tables `snapshot`. An unknown
-- command gets no answer.
unfoldable pub answer : AllRegs → AllRegs → Command → List ℕ
answer now snapshot (coil n) = frame (cell_payload (get_elem? now.coils n))
answer now snapshot (discrete n) = frame (cell_payload (get_elem? now.discrete n))
answer now snapshot (input n) = frame (word_payload (get_elem? now.inputs n))
answer now snapshot (holding n) = frame (word_payload (get_elem? now.holding n))
answer now snapshot (coil_all n) = frame now.coils
answer now snapshot (discrete_all n) = frame now.discrete
answer now snapshot (input_all n) = frame (be16s now.inputs)
answer now snapshot (holding_all n) = frame (be16s now.holding)
answer now snapshot (all_tables n) = frame (all_payload snapshot)
answer now snapshot (unknown code arg) = []

-- A sequence of commands, and its answers if the k-th command of the connection finds the tables
-- `now k` and `snapshot k`.
unfoldable pub requests : List Command → List ℕ
requests [] = []
requests (c ∷ cs) = request c ++ requests cs

unfoldable pub answers : (ℕ → AllRegs) → (ℕ → AllRegs) → ℕ → List Command → List ℕ
answers now snapshot k [] = []
answers now snapshot k (c ∷ cs) = answer (now k) (snapshot k) c ++ answers now snapshot (suc k) cs

-- The tables are small enough for every length to fit 32 bits, and registers are 16-bit words.
pub record IsWellFormed (r : AllRegs) : Type 0 where
  pub coils : length r.coils < 65536
  pub discrete : length r.discrete < 65536
  pub inputs : length r.inputs < 65536
  pub holding : length r.holding < 65536
  pub input_words : All (λ w. w < 65536) r.inputs
  pub holding_words : All (λ w. w < 65536) r.holding
