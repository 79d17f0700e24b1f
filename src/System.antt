-- ===== src/System.antt =====
-- mbserver and mbclient together: the client of mbclient.cpp, a connection of TcpConnection.cpp and
-- the server of ModbusServer.cpp, on hosts of any byte orders. The network is what carries the
-- bytes: the connection receives what the client sends, and the client what the connection sends.
pub mod Lines
pub mod Watch
pub mod Session
use mbtest.Prelude.{
  ℕ, ◌+◌, ◌%◌, ◌<◌, ◌≡◌, ap, ◌∙◌, ℤ, pos, negsuc, to_uint16, true, false, List, [], ◌∷◌, ◌++◌,
  Outcome, ok, undefined, terminated, out_of_fuel, if◌then◌else◌, ltb, eq_bytes, arith, append-nil,
}
use mathlib.Core.Path.{subst}
use mbtest.Wire.{ByteOrder}
use mbtest.Asio.{Asio, IsStream, Holds}
use mbtest.Interfaces.{AllRegs}
use mbtest.Libmodbus.{Mapping, Libmodbus, IsLawful}
use mbtest.ModbusServer.{ModbusServer, service}
use mbtest.ModbusServer.Reads.{IsReady, tables, service-Serves}
use mbtest.ModbusServer.Setup.{Reach, Reach-HasInputs}
use mbtest.ModbusServer.Inputs.{one_to_ten, get_elem?-one_to_ten}
use mbtest.Protocol.{Command, input, request, requests, answers, IsSendable, IsWellFormed}
use mbtest.TcpConnection.{loop}
use mbtest.TcpConnection.Loop.{loop-answers}
use mbtest.Client.{Client, value, no_values, print}
use mbtest.Client.Text.{codes, stoi}
use mbtest.Client.Reads.{shown, Shows}
use mbtest.Client.Commands.{process_words}
use mbtest.Client.Commands.Lines.{
  Table, discretes, coils, inputs, holdings, name, cell_of, table_of, read_cell-Shows,
  read_table-Shows,
}

-- What the connection has sent when its loop has returned.
abbrev pub replies : {A : Asio} (S : IsStream A) → Outcome A.Socket → List ℕ
replies S (ok s) = S.outbox s
replies S undefined = []
replies S terminated = []
replies S out_of_fuel = []

to_uint16-lt : (n : ℤ) → to_uint16 n < 65536
to_uint16-lt (pos n) = omega arith
to_uint16-lt (negsuc n) = omega arith

cell_of-IsSendable : (t : Table) (n : ℤ) → IsSendable (cell_of t (to_uint16 n))
cell_of-IsSendable discretes n = record { small = omega arith; fits = to_uint16-lt n; other = tt }
cell_of-IsSendable coils n = record { small = omega arith; fits = to_uint16-lt n; other = tt }
cell_of-IsSendable inputs n = record { small = omega arith; fits = to_uint16-lt n; other = tt }
cell_of-IsSendable holdings n = record { small = omega arith; fits = to_uint16-lt n; other = tt }

table_of-IsSendable : (t : Table) → IsSendable (table_of t 0)
table_of-IsSendable discretes = record { small = omega arith; fits = omega arith; other = tt }
table_of-IsSendable coils = record { small = omega arith; fits = omega arith; other = tt }
table_of-IsSendable inputs = record { small = omega arith; fits = omega arith; other = tt }
table_of-IsSendable holdings = record { small = omega arith; fits = omega arith; other = tt }

module _ {C : Type 0} {s0 s1 s2 s3 : ModbusServer C} {a b c d : Mapping} where
  pub tables-IsWellFormed :
      IsReady s0 a → IsReady s1 b → IsReady s2 c → IsReady s3 d → IsWellFormed (tables a b c d)
  tables-IsWellFormed ra rb rc rd = record {
    coils = omega (arith, ra.coils.1);
    inputs = omega (arith, rb.inputs.1);
    discrete = omega (arith, rc.discrete.1);
    holding = omega (arith, rd.holding.1);
    input_words = rb.inputs.2;
    holding_words = rd.holding.2;
  }

-- The server, as the connection's k-th command finds it when it takes the mutex for the j-th time.
module _ {A B : Asio} (S : IsStream A) (T : IsStream B) (host order : ByteOrder) {C : Type 0}
    (view : ℕ → ℕ → ModbusServer C) (m : ℕ → ℕ → Mapping)
    (ready : (k j : ℕ) → IsReady (view k j) (m k j)) where
  abbrev pub now : ℕ → AllRegs
  now k = tables (m k 0) (m k 0) (m k 0) (m k 0)

  abbrev pub snapshot : ℕ → AllRegs
  snapshot k = tables (m k 0) (m k 1) (m k 2) (m k 3)

  pub valid : (k : ℕ) → IsWellFormed (now k)
  valid k = tables-IsWellFormed (ready k 0) (ready k 0) (ready k 0) (ready k 0)

  pub valid' : (k : ℕ) → IsWellFormed (snapshot k)
  valid' k = tables-IsWellFormed (ready k 0) (ready k 1) (ready k 2) (ready k 3)

  -- The connection, given fuel for one command and the end of the stream.
  abbrev served : A.Socket → Outcome A.Socket
  served s = loop A host (λ _. true) (λ k. service (view k)) 2 0 s

  exchange :
      (command : Command) (read : Client B.Socket → Outcome (Client B.Socket))
      → IsSendable command
      → Shows T order (valid 0) (valid' 0) read command
      → {s : A.Socket} → Holds S s (request command) []
      → (c : Client B.Socket) (o : List ℕ) → Holds T c.socket (replies S (served s)) o
      → (s' : B.Socket) × (read c
          ≡ ok (print (shown (now 0) (snapshot 0) command) (record c { socket = s' })))
        × Holds T s' [] (o ++ request command)
  unfolding requests answers
  exchange command read sendable shows {s} h c o hc =
      let (s', e, h') =
        loop-answers S host (λ k. service (view k)) now snapshot
          (λ k.
            service-Serves (view k) (m k 0) (m k 1) (m k 2) (m k 3) (ready k 0) (ready k 1)
              (ready k 2) (ready k 3))
          valid valid' (command ∷ []) [] 2 0 {o = []} (sendable, tt) (omega arith) (omega arith)
          (rw (append-nil, append-nil) h) in
      shows c [] o (subst (λ i. Holds T c.socket i o) (ap (replies S) e ∙ h'.sent) hc)

  -- What the user sees of one cell of a server that holds its mapping. The client takes the line
  -- `read TABLE N` with a number that `stoi` reads, the connection gets the client's three bytes,
  -- and the client gets what the connection sends. Then the client prints the value of cell `N`
  -- modulo 65536 of that table in the server, or that there is none, and has sent just those three
  -- bytes and read all of the answer.
  pub read_cell :
      (t : Table) (arg : List ℕ) (rest : List (List ℕ)) (n : ℤ)
      → eq_bytes arg (codes "all") ≡ false
      → stoi arg ≡ ok n
      → {s : A.Socket} → Holds S s (request (cell_of t (to_uint16 n))) []
      → (c : Client B.Socket) (o : List ℕ) → Holds T c.socket (replies S (served s)) o
      → (s' : B.Socket) × (process_words B order (codes "read" ∷ name t ∷ arg ∷ rest) c
          ≡ ok (
              print
                (shown (now 0) (snapshot 0) (cell_of t (to_uint16 n)))
                (record c { socket = s' })))
        × Holds T s' [] (o ++ request (cell_of t (to_uint16 n)))
  read_cell t arg rest n single e h c o hc =
      exchange (cell_of t (to_uint16 n)) _ (cell_of-IsSendable t n)
        (read_cell-Shows T order (valid 0) (valid' 0) t arg rest n single e) h c o hc

  -- What the user sees of a whole table of a server that holds its mapping. The client takes the
  -- line `read TABLE all`, the connection gets the client's three bytes, and the client gets what
  -- the connection sends. Then the client prints every cell of that table in the server, and has
  -- sent just those three bytes and read all of the answer.
  pub read_table :
      (t : Table) (rest : List (List ℕ)) {s : A.Socket}
      → Holds S s (request (table_of t 0)) []
      → (c : Client B.Socket) (o : List ℕ) → Holds T c.socket (replies S (served s)) o
      → (s' : B.Socket) × (process_words B order (codes "read" ∷ name t ∷ codes "all" ∷ rest) c
          ≡ ok (print (shown (now 0) (snapshot 0) (table_of t 0)) (record c { socket = s' })))
        × Holds T s' [] (o ++ request (table_of t 0))
  read_table t rest h c o hc =
      exchange (table_of t 0) _ (table_of-IsSendable t)
        (read_table-Shows T order (valid 0) (valid' 0) t rest) h c o hc

register_line :
    (now snapshot : AllRegs) (n : ℕ)
    → n < 65536
    → now.inputs ≡ one_to_ten
    → shown now snapshot (input (n % 65536)) ≡ (if ltb n 10 then value (n + 1) else no_values) ∷ []
unfolding shown
register_line now snapshot n small e =
    let fits : n % 65536 ≡ n = omega arith in rw (fits, e, get_elem?-one_to_ten) (ground arith)

-- The registers that the server sets up, as the user sees them.
module _ {A B : Asio} (S : IsStream A) (T : IsStream B) (host order : ByteOrder) (L : Libmodbus)
    (lawful : IsLawful L) (view : ℕ → ℕ → ModbusServer L.Context)
    (reach : (k j : ℕ) → Reach L (view k j)) where
  -- Whatever Modbus clients have asked of the server since it was set up, the line `read input N`
  -- prints N + 1 for N below ten, and that there is no value for greater `N` below 65536.
  pub read_input_line :
      (arg : List ℕ) (rest : List (List ℕ)) (n : ℕ)
      → n < 65536
      → eq_bytes arg (codes "all") ≡ false
      → stoi arg ≡ ok (pos n)
      → {s : A.Socket} → Holds S s (request (input n)) []
      → (c : Client B.Socket) (o : List ℕ)
      → Holds T c.socket (replies S (loop A host (λ _. true) (λ k. service (view k)) 2 0 s)) o
      → (s' : B.Socket) × (process_words B order (codes "read" ∷ codes "input" ∷ arg ∷ rest) c
          ≡ ok (
              print
                ((if ltb n 10 then value (n + 1) else no_values) ∷ [])
                (record c { socket = s' })))
        × Holds T s' [] (o ++ request (input n))
  read_input_line arg rest n small single e {s} h c o hc =
      let fits : n % 65536 ≡ n = omega arith in
      let found = Reach-HasInputs L lawful (reach 0 0) in
      let (s', r, h') =
        read_cell S T host order view (λ k j. (Reach-HasInputs L lawful (reach k j)).0)
          (λ k j. (Reach-HasInputs L lawful (reach k j)).1.ready) inputs arg rest (pos n) single e
          (rw fits h) c o hc in
      (
        s',
        r
            ∙ ap (λ lines. ok (print lines (record c { socket = s' })))
                (register_line _ _ n small found.1.registers),
        rw fits at h',
      )
