-- ===== src/System/Lines.antt =====
-- A line as the user types it, the numbers in decimal digits.
use mbtest.Prelude.{ℕ, ◌%◌, ◌<◌, ◌≡◌, sym, pos, true, List, [], ◌∷◌, ◌++◌, ok, arith}
use mathlib.Core.Path.{subst}
use mbtest.Wire.{ByteOrder}
use mbtest.Asio.{Asio, IsStream, Holds}
use mbtest.Libmodbus.{Mapping}
use mbtest.ModbusServer.{ModbusServer, service}
use mbtest.ModbusServer.Reads.{IsReady, tables}
use mbtest.Protocol.{request}
use mbtest.TcpConnection.{loop}
use mbtest.Client.{Client, print}
use mbtest.Client.Text.{codes}
use mbtest.Client.Text.Split.{join, IsWord}
use mbtest.Client.Text.Decimal.{decimal, decimal-IsWord, decimal-not_all, stoi-decimal}
use mbtest.Client.Reads.{shown}
use mbtest.Client.Commands.{process_words, process_command}
use mbtest.Client.Commands.Lines.{
  Table, discretes, coils, inputs, holdings, name, cell_of, process_command-join,
}
use mbtest.System.{replies, read_cell}

name-IsWord : (t : Table) → IsWord 32 (name t)
name-IsWord discretes = ground arith
name-IsWord coils = ground arith
name-IsWord inputs = ground arith
name-IsWord holdings = ground arith

module _ {A B : Asio} (S : IsStream A) (T : IsStream B) (host order : ByteOrder) {C : Type 0}
    (view : ℕ → ℕ → ModbusServer C) (m : ℕ → ℕ → Mapping)
    (ready : (k j : ℕ) → IsReady (view k j) (m k j)) where
  -- From the keyboard to the screen. The user types `read TABLE N` with N in decimal digits, below
  -- 65536, the connection of a server that holds its mapping gets the client's three bytes, and the
  -- client gets what the connection sends. Then the client takes the line and goes on, having
  -- printed the value of cell N of that table, or that there is none; it has sent just those three
  -- bytes and read all of the answer.
  pub read_line :
      (t : Table) (n : ℕ)
      → n < 65536
      → {s : A.Socket} → Holds S s (request (cell_of t n)) []
      → (c : Client B.Socket) (o : List ℕ)
      → Holds T c.socket (replies S (loop A host (λ k. true) (λ k. service (view k)) 2 0 s)) o
      → (s' : B.Socket) × (process_command B order
            (join 32 (codes "read") (name t ∷ decimal n ∷ []))
            c
          ≡ ok (
            true,
            print
                (shown
                  (tables (m 0 0) (m 0 0) (m 0 0) (m 0 0))
                  (tables (m 0 0) (m 0 1) (m 0 2) (m 0 3))
                  (cell_of t n))
                (record c { socket = s' }),
          ))
        × Holds T s' [] (o ++ request (cell_of t n))
  read_line t n small {s} h c o hc =
      let fits : n % 65536 ≡ n = omega arith in
      let (s', r, h') =
        subst
          (λ k.
            (s' : B.Socket) × (process_words B order (codes "read" ∷ name t ∷ decimal n ∷ []) c
              ≡ ok (
                  print
                    (shown (tables (m 0 0) (m 0 0) (m 0 0) (m 0 0))
                      (tables (m 0 0) (m 0 1) (m 0 2) (m 0 3)) (cell_of t k))
                    (record c { socket = s' })))
            × Holds T s' [] (o ++ request (cell_of t k)))
          fits
          (read_cell S T host order view m ready t (decimal n) [] (pos n) (decimal-not_all n)
            (stoi-decimal n (omega arith))
            (subst (λ k. Holds S s (request (cell_of t k)) []) (sym fits) h) c o hc) in
      (
        s',
        process_command-join B order 114 (101 ∷ 97 ∷ 100 ∷ []) (name t ∷ decimal n ∷ []) c _
            (ground arith) (name-IsWord t, (decimal-IsWord n, tt)) r,
        h',
      )
