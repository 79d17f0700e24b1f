-- ===== src/System/Session.antt =====
-- A whole session of a user who reads: `main` of mbclient.cpp on its input, and a connection of the
-- server.
use mbtest.Prelude.{
  ℕ, ◌<◌, ◌≡◌, ap, ◌∙◌, true, false, List, [], ◌∷◌, ◌++◌, ok, arith, All, length, append-nil,
}
use mathlib.Core.Path.{subst}
use mbtest.Wire.{ByteOrder}
use mbtest.Asio.{Asio, IsStream, Holds}
use mbtest.Libmodbus.{Mapping}
use mbtest.ModbusServer.{ModbusServer, service}
use mbtest.ModbusServer.Reads.{IsReady, service-Serves}
use mbtest.Protocol.{requests, IsSendable}
use mbtest.TcpConnection.{loop}
use mbtest.TcpConnection.Loop.{loop-answers}
use mbtest.Client.{Client, print}
use mbtest.Client.Commands.{main}
use mbtest.Client.Commands.Lines.{Table, discretes, coils, inputs, holdings, cell_of}
use mbtest.Client.Commands.Session.{lines_of, main-session}
use mbtest.Client.Commands.Entries.{
  Entry, cell, table, unknown, short, lines, IsEntry, commands, screen,
}
use mbtest.Client.Commands.Entries.Texts.{lines-IsCommand, length-lines}
use mbtest.Client.Commands.Entries.Screen.{session_reads}
use mbtest.System.{replies, now, snapshot, valid, valid', table_of-IsSendable}

cell-IsSendable : (t : Table) (n : ℕ) → n < 65536 → IsSendable (cell_of t n)
cell-IsSendable discretes n h = record { small = omega arith; fits = h; other = tt }
cell-IsSendable coils n h = record { small = omega arith; fits = h; other = tt }
cell-IsSendable inputs n h = record { small = omega arith; fits = h; other = tt }
cell-IsSendable holdings n h = record { small = omega arith; fits = h; other = tt }

commands-IsSendable : (es : List Entry) → All IsEntry es → All IsSendable (commands es)
commands-IsSendable [] h = tt
commands-IsSendable (cell t n ∷ es) (he, h) = (cell-IsSendable t n he, commands-IsSendable es h)
commands-IsSendable (table t ∷ es) (he, h) = (table_of-IsSendable t, commands-IsSendable es h)
commands-IsSendable (unknown w words ∷ es) (he, h) = commands-IsSendable es h
commands-IsSendable (short words ∷ es) (he, h) = commands-IsSendable es h

-- The client in its session on the socket of the connection.
module _ {A B : Asio} (S : IsStream A) (T : IsStream B) (host order : ByteOrder) {C : Type 0}
    (view : ℕ → ℕ → ModbusServer C) (m : ℕ → ℕ → Mapping)
    (ready : (k j : ℕ) → IsReady (view k j) (m k j)) where
  -- A session from the first line to the last. The user types lines that read cells or tables, have
  -- an unknown first word or too few words after `read`, and then an empty line. The connection of
  -- a server that holds its mapping at all times gets the bytes that the client sends, and the
  -- client gets what the connection sends. Then, given more rounds of fuel than there are lines and
  -- commands, `main` returns, and the user has seen, line by line, what the tables held when the
  -- server handled the command, or the complaint; the client has sent just the commands of the
  -- lines, in order, and read all of the answers.
  pub main_reads :
      (es : List Entry) (rest : List ℕ) (fuel rounds : ℕ)
      → All IsEntry es
      → length es < fuel
      → length (commands es) < rounds
      → {s : A.Socket} → Holds S s (requests (commands es)) []
      → (c : Client B.Socket) (o : List ℕ)
      → Holds T c.socket (replies S (loop A host (λ k. true) (λ k. service (view k)) rounds 0 s)) o
      → (s' : B.Socket) × (main B order fuel
            (record { text = lines_of (lines es) (10 ∷ rest); at_end = false })
            c
          ≡ ok (
              print
                (screen
                  (now S T host order view m ready)
                  (snapshot S T host order view m ready)
                  0
                  es)
                (record c { socket = s' })))
        × Holds T s' [] (o ++ requests (commands es))
  main_reads es rest fuel rounds valid_ enough enough' {s} h c o hc =
      let seen = now S T host order view m ready in
      let later = snapshot S T host order view m ready in
      let fine = valid S T host order view m ready in
      let fine' = valid' S T host order view m ready in
      let (s1, e, h1) =
        loop-answers S host (λ k. service (view k)) seen later
          (λ k.
            service-Serves (view k) (m k 0) (m k 1) (m k 2) (m k 3) (ready k 0) (ready k 1)
              (ready k 2) (ready k 3))
          fine fine' (commands es) [] rounds 0 {o = []} (commands-IsSendable es valid_)
          (omega arith) enough' (rw append-nil h) in
      let sent = ap (replies S) e ∙ h1.sent in
      let (s', r, h') =
        session_reads T order seen later fine fine' es 0 c [] o valid_
          (rw append-nil (subst (λ i. Holds T c.socket i o) sent hc)) in
      (
        s',
        main-session B order (lines es) rest fuel c (lines-IsCommand es valid_)
              (rw length-lines enough)
            ∙ r,
        h',
      )
