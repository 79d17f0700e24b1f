-- ===== src/System/Watch.antt =====
-- The thread of `start` in mbclient.cpp and a connection of the server.
use mbtest.Prelude.{
  ℕ, zero, suc, ◌<◌, ◌≡◌, refl, ap, ◌∙◌, Bool, true, false, List, [], ◌∷◌, ◌++◌, ok, arith, All,
  length, append-nil,
}
use mathlib.Core.Path.{subst}
use mbtest.Wire.{ByteOrder}
use mbtest.Asio.{Asio, IsStream, Holds}
use mbtest.Interfaces.{AllRegs}
use mbtest.Libmodbus.{Mapping}
use mbtest.ModbusServer.{ModbusServer, service}
use mbtest.ModbusServer.Reads.{IsReady, tables, service-Serves}
use mbtest.Protocol.{all_payload, requests, IsSendable, IsWellFormed}
use mbtest.Protocol.Lengths.{length-all_payload}
use mbtest.TcpConnection.{loop}
use mbtest.TcpConnection.Loop.{loop-answers}
use mbtest.Client.{Client, Line, response_size, print}
use mbtest.Client.Loop.{loop_func, loop_func_lem, commands, sizes}
use mbtest.System.{replies, tables-IsWellFormed}

-- `n` times what the client prints of tables of ten cells each: four blocks of ten bytes or ten
-- words, each after its length in four bytes.
abbrev pub watched : ℕ → List Line
watched zero = []
watched (suc n) = response_size 76 ∷ watched n

commands-IsSendable : (n : ℕ) → All IsSendable (commands n)
commands-IsSendable zero = tt
commands-IsSendable (suc n) =
    (record { small = omega arith; fits = omega arith; other = tt }, commands-IsSendable n)

length-commands : (n : ℕ) → length (commands n) ≡ n
length-commands zero = refl
length-commands (suc n) = ap suc (length-commands n)

module _ {A B : Asio} (S : IsStream A) (T : IsStream B) (host order : ByteOrder) {C : Type 0}
    (view : ℕ → ℕ → ModbusServer C) (m : ℕ → ℕ → Mapping)
    (ready : (k j : ℕ) → IsReady (view k j) (m k j)) where
  abbrev now : ℕ → AllRegs
  now k = tables (m k 0) (m k 0) (m k 0) (m k 0)

  abbrev snapshot : ℕ → AllRegs
  snapshot k = tables (m k 0) (m k 1) (m k 2) (m k 3)

  sizes-watched : (n k : ℕ) → sizes snapshot k n ≡ watched n
  sizes-watched zero k = refl
  sizes-watched (suc n) k =
      let size : length (all_payload (snapshot k)) ≡ 76 = omega (
        arith,
        length-all_payload (snapshot k),
        (ready k 0).coils.1,
        (ready k 1).inputs.1,
        (ready k 2).discrete.1,
        (ready k 3).holding.1,
      ) in
      rw (size, sizes-watched n (suc k)) refl

  -- What the user sees of `start`. The thread finds its flag set for `n` rounds and then clear, the
  -- connection of a server that holds its mapping at all times gets the bytes that the thread
  -- sends, and the client gets what the connection sends. Then, given more than `n` rounds of fuel
  -- each, the thread returns and has printed `n` times that the answer has 76 bytes, whatever is in
  -- the tables and however they change meanwhile; it has sent `n` commands and read all answers.
  pub watch :
      (running : ℕ → Bool) (n fuel : ℕ)
      → ((j : ℕ) → j < n → running j ≡ true)
      → running n ≡ false
      → n < fuel
      → {s : A.Socket} → Holds S s (requests (commands n)) []
      → (c : Client B.Socket) (o : List ℕ)
      → Holds T c.socket (replies S (loop A host (λ k. true) (λ k. service (view k)) fuel 0 s)) o
      → (s' : B.Socket) × (loop_func B order running fuel c
          ≡ ok (print (watched n) (record c { socket = s'; running = false })))
        × Holds T s' [] (o ++ requests (commands n))
  watch running n fuel on off enough {s} h c o hc =
      let valid : (k : ℕ) → IsWellFormed (now k) =
        λ k. tables-IsWellFormed (ready k 0) (ready k 0) (ready k 0) (ready k 0) in
      let valid' : (k : ℕ) → IsWellFormed (snapshot k) =
        λ k. tables-IsWellFormed (ready k 0) (ready k 1) (ready k 2) (ready k 3) in
      let (s1, e, h1) =
        loop-answers S host (λ k. service (view k)) now snapshot
          (λ k.
            service-Serves (view k) (m k 0) (m k 1) (m k 2) (m k 3) (ready k 0) (ready k 1)
              (ready k 2) (ready k 3))
          valid valid' (commands n) [] fuel 0 {o = []} (commands-IsSendable n) (omega arith)
          (rw length-commands enough) (rw append-nil h) in
      let sent = ap (replies S) e ∙ h1.sent in
      let (s', r, h') =
        loop_func_lem T order now snapshot valid valid' running n fuel c [] o on off enough
          (rw append-nil (subst (λ i. Holds T c.socket i o) sent hc)) in
      (s', r ∙ rw sizes-watched refl, h')
