-- ===== src/Client/Loop.antt =====
-- `loopFunc` of mbclient.cpp: the thread that `start` makes reads all tables again and again.
use mbtest.Prelude.{
  ℕ, zero, suc, ◌+◌, ◌<◌, ◌≡◌, refl, ap, ◌∙◌, Bool, true, false, List, [], ◌∷◌, ◌++◌, Outcome, ok,
  terminated, out_of_fuel, ◌>>=◌, arith, length, append-nil, append_assoc,
}
use mbtest.Wire.{ByteOrder}
use mbtest.Asio.{Asio, IsStream, Holds}
use mbtest.Interfaces.{AllRegs}
use mbtest.Protocol.{Command, all_tables, all_payload, request, requests, answers, IsWellFormed}
use mbtest.Client.{Client, Line, response_size, print, read_all}
use mbtest.Client.Reads.{shown, read_all-Shows}
use mbtest.Client.Commands.Unwritable.{IsUnwritable, read_all_lem}

module _ (A : Asio) (order : ByteOrder) where
  -- The loop on `fuel` rounds, from round `k` on. `running k` is the flag when round `k` reads it.
  pub rounds : (ℕ → Bool) → ℕ → ℕ → Client A.Socket → Outcome (Client A.Socket)
  rounds running zero k c = out_of_fuel
  rounds running (suc fuel) k c = elim (running k) [
    | true ↦ read_all A order c >>= rounds running fuel (suc k)
    | false ↦ ok (record c { running = false })
  ]

  pub loop_func : (ℕ → Bool) → ℕ → Client A.Socket → Outcome (Client A.Socket)
  loop_func running fuel c = rounds running fuel 0 (record c { running = true })

-- `n` commands for all tables, and the sizes of their answers from the k-th on.
abbrev pub commands : ℕ → List Command
commands zero = []
commands (suc n) = all_tables 0 ∷ commands n

abbrev pub sizes : (ℕ → AllRegs) → ℕ → ℕ → List Line
sizes snapshot k zero = []
sizes snapshot k (suc n) =
    response_size (length (all_payload (snapshot k))) ∷ sizes snapshot (suc k) n

module _ {A : Asio} (S : IsStream A) (order : ByteOrder) (now snapshot : ℕ → AllRegs)
    (valid : (k : ℕ) → IsWellFormed (now k)) (valid' : (k : ℕ) → IsWellFormed (snapshot k))
    (running : ℕ → Bool) where
  rounds_lem :
      (n fuel k : ℕ) (c : Client A.Socket) (i o : List ℕ)
      → ((j : ℕ) → j < n → running (k + j) ≡ true)
      → running (k + n) ≡ false
      → n < fuel
      → Holds S c.socket (answers now snapshot k (commands n) ++ i) o
      → (s' : A.Socket) × (rounds A order running fuel k c
          ≡ ok (print (sizes snapshot k n) (record c { socket = s'; running = false })))
        × Holds S s' i (o ++ requests (commands n))
  unfolding rounds print shown answers requests
  rounds_lem n zero k c i o on off enough h = absurd (omega arith)
  rounds_lem zero (suc fuel) k c i o on off enough h =
      let stop_here : running k ≡ false = ap running (omega arith) ∙ off in
      (c.socket, rw (stop_here, rounds, append-nil) refl, rw append-nil h)
  rounds_lem (suc n) (suc fuel) k c i o on off enough h =
      let go_on : running k ≡ true = ap running (omega arith) ∙ on 0 (omega arith) in
      let (s1, e1, h1) =
        read_all-Shows S order (valid k) (valid' k) c
          (answers now snapshot (suc k) (commands n) ++ i) o (rw append_assoc at h) in
      let (s2, e2, h2) =
        rounds_lem n fuel (suc k)
          (print (shown (now k) (snapshot k) (all_tables 0)) (record c { socket = s1 })) i
          (o ++ request (all_tables 0))
          (λ j below. ap running (omega arith) ∙ on (suc j) (omega arith))
          (ap running (omega arith) ∙ off) (omega arith) h1 in
      (s2, rw (go_on, rounds, e1) (e2 ∙ rw append_assoc refl), rw append_assoc at h2)

  -- The thread sends the command for all tables again and again, as long as it finds the flag set.
  -- If the flag is cleared before its n-th round, counted from 0, and the peer answers each command
  -- from the tables of the time, then with more than `n` rounds of fuel the thread returns: it has
  -- printed the size of each answer, in order, and has sent no more than the `n` commands.
  pub loop_func_lem :
      (n fuel : ℕ) (c : Client A.Socket) (i o : List ℕ)
      → ((j : ℕ) → j < n → running j ≡ true)
      → running n ≡ false
      → n < fuel
      → Holds S c.socket (answers now snapshot 0 (commands n) ++ i) o
      → (s' : A.Socket) × (loop_func A order running fuel c
          ≡ ok (print (sizes snapshot 0 n) (record c { socket = s'; running = false })))
        × Holds S s' i (o ++ requests (commands n))
  unfolding loop_func
  loop_func_lem n fuel c i o on off enough h =
      rounds_lem n fuel 0 (record c { running = true }) i o
        (λ j below. ap running (omega arith) ∙ on j below) (ap running (omega arith) ∙ off) enough
        (record { alive = h.alive; incoming = h.incoming; sent = h.sent })

-- On a socket that is not connected, the first round of the thread ends the process.
loop_func_unwritable :
    (A : Asio) (order : ByteOrder) (running : ℕ → Bool) (fuel : ℕ) (c : Client A.Socket)
    → IsUnwritable A c.socket
    → running 0 ≡ true
    → loop_func A order running (suc fuel) c ≡ terminated
unfolding loop_func rounds
loop_func_unwritable A order running fuel c unwritable on =
    rw (rounds, on, read_all_lem A order (record c { running = true }) unwritable) refl
