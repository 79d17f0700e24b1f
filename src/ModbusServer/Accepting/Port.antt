-- ===== src/ModbusServer/Accepting/Port.antt =====
-- The port that `run__` of ModbusServer.cpp listens at is not that of the constructor.
use mbtest.Prelude.{
  ℕ, ◌/◌, ◌≡◌, refl, Bool, true, false, some, List, Outcome, Option-cases, inl, inr, ok, undefined,
  terminated, out_of_fuel, ◌>>=◌,
}
use mbtest.Libmodbus.{Libmodbus, Mapping}
use mbtest.Worker.{Heap}
use mbtest.BaseServer.Accept.{accept_loop}
use mbtest.ModbusServer.{ModbusServer, construct, set_up, listen, iota, fill}
use mbtest.ModbusServer.Accepting.{run}

abbrev pub with_port : {Context : Type 0} → ℕ → ModbusServer Context → ModbusServer Context
with_port p s = record s { port = p }

abbrev ported :
    {Context : Type 0} → ℕ → Bool × ModbusServer Context → Outcome (Bool × ModbusServer Context)
ported p (go_on, s) = ok (go_on, with_port p s)

two_arrays :
    {R : Type 0} (w : R → Outcome R) (a b : Outcome (List ℕ)) (k k' : List ℕ → List ℕ → Outcome R)
    → ((x y : List ℕ) → k x y ≡ (k' x y >>= w))
    → (a >>= λ x. b >>= λ y. k x y) ≡ ((a >>= λ x. b >>= λ y. k' x y) >>= w)
two_arrays w (ok x) (ok y) k k' h = h x y
two_arrays w (ok x) undefined k k' h = refl
two_arrays w (ok x) terminated k k' h = refl
two_arrays w (ok x) out_of_fuel k k' h = refl
two_arrays w undefined b k k' h = refl
two_arrays w terminated b k k' h = refl
two_arrays w out_of_fuel b k k' h = refl

module _ (L : Libmodbus) where
  listen-port :
      (p : ℕ) (s : ModbusServer L.Context) (m : Mapping)
      → listen L (with_port p s) m ≡ (listen L s m >>= ported p)
  unfolding listen
  listen-port p s m =
      two_arrays (ported p) (iota m.tab_input_registers m.nb_input_registers 1)
        (fill m.tab_input_bits (m.nb_input_bits / 2) 1) _ _ (λ x y. refl)

  set_up-port :
      (p : ℕ) (s : ModbusServer L.Context) → set_up L (with_port p s) ≡ (set_up L s >>= ported p)
  unfolding set_up
  set_up-port p s = elim (Option-cases (L.new_tcp 1502)) [
    | inl e ↦ rw (e, set_up) refl
    | inr (c, ec) ↦ elim (Option-cases (L.mapping_new 10 10 10 10)) [
      | inl em ↦ rw (ec, em, set_up) refl
      | inr (m, em) ↦
          rw (ec, em, set_up) (listen-port p (record s { ctx = some c; mb_mapping = some m }) m)
    ]
  ]

  module _ (running accepted : ℕ → Bool) (address : ℕ → ℕ)
      (others : ℕ → List ℕ × Heap → List ℕ × Heap) (fuel : ℕ) (base : List ℕ × Heap) (p : ℕ) where
    -- The server with its connections after `run__`, and another port.
    abbrev pub end_with_port :
        ModbusServer L.Context × List ℕ × Heap → Outcome (ModbusServer L.Context × List ℕ × Heap)
    end_with_port (s, connections, workers) = ok (with_port p s, connections, workers)

    abbrev accepting :
        Bool × ModbusServer L.Context → Outcome (ModbusServer L.Context × List ℕ × Heap)
    accepting (go_on, s) = elim go_on [
      | true ↦ accept_loop running accepted address others fuel 0 base >>= λ (connections, workers).
          ok (s, connections, workers)
      | false ↦ ok (s, base.0, base.1)
    ]

    accepted-port :
        (s : ModbusServer L.Context) (m : Outcome (List ℕ × Heap))
        → (m >>= λ (connections, workers). ok (with_port p s, connections, workers))
          ≡ ((m >>= λ (connections, workers). ok (s, connections, workers)) >>= end_with_port)
    accepted-port s (ok r) = refl
    accepted-port s undefined = refl
    accepted-port s terminated = refl
    accepted-port s out_of_fuel = refl

    accepting-port :
        (m : Outcome (Bool × ModbusServer L.Context))
        → (m >>= ported p >>= accepting) ≡ (m >>= accepting >>= end_with_port)
    accepting-port (ok (true, s)) =
        accepted-port s (accept_loop running accepted address others fuel 0 base)
    accepting-port (ok (false, s)) = refl
    accepting-port undefined = refl
    accepting-port terminated = refl
    accepting-port out_of_fuel = refl

    -- Whatever libmodbus does: servers that have been constructed with any two ports do the same in
    -- the whole of `run__`, so that they end in the same state but for the member `port_`, which
    -- nothing has read.
    pub run-port :
        (q : ℕ)
        → run L running accepted address others fuel (construct L.Context p) base ≡ (
            run L running accepted address others fuel (construct L.Context q) base
            >>= end_with_port)
    unfolding run construct
    run-port q =
        rw (set_up-port p (construct L.Context q))
          (accepting-port (set_up L (construct L.Context q)))
