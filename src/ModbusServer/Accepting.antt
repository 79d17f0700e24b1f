-- ===== src/ModbusServer/Accepting.antt =====
-- `run__` of ModbusServer.cpp as a whole, and `stop__`.
pub mod Port
use mbtest.Prelude.{
  if◌then◌else◌, ℕ, ◌<◌, ◌≡◌, refl, ◌∙◌, ◌⊎◌, inl, inr, Bool, true, false, List, [], Outcome, ok,
  ◌>>=◌, arith,
}
use mbtest.Libmodbus.{Libmodbus, IsLawful}
use mbtest.Worker.{Heap}
use mbtest.BaseServer.{contains, stop_connections}
use mbtest.BaseServer.Laws.{stop_connections_lem}
use mbtest.BaseServer.Histories.{Call}
use mbtest.BaseServer.Accept.{accept_loop, Agrees, calls_of, after_rounds, accept_loop_lem}
use mbtest.ModbusServer.{ModbusServer, construct, set_up}
use mbtest.ModbusConnection.{ModbusConnection, stop as stop_connection}
use mbtest.Posix.{Posix}
use mbtest.Worker.{cancel_io}
use mbtest.ModbusServer.Setup.{Reach, set_up_lem}

module _ (L : Libmodbus) where
  -- With the parameters of the accept loop, the connections and the workers.
  pub run :
      (running accepted : ℕ → Bool) (address : ℕ → ℕ) (others : ℕ → List ℕ × Heap → List ℕ × Heap)
      → ℕ
      → ModbusServer L.Context
      → List ℕ × Heap
      → Outcome (ModbusServer L.Context × List ℕ × Heap)
  run running accepted address others fuel s base = set_up L s >>= λ (go_on, s'). elim go_on [
    | true ↦ accept_loop running accepted address others fuel 0 base >>= λ (connections, workers).
        ok (s', connections, workers)
    | false ↦ ok (s', base.0, base.1)
  ]

  -- `stop__` of the server at address `this`, whose connections are at `connection`.
  pub stop :
      {Address State : Type 0} (P : Posix) (connection : ℕ → ModbusConnection Address State)
      → ℕ
      → ModbusServer L.Context × List ℕ × Heap × P.State
      → ModbusServer L.Context × List ℕ × Heap × P.State
  stop P connection this (s, connections, h, p) =
      let closed = cancel_io P this (P.close s.server_socket p) in
      let (rest, h', p') =
        stop_connections (λ w p'. stop_connection P (connection w) w p') connections (h, closed) in
      (s, rest, h', p')

  -- The server stays as it is; every connection of the set is asked to end, and the set is empty.
  pub stop_lem :
      {Address State : Type 0} (P : Posix) (connection : ℕ → ModbusConnection Address State)
      (this v : ℕ) (s : ModbusServer L.Context) (connections : List ℕ) (h : Heap) (p : P.State)
      → let (s', rest, h', p') = stop P connection this (s, connections, h, p) in
        (s' ≡ s)
        × (rest ≡ [])
        × ((h' v).b_running ≡ (if contains connections v then false else (h v).b_running))
  unfolding stop
  stop_lem P connection this v s connections h p =
      let (empty, flag, _) =
        stop_connections_lem (λ w p'. stop_connection P (connection w) w p') v connections h
          (cancel_io P this (P.close s.server_socket p)) in
      (refl, empty, flag)

  module _ (lawful : IsLawful L) (running accepted : ℕ → Bool) (address : ℕ → ℕ)
      (meanwhile : ℕ → List Call) where
    -- `run__` has accepted nothing and left everything as it was, or the server is set up, and the
    -- set and the flags are what the accepted connections and the calls meanwhile lead to.
    abbrev pub Ran : Heap → ℕ → ModbusServer L.Context × List ℕ × Heap → Type 0
    Ran h n (s, connections, h') =
        ((connections ≡ []) × (h' ≡ h))
        ⊎ (Reach L s
            × Agrees (connections, h')
                (after_rounds accepted address meanwhile 0 n (λ v. false, λ v. (h v).b_running)))

    module _ (port n fuel : ℕ) (h : Heap) (on : (j : ℕ) → j < n → running j ≡ true)
        (off : running n ≡ false) (enough : n < fuel) where
      run-set_up :
          (r : Bool × ModbusServer L.Context)
          → set_up L (construct L.Context port) ≡ ok r
          → (t : ModbusServer L.Context × List ℕ × Heap) × (run running accepted address
                (calls_of meanwhile)
                fuel
                (construct L.Context port)
                ([], h)
              ≡ ok t)
            × Ran h n t
      unfolding run construct contains
      run-set_up (false, s) e = ((s, [], h), rw e refl, inl (refl, refl))
      run-set_up (true, s) e =
          let ((xs, h'), found, r) =
            accept_loop_lem running accepted address meanwhile n fuel ([], h)
              (λ v. false, λ v. (h v).b_running) on off enough
              (record { ascending = tt; members = λ v. refl; flags = λ v. refl }) in
          ((s, xs, h'), rw (e, found) refl, inr (Reach.started port e, r))

      -- `run__` on a new server, whose flag is cleared before the n-th round of its accept loop,
      -- counted from 0, returns, given more than `n` rounds of fuel, on every outcome of libmodbus
      -- and whatever connections deregister themselves and are stopped meanwhile. Either it has
      -- accepted nothing and left the workers as they were, or the server is set up, and its set
      -- and the flags are what the accepted connections, deregistrations and stops lead to in their
      -- order.
      pub run_returns :
          (t : ModbusServer L.Context × List ℕ × Heap) × (run running accepted address
              (calls_of meanwhile)
              fuel
              (construct L.Context port)
              ([], h)
            ≡ ok t)
          × Ran h n t
      unfolding construct
      run_returns =
          let (r, e, _) = set_up_lem L lawful (construct L.Context port) refl in run-set_up r e
