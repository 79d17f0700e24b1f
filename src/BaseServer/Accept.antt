-- ===== src/BaseServer/Accept.antt =====
-- The accept loops of TcpServer.cpp and ModbusServer.cpp: each connection is registered and gets
-- its thread.
use mbtest.Prelude.{
  ℕ, zero, suc, ◌+◌, ◌<◌, ◌≡◌, refl, ap, ◌∙◌, Bool, true, false, ◌||◌, List, [], Outcome, ok,
  out_of_fuel, ◌>>=◌, arith, ◌==◌, if◌then◌else◌, ==_refl, inl, inr, Bool-cases,
}
use mbtest.Worker.{Heap, initial, write, run}
use mbtest.BaseServer.{contains, register_connection}
use mbtest.BaseServer.Laws.{IsAscending, contains-insert, insert-IsAscending}
use mbtest.BaseServer.Histories.{Call, perform_all, Spec, note_all, Refines, perform_all-Refines}

-- `new`, `registerConnection` and `run` for the object at address `w`.
pub start_connection : ℕ → List ℕ × Heap → Outcome (List ℕ × Heap)
start_connection w (connections, h) = do
  let registered = register_connection w connections
  h' ← run w (write w initial h)
  ok (registered, h')

-- The loop on `fuel` rounds, from round `k` on: `running k` is the flag when round `k` reads it,
-- `accepted k` whether its `accept` gives a socket, `address k` where its connection is allocated.
-- `others k` is what the other threads do to the set and to the workers before round `k` registers
-- its connection, above all while it waits in `accept`, or finds the flag clear: connections that
-- end deregister themselves, and `stop__` stops all that are registered. What comes between
-- `registerConnection` and `run` of one connection is in LifeCycle.antt.
pub accept_loop :
    (running accepted : ℕ → Bool) (address : ℕ → ℕ) (others : ℕ → List ℕ × Heap → List ℕ × Heap)
    → ℕ
    → ℕ
    → List ℕ × Heap
    → Outcome (List ℕ × Heap)
accept_loop running accepted address others zero k s = out_of_fuel
accept_loop running accepted address others (suc fuel) k s = elim (running k) [
  | true ↦
      (if accepted k then start_connection (address k) (others k s) else ok (others k s))
      >>= accept_loop running accepted address others fuel (suc k)
  | false ↦ ok (others k s)
]

-- What the threads do that call `deregisterConnection` and `stopConnections`: `meanwhile k` are
-- their calls, in order.
abbrev pub calls_of : (ℕ → List Call) → ℕ → List ℕ × Heap → List ℕ × Heap
calls_of meanwhile k s =
    let (xs, h, _) =
      perform_all (record { delete_worker = λ w (u : Unit {0}). u }) (λ w u. u) (meanwhile k)
        (s.0, s.1, tt) in
    (xs, h)

-- A new connection on a set without order and on the flags.
abbrev pub admit : ℕ → Spec → Spec
admit w a = (λ v. w == v || a.0 v, λ v. w == v || a.1 v)

-- The members and the flags after `n` rounds from the k-th on, and the calls that come with them.
abbrev pub after_rounds :
    (accepted : ℕ → Bool) (address : ℕ → ℕ) (meanwhile : ℕ → List Call) → ℕ → ℕ → Spec → Spec
after_rounds accepted address meanwhile k zero a = note_all (meanwhile k) a
after_rounds accepted address meanwhile k (suc n) a =
    after_rounds accepted address meanwhile (suc k) n (
      if accepted k then admit (address k) (note_all (meanwhile k) a) else note_all (meanwhile k) a)

-- The set, once each and in ascending order, and the flags of the workers.
abbrev pub Agrees : List ℕ × Heap → Spec → Type 0
Agrees s a = Refines (s.0, s.1, tt {0}) a

module _ (w : ℕ) (connections : List ℕ) (h : Heap) where
  -- The set and the heap with a new connection at `w`.
  abbrev pub with_connection : List ℕ × Heap
  with_connection = (
    register_connection w connections,
    write w (record { b_running = true; joinable = true }) (write w initial h),
  )

  pub start_connection_lem : start_connection w (connections, h) ≡ ok with_connection
  unfolding start_connection run
  start_connection_lem = rw (==_refl w) refl

  pub with_connection-IsAscending : IsAscending connections → IsAscending with_connection.0
  unfolding register_connection
  with_connection-IsAscending = insert-IsAscending w connections

  pub with_connection-contains :
      (v : ℕ) → contains with_connection.0 v ≡ (w == v || contains connections v)
  unfolding register_connection
  with_connection-contains v = contains-insert w v connections

calls_of-Agrees :
    (meanwhile : ℕ → List Call) (k : ℕ) (s : List ℕ × Heap) (a : Spec)
    → Agrees s a
    → Agrees (calls_of meanwhile k s) (note_all (meanwhile k) a)
calls_of-Agrees meanwhile k s a r =
    let t =
      perform_all-Refines (record { delete_worker = λ w (u : Unit {0}). u }) (λ w u. u)
        (meanwhile k) (s.0, s.1, tt) a r in
    record { ascending = t.ascending; members = t.members; flags = t.flags }

with_connection-Agrees :
    (w : ℕ) (s : List ℕ × Heap) (a : Spec)
    → Agrees s a
    → Agrees (with_connection w s.0 s.1) (admit w a)
with_connection-Agrees w s a r = record {
  ascending = with_connection-IsAscending w s.0 s.1 r.ascending;
  members = λ v. with_connection-contains w s.0 s.1 v ∙ ap (λ b. w == v || b) (r.members v);
  flags = λ v. ground (arith, r.flags v);
}

module _ (running accepted : ℕ → Bool) (address : ℕ → ℕ) (meanwhile : ℕ → List Call) where
  -- A round that goes on: what the others have done, and the connection if there is one.
  round-Agrees :
      (k : ℕ) (s : List ℕ × Heap) (a : Spec)
      → Agrees s a
      → (s' : List ℕ × Heap) × ((if accepted k
            then start_connection (address k) (calls_of meanwhile k s)
            else ok (calls_of meanwhile k s))
          ≡ ok s')
        × Agrees s' (
            if accepted k
            then admit (address k) (note_all (meanwhile k) a)
            else note_all (meanwhile k) a)
  round-Agrees k s a r =
      let t = calls_of meanwhile k s in
      let u = calls_of-Agrees meanwhile k s a r in
      elim (Bool-cases (accepted k)) [
        | inl one ↦ (
          with_connection (address k) t.0 t.1,
          rw one (start_connection_lem (address k) t.0 t.1),
          rw one (with_connection-Agrees (address k) t _ u),
        )
        | inr none_ ↦ (t, rw none_ refl, rw none_ u)
      ]

  accept_loop_from :
      (n fuel k : ℕ) (s : List ℕ × Heap) (a : Spec)
      → ((j : ℕ) → j < n → running (k + j) ≡ true)
      → running (k + n) ≡ false
      → n < fuel
      → Agrees s a
      → (s' : List ℕ × Heap) × (accept_loop running accepted address (calls_of meanwhile) fuel k s
          ≡ ok s')
        × Agrees s' (after_rounds accepted address meanwhile k n a)
  unfolding accept_loop
  accept_loop_from n zero k s a on off enough r = absurd (omega arith)
  accept_loop_from zero (suc fuel) k s a on off enough r =
      let stop_here : running k ≡ false = ap running (omega arith) ∙ off in
      (_, rw (stop_here, accept_loop) refl, calls_of-Agrees meanwhile k s a r)
  accept_loop_from (suc n) (suc fuel) k s a on off enough r =
      let go_on : running k ≡ true = ap running (omega arith) ∙ on 0 (omega arith) in
      let on' : (j : ℕ) → j < n → running (suc k + j) ≡ true =
        λ j below. ap running (omega arith) ∙ on (suc j) (omega arith) in
      let off' : running (suc k + n) ≡ false = ap running (omega arith) ∙ off in
      let (s1, e1, r1) = round-Agrees k s a r in
      let (s', e, r') = accept_loop_from n fuel (suc k) s1 _ on' off' (omega arith) r1 in
      (s', rw (go_on, accept_loop, e1) e, r')

  -- An accept loop whose flag is cleared before its n-th round, counted from 0, returns, given more
  -- than `n` rounds of fuel, whatever connections are deregistered and stopped meanwhile. The set
  -- and the flags are then what the accepted connections and these calls lead to, in their order.
  pub accept_loop_lem :
      (n fuel : ℕ) (s : List ℕ × Heap) (a : Spec)
      → ((j : ℕ) → j < n → running j ≡ true)
      → running n ≡ false
      → n < fuel
      → Agrees s a
      → (s' : List ℕ × Heap) × (accept_loop running accepted address (calls_of meanwhile) fuel 0 s
          ≡ ok s')
        × Agrees s' (after_rounds accepted address meanwhile 0 n a)
  accept_loop_lem n fuel s a on off =
      accept_loop_from n fuel 0 s a (λ j below. ap running (omega arith) ∙ on j below)
        (ap running (omega arith) ∙ off)

-- The last connection is there whatever has come before it.
pub after_rounds-last :
    (accepted : ℕ → Bool) (address : ℕ → ℕ) (meanwhile : ℕ → List Call) (n k j : ℕ) (a : Spec)
    → k + n ≡ j
    → accepted j ≡ true
    → meanwhile (suc j) ≡ []
    → ((after_rounds accepted address meanwhile k (suc n) a).0 (address j) ≡ true)
      × ((after_rounds accepted address meanwhile k (suc n) a).1 (address j) ≡ true)
after_rounds-last accepted address meanwhile zero k j a e last quiet =
    let here : k ≡ j = omega arith in
    rw (here, quiet, last) (rw (==_refl (address j)) refl, rw (==_refl (address j)) refl)
after_rounds-last accepted address meanwhile (suc n) k j a e last quiet =
    after_rounds-last accepted address meanwhile n (suc k) j _ (omega arith) last quiet
