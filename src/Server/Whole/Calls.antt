-- ===== src/Server/Whole/Calls.antt =====
-- The steps of `main` and the signals keep what holds of the whole program.
use mbtest.Prelude.{
  ℕ, ok-injective, ◌≡◌, refl, ◌∙◌, sym, Bool, true, false, List, [], ◌==◌, arith, inl, inr,
  Bool-cases,
}
use mbtest.Worker.{Heap, write, run, wait, stop}
use mbtest.BaseServer.{contains, stop_connections}
use mbtest.BaseServer.Laws.{stop_connections_lem}
use mbtest.ThreadDeleter.{BlockingCollection, IsFifo, stop as stop_deleter}
use mbtest.LifeCycle.{closed}
use mbtest.LifeCycle.Invariant.{Inv, Step-Inv}
use mbtest.Server.{deleter}
use mbtest.Server.Process.{
  Process, Step as MainStep, runs, waits, stops, returns, frees, completes, hands_over, connections,
}
use mbtest.Server.Invariant.Always.{Step-IsConsistent}
use mbtest.Server.Whole.{Program, view, stop_server, is_own}
use mbtest.Server.Whole.Invariant.{Inv-set, Inv-workers, IsConsistent-workers, IsWhole, set-owned}

module _ {C : BlockingCollection} (F : IsFifo C) where
  -- A step of `main` leaves the threads of connections as they were.
  module _ (fails : ℕ → Bool) (s : Program C) (i : IsWhole F fails s) where
    moves-servers :
        {q : Process C} (st : MainStep F fails s.main q)
        → is_own F fails st ≡ true
        → (o : ℕ) → Inv F (view o (record s { main = q }))
    unfolding run stop stop_deleter
    moves-servers (runs w h at_w small e et) own o =
        let free : (s.main.deleter.workers w).joinable ≡ false =
          ground (arith, i.main.joinable w small, at_w) in
        let same : write w (record { b_running = true; joinable = true }) s.main.deleter.workers
            ≡ h =
          ok-injective (sym (rw free refl) ∙ e) in
        rw (et, sym same)
          (Inv-workers F (view o s)
            (write w (record { b_running = true; joinable = true }) s.main.deleter.workers)
            (i.servers o) (λ v here_. ground (arith, here_, i.placed v, small)))
    moves-servers (waits w at_w over et) own o = rw et (
        Inv-workers F (view o s) (wait w s.main.deleter.workers) (i.servers o)
          (λ v here_. ground (arith, here_, i.placed v, at_w)))
    moves-servers (stops at_five et) own o =
        let shut : Inv F (record (view o s) { deleter = stop_deleter C s.main.deleter }) =
          Step-Inv F (closed refl) (i.servers o) in
        rw et (
          Inv-workers F _ (stop (λ w u. u) deleter (s.main.deleter.workers, tt)).0 shut
            (λ v here_. ground (arith, here_, i.placed v)))
    moves-servers (returns w small on why et) own o = rw et (i.servers o)
    moves-servers (frees w ws on e et) own o = cc
    moves-servers (completes on e et) own o = rw et (i.servers o)
    moves-servers (hands_over w far et) own o = cc
    moves-servers (connections h same et) own o = cc

    pub moves-IsWhole :
        (q : Process C) (st : MainStep F fails s.main q)
        → is_own F fails st ≡ true
        → IsWhole F fails (record s { main = q })
    moves-IsWhole q st own = record {
      main = Step-IsConsistent F fails st i.main;
      servers = moves-servers st own;
      owned = i.owned;
      placed = i.placed;
    }

    -- `stop` clears flags, and empties the set of its server.
    pub stop_server-IsWhole : (o : ℕ) → IsWhole F fails (stop_server o s)
    unfolding stop_server stop contains
    stop_server-IsWhole o =
        let h : Heap = (stop (λ w u. u) o (s.main.deleter.workers, tt)).0 in
        let lem : (v : ℕ) → _ =
          λ v. stop_connections_lem (λ w (u : Unit {0}). u) v (s.sets o) h tt in
        let xs : List ℕ = (stop_connections (λ w u. u) (s.sets o) (h, tt)).0 in
        let h' : Heap = (stop_connections (λ w u. u) (s.sets o) (h, tt)).1 in
        let kept : (v : ℕ) → (h' v).joinable ≡ (s.main.deleter.workers v).joinable =
          λ v. (lem v).2 ∙ ground arith in
        let none_ : xs ≡ [] = (lem 0).0 in
        let other_flags : (o' : ℕ)
            → Inv F (record (view o' s) { deleter = record s.main.deleter { workers = h' } }) =
          λ o'. Inv-workers F (view o' s) h' (i.servers o') (λ v here_. kept v) in
        record {
          main = IsConsistent-workers F fails s.main h' i.main kept;
          servers = λ o'. elim (Bool-cases (o == o')) [
            | inl same ↦
                rw (same, none_)
                  (Inv-set F _ [] (other_flags o') tt (λ v h. absurd (ground (arith, h))))
            | inr other ↦ rw other (other_flags o')
          ];
          owned = λ o' v h.
              set-owned F fails s o xs s.owner o' v (λ h. absurd (ground (arith, rw none_ at h)))
                (i.owned o' v) h;
          placed = i.placed;
        }
