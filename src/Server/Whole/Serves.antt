-- ===== src/Server/Whole/Serves.antt =====
-- The steps of the connections keep what holds of the whole program.
use mbtest.Prelude.{
  ℕ, ok-injective, ◌≡◌, refl, ◌∙◌, sym, Bool, true, false, ltb, ◌==◌, arith, inl, inr, Bool-cases,
}
use mbtest.Worker.{initial, write, run}
use mbtest.BaseServer.{contains, register_connection, deregister_connection}
use mbtest.BaseServer.Laws.{contains-erase}
use mbtest.BaseServer.Accept.{with_connection-contains}
use mbtest.ThreadDeleter.{BlockingCollection, IsFifo}
use mbtest.LifeCycle.{absent, World, Step, accepted, started, finished, deleted, stopped, closed}
use mbtest.LifeCycle.Invariant.{is_open, Inv, Step-Inv}
use mbtest.Server.Process.{Step as MainStep, frees, hands_over, connections}
use mbtest.Server.Invariant.Always.{Step-IsConsistent}
use mbtest.Server.Whole.{Program, set_at, view, with_view, Allowed, owners}
use mbtest.Server.Whole.Invariant.{Inv-set, IsWhole, set-owned}

module _ {C : BlockingCollection} (F : IsFifo C) where
  module _ (fails : ℕ → Bool) (s : Program C) (i : IsWhole F fails s) (o : ℕ) where
    -- What a step of one server does to the set of another.
    Step-others :
        (o' : ℕ)
        → (o == o') ≡ false
        → {u : World C} (st : Step F (view o s) u) → Allowed F fails s o st
        → (v : ℕ) → contains (s.sets o') v ≡ true
        → is_open (u.phase v) ≡ true
    Step-others o' other (accepted w new_ et) fine v h =
        rw et (ground (arith, (i.servers o').registered v h))
    Step-others o' other (started w h' new_ e et) fine v h =
        rw et (ground (arith, (i.servers o').registered v h))
    Step-others o' other (finished w alive et) fine v h =
        let mine : (w == v) ≡ false = ground (arith, fine, i.owned o' v h, other) in
        rw et (ground (arith, (i.servers o').registered v h, mine))
    Step-others o' other (deleted w ws e dead et) fine v h =
        let open_ = (i.servers o').registered v h in rw et (ground (arith, open_, dead))
    Step-others o' other (stopped et) fine v h = absurd fine
    Step-others o' other (closed et) fine v h = absurd fine

    -- The connections in the sets after the step.
    Step-owned :
        {u : World C} (st : Step F (view o s) u)
        → Allowed F fails s o st
        → (o' v : ℕ) → contains (set_at o u.connections s.sets o') v ≡ true
        → owners F fails s o st v ≡ o'
    unfolding deregister_connection
    Step-owned (accepted w new_ et) fine o' v h =
        let found = with_connection-contains w (s.sets o) s.main.deleter.workers v in
        let gone : contains (s.sets o') w ≡ false =
          ground (arith, (i.servers o').registered w, new_) in
        set-owned F fails s o (register_connection w (s.sets o)) (set_at w o s.owner) o' v
          (λ h. ground (arith, found, h, i.owned o v))
          (λ h. ground (arith, h, gone, i.owned o' v h)) (rw et at h)
    Step-owned (started w h' new_ e et) fine o' v h =
        set-owned F fails s o _ s.owner o' v (i.owned o v) (i.owned o' v) (rw et at h)
    Step-owned (finished w alive et) fine o' v h =
        let left = contains-erase w v (s.sets o) (i.servers o).ascending in
        set-owned F fails s o _ s.owner o' v (λ h. i.owned o v (ground (arith, left, h)))
          (i.owned o' v) (rw et at h)
    Step-owned (deleted w ws e dead et) fine o' v h =
        set-owned F fails s o _ s.owner o' v (i.owned o v) (i.owned o' v) (rw et at h)
    Step-owned (stopped et) fine o' v h = absurd fine
    Step-owned (closed et) fine o' v h = absurd fine

    Step-placed :
        {u : World C} (st : Step F (view o s) u)
        → Allowed F fails s o st
        → (v : ℕ) → ltb v 3 ≡ true
        → u.phase v ≡ absent
    Step-placed (accepted w new_ et) fine v small = rw et (ground (arith, i.placed v small, fine))
    Step-placed (started w h e e' et) fine v small = rw et (ground (arith, i.placed v small, e))
    Step-placed (finished w alive et) fine v small = rw et (ground (arith, i.placed v small, alive))
    Step-placed (deleted w ws e dead et) fine v small =
        rw et (ground (arith, i.placed v small, dead))
    Step-placed (stopped et) fine v small = absurd fine
    Step-placed (closed et) fine v small = absurd fine

    -- The step as `main` and its threads see it.
    pub Step-main :
        {u : World C} (st : Step F (view o s) u)
        → Allowed F fails s o st
        → MainStep F fails s.main (record s.main { deleter = u.deleter })
    unfolding run deregister_connection
    Step-main (accepted w new_ et) fine =
        connections (write w initial s.main.deleter.workers)
          (λ v small. ground (arith, fine, small)) (rw et refl)
    Step-main (started w h e e' et) fine =
        let far : ltb w 3 ≡ false = ground (arith, i.placed w, e) in
        let free : (s.main.deleter.workers w).joinable ≡ false =
          ground (arith, (i.servers o).own_thread w, e) in
        let same : write w (record { b_running = true; joinable = true }) s.main.deleter.workers
            ≡ h =
          ok-injective (sym (rw free refl) ∙ e') in
        connections h (λ v small. rw (sym same) (ground (arith, far, small))) (rw et refl)
    Step-main (finished w alive et) fine =
        hands_over w (ground (arith, i.placed w, alive)) (rw et refl)
    Step-main (deleted w ws e dead et) fine = frees w ws fine e (rw et refl)
    Step-main (stopped et) fine = absurd fine
    Step-main (closed et) fine = absurd fine

    pub serves-IsWhole :
        (u : World C) (st : Step F (view o s) u)
        → Allowed F fails s o st
        → IsWhole F fails (record (with_view o u s) { owner = owners F fails s o st })
    serves-IsWhole u st fine =
        let after : Inv F u = Step-Inv F st (i.servers o) in
        record {
          main = Step-IsConsistent F fails (Step-main st fine) i.main;
          servers = λ o'. elim (Bool-cases (o == o')) [
            | inl same ↦ rw same after
            | inr other ↦ rw other (
                Inv-set F u (s.sets o') after (i.servers o').ascending
                  (Step-others o' other st fine))
          ];
          owned = Step-owned st fine;
          placed = Step-placed st fine;
        }
