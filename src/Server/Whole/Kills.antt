-- ===== src/Server/Whole/Kills.antt =====
-- SIGINT with what its calls of `pthread_kill` need: each worker that is stopped must have a
-- thread.
pub mod Signal
use mbtest.Prelude.{
  ℕ, ◌≡◌, refl, ap, ◌∙◌, sym, Bool, true, false, List, [], ◌∷◌, Outcome, ok, undefined, ◌>>=◌, ◌⊎◌,
  inl, inr, if◌then◌else◌, ◌&&◌, ltb, leb, ◌==◌, arith, Bool-cases,
}
use mbtest.Worker.{Heap, stop}
use mbtest.BaseServer.{contains, stop_all, stop_connections}
use mbtest.BaseServer.Laws.{stop_connections_lem}
use mbtest.BaseServer.Kills.{
  stop_one, stop_each, after_one, stop_one-joinable, stop_each-ok, stop_each-undefined,
  stop_each-cases, stop_connections-parts,
}
use mbtest.ThreadDeleter.{BlockingCollection, IsFifo}
use mbtest.LifeCycle.{Phase, absent, created, live, ended}
use mbtest.LifeCycle.Invariant.{is_open, is_absent, has_thread}
use mbtest.Server.Whole.{Program, set_at, with_workers, stop_server, Reach}
use mbtest.Server.Whole.Invariant.{IsWhole}
use mbtest.Server.Whole.Reachable.{Reach-IsWhole}

-- `stop` of a server, without the closing of its socket.
pub stop_checked : {C : BlockingCollection} → ℕ → Program C → Outcome (Program C)
stop_checked o s = do
  h ← stop_one o s.main.deleter.workers
  h' ← stop_each (s.sets o) h
  ok (record s { main = with_workers h' s.main; sets = set_at o [] s.sets })

-- The handler of SIGINT.
pub signal_checked : {C : BlockingCollection} → Program C → Outcome (Program C)
signal_checked s = stop_checked 0 s >>= stop_checked 1

module _ {C : BlockingCollection} (o : ℕ) (s : Program C) where
  abbrev workers : Heap
  workers = s.main.deleter.workers

  stop_server-parts : stop_server o s ≡ record s {
    main = with_workers (stop_all (λ w u. u) (s.sets o) (after_one o workers, tt {0})).0 s.main;
    sets = set_at o [] s.sets;
  }
  unfolding stop_server
  stop_server-parts =
      let (none_, heap) = stop_connections-parts (s.sets o) (after_one o workers) in
      rw (none_, heap) refl

  stop_checked-ok :
      (workers o).joinable ≡ true
      → ((v : ℕ) → contains (s.sets o) v ≡ true → (workers v).joinable ≡ true)
      → stop_checked o s ≡ ok (stop_server o s)
  unfolding stop_checked stop_one
  stop_checked-ok own each =
      let all =
        stop_each-ok (s.sets o) (after_one o workers)
          (λ v inside. stop_one-joinable o v workers ∙ each v inside) in
      rw (own, all, stop_server-parts) refl

  pub stop_checked-alone : (workers o).joinable ≡ false → stop_checked o s ≡ undefined
  unfolding stop_checked stop_one
  stop_checked-alone none_ = rw none_ refl

  pub stop_checked-undefined :
      (v : ℕ)
      → contains (s.sets o) v ≡ true
      → (workers v).joinable ≡ false
      → stop_checked o s ≡ undefined
  unfolding stop_checked stop_one
  stop_checked-undefined v inside none_ = elim (Bool-cases (workers o).joinable) [
    | inl own ↦
        let bad =
          stop_each-undefined (s.sets o) v (after_one o workers) inside
            (stop_one-joinable o v workers ∙ none_) in
        rw (own, bad) refl
    | inr lost ↦ rw lost refl
  ]

  stop_checked-cases : (stop_checked o s ≡ undefined) ⊎ (stop_checked o s ≡ ok (stop_server o s))
  unfolding stop_checked stop_one
  stop_checked-cases = elim (Bool-cases (workers o).joinable) [
    | inl own ↦ elim (stop_each-cases (s.sets o) (after_one o workers)) [
      | inl bad ↦ inl (rw (own, bad) refl)
      | inr fine ↦ inr (rw (own, fine, stop_server-parts) refl)
    ]
    | inr lost ↦ inl (rw lost refl)
  ]

  -- What `stop` of a server leaves as it was.
  pub stop_server-joinable :
      (v : ℕ) → ((stop_server o s).main.deleter.workers v).joinable ≡ (workers v).joinable
  unfolding stop_server
  stop_server-joinable v =
      let (_, _, own) =
        stop_connections_lem (λ w (u : Unit {0}). u) v (s.sets o) (after_one o workers) tt in
      own ∙ stop_one-joinable o v workers

  pub stop_server-sets : (o' : ℕ) → (o == o') ≡ false → (stop_server o s).sets o' ≡ s.sets o'
  unfolding stop_server
  stop_server-sets o' other = rw other refl

module _ {C : BlockingCollection} (s : Program C) where
  -- Each worker that SIGINT stops has a thread.
  pub signal-ok :
      (s.main.deleter.workers 0).joinable ≡ true
      → (s.main.deleter.workers 1).joinable ≡ true
      → ((v : ℕ) → contains (s.sets 0) v ≡ true → (s.main.deleter.workers v).joinable ≡ true)
      → ((v : ℕ) → contains (s.sets 1) v ≡ true → (s.main.deleter.workers v).joinable ≡ true)
      → signal_checked s ≡ ok (stop_server 1 (stop_server 0 s))
  unfolding signal_checked
  signal-ok own own' each each' =
      let first = stop_checked-ok 0 s own each in
      let second =
        stop_checked-ok 1 (stop_server 0 s) (stop_server-joinable 0 s 1 ∙ own') (λ v inside.
          stop_server-joinable 0 s v ∙ each' v (rw (stop_server-sets 0 s 1 refl) at inside)) in
      rw (first, second) refl

  -- One of the two does not.
  pub first-undefined : stop_checked 0 s ≡ undefined → signal_checked s ≡ undefined
  unfolding signal_checked
  first-undefined bad = rw bad refl

  pub second-undefined : stop_checked 1 (stop_server 0 s) ≡ undefined → signal_checked s ≡ undefined
  unfolding signal_checked
  second-undefined bad = elim (stop_checked-cases 0 s) [
    | inl bad' ↦ rw bad' refl
    | inr fine ↦ rw (fine, bad) refl
  ]
