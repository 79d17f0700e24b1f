-- ===== src/Server/Whole/Invariant.antt =====
-- What holds of the whole program at any time.
use mbtest.Prelude.{ℕ, ◌≡◌, ◌∙◌, Bool, true, false, List, ltb, ◌==◌, arith, inl, inr, Bool-cases}
use mbtest.Worker.{Heap}
use mbtest.BaseServer.{contains}
use mbtest.BaseServer.Laws.{IsAscending}
use mbtest.ThreadDeleter.{BlockingCollection, IsFifo}
use mbtest.LifeCycle.{absent, World}
use mbtest.LifeCycle.Invariant.{is_open, is_absent, Inv}
use mbtest.Server.Process.{Process}
use mbtest.Server.Invariant.{IsConsistent}
use mbtest.Server.Whole.{Program, set_at, view, with_workers}

module _ {C : BlockingCollection} (F : IsFifo C) where
  -- Another set and other flags beside the same deleter and threads.
  pub Inv-set :
      (s : World C) (xs : List ℕ)
      → Inv F s
      → IsAscending xs
      → ((v : ℕ) → contains xs v ≡ true → is_open (s.phase v) ≡ true)
      → Inv F (record s { connections = xs })
  Inv-set s xs i up out = record {
    ascending = up;
    registered = out;
    queued = i.queued;
    once = i.once;
    own_thread = i.own_thread;
    collected = i.collected;
  }

  pub Inv-workers :
      (s : World C) (h : Heap)
      → Inv F s
      → ((v : ℕ) → is_absent (s.phase v) ≡ false → (h v).joinable ≡ (s.deleter.workers v).joinable)
      → Inv F (record s { deleter = record s.deleter { workers = h } })
  Inv-workers s h i same = record {
    ascending = i.ascending;
    registered = i.registered;
    queued = i.queued;
    once = i.once;
    own_thread = λ v here_. same v here_ ∙ i.own_thread v here_;
    collected = i.collected;
  }

  pub record IsWhole (fails : ℕ → Bool) (s : Program C) : Type 0 where
    pub main : IsConsistent F fails s.main
    pub servers : (o : ℕ) → Inv F (view o s)
    pub owned : (o v : ℕ) → contains (s.sets o) v ≡ true → s.owner v ≡ o
    pub placed : (v : ℕ) → ltb v 3 ≡ true → s.phase v ≡ absent

  pub IsConsistent-workers :
      (fails : ℕ → Bool) (p : Process C) (h : Heap)
      → IsConsistent F fails p
      → ((v : ℕ) → (h v).joinable ≡ (p.deleter.workers v).joinable)
      → IsConsistent F fails (with_workers h p)
  IsConsistent-workers fails p h i same = record {
    range = i.range;
    joinable = λ w small. same w ∙ i.joinable w small;
    threads = i.threads;
    shut = i.shut;
    queued = i.queued;
    drained = i.drained;
  }

  module _ (fails : ℕ → Bool) (s : Program C) (o : ℕ) where
    -- The owners after a step that replaces the set of a server.
    pub set-owned :
        (xs : List ℕ) (owner : ℕ → ℕ) (o' v : ℕ)
        → (contains xs v ≡ true → owner v ≡ o)
        → (contains (s.sets o') v ≡ true → owner v ≡ o')
        → contains (set_at o xs s.sets o') v ≡ true
        → owner v ≡ o'
    set-owned xs owner o' v mine others h = elim (Bool-cases (o == o')) [
      | inl same ↦ mine (rw same at h) ∙ ground (arith, same)
      | inr other ↦ others (rw other at h)
    ]
