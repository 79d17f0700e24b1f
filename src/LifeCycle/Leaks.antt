-- ===== src/LifeCycle/Leaks.antt =====
-- Which connections are freed in the end, and which are not.
use mbtest.Prelude.{
  ℕ, ◌≡◌, refl, ◌∙◌, true, false, ◌||◌, List, [], ◌∷◌, arith, ◌==◌, Bool-cases, inl, inr,
}
use mbtest.BaseServer.{contains, deregister_connection}
use mbtest.ThreadDeleter.{BlockingCollection, IsFifo, round, stop, delete_worker}
use mbtest.ThreadDeleter.Drain.{round_first}
use mbtest.LifeCycle.{
  absent, ended, set_phase, World, Step, accepted, started, finished, deleted, stopped, closed,
  Reach, Steps, here, more,
}
use mbtest.LifeCycle.Queue.{contains-add, closed-add}
use mbtest.LifeCycle.Invariant.{queue, Inv, is_absent, is_open, Reach-Inv, Step-Inv}

module _ {C : BlockingCollection} (F : IsFifo C) where
  queued_freed :
      (v : ℕ) (ws : List ℕ) (s : World C)
      → Inv F s
      → queue F s ≡ ws
      → contains ws v ≡ true
      → (t : World C) × Steps F s t × (t.phase v ≡ absent)
  unfolding contains
  queued_freed v [] s i e h = cc
  queued_freed v (w ∷ ws) s i e h =
      let dead : s.phase w ≡ ended = i.queued w (rw e (ground arith)) in
      let st : Step F s
          (record s { deleter = round C s.deleter; phase = set_phase w absent s.phase }) =
        deleted w ws e dead refl in
      elim (Bool-cases (w == v)) [
        | inl this ↦ (_, more st here, ground (arith, this))
        | inr other ↦
            let (others, _, _, _) = round_first F s.deleter w ws e in
            let (t, sts, free) =
              queued_freed v ws _ (Step-Inv F st i) others (ground (arith, h, other)) in
            (t, more st sts, free)
      ]

  -- Until the deleter is stopped, every connection whose thread has come to its end can be freed:
  -- some rounds of the deleter, with no step of another thread, free it.
  pub ended_freed :
      (s : World C) (v : ℕ)
      → Reach F s
      → F.closed s.deleter.threads ≡ false
      → s.phase v ≡ ended
      → (t : World C) × Steps F s t × (t.phase v ≡ absent)
  ended_freed s v r open_ dead =
      let i = Reach-Inv F r in queued_freed v (queue F s) s i refl (i.collected open_ v dead)

  -- The deleter has been stopped, and an object lies at the address that is not in its queue.
  pub record IsLost (v : ℕ) (s : World C) : Type 0 where
    pub shut : F.closed s.deleter.threads ≡ true
    pub exists_ : is_absent (s.phase v) ≡ false
    pub unqueued : contains (queue F s) v ≡ false

  Step-IsLost : {s t : World C} (v : ℕ) → Step F s t → IsLost v s → IsLost v t
  unfolding deregister_connection delete_worker stop contains
  Step-IsLost {s} {t} v (accepted w new_ et) l =
      rw et
        (record { shut = l.shut; exists_ = ground (arith, l.exists_, new_); unqueued = l.unqueued })
  Step-IsLost {s} {t} v (started w h new_ e et) l =
      rw et (record { shut = l.shut; exists_ = ground (arith, l.exists_); unqueued = l.unqueued })
  Step-IsLost {s} {t} v (finished w alive et) l =
      let same = closed-add F w s.deleter.threads in
      let added = contains-add F w s.deleter.threads v in
      rw et (record {
        shut = same ∙ l.shut;
        exists_ = ground (arith, l.exists_);
        unqueued = ground (arith, added, l.unqueued, l.shut);
      })
  Step-IsLost {s} {t} v (deleted w ws e dead et) l =
      let (others, same, _, _) = round_first F s.deleter w ws e in
      let place : (w == v || contains ws v) ≡ false = rw e at l.unqueued in
      rw et (record {
        shut = same ∙ l.shut;
        exists_ = ground (arith, l.exists_, place);
        unqueued = rw others (ground (arith, place));
      })
  Step-IsLost {s} {t} v (stopped et) l =
      rw et (record { shut = l.shut; exists_ = l.exists_; unqueued = l.unqueued })
  Step-IsLost {s} {t} v (closed et) l =
      let (same, shut) = F.close s.deleter.threads in
      rw et (record { shut = shut; exists_ = l.exists_; unqueued = rw same l.unqueued })

  Steps-IsLost : {s t : World C} (v : ℕ) → Steps F s t → IsLost v s → IsLost v t
  Steps-IsLost v here l = l
  Steps-IsLost v (more st sts) l = Steps-IsLost v sts (Step-IsLost v st l)

  -- A connection that has not ended when the deleter is stopped is never freed, whatever happens
  -- then.
  pub late_lost :
      (s t : World C) (v : ℕ)
      → Reach F s
      → F.closed s.deleter.threads ≡ true
      → is_open (s.phase v) ≡ true
      → Steps F s t
      → is_absent (t.phase v) ≡ false
  late_lost s t v r shut alive sts =
      let i = Reach-Inv F r in
      (Steps-IsLost v sts (record {
        shut = shut;
        exists_ = ground (arith, alive);
        unqueued = ground (arith, alive, i.queued v);
      })).exists_
