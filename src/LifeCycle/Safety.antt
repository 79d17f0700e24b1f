-- ===== src/LifeCycle/Safety.antt =====
-- What the deleter frees.
use mbtest.Prelude.{ℕ, ◌∙◌, ◌≡◌, true, false, List, [], ◌∷◌, ◌++◌, arith}
use mathlib.Core.Path.{subst}
use mbtest.BaseServer.{contains}
use mbtest.ThreadDeleter.{BlockingCollection, IsFifo, round}
use mbtest.ThreadDeleter.Drain.{round_first}
use mbtest.LifeCycle.{ended, World, Reach}
use mbtest.LifeCycle.Queue.{IsOnce}
use mbtest.LifeCycle.Invariant.{queue, Reach-Inv}

module _ {C : BlockingCollection} (F : IsFifo C) where
  -- At any time, if there is a first connection in the queue of the deleter: its thread has come to
  -- its end, so that `join` returns; it is in the set of connections no more; and the round of the
  -- deleter joins its thread and frees it, frees nothing else, and leaves no second entry of it in
  -- the queue. Here `run` of a connection is one step.
  pub delete_safe :
      (s : World C) (w : ℕ) (ws : List ℕ)
      → Reach F s
      → queue F s ≡ w ∷ ws
      → (s.phase w ≡ ended)
        × (contains s.connections w ≡ false)
        × ((s.deleter.workers w).joinable ≡ true)
        × (((round C s.deleter).workers w).joinable ≡ false)
        × ((round C s.deleter).freed ≡ s.deleter.freed ++ (w ∷ []))
        × (contains (F.items (round C s.deleter).threads) w ≡ false)
  unfolding contains
  delete_safe s w ws r e =
      let i = Reach-Inv F r in
      let first : contains (queue F s) w ≡ true = rw e (ground arith) in
      let dead = i.queued w first in
      let (others, _, freed, joined) = round_first F s.deleter w ws e in
      let own : (s.deleter.workers w).joinable ≡ true =
        i.own_thread w (ground (arith, dead)) ∙ ground (arith, dead) in
      (
        dead,
        ground (arith, i.registered w, dead),
        own,
        rw (joined, own) (ground arith),
        freed,
        rw others (subst IsOnce e i.once).0,
      )
