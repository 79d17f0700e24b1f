-- ===== src/LifeCycle/Clean.antt =====
-- When stopping the deleter loses nothing.
use mbtest.Prelude.{ℕ, ◌≡◌, refl, ◌∙◌, true, false, List, [], ◌∷◌, arith}
use mbtest.BaseServer.{contains}
use mbtest.ThreadDeleter.{BlockingCollection, IsFifo, round, stop}
use mbtest.ThreadDeleter.Drain.{round_first}
use mbtest.LifeCycle.{
  Phase, absent, created, live, ended, set_phase, World, Step, deleted, closed, Reach, Steps, here,
  more,
}
use mbtest.LifeCycle.Invariant.{queue, Inv, is_open, Reach-Inv, Step-Inv}

-- A connection that has not been freed has ended and is in the list.
abbrev AllIn : List ℕ → (ℕ → Phase) → Type 0
AllIn ws phase = (v : ℕ) → (is_open (phase v) ≡ false) × (phase v ≡ ended → contains ws v ≡ true)

absent_or_ended : (p : Phase) → is_open p ≡ false → (p ≡ ended → ⊥) → p ≡ absent
absent_or_ended absent h e = refl
absent_or_ended created h e = cc
absent_or_ended live h e = cc
absent_or_ended ended h e = absurd (e refl)

module _ {C : BlockingCollection} (F : IsFifo C) where
  drained :
      (ws : List ℕ) (s : World C)
      → Inv F s
      → queue F s ≡ ws
      → F.closed s.deleter.threads ≡ true
      → AllIn ws s.phase
      → (t : World C) × Steps F s t
        × ((v : ℕ) → t.phase v ≡ absent)
        × (F.closed t.deleter.threads ≡ true)
  unfolding contains
  drained [] s i e shut all = (
    s,
    here,
    λ v. absent_or_ended (s.phase v) (all v).0 (λ d. absurd (ground (arith, all v, d))),
    shut,
  )
  drained (w ∷ ws) s i e shut all =
      let dead : s.phase w ≡ ended = i.queued w (rw e (ground arith)) in
      let st : Step F s
          (record s { deleter = round C s.deleter; phase = set_phase w absent s.phase }) =
        deleted w ws e dead refl in
      let (others, same, _, _) = round_first F s.deleter w ws e in
      let (t, sts, gone, shut') =
        drained ws _ (Step-Inv F st i) others (same ∙ shut)
          (λ v. (ground (arith, all v), λ d. ground (arith, all v, d))) in
      (t, more st sts, gone, shut')

  -- If every connection has come to its end when the deleter is stopped, it loses none: after
  -- `stop` it is closed, and rounds of its own free every connection there is.
  pub clean_stop :
      (s : World C)
      → Reach F s
      → F.closed s.deleter.threads ≡ false
      → ((v : ℕ) → is_open (s.phase v) ≡ false)
      → (t : World C) × Steps F (record s { deleter = stop C s.deleter }) t
        × ((v : ℕ) → t.phase v ≡ absent)
        × (F.closed t.deleter.threads ≡ true)
  unfolding stop
  clean_stop s r open_ none_ =
      let i = Reach-Inv F r in
      let st : Step F s (record s { deleter = stop C s.deleter }) = closed refl in
      let (same, shut) = F.close s.deleter.threads in
      drained (queue F s) (record s { deleter = stop C s.deleter }) (Step-Inv F st i) same shut
        (λ v. (none_ v, i.collected open_ v))
