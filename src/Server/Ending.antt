-- ===== src/Server/Ending.antt =====
-- How the process of mbserver.cpp ends.
use mbtest.Prelude.{
  ℕ, zero, suc, ◌+◌, ◌-◌, ◌≡◌, refl, ap, ◌∙◌, ◌⊎◌, inl, inr, Bool, true, false, List, [], ◌∷◌, ltb,
  leb, arith,
}
use mbtest.ThreadDeleter.{BlockingCollection, IsFifo, round}
use mbtest.ThreadDeleter.Drain.{round_first}
use mbtest.Server.{deleter}
use mbtest.Server.Process.{
  Thread, absent, active, returned, Process, is_wait, Step, waits, stops, returns, frees, completes,
  Reach, Steps, here, more,
}
use mbtest.Server.Invariant.{IsConsistent, is_absent}
use mbtest.Server.Invariant.Always.{Step-IsConsistent, Reach-IsConsistent}

only_absent : (x : Thread) → is_absent x ≡ true → x ≡ absent
only_absent absent h = refl
only_absent active h = cc
only_absent returned h = cc

Thread-cases : (x : Thread) → is_absent x ≡ false → (x ≡ active) ⊎ (x ≡ returned)
Thread-cases absent h = cc
Thread-cases active h = inl refl
Thread-cases returned h = inr refl

module _ {C : BlockingCollection} (F : IsFifo C) (fails : ℕ → Bool) where
  open F use {items, closed}

  -- When `main` has made all of its calls, whatever signals and connections have come: no worker of
  -- its three is joinable, so that none ends the process when it is destroyed, none of their
  -- threads runs, and the queue of the deleter is closed and empty.
  pub main_ends :
      (s : Process C) (w : ℕ)
      → Reach F fails s
      → s.place ≡ 7
      → ltb w 3 ≡ true
      → ((s.deleter.workers w).joinable ≡ false)
        × (s.thread w ≡ absent)
        × (closed s.deleter.threads ≡ true)
        × (items s.deleter.threads ≡ [])
  main_ends s w r done small =
      let i = Reach-IsConsistent F fails r in
      let (shut, empty) = i.drained (ground (arith, done)) in
      (
        ground (arith, i.joinable w small, done, small),
        only_absent (s.thread w) (ground (arith, i.threads w small, done, small)),
        shut,
        empty,
      )

  Steps-append : {s t u : Process C} → Steps F fails s t → Steps F fails t u → Steps F fails s u
  Steps-append here b = b
  Steps-append (more st a) b = more st (Steps-append a b)

  Steps-IsConsistent :
      {s t : Process C} → Steps F fails s t → IsConsistent F fails s → IsConsistent F fails t
  Steps-IsConsistent here i = i
  Steps-IsConsistent (more st sts) i = Steps-IsConsistent sts (Step-IsConsistent F fails st i)

  -- The thread of a worker that `main` waits for.
  pub waited :
      (s : Process C) (w : ℕ)
      → IsConsistent F fails s
      → is_wait s.place w ≡ true
      → (s.thread w ≡ active) ⊎ (s.thread w ≡ returned)
  waited s w i at_w =
      let small : ltb w 3 ≡ true = ground (arith, at_w) in
      Thread-cases (s.thread w) (ground (arith, i.threads w small, at_w))

  -- The server has been asked to end, or its set-up fails.
  abbrev pub Ends : Process C → ℕ → Type 0
  Ends s w = ((s.deleter.workers w).b_running ≡ false) ⊎ (fails w ≡ true)

  pub same-Ends :
      (s t : Process C) (w : ℕ)
      → (t.deleter.workers w).b_running ≡ (s.deleter.workers w).b_running
      → Ends s w
      → Ends t w
  same-Ends s t w same (inl off) = inl (same ∙ off)
  same-Ends s t w same (inr failed) = inr failed

  server_joined :
      (s : Process C) (w : ℕ)
      → IsConsistent F fails s
      → s.place ≡ w + 3
      → ltb w 2 ≡ true
      → Ends s w
      → (t : Process C) × Steps F fails s t
        × (t.place ≡ suc s.place)
        × ((v : ℕ) → (t.deleter.workers v).b_running ≡ (s.deleter.workers v).b_running)
  server_joined s w i at_w small why =
      let next_wait : is_wait s.place w ≡ true = ground (arith, at_w, small) in
      elim (waited s w i next_wait) [
        | inl on ↦ (
          _,
          more (returns w small on why refl)
              (more (waits w next_wait (λ own. ground arith) refl) here),
          refl,
          λ v. ground arith,
        )
        | inr ended ↦
            (_, more (waits w next_wait (λ own. ended) refl) here, refl, λ v. ground arith)
      ]

  deleter_drained :
      (ws : List ℕ) (s : Process C)
      → IsConsistent F fails s
      → s.place ≡ 6
      → s.thread deleter ≡ active
      → items s.deleter.threads ≡ ws
      → (t : Process C) × Steps F fails s t × (t.place ≡ 7)
  deleter_drained [] s i at_six on e = (
    _,
    more (completes on (rw (F.completed, e, i.shut, at_six) refl) refl)
        (more (waits deleter (ground (arith, at_six)) (λ own. refl) refl) here),
    ap suc at_six,
  )
  deleter_drained (w ∷ ws) s i at_six on e =
      let st : Step F fails s (record s { deleter = round C s.deleter }) = frees w ws on e refl in
      let (others, _, _, _) = round_first F s.deleter w ws e in
      let (t, sts, done) = deleter_drained ws _ (Step-IsConsistent F fails st i) at_six on others in
      (t, more st sts, done)

  deleter_joined :
      (s : Process C)
      → IsConsistent F fails s
      → s.place ≡ 6
      → (t : Process C) × Steps F fails s t × (t.place ≡ 7)
  deleter_joined s i at_six = elim (waited s deleter i (ground (arith, at_six))) [
    | inl on ↦ deleter_drained (items s.deleter.threads) s i at_six on refl
    | inr ended ↦
        (_, more (waits deleter (ground (arith, at_six)) (λ own. ended) refl) here, ap suc at_six)
  ]

  deleter_stopped :
      (s : Process C)
      → IsConsistent F fails s
      → s.place ≡ 5
      → (t : Process C) × Steps F fails s t × (t.place ≡ 7)
  deleter_stopped s i at_five =
      let st : Step F fails s _ = stops at_five refl in
      let (t, sts, done) = deleter_joined _ (Step-IsConsistent F fails st i) refl in
      (t, more st sts, done)

  all_joined :
      (n : ℕ) (s : Process C)
      → IsConsistent F fails s
      → s.place + n ≡ 7
      → leb n 4 ≡ true
      → ((w : ℕ) → ltb w 2 ≡ true → Ends s w)
      → (t : Process C) × Steps F fails s t × (t.place ≡ 7)
  all_joined zero s i e small why = (s, here, omega (arith, e))
  all_joined (suc zero) s i e small why = deleter_joined s i (omega (arith, e))
  all_joined (suc (suc zero)) s i e small why = deleter_stopped s i (omega (arith, e))
  all_joined (suc (suc (suc n))) s i e small why =
      let w : ℕ = 1 - n in
      let (t, sts, onward, same) =
        server_joined s w i (ground (arith, e, small)) (ground arith) (why w (ground arith)) in
      let (u, sts', done) =
        all_joined (suc (suc n)) t (Steps-IsConsistent sts i) (omega (arith, e, onward))
          (ground (arith, small)) (λ v hv. same-Ends s t v (same v) (why v hv)) in
      (u, Steps-append sts sts', done)

  -- Once `main` has started its three threads, and each of the two servers has been asked to end by
  -- a signal or fails to set itself up: whatever has happened, `main` is never stuck in a call of
  -- `wait`, and without another signal its own calls and the ends of its threads lead it to its
  -- end.
  pub main_returns :
      (s : Process C)
      → Reach F fails s
      → leb 3 s.place ≡ true
      → ((w : ℕ) → ltb w 2 ≡ true → Ends s w)
      → (t : Process C) × Steps F fails s t × (t.place ≡ 7)
  main_returns s r started why =
      let i = Reach-IsConsistent F fails r in
      all_joined (7 - s.place) s i (ground (arith, i.range)) (ground (arith, started)) why
