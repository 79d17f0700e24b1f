-- ===== src/Server/Whole/Outrun.antt =====
-- Connections that `main` does not wait for.
use mbtest.Prelude.{
  ℕ, zero, suc, ◌+◌, ◌-◌, ◌≡◌, refl, ap, inl, inr, Bool, true, List, [], ◌∷◌, ltb, leb, arith,
}
use mbtest.BaseServer.{contains}
use mbtest.ThreadDeleter.{BlockingCollection, IsFifo}
use mbtest.ThreadDeleter.Drain.{round_first}
use mbtest.LifeCycle.{live, ended, deleted, Step}
use mbtest.Server.{deleter}
use mbtest.Server.Process.{
  Process, is_wait, active, returned, returns, waits, stops, completes, Step as MainStep,
}
use mbtest.Server.Ending.{waited, Ends, same-Ends}
use mbtest.Server.Whole.{Program, view, Move, moves, serves, Reach, Moves, here, more}
use mbtest.Server.Whole.Invariant.{IsWhole}
use mbtest.Server.Whole.Reachable.{Move-IsWhole, Reach-IsWhole}

module _ {C : BlockingCollection} (F : IsFifo C) (fails : ℕ → Bool) (v : ℕ) where
  Moves-append : {s t u : Program C} → Moves F fails s t → Moves F fails t u → Moves F fails s u
  Moves-append here b = b
  Moves-append (more mv a) b = more mv (Moves-append a b)

  Moves-IsWhole : {s t : Program C} → Moves F fails s t → IsWhole F fails s → IsWhole F fails t
  Moves-IsWhole here i = i
  Moves-IsWhole (more mv mvs) i = Moves-IsWhole mvs (Move-IsWhole F fails mv i)

  -- `main` makes its last call once the thread of the deleter has returned.
  joined_last :
      (s : Program C)
      → s.main.place ≡ 6
      → s.main.thread deleter ≡ returned
      → s.phase v ≡ live
      → (t : Program C) × Moves F fails s t × (t.main.place ≡ 7) × (t.phase v ≡ live)
  joined_last s at_six over alive =
      let st : MainStep F fails s.main _ =
        waits deleter (ground (arith, at_six)) (λ own. over) refl in
      (_, more (moves _ st refl refl) here, ap suc at_six, alive)

  drained :
      (ws : List ℕ) (s : Program C)
      → IsWhole F fails s
      → s.main.place ≡ 6
      → s.main.thread deleter ≡ active
      → F.items s.main.deleter.threads ≡ ws
      → s.phase v ≡ live
      → (t : Program C) × Moves F fails s t × (t.main.place ≡ 7) × (t.phase v ≡ live)
  unfolding contains
  drained [] s i at_six on e alive =
      let st : MainStep F fails s.main _ =
        completes on (rw (F.completed, e, i.main.shut, at_six) refl) refl in
      let (t, mvs, done, still) = joined_last (record s { main = _ }) at_six refl alive in
      (t, more (moves _ st refl refl) mvs, done, still)
  drained (w ∷ ws) s i at_six on e alive =
      let dead : s.phase w ≡ ended = (i.servers 0).queued w (rw e (ground arith)) in
      let st : Step F (view 0 s) _ = deleted w ws e dead refl in
      let mv : Move F fails s _ = serves 0 _ st refl on refl in
      let (others, _, _, _) = round_first F s.main.deleter w ws e in
      let (t, mvs, done, still) =
        drained ws _ (Move-IsWhole F fails mv i) at_six on others (ground (arith, alive, dead)) in
      (t, more mv mvs, done, still)

  -- `main` from its call of `stop` on, or from its last `wait` on.
  stopped_last :
      (s : Program C)
      → IsWhole F fails s
      → s.main.place ≡ 6
      → s.phase v ≡ live
      → (t : Program C) × Moves F fails s t × (t.main.place ≡ 7) × (t.phase v ≡ live)
  stopped_last s i at_six alive =
      elim (waited F fails s.main deleter i.main (ground (arith, at_six))) [
        | inl on ↦ drained (F.items s.main.deleter.threads) s i at_six on refl alive
        | inr over ↦ joined_last s at_six over alive
      ]

  deleter_stopped :
      (s : Program C)
      → IsWhole F fails s
      → s.main.place ≡ 5
      → s.phase v ≡ live
      → (t : Program C) × Moves F fails s t × (t.main.place ≡ 7) × (t.phase v ≡ live)
  deleter_stopped s i at_five alive =
      let st : MainStep F fails s.main _ = stops at_five refl in
      let mv : Move F fails s _ = moves _ st refl refl in
      let (t, mvs, done, still) = stopped_last _ (Move-IsWhole F fails mv i) refl alive in
      (t, more mv mvs, done, still)

  server_joined :
      (s : Program C) (w : ℕ)
      → IsWhole F fails s
      → s.main.place ≡ w + 3
      → ltb w 2 ≡ true
      → Ends F fails s.main w
      → (q : Process C) × Moves F fails s (record s { main = q })
        × (q.place ≡ suc s.main.place)
        × ((u : ℕ) → (q.deleter.workers u).b_running ≡ (s.main.deleter.workers u).b_running)
  server_joined s w i at_w small why =
      let next_wait : is_wait s.main.place w ≡ true = ground (arith, at_w, small) in
      elim (waited F fails s.main w i.main next_wait) [
        | inl on ↦ (
          _,
          more (moves _ (returns w small on why refl) refl refl)
              (more (moves _ (waits w next_wait (λ own. ground arith) refl) refl refl) here),
          refl,
          λ u. ground arith,
        )
        | inr over ↦ (
          _,
          more (moves _ (waits w next_wait (λ own. over) refl) refl refl) here,
          refl,
          λ u. ground arith,
        )
      ]

  all_joined :
      (n : ℕ) (s : Program C)
      → IsWhole F fails s
      → s.main.place + n ≡ 7
      → leb n 4 ≡ true
      → ((w : ℕ) → ltb w 2 ≡ true → Ends F fails s.main w)
      → s.phase v ≡ live
      → (t : Program C) × Moves F fails s t × (t.main.place ≡ 7) × (t.phase v ≡ live)
  all_joined zero s i e small why alive = (s, here, omega (arith, e), alive)
  all_joined (suc zero) s i e small why alive = stopped_last s i (omega (arith, e)) alive
  all_joined (suc (suc zero)) s i e small why alive = deleter_stopped s i (omega (arith, e)) alive
  all_joined (suc (suc (suc n))) s i e small why alive =
      let w : ℕ = 1 - n in
      let (q, mvs, onward, same) =
        server_joined s w i (ground (arith, e, small)) (ground arith) (why w (ground arith)) in
      let (t, mvs', done, still) =
        all_joined (suc (suc n)) (record s { main = q }) (Moves-IsWhole mvs i)
          (omega (arith, e, onward)) (ground (arith, small))
          (λ u hu. same-Ends F fails s.main q u (same u) (why u hu)) alive in
      (t, Moves-append mvs mvs', done, still)

  -- `main` does not wait for connections: once it has started its threads, and each of its two
  -- servers has been asked to end or fails to set itself up, whatever has happened before, there is
  -- a run of the program in which `main` makes the rest of its calls, and so destroys the servers,
  -- while the thread of a connection that has not come to the end of its `run__` stays there.
  pub main_outrun :
      (s : Program C)
      → Reach F fails s
      → leb 3 s.main.place ≡ true
      → ((w : ℕ) → ltb w 2 ≡ true → Ends F fails s.main w)
      → s.phase v ≡ live
      → (t : Program C) × Moves F fails s t × (t.main.place ≡ 7) × (t.phase v ≡ live)
  main_outrun s r begun why alive =
      let i = Reach-IsWhole F fails r in
      all_joined (7 - s.main.place) s i (ground (arith, i.main.range)) (ground (arith, begun)) why
        alive
