-- ===== src/Server/Invariant/Always.antt =====
-- What the deleter and signals keep of the process of mbserver.cpp, and so what holds at any time.
use mbtest.Prelude.{
  ℕ, ◌≡◌, refl, ap, ◌∙◌, sym, Bool, true, false, ◌||◌, List, ◌∷◌, ltb, ◌==◌, arith,
}
use mbtest.BaseServer.{contains}
use mbtest.ThreadDeleter.{BlockingCollection, IsFifo, round, delete_worker}
use mbtest.ThreadDeleter.Drain.{round_first}
use mbtest.LifeCycle.Queue.{contains-add, closed-add}
use mbtest.Server.{deleter, handle_signal_lem}
use mbtest.Server.Process.{
  active, returned, set_thread, Process, Step, runs, waits, stops, returns, frees, completes,
  hands_over, connections, signalled, Reach, start, next, interrupted,
}
use mbtest.Server.Invariant.{
  IsConsistent, closed_empty, IsInitial-IsConsistent, runs-IsConsistent, waits-IsConsistent,
  stops-IsConsistent, returns-IsConsistent,
}

module _ {C : BlockingCollection} (F : IsFifo C) (fails : ℕ → Bool) where
  open F use {items}

  frees-IsConsistent :
      (s : Process C) (w : ℕ) (ws : List ℕ)
      → s.thread deleter ≡ active
      → items s.deleter.threads ≡ w ∷ ws
      → IsConsistent F fails s
      → IsConsistent F fails (record s { deleter = round C s.deleter })
  unfolding contains
  frees-IsConsistent s w ws on e i =
      let (others, same, _, joined) = round_first F s.deleter w ws e in
      let far : ltb w 3 ≡ false = i.queued w (rw e (ground arith)) in
      let place : (v : ℕ) → contains (items s.deleter.threads) v ≡ (w == v || contains ws v) =
        λ v. rw e refl in
      record {
        range = i.range;
        joinable = λ v hv. rw joined (ground (arith, i.joinable v hv, far, hv));
        threads = i.threads;
        shut = same ∙ i.shut;
        queued = λ v h.
            let after : contains ws v ≡ true = rw others at h in
            i.queued v (ground (arith, place v, after));
        drained = λ d. absurd (ground (arith, d, on, i.threads deleter refl));
      }

  completes-IsConsistent :
      (s : Process C)
      → s.thread deleter ≡ active
      → C.is_completed s.deleter.threads ≡ true
      → IsConsistent F fails s
      → IsConsistent F fails (record s { thread = set_thread deleter returned s.thread })
  completes-IsConsistent s on e i =
      let (shut, empty) =
        closed_empty (items s.deleter.threads) (sym (F.completed s.deleter.threads) ∙ e) in
      record {
        range = i.range;
        joinable = i.joinable;
        threads = λ v hv. ground (arith, i.threads v hv, on);
        shut = i.shut;
        queued = i.queued;
        drained = λ d. (shut, empty);
      }

  hands_over-IsConsistent :
      (s : Process C) (w : ℕ)
      → ltb w 3 ≡ false
      → IsConsistent F fails s
      → IsConsistent F fails (record s { deleter = delete_worker C w s.deleter })
  unfolding delete_worker
  hands_over-IsConsistent s w far i =
      let same = closed-add F w s.deleter.threads in
      record {
        range = i.range;
        joinable = i.joinable;
        threads = i.threads;
        shut = same ∙ i.shut;
        queued = λ v h.
            let added = contains-add F w s.deleter.threads v in
            ground (arith, h, added, i.queued v, far);
        drained = λ d.
            let (shut, empty) = i.drained d in
            (same ∙ shut, (F.add_closed w s.deleter.threads shut).0 ∙ empty);
      }

  pub Step-IsConsistent :
      {s t : Process C} → Step F fails s t → IsConsistent F fails s → IsConsistent F fails t
  Step-IsConsistent {s} (runs w h at_w small e et) i =
      rw et (runs-IsConsistent F fails s w h at_w small e i)
  Step-IsConsistent {s} (waits w at_w ended et) i =
      rw et (waits-IsConsistent F fails s w at_w ended i)
  Step-IsConsistent {s} (stops at_five et) i = rw et (stops-IsConsistent F fails s at_five i)
  Step-IsConsistent {s} (returns w small on why et) i =
      rw et (returns-IsConsistent F fails s w small on i)
  Step-IsConsistent {s} (frees w ws on e et) i = rw et (frees-IsConsistent s w ws on e i)
  Step-IsConsistent {s} (completes on e et) i = rw et (completes-IsConsistent s on e i)
  Step-IsConsistent {s} (hands_over w far et) i = rw et (hands_over-IsConsistent s w far i)
  Step-IsConsistent {s} (connections h kept et) i = rw et (record {
    range = i.range;
    joinable = λ w hw. ap (λ x. x.joinable) (kept w hw) ∙ i.joinable w hw;
    threads = i.threads;
    shut = i.shut;
    queued = i.queued;
    drained = i.drained;
  })

  signalled-IsConsistent :
      (s : Process C) → IsConsistent F fails s → IsConsistent F fails (signalled F fails s)
  signalled-IsConsistent s i =
      let (_, _, _, kept, _) = handle_signal_lem (λ w (u : Unit {0}). u) s.deleter.workers tt in
      record {
        range = i.range;
        joinable = λ w hw. kept w ∙ i.joinable w hw;
        threads = i.threads;
        shut = i.shut;
        queued = i.queued;
        drained = i.drained;
      }

  pub Reach-IsConsistent : {s : Process C} → Reach F fails s → IsConsistent F fails s
  Reach-IsConsistent {s} (start i) = IsInitial-IsConsistent F fails s i
  Reach-IsConsistent (next r st) = Step-IsConsistent st (Reach-IsConsistent r)
  Reach-IsConsistent (interrupted {s} r) = signalled-IsConsistent s (Reach-IsConsistent r)
