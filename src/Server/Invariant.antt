-- ===== src/Server/Invariant.antt =====
-- What holds of the process of mbserver.cpp at any time, and the steps of `main` and the servers
-- keep.
pub mod Always
use mbtest.Prelude.{
  ℕ, suc, ◌+◌, ◌≡◌, refl, ap, ◌∙◌, sym, Bool, true, false, ◌&&◌, ◌||◌, not, List, [], ◌∷◌, ok,
  ok-injective, if◌then◌else◌, ltb, leb, ◌==◌, arith,
}
use mbtest.Worker.{Heap, write, run, wait, stop as stop_worker}
use mbtest.BaseServer.{contains}
use mbtest.ThreadDeleter.{BlockingCollection, IsFifo, is_empty, round, stop, delete_worker}
use mbtest.ThreadDeleter.Drain.{round_first}
use mbtest.LifeCycle.Queue.{contains-add, closed-add}
use mbtest.Server.{deleter, construct, handle_signal_lem}
use mbtest.Server.Process.{
  Thread, absent, active, returned, set_thread, Process, is_wait, Step, runs, waits, stops, returns,
  frees, completes, hands_over, connections, IsInitial, signalled, Reach, start, next, interrupted,
}

-- Whether `main` has started the thread of a worker and has not joined it yet.
abbrev pub is_started : ℕ → ℕ → Bool
is_started place w = ltb w place && leb place (if w == 2 then 6 else w + 3)

abbrev pub is_absent : Thread → Bool
is_absent absent = true
is_absent active = false
is_absent returned = false

abbrev pub is_returned : Thread → Bool
is_returned absent = false
is_returned active = false
is_returned returned = true

pub closed_empty : {b : Bool} (xs : List ℕ) → (b && is_empty xs) ≡ true → (b ≡ true) × (xs ≡ [])
closed_empty {b} [] h = (ground (arith, h), refl)
closed_empty {b} (x ∷ xs) h = absurd (ground (arith, h))

module _ {C : BlockingCollection} (F : IsFifo C) (fails : ℕ → Bool) where
  open F use {items, closed}

  pub record IsConsistent (s : Process C) : Type 0 where
    pub range : leb s.place 7 ≡ true
    pub joinable : (w : ℕ) → ltb w 3 ≡ true → (s.deleter.workers w).joinable ≡ is_started s.place w
    pub threads : (w : ℕ) → ltb w 3 ≡ true → is_absent (s.thread w) ≡ not (is_started s.place w)
    pub shut : closed s.deleter.threads ≡ ltb 5 s.place
    pub queued : (v : ℕ) → contains (items s.deleter.threads) v ≡ true → ltb v 3 ≡ false
    pub drained :
        (is_returned (s.thread deleter) || (s.place == 7)) ≡ true
        → (closed s.deleter.threads ≡ true) × (items s.deleter.threads ≡ [])

  pub IsInitial-IsConsistent : (s : Process C) → IsInitial F fails s → IsConsistent s
  unfolding construct contains
  IsInitial-IsConsistent s i = record {
    range = ground (arith, i.at_start);
    joinable = λ w h. rw i.constructed.1 (ground (arith, h, i.at_start));
    threads = λ w h. ground (arith, i.no_threads w, i.at_start);
    shut = ground (arith, i.open_, i.at_start);
    queued = λ v. rw i.no_items (λ h. cc);
    drained = λ h. absurd (ground (arith, h, i.no_threads deleter, i.at_start));
  }

  pub runs-IsConsistent :
      (s : Process C) (w : ℕ) (h : Heap)
      → s.place ≡ w
      → ltb w 3 ≡ true
      → run w s.deleter.workers ≡ ok h
      → IsConsistent s
      → IsConsistent (record {
        place = suc w;
        deleter = record s.deleter { workers = h };
        thread = set_thread w active s.thread;
      })
  unfolding run
  runs-IsConsistent s w h at_w small e i =
      let free : (s.deleter.workers w).joinable ≡ false =
        ground (arith, i.joinable w small, at_w) in
      let same : write w (record { b_running = true; joinable = true }) s.deleter.workers ≡ h =
        ok-injective (sym (rw free refl) ∙ e) in
      record {
        range = ground (arith, small);
        joinable = λ v hv. rw (sym same) (ground (arith, i.joinable v hv, at_w, small, hv));
        threads = λ v hv. ground (arith, i.threads v hv, at_w, small, hv);
        shut = i.shut ∙ ground (arith, at_w, small);
        queued = i.queued;
        drained = λ d. i.drained (ground (arith, d, at_w, small));
      }

  pub waits-IsConsistent :
      (s : Process C) (w : ℕ)
      → is_wait s.place w ≡ true
      → ((s.deleter.workers w).joinable ≡ true → s.thread w ≡ returned)
      → IsConsistent s
      → IsConsistent (record {
        place = suc s.place;
        deleter = record s.deleter { workers = wait w s.deleter.workers };
        thread = set_thread w absent s.thread;
      })
  waits-IsConsistent s w at_w ended i =
      let small : ltb w 3 ≡ true = ground (arith, at_w) in
      let own : (s.deleter.workers w).joinable ≡ true = ground (arith, i.joinable w small, at_w) in
      record {
        range = ground (arith, at_w);
        joinable = λ v hv. ground (arith, i.joinable v hv, own, at_w, hv);
        threads = λ v hv. ground (arith, i.threads v hv, at_w, hv);
        shut = i.shut ∙ ground (arith, at_w);
        queued = i.queued;
        drained = λ d. i.drained (ground (arith, d, at_w, ended own));
      }

  pub stops-IsConsistent :
      (s : Process C)
      → s.place ≡ 5
      → IsConsistent s
      → IsConsistent (record s {
        place = 6;
        deleter = record (stop C s.deleter) {
          workers = (stop_worker (λ w u. u) deleter (s.deleter.workers, tt)).0;
        };
      })
  unfolding stop stop_worker
  stops-IsConsistent s at_five i =
      let (same, shut) = F.close s.deleter.threads in
      record {
        range = refl;
        joinable = λ v hv. ground (arith, i.joinable v hv, at_five, hv);
        threads = λ v hv. ground (arith, i.threads v hv, at_five, hv);
        shut = shut;
        queued = λ v h. i.queued v (rw same at h);
        drained = λ d. let (_, empty) = i.drained (ground (arith, d)) in (shut, same ∙ empty);
      }

  pub returns-IsConsistent :
      (s : Process C) (w : ℕ)
      → ltb w 2 ≡ true
      → s.thread w ≡ active
      → IsConsistent s
      → IsConsistent (record s { thread = set_thread w returned s.thread })
  returns-IsConsistent s w small on i = record {
    range = i.range;
    joinable = i.joinable;
    threads = λ v hv. ground (arith, i.threads v hv, on);
    shut = i.shut;
    queued = i.queued;
    drained = λ d. i.drained (ground (arith, d, small));
  }
