-- ===== src/Tests/Processes.antt =====
-- The process of the server at concrete states.
use mbtest.Prelude.{ℕ, zero, suc, arith, Bool, ◌+◌, ◌≡◌, refl, ◌⊎◌, inl, true, false, [], ltb}
use mbtest.Worker.{initial, write, run, wait, stop as stop_worker}
use mbtest.ThreadDeleter.{stop}
use mbtest.ThreadDeleter.Memory.{memory, memory-IsFifo}
use mbtest.Server.{construct, handle_signal_lem}
use mbtest.Server.Process.{
  absent, active, returned, set_thread, Process, runs, waits, returns, stops, completes, signalled,
  Reach, Steps,
}
use mbtest.Server.Ending.{main_ends, main_returns}

abbrev new_process : Process memory
new_process = record {
  place = 0;
  deleter = record {
    threads = record { content = []; done = false };
    workers = construct (λ v. initial);
    freed = [];
    terminated = false;
  };
  thread = λ v. absent;
}

-- Both servers set themselves up.
abbrev fails : ℕ → Bool
fails w = false

abbrev started : ℕ → Process memory → Process memory
started w s = record {
  place = suc w;
  deleter = record s.deleter {
    workers = write w (record { b_running = true; joinable = true }) s.deleter.workers;
  };
  thread = set_thread w active s.thread;
}

abbrev running : Process memory
running = started 2 (started 1 (started 0 new_process))

running-Reach : Reach memory-IsFifo fails running
unfolding memory-IsFifo construct run
running-Reach =
    Reach.next
      (Reach.next
        (Reach.next
          (Reach.start (record {
            at_start = refl;
            constructed = (λ v. initial, refl);
            no_items = refl;
            open_ = refl;
            no_threads = λ w. refl;
          }))
          (runs 0 _ refl refl refl refl))
        (runs 1 _ refl refl refl refl))
      (runs 2 _ refl refl refl refl)

abbrev asked : Process memory
asked = signalled memory-IsFifo fails running

asked-ends :
    (w : ℕ) → ltb w 2 ≡ true → ((asked.deleter.workers w).b_running ≡ false) ⊎ (false ≡ true)
asked-ends zero h = inl (handle_signal_lem (λ w (u : Unit {0}). u) running.deleter.workers tt).1
asked-ends (suc zero) h =
    inl (handle_signal_lem (λ w (u : Unit {0}). u) running.deleter.workers tt).2
asked-ends (suc (suc w)) h = absurd (ground (arith, h))

main_returns_example : (t : Process memory) × Steps memory-IsFifo fails asked t × (t.place ≡ 7)
main_returns_example =
    main_returns memory-IsFifo fails asked (Reach.interrupted running-Reach) refl asked-ends

abbrev joined : ℕ → Process memory → Process memory
joined w s = record {
  place = suc s.place;
  deleter = record s.deleter { workers = wait w s.deleter.workers };
  thread = set_thread w absent (set_thread w returned s.thread);
}

abbrev stopped : Process memory
stopped =
    let s = joined 1 (joined 0 asked) in
    record s {
      place = 6;
      deleter = record (stop memory s.deleter) {
        workers = (stop_worker (λ w (u : Unit {0}). u) 2 (s.deleter.workers, tt)).0;
      };
    }

abbrev finished : Process memory
finished = joined 2 stopped

joined-Reach :
    (w : ℕ) (s : Process memory)
    → ltb w 2 ≡ true
    → s.thread w ≡ active
    → s.place ≡ w + 3
    → (s.deleter.workers w).b_running ≡ false
    → Reach memory-IsFifo fails s
    → Reach memory-IsFifo fails (joined w s)
joined-Reach w s small on at_w off r =
    Reach.next (Reach.next r (returns w small on (inl off) refl))
      (waits w (ground (arith, small, at_w)) (λ own. ground arith) refl)

finished-Reach : Reach memory-IsFifo fails finished
unfolding memory-IsFifo stop
finished-Reach =
    let r0 : Reach memory-IsFifo fails asked = Reach.interrupted running-Reach in
    let (_, off0, off1, _, _) =
      handle_signal_lem (λ w (u : Unit {0}). u) running.deleter.workers tt in
    let r1 = joined-Reach 0 asked refl refl refl off0 r0 in
    let r2 = joined-Reach 1 (joined 0 asked) refl refl refl (ground (arith, off1)) r1 in
    let r3 : Reach memory-IsFifo fails stopped = Reach.next r2 (stops refl refl) in
    Reach.next (Reach.next r3 (completes refl refl refl)) (waits 2 refl (λ own. refl) refl)

main_ends_example :
    ((finished.deleter.workers 1).joinable ≡ false)
    × (finished.thread 1 ≡ absent)
    × (memory-IsFifo.closed finished.deleter.threads ≡ true)
    × (memory-IsFifo.items finished.deleter.threads ≡ [])
main_ends_example = main_ends memory-IsFifo fails finished 1 finished-Reach refl refl
