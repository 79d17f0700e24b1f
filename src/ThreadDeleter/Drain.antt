-- ===== src/ThreadDeleter/Drain.antt =====
-- What the deleter frees, and what it does not.
use mbtest.Prelude.{
  ℕ, zero, suc, ◌<◌, ◌≡◌, refl, ◌∙◌, true, List, [], ◌∷◌, ◌++◌, ok, arith, length, append-nil,
  append_assoc,
}
use mbtest.Worker.{wait}
use mbtest.ThreadDeleter.{
  BlockingCollection, IsFifo, ThreadDeleter, dispose, round, run, stop, delete_worker,
}

module _ {C : BlockingCollection} (F : IsFifo C) where
  open F use {items, closed}

  -- Workers handed over one after another.
  abbrev pub delete_all : List ℕ → ThreadDeleter C → ThreadDeleter C
  delete_all [] d = d
  delete_all (w ∷ ws) d = delete_all ws (delete_worker C w d)

  -- A round on a queue that is not empty joins and frees the first worker.
  pub round_first :
      (d : ThreadDeleter C) (w : ℕ) (ws : List ℕ)
      → items d.threads ≡ w ∷ ws
      → (items (round C d).threads ≡ ws)
        × (closed (round C d).threads ≡ closed d.threads)
        × ((round C d).freed ≡ d.freed ++ (w ∷ []))
        × ((round C d).workers ≡ wait w d.workers)
  unfolding dispose round
  round_first d w ws e =
      let (first, others, still) = F.take_first d.threads w ws e in
      (
        rw (first, round) others,
        rw (first, round) still,
        rw (first, round) refl,
        rw (first, round) refl,
      )

  -- The thread is joined before the worker is freed.
  pub round_terminated :
      (d : ThreadDeleter C) (w : ℕ) (ws : List ℕ)
      → items d.threads ≡ w ∷ ws
      → (round C d).terminated ≡ d.terminated
  unfolding dispose round
  round_terminated d w ws e =
      let (first, _, _) = F.take_first d.threads w ws e in rw (first, round) (ground arith)

  run_closed :
      (ws : List ℕ) (fuel : ℕ) (d : ThreadDeleter C)
      → closed d.threads ≡ true
      → items d.threads ≡ ws
      → length ws < fuel
      → (d' : ThreadDeleter C) × (run C fuel d ≡ ok d')
        × (d'.freed ≡ d.freed ++ ws)
        × (items d'.threads ≡ [])
  unfolding run
  run_closed ws zero d done e enough = absurd (omega arith)
  run_closed [] (suc fuel) d done e enough =
      (d, rw (F.completed, done, e, run) refl, rw append-nil refl, e)
  run_closed (w ∷ ws) (suc fuel) d done e enough =
      let (others, still, freed, _) = round_first d w ws e in
      let (d', r, f, i) = run_closed ws fuel (round C d) (still ∙ done) others (omega arith) in
      (d', rw (F.completed, done, e, run) r, f ∙ rw (freed, append_assoc) refl, i)

  delete_all_closed :
      (late : List ℕ) (d : ThreadDeleter C)
      → closed d.threads ≡ true
      → (closed (delete_all late d).threads ≡ true)
        × (items (delete_all late d).threads ≡ items d.threads)
        × ((delete_all late d).freed ≡ d.freed)
  unfolding delete_worker
  delete_all_closed [] d done = (done, refl, refl)
  delete_all_closed (w ∷ late) d done =
      let (same, still) = F.add_closed w d.threads done in
      let (a, b, c) = delete_all_closed late (delete_worker C w d) still in (a, b ∙ same, c)

  -- Once the deleter has been stopped its loop ends, given more rounds of fuel than there are
  -- workers in its queue, and has freed each of these once, in the order of the queue; workers that
  -- are handed over after that are not freed.
  pub run-stop :
      (d : ThreadDeleter C) (late : List ℕ) (fuel : ℕ)
      → length (items d.threads) < fuel
      → (d' : ThreadDeleter C) × (run C fuel (delete_all late (stop C d)) ≡ ok d')
        × (d'.freed ≡ d.freed ++ items d.threads)
        × (items d'.threads ≡ [])
  unfolding stop
  run-stop d late fuel enough =
      let (same, done) = F.close d.threads in
      let (still, items_same, freed_same) = delete_all_closed late (stop C d) done in
      let (d', r, f, i) =
        run_closed (items d.threads) fuel (delete_all late (stop C d)) still (items_same ∙ same)
          enough in
      (d', r, f ∙ rw freed_same refl, i)
