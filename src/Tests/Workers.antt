-- ===== src/Tests/Workers.antt =====
-- Connections and the deleter at concrete inputs.
use mbtest.Prelude.{ℕ, ◌≡◌, true, false, List, [], ◌∷◌, ◌++◌, ok, arith}
use mbtest.Interfaces.{GlobalService}
use mbtest.Worker.{Heap, initial, write}
use mbtest.ThreadDeleter.{ThreadDeleter, run, stop}
use mbtest.ThreadDeleter.Drain.{delete_all, run-stop}
use mbtest.ThreadDeleter.Memory.{memory, memory-IsFifo}

-- A global service that keeps the addresses it is given.
abbrev recorder : GlobalService (List ℕ)
recorder = record { delete_worker = λ w s. w ∷ s }

-- Two connections at the addresses 3 and 9, each with a running thread.
abbrev workers : Heap
workers =
    write 3 (record { b_running = true; joinable = true })
      (write 9 (record { b_running = true; joinable = true }) (λ v. initial))

abbrev deleter : ThreadDeleter memory
deleter = record {
  threads = record { content = 9 ∷ 3 ∷ []; done = false };
  workers = workers;
  freed = [];
  terminated = false;
}

run-stop_example :
    (d' : ThreadDeleter memory) × (run memory 3
        (delete_all memory-IsFifo (7 ∷ []) (stop memory deleter))
      ≡ ok d')
    × (d'.freed ≡ [] ++ (9 ∷ 3 ∷ []))
    × (d'.threads.content ≡ [])
unfolding memory-IsFifo
run-stop_example = run-stop memory-IsFifo deleter (7 ∷ []) 3 (omega arith)
