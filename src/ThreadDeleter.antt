-- ===== src/ThreadDeleter.antt =====
-- ThreadDeleter.h and ThreadDeleter.cpp: the thread that joins and frees ended connections.
-- BlockingCollection.h is a copy of the library of that name by Code Ex Machina; the calls that
-- the deleter makes on it are a parameter, with what the library documents.
pub mod Drain
pub mod Memory
use mbtest.Prelude.{
  ℕ, zero, suc, ◌≡◌, Bool, true, false, ◌&&◌, ◌||◌, Option, none, some, List, [], ◌∷◌, ◌++◌,
  Outcome, ok, out_of_fuel,
}
use mbtest.Interfaces.{GlobalService}
use mbtest.Worker.{Heap, wait}

-- `take` waits for an item or for the end; `none` is every status but `Ok`. If it has waited, the
-- state after it holds what other threads have done meanwhile.
pub record BlockingCollection : Type 1 where
  pub Queue : Type 0
  pub is_completed : Queue → Bool
  pub take : Queue → Option ℕ × Queue
  pub add : ℕ → Queue → Queue
  pub complete_adding : Queue → Queue

abbrev pub is_empty : List ℕ → Bool
is_empty [] = true
is_empty (x ∷ xs) = false

-- A first-in first-out queue without a bound that can be closed: `add` puts nothing into a closed
-- queue, and answers with a status that the deleter ignores. `take` gives the first item at once if
-- there is one.
pub record IsFifo (C : BlockingCollection) : Type 0 where
  pub items : C.Queue → List ℕ
  pub closed : C.Queue → Bool
  pub completed : (q : C.Queue) → C.is_completed q ≡ (closed q && is_empty (items q))
  pub take_first :
      (q : C.Queue) (w : ℕ) (ws : List ℕ)
      → items q ≡ w ∷ ws
      → ((C.take q).0 ≡ some w) × (items (C.take q).1 ≡ ws) × (closed (C.take q).1 ≡ closed q)
  pub add_open :
      (w : ℕ) (q : C.Queue)
      → closed q ≡ false
      → (items (C.add w q) ≡ items q ++ (w ∷ [])) × (closed (C.add w q) ≡ false)
  pub add_closed :
      (w : ℕ) (q : C.Queue)
      → closed q ≡ true
      → (items (C.add w q) ≡ items q) × (closed (C.add w q) ≡ true)
  pub close :
      (q : C.Queue)
      → (items (C.complete_adding q) ≡ items q) × (closed (C.complete_adding q) ≡ true)

module _ (C : BlockingCollection) where
  open C use {Queue, is_completed, take, add, complete_adding}

  -- `threads_`, the workers that exist, the addresses freed so far, in order, and whether one was
  -- freed whose `thread_` was joinable, which ends the process.
  pub record ThreadDeleter : Type 0 where
    pub threads : Queue
    pub workers : Heap
    pub freed : List ℕ
    pub terminated : Bool

  -- `worker->wait()`
  abbrev join_worker : ℕ → ThreadDeleter → ThreadDeleter
  join_worker w d = record d { workers = wait w d.workers }

  -- `delete worker`: the destructor of a joinable `std::thread` ends the process.
  abbrev free_worker : ℕ → ThreadDeleter → ThreadDeleter
  free_worker w d = record d {
    freed = d.freed ++ (w ∷ []);
    terminated = d.terminated || (d.workers w).joinable;
  }

  pub dispose : ℕ → ThreadDeleter → ThreadDeleter
  dispose w d = free_worker w (join_worker w d)

  -- The body of the loop of `run__`.
  pub round : ThreadDeleter → ThreadDeleter
  round d =
      let (taken, q) = take d.threads in
      elim taken [ none ↦ record d { threads = q } | some w ↦ dispose w (record d { threads = q }) ]

  -- `run__` on `fuel` rounds.
  pub run : ℕ → ThreadDeleter → Outcome ThreadDeleter
  run zero d = out_of_fuel
  run (suc fuel) d = elim (is_completed d.threads) [ true ↦ ok d | false ↦ run fuel (round d) ]

  -- `stop__`
  unfoldable pub stop : ThreadDeleter → ThreadDeleter
  stop d = record d { threads = complete_adding d.threads }

  unfoldable pub delete_worker : ℕ → ThreadDeleter → ThreadDeleter
  delete_worker w d = record d { threads = add w d.threads }

  -- The deleter as `IGlobalService`.
  abbrev pub global_service : GlobalService ThreadDeleter
  global_service = record { delete_worker = delete_worker }
