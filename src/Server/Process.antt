-- ===== src/Server/Process.antt =====
-- `main` of mbserver.cpp from its first `run` on, with the threads that it starts and the signals
-- that come meanwhile: the two servers, the deleter, and what the connections do to them.
use mbtest.Prelude.{
  ℕ, suc, ◌+◌, ◌≡◌, ◌⊎◌, Bool, true, false, ◌&&◌, ◌||◌, some, List, [], ◌∷◌, ok, if◌then◌else◌, ltb,
  ◌==◌,
}
use mbtest.Worker.{Heap, run, wait, stop as stop_worker}
use mbtest.ThreadDeleter.{BlockingCollection, IsFifo, ThreadDeleter, round, stop, delete_worker}
use mbtest.Server.{deleter, construct, handle_signal, signal_handler}

-- The thread of a worker: there is none, it is in `run__`, or `run__` has returned.
pub data Thread : Type 0 where
  absent active returned : Thread

abbrev pub set_thread : ℕ → Thread → (ℕ → Thread) → ℕ → Thread
set_thread w x thread v = if w == v then x else thread v

-- `place` is how many of its seven calls `main` has made: `run` of `s1`, `s2` and `td`, `wait` of
-- `s1` and `s2`, `stop` and `wait` of `td`. The deleter has all workers.
pub record Process (C : BlockingCollection) : Type 0 where
  pub place : ℕ
  pub deleter : ThreadDeleter C
  pub thread : ℕ → Thread

-- Whether the next call of `main` is `wait` of the worker.
abbrev pub is_wait : ℕ → ℕ → Bool
is_wait place w = (ltb w 2 && (place == w + 3)) || ((w == 2) && (place == 6))

-- `fails` is whether the set-up of a server does, so that its `run__` returns early.
module _ {C : BlockingCollection} (F : IsFifo C) (fails : ℕ → Bool) where
  pub data Step (s t : Process C) : Type 0 where
    runs :
        (w : ℕ) (h : Heap)
        → s.place ≡ w
        → ltb w 3 ≡ true
        → run w s.deleter.workers ≡ ok h
        → t ≡ record {
          place = suc w;
          deleter = record s.deleter { workers = h };
          thread = set_thread w active s.thread;
        }
        → Step s t
    -- `join` returns when the thread has.
    waits :
        (w : ℕ)
        → is_wait s.place w ≡ true
        → ((s.deleter.workers w).joinable ≡ true → s.thread w ≡ returned)
        → t ≡ record {
          place = suc s.place;
          deleter = record s.deleter { workers = wait w s.deleter.workers };
          thread = set_thread w absent s.thread;
        }
        → Step s t
    stops :
        s.place ≡ 5
        → t ≡ record s {
          place = 6;
          deleter = record (stop C s.deleter) {
            workers = (stop_worker (λ w u. u) deleter (s.deleter.workers, tt)).0;
          };
        }
        → Step s t
    -- A server leaves its accept loop when its flag is clear.
    returns :
        (w : ℕ)
        → ltb w 2 ≡ true
        → s.thread w ≡ active
        → ((s.deleter.workers w).b_running ≡ false) ⊎ (fails w ≡ true)
        → t ≡ record s { thread = set_thread w returned s.thread }
        → Step s t
    -- A round of the deleter; what is in its queue has ended (LifeCycle/Safety.antt).
    frees :
        (w : ℕ) (ws : List ℕ)
        → s.thread deleter ≡ active
        → F.items s.deleter.threads ≡ w ∷ ws
        → t ≡ record s { deleter = round C s.deleter }
        → Step s t
    completes :
        s.thread deleter ≡ active
        → C.is_completed s.deleter.threads ≡ true
        → t ≡ record s { thread = set_thread deleter returned s.thread }
        → Step s t
    -- A connection ends.
    hands_over :
        (w : ℕ)
        → ltb w 3 ≡ false
        → t ≡ record s { deleter = delete_worker C w s.deleter }
        → Step s t
    -- What else servers and connections do to the workers of connections.
    connections :
        (h : Heap)
        → ((v : ℕ) → ltb v 3 ≡ true → h v ≡ s.deleter.workers v)
        → t ≡ record s { deleter = record s.deleter { workers = h } }
        → Step s t

  pub record IsInitial (s : Process C) : Type 0 where
    pub at_start : s.place ≡ 0
    pub constructed : (h : Heap) × (s.deleter.workers ≡ construct h)
    pub no_items : F.items s.deleter.threads ≡ []
    pub open_ : F.closed s.deleter.threads ≡ false
    pub no_threads : (w : ℕ) → s.thread w ≡ absent

  -- What a signal does to the flags, at any time. Where `cancelIO` meets a worker without a thread
  -- the code is undefined, and this is one of the things that can come of it: what holds at any
  -- time here holds of every run up to there, and of those without it. Server/Whole/Kills.antt has
  -- the calls of `pthread_kill`.
  abbrev pub signalled : Process C → Process C
  signalled s = record s {
    deleter = record s.deleter {
      workers = (signal_handler (some (handle_signal (λ w u. u))) (s.deleter.workers, tt)).0;
    };
  }

  pub data Reach : Process C → Type 0 where
    start : {s : Process C} → IsInitial s → Reach s
    next : {s t : Process C} → Reach s → Step s t → Reach t
    interrupted : {s : Process C} → Reach s → Reach (signalled s)

  -- Steps without a signal.
  pub data Steps : Process C → Process C → Type 0 where
    here : {s : Process C} → Steps s s
    more : {s t u : Process C} → Step s t → Steps t u → Steps s u
