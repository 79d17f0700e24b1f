-- ===== src/Worker.antt =====
-- Worker.h and Worker.cpp: an object with a thread of its own and a flag that asks it to end.
-- Objects live on a heap, by address. What the thread does is `run__` of each subclass.
use mbtest.Posix.{Posix, noop}
use mbtest.Prelude.{ℕ, Bool, true, false, Outcome, ok, terminated, if◌then◌else◌, ◌==◌}

-- `bRunning`, and whether `thread_` is joinable.
pub record Worker : Type 0 where
  pub b_running : Bool
  pub joinable : Bool

abbrev pub Heap : Type 0
Heap = ℕ → Worker

abbrev pub write : ℕ → Worker → Heap → Heap
write w worker h v = if w == v then worker else h v

-- The member initialisers
abbrev pub initial : Worker
initial = record { b_running = false; joinable = false }

-- Assigning to a joinable `std::thread` ends the process.
unfoldable pub run : ℕ → Heap → Outcome Heap
run w h =
    if (h w).joinable
    then terminated
    else ok (write w (record { b_running = true; joinable = true }) h)

-- `stop__` of the subclass closes a socket and interrupts the thread; `cancel` is what that does.
unfoldable pub stop :
    {State : Type 0} (cancel : ℕ → State → State) → ℕ → Heap × State → Heap × State
stop cancel w (h, s) = (write w (record (h w) { b_running = false }) h, cancel w s)

-- `join` returns when the thread has ended.
abbrev pub wait : ℕ → Heap → Heap
wait w h = if (h w).joinable then write w (record (h w) { joinable = false }) h else h

-- The signal interrupts a system call of the thread, and its handler does nothing.
abbrev pub cancel_io : (P : Posix) → ℕ → P.State → P.State
cancel_io P w s = P.pthread_kill w P.sigusr1 (P.sigaction P.sigusr1 noop s)
