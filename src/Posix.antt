-- ===== src/Posix.antt =====
-- The calls of the operating system that mbserver.cpp and the `stop__` methods make, as a
-- parameter: `close` of a descriptor, `sigaction`, and `pthread_kill` of the thread of a worker.
-- `State` is what they act on: descriptors, handlers and blocked calls.
use mbtest.Prelude.{ℕ, ℤ}

-- The handlers that the program installs: `noop` of Worker.cpp and `signalHandler` of mbserver.cpp,
-- which calls `handler`.
pub data Handler : Type 0 where
  noop calls_handler : Handler

pub record Posix : Type 1 where
  pub State : Type 0
  pub sigint : ℕ
  pub sigusr1 : ℕ
  pub close : ℤ → State → State
  pub sigaction : ℕ → Handler → State → State
  pub pthread_kill : (worker : ℕ) → ℕ → State → State
