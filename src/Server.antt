-- ===== src/Server.antt =====
-- mbserver.cpp: the three objects with threads of their own that `main` starts, joins and destroys,
-- and what its signal handler does. Here `wait` is taken to return; Process has the threads, and
-- signals at any time.
pub mod Process
pub mod Invariant
pub mod Ending
pub mod Whole
use mbtest.Prelude.{ℕ, ◌≡◌, refl, false, Option, none, some, Outcome, ok, ◌>>=◌, arith, ltb}
use mbtest.Posix.{Posix, calls_handler}
use mbtest.Worker.{Heap, initial, write, run, stop, wait}

-- `s1`, `s2` and `td`, by address.
abbrev pub modbus_server : ℕ
modbus_server = 0

abbrev pub tcp_server : ℕ
tcp_server = 1

abbrev pub deleter : ℕ
deleter = 2

-- The global `handler`
abbrev pub Handler : Type 0 → Type 0
Handler State = Option (Heap × State → Heap × State)

-- What `main` assigns to it; `cancel` is what the `stop__` of each object does.
pub handle_signal : {State : Type 0} (cancel : ℕ → State → State) → Heap × State → Heap × State
handle_signal cancel s = stop cancel tcp_server (stop cancel modbus_server s)

pub signal_handler : {State : Type 0} → Handler State → Heap × State → Heap × State
signal_handler none s = s
signal_handler (some handler) s = handler s

-- The constructors
unfoldable pub construct : Heap → Heap
construct h = write deleter initial (write tcp_server initial (write modbus_server initial h))

-- `main` up to its last `wait`. It returns the workers, the state of the system and `handler`.
pub main :
    (P : Posix) (cancel : ℕ → P.State → P.State)
    → Heap × P.State
    → Outcome (Heap × P.State × Handler P.State)
main P cancel (h, s) = do
  let h0 = construct h
  let handler = some (handle_signal cancel)
  let s1 = P.sigaction P.sigint calls_handler s
  h1 ← run modbus_server h0
  h2 ← run tcp_server h1
  h3 ← run deleter h2
  let h4 = wait modbus_server h3
  let h5 = wait tcp_server h4
  let (h6, s2) = stop cancel deleter (h5, s1)
  ok (wait deleter h6, s2, handler)

-- `main` installs its handler, starts each of its three threads once and joins each: none is
-- joinable when the objects are destroyed, which would end the process. Other workers are as they
-- were, and only the deleter is stopped by `main` itself.
pub main_joins :
    (P : Posix) (cancel : ℕ → P.State → P.State) (h : Heap) (s : P.State)
    → (h' : Heap) × (main P cancel (h, s)
        ≡ ok (
          h',
          cancel deleter (P.sigaction P.sigint calls_handler s),
          some (handle_signal cancel),
        ))
      × ((h' modbus_server).joinable ≡ false)
      × ((h' tcp_server).joinable ≡ false)
      × ((h' deleter).joinable ≡ false)
      × ((v : ℕ) → ltb v 3 ≡ false → h' v ≡ h v)
unfolding main construct run stop
main_joins P cancel h s = (_, refl, refl, refl, refl, λ v other. ground arith)

-- A signal before `main` has set its handler changes nothing. One after that clears the flags of
-- the two servers, leaves their threads to be joined, and leaves every other worker as it was.
pub handle_signal_lem :
    {State : Type 0} (cancel : ℕ → State → State) (h : Heap) (s : State)
    → let (h', _) = signal_handler (some (handle_signal cancel)) (h, s) in
      (signal_handler none (h, s) ≡ (h, s))
      × ((h' modbus_server).b_running ≡ false)
      × ((h' tcp_server).b_running ≡ false)
      × ((v : ℕ) → (h' v).joinable ≡ (h v).joinable)
      × ((v : ℕ) → ltb v 2 ≡ false → h' v ≡ h v)
unfolding signal_handler handle_signal stop
handle_signal_lem cancel h s = (refl, refl, refl, λ v. ground arith, λ v other. ground arith)
