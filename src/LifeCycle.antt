-- ===== src/LifeCycle.antt =====
-- The life of the connections of one server, over TcpServer.cpp, BaseServer.cpp, Worker.cpp and
-- ThreadDeleter.cpp: the accept loop, the threads of the connections, the thread that stops the
-- server and the deleter, in any order. A step is one call of a method of BaseServer, Worker or
-- ThreadDeleter, or one round of the deleter.
pub mod Queue
pub mod Invariant
pub mod Safety
pub mod Leaks
pub mod Clean
pub mod Starting
pub mod Code
use mbtest.Prelude.{ℕ, ◌≡◌, Bool, true, false, List, [], ◌∷◌, ok, if◌then◌else◌, ◌==◌}
use mbtest.Worker.{Heap, initial, write, run}
use mbtest.BaseServer.{register_connection, deregister_connection, stop_connections}
use mbtest.ThreadDeleter.{BlockingCollection, IsFifo, ThreadDeleter, global_service, round, stop}

-- Whether a connection lies at an address, and how far its thread is: not started by `run`, before
-- the call of `deregisterConnection` at the end of `run__`, or after it.
pub data Phase : Type 0 where
  absent created live ended : Phase

abbrev pub set_phase : ℕ → Phase → (ℕ → Phase) → ℕ → Phase
set_phase w p phase v = if w == v then p else phase v

-- `connections_` of the server, the deleter with the workers, and the threads.
pub record World (C : BlockingCollection) : Type 0 where
  pub connections : List ℕ
  pub deleter : ThreadDeleter C
  pub phase : ℕ → Phase

module _ {C : BlockingCollection} (F : IsFifo C) where
  pub data Step (s : World C) (t : World C) : Type 0 where
    -- The accept loop up to `registerConnection`: `new` gives an address at which nothing lies.
    accepted :
        (w : ℕ)
        → s.phase w ≡ absent
        → t ≡ record {
          connections = register_connection w s.connections;
          deleter = record s.deleter { workers = write w initial s.deleter.workers };
          phase = set_phase w created s.phase;
        }
        → Step s t
    -- `newConn->run()` as one step; LifeCycle/Starting.antt has its two.
    started :
        (w : ℕ) (h : Heap)
        → s.phase w ≡ created
        → run w s.deleter.workers ≡ ok h
        → t ≡ record s {
          deleter = record s.deleter { workers = h };
          phase = set_phase w live s.phase;
        }
        → Step s t
    -- The thread of a connection comes to the end of its `run__`.
    finished :
        (w : ℕ)
        → s.phase w ≡ live
        → t ≡ record {
          connections = (deregister_connection (global_service C) w (s.connections, s.deleter)).0;
          deleter = (deregister_connection (global_service C) w (s.connections, s.deleter)).1;
          phase = set_phase w ended s.phase;
        }
        → Step s t
    -- The deleter takes a connection whose thread has ended, so that `join` returns.
    deleted :
        (w : ℕ) (ws : List ℕ)
        → F.items s.deleter.threads ≡ w ∷ ws
        → s.phase w ≡ ended
        → t ≡ record s { deleter = round C s.deleter; phase = set_phase w absent s.phase }
        → Step s t
    -- `stopConnections`; what closing a socket does to a thread is that the thread comes to its
    -- end. It is undefined for a connection that has no thread yet: BaseServer/Kills.antt has that,
    -- and the flags are here cleared all the same, so that what holds at any time holds of every
    -- run up to there.
    stopped :
        t ≡ record s {
          connections = (stop_connections (λ w u. u) s.connections (s.deleter.workers, tt)).0;
          deleter = record s.deleter {
            workers = (stop_connections (λ w u. u) s.connections (s.deleter.workers, tt)).1;
          };
        }
        → Step s t
    -- `td.stop()` of `main`
    closed : t ≡ record s { deleter = stop C s.deleter } → Step s t

  -- A server that has not accepted anything, with a new deleter.
  pub record IsInitial (s : World C) : Type 0 where
    pub no_connections : s.connections ≡ []
    pub no_items : F.items s.deleter.threads ≡ []
    pub open_ : F.closed s.deleter.threads ≡ false
    pub nothing : (w : ℕ) → s.phase w ≡ absent

  pub data Reach : World C → Type 0 where
    start : {s : World C} → IsInitial s → Reach s
    next : {s t : World C} → Reach s → Step s t → Reach t

  -- Any number of steps.
  pub data Steps : World C → World C → Type 0 where
    here : {s : World C} → Steps s s
    more : {s t u : World C} → Step s t → Steps t u → Steps s u
