-- ===== src/Tests/LifeCycles.antt =====
-- The life of connections at concrete inputs.
use mbtest.Prelude.{ℕ, arith, undefined, ◌≡◌, refl, true, false, [], ◌∷◌, ◌++◌}
use mbtest.Worker.{initial, write, run}
use mbtest.BaseServer.{register_connection, deregister_connection}
use mbtest.ThreadDeleter.{stop, delete_worker, global_service}
use mbtest.ThreadDeleter.Memory.{memory, memory-IsFifo}
use mbtest.LifeCycle.{absent, created, live, ended, set_phase, World, Step, Reach, Steps}
use mbtest.LifeCycle.Invariant.{queue, is_open}
use mbtest.LifeCycle.{finished, closed}
use mbtest.LifeCycle.Clean.{clean_stop}
use mbtest.LifeCycle.Starting.{spawned, assign_thread, assigned_late}

abbrev new_server : World memory
new_server = record {
  connections = [];
  deleter = record {
    threads = record { content = []; done = false };
    workers = λ v. initial;
    freed = [];
    terminated = false;
  };
  phase = λ v. absent;
}

new_server-Reach : Reach memory-IsFifo new_server
unfolding memory-IsFifo
new_server-Reach =
    Reach.start
      (record { no_connections = refl; no_items = refl; open_ = refl; nothing = λ w. refl })

-- A connection at the address 9 has been registered,
abbrev registered : World memory
registered = record {
  connections = register_connection 9 [];
  deleter = record new_server.deleter { workers = write 9 initial (λ v. initial) };
  phase = set_phase 9 created new_server.phase;
}

registered-Reach : Reach memory-IsFifo registered
registered-Reach = Reach.next new_server-Reach (Step.accepted 9 refl refl)

-- and gets its thread,
abbrev one : World memory
one = record registered {
  deleter = record registered.deleter {
    workers = write 9 (record { b_running = true; joinable = true }) registered.deleter.workers;
  };
  phase = set_phase 9 live registered.phase;
}

one-Reach : Reach memory-IsFifo one
unfolding run
one-Reach = Reach.next registered-Reach (Step.started 9 one.deleter.workers refl refl refl)

-- then comes to the end of its `run__`,
abbrev dead : World memory
dead =
    let (connections, deleter) =
      deregister_connection (global_service memory) 9 (one.connections, one.deleter) in
    record { connections = connections; deleter = deleter; phase = set_phase 9 ended one.phase }

dead-Reach : Reach memory-IsFifo dead
dead-Reach = Reach.next one-Reach (finished 9 refl refl)

-- or the deleter is stopped first.
abbrev shut : World memory
shut = record one { deleter = stop memory one.deleter }

shut-Reach : Reach memory-IsFifo shut
shut-Reach = Reach.next one-Reach (closed refl)

dead_open : memory-IsFifo.closed dead.deleter.threads ≡ false
unfolding memory-IsFifo deregister_connection delete_worker
dead_open = refl

shut_closed : memory-IsFifo.closed shut.deleter.threads ≡ true
unfolding memory-IsFifo stop
shut_closed = refl

-- The connection ends, and the round of the deleter comes too late for it.
abbrev late : World memory
late =
    let (connections, deleter) =
      deregister_connection (global_service memory) 9 (shut.connections, shut.deleter) in
    record { connections = connections; deleter = deleter; phase = set_phase 9 ended shut.phase }

no_open : (v : ℕ) → is_open (dead.phase v) ≡ false
no_open v = ground arith

clean_stop_example :
    (t : World memory) × Steps memory-IsFifo (record dead { deleter = stop memory dead.deleter }) t
    × ((v : ℕ) → t.phase v ≡ absent)
    × (memory-IsFifo.closed t.deleter.threads ≡ true)
clean_stop_example = clean_stop memory-IsFifo dead dead-Reach dead_open no_open

registered_open : memory-IsFifo.closed registered.deleter.threads ≡ false
unfolding memory-IsFifo
registered_open = refl

registered_queue : queue memory-IsFifo registered ≡ []
unfolding memory-IsFifo
registered_queue = refl

assigned_late_example :
    (t : World memory) × Steps memory-IsFifo (spawned 9 registered) t
    × (t.deleter.freed ≡ [] ++ (9 ∷ []))
    × ((t.deleter.workers 9).joinable ≡ false)
    × (assign_thread 9 t ≡ undefined)
assigned_late_example =
    assigned_late memory-IsFifo registered 9 registered-Reach registered_open registered_queue refl
