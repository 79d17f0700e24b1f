-- ===== src/Tests/Programs.antt =====
-- The whole server at concrete states.
use mbtest.Prelude.{
  ok, undefined, if◌then◌else◌, ℕ, zero, suc, arith, Bool, ◌≡◌, refl, inl, true, false, [], ◌∷◌,
  ◌++◌, ltb, leb,
}
use mbtest.Worker.{initial, write, run}
use mbtest.BaseServer.{insert, contains, register_connection, deregister_connection}
use mbtest.ThreadDeleter.{round, delete_worker, global_service}
use mbtest.ThreadDeleter.Memory.{memory, memory-IsFifo}
use mbtest.LifeCycle.{created, live, ended, set_phase, World, accepted, started, finished}
use mbtest.LifeCycle as LifeCycle
use mbtest.Server.{construct, handle_signal_lem}
use mbtest.Server.Process.{absent, active, set_thread, Process, runs}
use mbtest.Server.Ending.{Ends}
use mbtest.Server.Whole.{
  Program, set_at, with_view, stop_server, moves, serves, signals, Reach, Moves,
}
use mbtest.Server.Whole.Invariant.{IsWhole}
use mbtest.Server.Whole.Reachable.{Reach-IsWhole, first_safe, signals-own}
use mbtest.Server.Whole.Kills.{signal_checked}
use mbtest.Server.Whole.Kills.Signal.{has_threads, signal_kills}
use mbtest.Server.Whole.Outrun.{main_outrun}

abbrev new_program : Program memory
new_program = record {
  main = record {
    place = 0;
    deleter = record {
      threads = record { content = []; done = false };
      workers = construct (λ v. initial);
      freed = [];
      terminated = false;
    };
    thread = λ v. absent;
  };
  sets = λ o. [];
  phase = λ v. LifeCycle.absent;
  owner = λ v. 0;
}

-- Both servers set themselves up.
abbrev fails : ℕ → Bool
fails w = false

abbrev with_thread : ℕ → Process memory → Process memory
with_thread w s = record {
  place = suc w;
  deleter = record s.deleter {
    workers = write w (record { b_running = true; joinable = true }) s.deleter.workers;
  };
  thread = set_thread w active s.thread;
}

abbrev running : Program memory
running = record new_program {
  main = with_thread 2 (with_thread 1 (with_thread 0 new_program.main));
}

running-Reach : Reach memory-IsFifo fails running
unfolding memory-IsFifo construct run
running-Reach =
    Reach.next
      (Reach.next
        (Reach.next
          (Reach.start (record {
            new = record {
              at_start = refl;
              constructed = (λ v. initial, refl);
              no_items = refl;
              open_ = refl;
              no_threads = λ w. refl;
            };
            no_connections = λ o. refl;
            nothing = λ v. refl;
          }))
          (moves (with_thread 0 new_program.main) (runs 0 _ refl refl refl refl) refl refl))
        (moves (with_thread 1 (with_thread 0 new_program.main)) (runs 1 _ refl refl refl refl) refl
          refl))
      (moves running.main (runs 2 _ refl refl refl refl) refl refl)

-- A client comes to the TCP server,
abbrev came : World memory
came = record {
  connections = register_connection 9 [];
  deleter = record running.main.deleter { workers = write 9 initial running.main.deleter.workers };
  phase = set_phase 9 created running.phase;
}

abbrev with_client : Program memory
with_client = record (with_view 1 came running) { owner = set_at 9 1 running.owner }

with_client-Reach : Reach memory-IsFifo fails with_client
with_client-Reach =
    Reach.next running-Reach (serves 1 came (accepted 9 refl refl) refl (refl, refl) refl)

abbrev served : World memory
served = record {
  connections = with_client.sets 1;
  deleter = record with_client.main.deleter {
    workers =
        write 9 (record { b_running = true; joinable = true }) with_client.main.deleter.workers;
  };
  phase = set_phase 9 live with_client.phase;
}

abbrev busy : Program memory
busy = record (with_view 1 served with_client) { owner = with_client.owner }

busy-Reach : Reach memory-IsFifo fails busy
unfolding construct run
busy-Reach =
    Reach.next with_client-Reach
      (serves 1 served (started 9 served.deleter.workers refl refl refl) refl (refl, refl) refl)

Reach-IsWhole_example : IsWhole memory-IsFifo fails busy
Reach-IsWhole_example = Reach-IsWhole memory-IsFifo fails busy-Reach

signal_kills_example :
    signal_checked busy
    ≡ (if has_threads busy then ok (stop_server 1 (stop_server 0 busy)) else undefined)
signal_kills_example = signal_kills memory-IsFifo fails busy busy-Reach

-- The test of that equation decides it here, and in the state before `run` of the connection.
busy-has_threads : (has_threads busy ≡ true) × (has_threads with_client ≡ false)
unfolding insert register_connection
busy-has_threads = (refl, refl)

-- and the user ends the server.
abbrev asked : Program memory
asked = stop_server 1 (stop_server 0 busy)

asked-Reach : Reach memory-IsFifo fails asked
asked-Reach = Reach.next busy-Reach (signals refl)

asked-off :
    ((asked.main.deleter.workers 0).b_running ≡ false)
    × ((asked.main.deleter.workers 1).b_running ≡ false)
asked-off =
    let i = Reach-IsWhole memory-IsFifo fails busy-Reach in
    let own = signals-own memory-IsFifo fails busy i in
    let (_, off0, off1, _, _) =
      handle_signal_lem (λ w (u : Unit {0}). u) busy.main.deleter.workers tt in
    (rw (own 0 refl) off0, rw (own 1 refl) off1)

asked-Ends : (w : ℕ) → ltb w 2 ≡ true → Ends memory-IsFifo fails asked.main w
asked-Ends zero small = inl asked-off.0
asked-Ends (suc zero) small = inl asked-off.1
asked-Ends (suc (suc w)) small = absurd (ground (arith, small))

-- Both threads of the servers, that of the deleter and that of the connection still run.
asked-place : (leb 3 asked.main.place ≡ true) × (asked.phase 9 ≡ live)
unfolding stop_server
asked-place = (refl, refl)

main_outrun_example :
    (t : Program memory) × Moves memory-IsFifo fails asked t
    × (t.main.place ≡ 7)
    × (t.phase 9 ≡ live)
main_outrun_example =
    main_outrun memory-IsFifo fails 9 asked asked-Reach asked-place.0 asked-Ends asked-place.1

-- The connection ends while both servers run.
abbrev ended_ : World memory
ended_ = record {
  connections =
      (deregister_connection (global_service memory) 9 (busy.sets 1, busy.main.deleter)).0;
  deleter = (deregister_connection (global_service memory) 9 (busy.sets 1, busy.main.deleter)).1;
  phase = set_phase 9 ended busy.phase;
}

abbrev gone : Program memory
gone = record (with_view 1 ended_ busy) { owner = busy.owner }

gone-Reach : Reach memory-IsFifo fails gone
gone-Reach = Reach.next busy-Reach (serves 1 ended_ (finished 9 refl refl) refl refl refl)

gone-queue : memory-IsFifo.items gone.main.deleter.threads ≡ 9 ∷ []
unfolding memory-IsFifo deregister_connection delete_worker
gone-queue = refl

first_safe_example :
    (gone.phase 9 ≡ ended)
    × (ltb 9 3 ≡ false)
    × ((o : ℕ) → contains (gone.sets o) 9 ≡ false)
    × (((round memory gone.main.deleter).workers 9).joinable ≡ false)
    × ((round memory gone.main.deleter).terminated ≡ gone.main.deleter.terminated)
    × ((round memory gone.main.deleter).freed ≡ gone.main.deleter.freed ++ (9 ∷ []))
    × (contains (memory-IsFifo.items (round memory gone.main.deleter).threads) 9 ≡ false)
first_safe_example = first_safe memory-IsFifo fails gone 9 [] gone-Reach gone-queue
