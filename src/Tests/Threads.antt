-- ===== src/Tests/Threads.antt =====
-- The two threads of the client at concrete states.
use mbtest.Prelude.{◌≡◌, refl, ◌<◌, ◌≤◌, ◌⊎◌, true, false, []}
use mbtest.Wire.{big}
use mbtest.Asio.Memory.{Pipe, memory, pipe}
use mbtest.Client.{Client}
use mbtest.Client.Commands.Thread.{
  Threads, testing, returned, enters, tests, Steps, here, more, idle, early,
}
use mbtest.Client.Commands.Race.{IsStopping, left, stop_early, stop_ends}

abbrev client : Client Pipe
client = record {
  socket = pipe [];
  loop_thread = false;
  running = false;
  thread_ends = true;
  out = [];
}

-- The thread has come to its loop after `main` has called `join`.
abbrev late : Threads memory
late = record {
  client = record client { loop_thread = true; running = true };
  place = testing;
  waiting = true;
}

stop_early_example : Steps memory big (idle client) (early client) × (late.waiting ≡ true)
stop_early_example = stop_early memory big client late refl (more (enters refl refl) here)

-- `main` has cleared the flag while the thread was in its loop.
abbrev stopping : Threads memory
stopping = record { client = record client { loop_thread = true }; place = testing; waiting = true }

stop_ends_example :
    ((u : Threads memory) × Steps memory big stopping u
      × (u.waiting ≡ false)
      × (u.client.loop_thread ≡ false))
    × (((record stopping { place = returned }).waiting ≡ false)
        ⊎ (IsStopping (record stopping { place = returned }) × (left returned < left testing)))
    × (left testing ≤ 2)
stop_ends_example =
    stop_ends memory big (record { waits = refl; cleared = refl; entered = refl }) (λ e. cc)
      (tests refl refl)
