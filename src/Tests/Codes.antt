-- ===== src/Tests/Codes.antt =====
-- The code of a connection at concrete inputs.
use mbtest.Prelude.{ℕ, ◌≡◌, refl, not, false, List, [], ◌∷◌, ok, arith, ltb}
use mbtest.Wire.{big}
use mbtest.Asio.Memory.{Pipe, memory as asio, pipe}
use mbtest.Worker.{Heap, initial}
use mbtest.BaseServer.{contains, base_service}
use mbtest.BaseServer.Accept.{start_connection}
use mbtest.ThreadDeleter.{global_service}
use mbtest.ThreadDeleter.Memory.{memory, memory-IsFifo}
use mbtest.ModbusServer.{service}
use mbtest.ModbusServer.Reads.{tables, service-Serves}
use mbtest.TcpConnection.{construct, run}
use mbtest.LifeCycle.{absent, World, Reach, Steps}
use mbtest.LifeCycle.Invariant.{queue}
use mbtest.LifeCycle.Code.{connection-Steps}
use mbtest.Tests.Data.{mapping, server, server-IsReady}

abbrev new_server : World memory
new_server = record {
  connections = [];
  deleter = record {
    threads = record { content = []; done = false };
    workers = λ v. initial;
    freed = [];
    terminated = false;
  };
  phase = λ v. absent;
}

new_server-Reach : Reach memory-IsFifo new_server
unfolding memory-IsFifo
new_server-Reach =
    Reach.start
      (record { no_connections = refl; no_items = refl; open_ = refl; nothing = λ w. refl })

-- The client sends a command and two bytes of another, and then the flag is cleared.
connection-Steps_example :
    (s' : Pipe) × (h : Heap) × (connections : List ℕ) × (t : World memory) × (start_connection 9
        ([], λ v. initial)
      ≡ ok (connections, h))
    × (run asio big
          (λ k. ltb k 1)
          2
          9
          (construct asio big
            (pipe (9 ∷ 0 ∷ 0 ∷ 1 ∷ 0 ∷ []))
            (base_service (global_service memory))
            (λ k. service (λ j. server)))
          (connections, record new_server.deleter { workers = h })
        ≡ ok (
          construct asio big s' (base_service (global_service memory)) (λ k. service (λ j. server)),
          (t.connections, t.deleter),
        ))
    × Steps memory-IsFifo new_server t
    × (contains t.connections 9 ≡ false)
    × (contains (queue memory-IsFifo t) 9 ≡ not (memory-IsFifo.closed new_server.deleter.threads))
connection-Steps_example =
    connection-Steps memory-IsFifo asio big (λ k. service (λ j. server))
      (λ k. tables mapping mapping mapping mapping) (λ k. tables mapping mapping mapping mapping)
      (λ k.
        service-Serves (λ j. server) mapping mapping mapping mapping server-IsReady server-IsReady
          server-IsReady server-IsReady)
      (λ k. ltb k 1) new_server 1 2 9 (pipe (9 ∷ 0 ∷ 0 ∷ 1 ∷ 0 ∷ [])) new_server-Reach refl refl
      refl (omega arith)
