-- ===== src/Tests/Server.antt =====
-- The server at concrete inputs.
use mbtest.Prelude.{
  ℕ, ◌+◌, ◌<◌, ◌≡◌, refl, negsuc, true, none, some, List, [], ◌∷◌, ◌++◌, ok, arith, All, length,
  ltb,
}
use mbtest.Wire.{little, big}
use mbtest.Asio.{Holds}
use mbtest.Asio.Memory.{Pipe, memory, memory-IsStream, pipe, pipe-Holds}
use mbtest.Interfaces.{AllRegs, BaseService, Serves}
use mbtest.ModbusServer.{ModbusServer, service}
use mbtest.ModbusServer.Reads.{tables, service-Serves}
use mbtest.TcpConnection.Unmapped.{Falls, dispatch_unmapped}
use mbtest.Protocol.{Command, coil, IsWellFormed, IsSendable, answer, answers, requests}
use mbtest.TcpConnection.{dispatch, loop, construct as construct_connection, run}
use mbtest.TcpConnection.Handlers.{Sends, dispatch-Sends}
use mbtest.TcpConnection.Loop.{loop_bytes, run_bytes}
use mbtest.TcpConnection.Stopping.{run_stops}
use mbtest.Tests.Data.{mapping, server, server-IsReady}

abbrev regs : AllRegs
regs = tables mapping mapping mapping mapping

regs-IsWellFormed : IsWellFormed regs
regs-IsWellFormed = record {
  coils = omega arith;
  discrete = omega arith;
  inputs = omega arith;
  holding = omega arith;
  input_words = omega arith;
  holding_words = omega arith;
}

service-Serves_example : Serves (service (λ k. server)) regs regs
service-Serves_example =
    service-Serves (λ k. server) mapping mapping mapping mapping server-IsReady server-IsReady
      server-IsReady server-IsReady

dispatch-Sends_example :
    Sends memory-IsStream
      (dispatch memory big (service (λ k. server)) 1 3 (pipe []))
      []
      []
      (answer regs regs (coil 3))
dispatch-Sends_example =
    dispatch-Sends memory-IsStream big (service (λ k. server)) service_promise (pipe-Holds [])
      (coil 3) regs-IsWellFormed regs-IsWellFormed tt
  where
    service_promise : Serves (service (λ k. server)) regs regs
    service_promise =
        service-Serves (λ k. server) mapping mapping mapping mapping server-IsReady server-IsReady
          server-IsReady server-IsReady

-- Two commands, one of them unknown, and the first byte of a third.
loop_bytes_example :
    (cs : List Command) × (tail : List ℕ) × (s' : Pipe) × (1 ∷ 0 ∷ 3 ∷ 77 ∷ 0 ∷ 0 ∷ 2 ∷ []
      ≡ requests cs ++ tail)
    × (length tail < 3)
    × All IsSendable cs
    × (loop memory little
          (λ _. true)
          (λ k. service (λ j. server))
          3
          0
          (pipe (1 ∷ 0 ∷ 3 ∷ 77 ∷ 0 ∷ 0 ∷ 2 ∷ []))
        ≡ ok s')
    × Holds memory-IsStream s' [] ([] ++ answers (λ k. regs) (λ k. regs) 0 cs)
loop_bytes_example =
    loop_bytes memory-IsStream little (λ k. service (λ j. server)) (λ k. regs) (λ k. regs)
      (λ k.
        service-Serves (λ j. server) mapping mapping mapping mapping server-IsReady server-IsReady
          server-IsReady server-IsReady)
      (λ k. regs-IsWellFormed) (λ k. regs-IsWellFormed) (1 ∷ 0 ∷ 3 ∷ 77 ∷ 0 ∷ 0 ∷ 2 ∷ []) 3 0
      (omega arith) (omega arith) (pipe-Holds (1 ∷ 0 ∷ 3 ∷ 77 ∷ 0 ∷ 0 ∷ 2 ∷ []))

abbrev unmapped : ModbusServer (Unit {0})
unmapped = record { port = 1502; ctx = some tt; mb_mapping = none; server_socket = negsuc 0 }

-- A command for the coil 9 is answered from the mapping, and there is none.
dispatch_unmapped_example :
    Falls memory-IsStream big
      (pipe-Holds [])
      (coil 9)
      (dispatch memory big (service (λ k. unmapped)) 1 9 (pipe []))
dispatch_unmapped_example =
    dispatch_unmapped memory-IsStream big (pipe-Holds []) (λ k. unmapped) (coil 9) refl tt

abbrev recorder : BaseService (List ℕ)
recorder = record {
  register_connection = λ w ws. w ∷ ws;
  deregister_connection = λ w ws. (w + 100) ∷ ws;
}

run_bytes_example :
    (cs : List Command) × (tail : List ℕ) × (s' : Pipe) × (9 ∷ 0 ∷ 0 ∷ 2 ∷ [] ≡ requests cs ++ tail)
    × (length tail < 3)
    × All IsSendable cs
    × (run memory big
          (λ _. true)
          2
          7
          (construct_connection memory big
            (pipe (9 ∷ 0 ∷ 0 ∷ 2 ∷ []))
            recorder
            (λ k. service (λ j. server)))
          []
        ≡ ok (construct_connection memory big s' recorder (λ k. service (λ j. server)), 107 ∷ []))
    × Holds memory-IsStream s' [] ([] ++ answers (λ k. regs) (λ k. regs) 0 cs)
run_bytes_example =
    run_bytes memory-IsStream big (λ k. service (λ j. server)) (λ k. regs) (λ k. regs)
      (λ k.
        service-Serves (λ j. server) mapping mapping mapping mapping server-IsReady server-IsReady
          server-IsReady server-IsReady)
      (λ k. regs-IsWellFormed) (λ k. regs-IsWellFormed) recorder (9 ∷ 0 ∷ 0 ∷ 2 ∷ []) 2 7 []
      (omega arith) (omega arith) refl (pipe-Holds (9 ∷ 0 ∷ 0 ∷ 2 ∷ []))

-- The flag is cleared after one round.
run_stops_example :
    (s' : Pipe) × (run memory big
        (λ k. ltb k 1)
        2
        7
        (construct_connection memory big (pipe (9 ∷ 0 ∷ [])) recorder (λ k. service (λ j. server)))
        []
      ≡ ok (construct_connection memory big s' recorder (λ k. service (λ j. server)), 107 ∷ []))
run_stops_example =
    run_stops memory big (λ k. service (λ j. server)) (λ k. regs) (λ k. regs)
      (λ k.
        service-Serves (λ j. server) mapping mapping mapping mapping server-IsReady server-IsReady
          server-IsReady server-IsReady)
      (λ k. ltb k 1) recorder 1 2 7 (pipe (9 ∷ 0 ∷ [])) [] refl (omega arith)
