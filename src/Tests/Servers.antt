-- ===== src/Tests/Servers.antt =====
-- The accept loops and a Modbus connection at concrete inputs.
use mbtest.Prelude.{
  ℕ, zero, suc, true, ◌+◌, ◌≡◌, refl, pos, Bool, false, List, [], ◌∷◌, ok, ◌>>=◌, arith,
  if◌then◌else◌, ltb, ◌==◌,
}
use mbtest.Interfaces.{GlobalService}
use mbtest.Libmodbus.Memory.{memory as modbus, memory-IsLawful}
use mbtest.Worker.{Heap, initial}
use mbtest.BaseServer.{contains, base_service}
use mbtest.BaseServer.Histories.{Call, Spec, deregisters, stops}
use mbtest.BaseServer.Accept.{Agrees, calls_of, after_rounds}
use mbtest.ModbusServer.{ModbusServer, construct}
use mbtest.ModbusServer.Setup.{Reach}
use mbtest.ModbusServer.Accepting.{Ran, run, run_returns}
use mbtest.ModbusServer.Accepting.Port.{end_with_port, run-port}
use mbtest.ModbusConnection.{
  ModbusConnection, construct as construct_connection, run as run_connection,
}
use mbtest.ModbusConnection.Laws.{run_lem}
use mbtest.TcpServer.{Acceptor, TcpServer, construct as construct_tcp, run as run_tcp, stop}
use mbtest.TcpServer.Laws.{Listens, at_first, run-stop_lem, accepted_late}
use mbtest.Tests.Data.{fresh, fresh-Reach}

-- The flag is set for two rounds; the second accepts a connection, at the address 9.
abbrev two_rounds : ℕ → Bool
two_rounds k = ltb k 2

abbrev second : ℕ → Bool
second k = k == 1

abbrev address : ℕ → ℕ
address k = k + 8

-- All connections are stopped while the second round waits, and the one at 9 ends after it.
abbrev meanwhile : ℕ → List Call
meanwhile zero = []
meanwhile (suc zero) = stops ∷ []
meanwhile (suc (suc k)) = deregisters 9 ∷ []

abbrev workers : Heap
workers = λ v. initial

abbrev recorder : GlobalService (List ℕ)
recorder = record { delete_worker = λ w s. w ∷ s }

-- The Modbus connection with the descriptor 4
abbrev four : ModbusConnection (Unit {0}) (List ℕ × List ℕ)
four = construct_connection (pos 4) tt (base_service recorder)

run_lem_example :
    (s' : ModbusServer (Unit {0})) × (run_connection modbus two_rounds second
        (λ k s. s)
        four
        9
        3
        fresh
        (9 ∷ [], [])
      ≡ ok (s', four.server1.deregister_connection 9 (9 ∷ [], [])))
    × Reach modbus s'
run_lem_example =
    run_lem modbus two_rounds second (λ k s. s) four (λ k s r. r) 2 9 3 fresh (9 ∷ [], []) refl
      (omega arith) fresh-Reach

run_returns_example :
    (t : ModbusServer (Unit {0}) × List ℕ × Heap) × (run modbus two_rounds second address
        (calls_of meanwhile)
        3
        (construct (Unit {0}) 1502)
        ([], workers)
      ≡ ok t)
    × Ran modbus memory-IsLawful two_rounds second address meanwhile workers 2 t
run_returns_example =
    run_returns modbus memory-IsLawful two_rounds second address meanwhile 1502 2 3 workers
      (λ j below. ground arith) refl (omega arith)

run-port_example :
    run modbus two_rounds second address
      (calls_of meanwhile)
      3
      (construct (Unit {0}) 502)
      ([], workers)
    ≡ (run modbus two_rounds second address
          (calls_of meanwhile)
          3
          (construct (Unit {0}) 1502)
          ([], workers)
        >>= end_with_port modbus two_rounds second address (calls_of meanwhile) 3 ([], workers) 502)
run-port_example =
    run-port modbus two_rounds second address (calls_of meanwhile) 3 ([], workers) 502 1502

-- An acceptor that counts its calls, none of which fails.
abbrev calls : Acceptor
calls = record {
  State = ℕ;
  open_ = λ n. (false, n + 1);
  set_reuse_address = λ n. (false, n + 1);
  bind = λ port n. (false, n + 1);
  listen = λ n. (false, n + 1);
  close = λ n. (false, n + 1);
}

abbrev tcp : TcpServer calls
tcp = construct_tcp calls 5000 0 workers

tcp-Listens : Listens calls tcp
tcp-Listens = record { opens = refl; reuses = refl; binds = refl; listens = refl }

abbrev expected : Spec
expected =
    after_rounds second address meanwhile 0 2
      (at_first calls two_rounds second address meanwhile tcp)

run-stop_lem_example :
    (s1 : TcpServer calls) × (s2 : TcpServer calls) × (t' : List ℕ) × (run_tcp calls two_rounds
        second address
        (calls_of meanwhile)
        3
        tcp
      ≡ ok s1)
    × Agrees (s1.connections, s1.workers) expected
    × (stop calls (λ t. 0 ∷ t) (λ w t. w ∷ t) (s1, []) ≡ ok (s2, t'))
    × (s2.connections ≡ [])
    × ((v : ℕ) → (s2.workers v).b_running ≡ (if expected.0 v then false else expected.1 v))
run-stop_lem_example =
    run-stop_lem calls two_rounds second address meanwhile (λ t. 0 ∷ t) (λ w t. w ∷ t) 2 3 tcp []
      tcp-Listens refl (λ j below. ground arith) refl (omega arith) (λ a. refl)

-- The stop comes while the second round waits, and nothing after it.
abbrev only_stop : ℕ → List Call
only_stop zero = []
only_stop (suc zero) = stops ∷ []
only_stop (suc (suc k)) = []

accepted_late_example :
    (s1 : TcpServer calls) × (run_tcp calls two_rounds second address (calls_of only_stop) 3 tcp
      ≡ ok s1)
    × (contains s1.connections 9 ≡ true)
    × ((s1.workers 9).b_running ≡ true)
accepted_late_example =
    accepted_late calls two_rounds second address only_stop 1 3 tcp tcp-Listens refl
      (λ j below. ground arith) refl (omega arith) refl refl
