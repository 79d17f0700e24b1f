-- ===== src/Tests/Lines.antt =====
-- Whole exchanges between a client and a server, over two hosts of different byte orders.
use mbtest.Prelude.{ℕ, ◌≡◌, refl, pos, true, false, List, [], ◌∷◌, ◌++◌, ok, arith, ltb}
use mbtest.Wire.{little, big}
use mbtest.Asio.{Holds}
use mbtest.Asio.Memory.{Pipe, memory, memory-IsStream, pipe, pipe-Holds}
use mbtest.Libmodbus.Memory.{memory as modbus, memory-IsLawful}
use mbtest.ModbusServer.{service}
use mbtest.Protocol.{input, request, requests}
use mbtest.TcpConnection.{loop}
use mbtest.Client.{response_size, Client, value, print}
use mbtest.Client.Text.{codes, stoi}
use mbtest.Client.Commands.{process_words}
use mbtest.System.Watch.{watch}
use mbtest.Client.Loop.{loop_func, commands}
use mbtest.System.{replies, read_input_line}
use mbtest.Tests.Data.{mapping, server, server-IsReady, fresh, fresh-Reach}

-- The client, when the connection has answered the request of the command.
abbrev client : List ℕ → Client Pipe
client bytes = record {
  socket = pipe bytes;
  loop_thread = false;
  running = false;
  thread_ends = true;
  out = [];
}

stoi_three : stoi (codes " +3x") ≡ ok (pos 3)
unfolding stoi
stoi_three = refl

abbrev fresh_answer : List ℕ
fresh_answer =
    replies memory-IsStream
      (loop memory big (λ _. true) (λ k. service (λ j. fresh)) 2 0 (pipe (request (input 3))))

read_input_line_example :
    (s' : Pipe) × (process_words memory little
        (codes "read" ∷ codes "input" ∷ codes " +3x" ∷ [])
        (client fresh_answer)
      ≡ ok (print (value 4 ∷ []) (record (client fresh_answer) { socket = s' })))
    × Holds memory-IsStream s' [] ([] ++ request (input 3))
read_input_line_example =
    read_input_line memory-IsStream memory-IsStream big little modbus memory-IsLawful (λ k j. fresh)
      (λ k j. fresh-Reach) (codes " +3x") [] 3 (omega arith) refl stoi_three
      (pipe-Holds (request (input 3))) (client fresh_answer) [] (pipe-Holds fresh_answer)

-- The connection has answered the two commands of the thread of `start`.
abbrev watching : Client Pipe
watching = client (
    replies memory-IsStream (
      loop memory little (λ _. true) (λ k. service (λ j. server)) 3 0
        (pipe (requests (commands 2)))))

watch_example :
    (s' : Pipe) × (loop_func memory big (λ k. ltb k 2) 3 watching
      ≡ ok (
          print
            (response_size 76 ∷ response_size 76 ∷ [])
            (record watching { socket = s'; running = false })))
    × Holds memory-IsStream s' [] ([] ++ requests (commands 2))
watch_example =
    watch memory-IsStream memory-IsStream little big (λ k j. server) (λ k j. mapping)
      (λ k j. server-IsReady) (λ k. ltb k 2) 2 3 (λ j below. ground arith) refl (omega arith)
      (pipe-Holds (requests (commands 2))) watching []
      (pipe-Holds (
        replies memory-IsStream (
          loop memory little (λ _. true) (λ k. service (λ j. server)) 3 0
            (pipe (requests (commands 2))))))
