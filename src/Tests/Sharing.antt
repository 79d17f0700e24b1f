-- ===== src/Tests/Sharing.antt =====
-- Two threads of the client on one socket, at concrete bytes.
use mbtest.Prelude.{ℕ, ◌≡◌, true, false, List, [], ◌∷◌, ◌++◌, ok, arith}
use mbtest.Wire.{little, be16}
use mbtest.Asio.{Holds}
use mbtest.Asio.Memory.{Pipe, memory, memory-IsStream, pipe, pipe-Holds}
use mbtest.Protocol.{frame}
use mbtest.Client.{Client}
use mbtest.Client.Sharing.{sending, play}
use mbtest.Client.Sharing.Mixed.{answered, answers_swapped}

abbrev client : List ℕ → Client Pipe
client bytes = record {
  socket = pipe bytes;
  loop_thread = true;
  running = true;
  thread_ends = true;
  out = [];
}

-- The user reads a coil while the loop reads everything.
abbrev both : List ℕ
both = frame (0 ∷ 1 ∷ 2 ∷ []) ++ (frame (1 ∷ []) ++ [])

answers_swapped_example :
    (s' : Pipe) × (play memory little
        (false ∷ false ∷ true ∷ true ∷ true ∷ true ∷ false ∷ false ∷ [])
        (sending 1 0, sending 9 0, pipe both)
      ≡ ok (answered 1 0 (0 ∷ 1 ∷ 2 ∷ []), answered 9 0 (1 ∷ []), s'))
    × Holds memory-IsStream s' [] (([] ++ (9 ∷ be16 0)) ++ (1 ∷ be16 0))
answers_swapped_example =
    answers_swapped memory-IsStream little (client both) 1 0 9 0 (1 ∷ []) (0 ∷ 1 ∷ 2 ∷ []) [] []
      (omega arith) (omega arith) (pipe-Holds both)
