-- ===== src/Tests/Client.antt =====
-- The client at concrete inputs.
use mbtest.Prelude.{
  ℕ, ◌+◌, ◌*◌, pos, negsuc, ◌≡◌, refl, true, false, List, [], ◌∷◌, ◌++◌, ok, undefined, arith, All,
  IsDefined, Bool-cases, inl, inr, leb, leb→le, length, length-take_within, take,
}
use mbtest.Wire.{little, big, be16}
use mbtest.Asio.{Holds}
use mbtest.Asio.Memory.{Pipe, memory, memory-IsStream, pipe, pipe-Holds}
use mbtest.Protocol.{frame}
use mbtest.Client.{Client, too_few_args, print, send_command}
use mbtest.Client.Broken.{cut_response, send_command_cut}
use mbtest.Client.Text.{codes, split_string}
use mbtest.Client.Text.Split.{join, IsWord, split_string_words}
use mbtest.Client.Commands.{process_words, read_reg_by_type}
use mbtest.Client.Commands.Defined.{FillsBuffer, process_words-IsDefined}
use mbtest.Client.Commands.Errors.{missing_words, registers_alias}

abbrev client : List ℕ → Client Pipe
client bytes = record {
  socket = pipe bytes;
  loop_thread = false;
  running = false;
  thread_ends = true;
  out = [];
}

split_string_words_example :
    (w : List ℕ) × (words : List (List ℕ)) × (split_string (codes "read  x") 32 ≡ ok (w ∷ words))
    × (join 32 w words ≡ codes "read  x")
    × IsWord 32 w
    × All (IsWord 32) words
split_string_words_example = split_string_words 32 refl (codes "read  x") (ground arith)

missing_words_example :
    (process_words memory little (codes "connect" ∷ codes "all" ∷ []) (client []) ≡ undefined)
    × (process_words memory little (codes "read" ∷ codes "all" ∷ []) (client [])
        ≡ ok (print (too_few_args ∷ []) (client [])))
missing_words_example = missing_words memory little (client []) (codes "all" ∷ []) (omega arith)

registers_alias_example :
    (read_reg_by_type memory little (codes "coil") (pos (3 + 65536 * 2)) (client [])
      ≡ read_reg_by_type memory little (codes "coil") (pos 3) (client []))
    × (read_reg_by_type memory little (codes "coil") (negsuc (3 + 65536 * 2)) (client [])
        ≡ read_reg_by_type memory little (codes "coil") (pos 65532) (client []))
registers_alias_example = registers_alias memory little (client []) (codes "coil") 3 2 (omega arith)

memory-FillsBuffer : FillsBuffer memory
memory-FillsBuffer = record {
  full = λ s n fine. elim (Bool-cases s.open_) [
    | inl connected ↦ elim (Bool-cases (leb n (length s.incoming))) [
      | inl enough ↦
          rw (connected, enough)
            (length-take_within n s.incoming (leb→le n (length s.incoming) enough))
      | inr short ↦ absurd (ground (arith, connected, short, fine))
    ]
    | inr closed ↦ absurd (ground (arith, closed, fine))
  ];
}

-- The server ends its side in the middle of an answer.
process_words-IsDefined_example : IsDefined (
    process_words memory big
      (codes "read" ∷ codes "input" ∷ codes "3" ∷ [])
      (client (0 ∷ 0 ∷ 0 ∷ 2 ∷ 7 ∷ [])))
process_words-IsDefined_example =
    process_words-IsDefined memory-FillsBuffer big (client (0 ∷ 0 ∷ 0 ∷ 2 ∷ 7 ∷ [])) (codes "read")
      (codes "input" ∷ codes "3" ∷ []) refl

-- The server ends its side after one of the two bytes of a value.
send_command_cut_example :
    (s' : Pipe) × (send_command memory little 5 0 (client (take 5 (frame (1 ∷ 0 ∷ []))))
      ≡ ok (
        cut_response 5 (1 ∷ 0 ∷ []),
        record (client (take 5 (frame (1 ∷ 0 ∷ [])))) { socket = s' },
      ))
    × Holds memory-IsStream s' [] ([] ++ (5 ∷ be16 0))
send_command_cut_example =
    send_command_cut memory-IsStream little 5 0 5 (1 ∷ 0 ∷ [])
      (client (take 5 (frame (1 ∷ 0 ∷ [])))) (omega arith) (omega arith)
      (pipe-Holds (take 5 (frame (1 ∷ 0 ∷ []))))
