-- ===== src/Tests/Sessions.antt =====
-- Command lines on the client's standard input.
use mbtest.Prelude.{ℕ, ◌≡◌, refl, true, false, List, [], ◌∷◌, ◌++◌, ok, terminated, arith, All}
use mbtest.Wire.{little, big}
use mbtest.Asio.{Holds}
use mbtest.Asio.Memory.{Pipe, memory, memory-IsStream, pipe, pipe-Holds}
use mbtest.Interfaces.{AllRegs}
use mbtest.ModbusServer.{service}
use mbtest.ModbusServer.Reads.{tables}
use mbtest.Protocol.{requests}
use mbtest.TcpConnection.{loop}
use mbtest.Client.{Client, print}
use mbtest.Client.Text.{codes}
use mbtest.Client.Commands.{main}
use mbtest.Client.Commands.Lines.{coils, inputs}
use mbtest.Client.Commands.Entries.{
  Entry, cell, table, unknown, short, lines, IsEntry, commands, screen,
}
use mbtest.Client.Text.Split.{join}
use mbtest.Client.Commands.Entries.Unconnected.{main_unconnected}
use mbtest.System.{replies}
use mbtest.System.Session.{main_reads}
use mbtest.Tests.Data.{mapping, server, server-IsReady}
use mbtest.Client.Commands.Session.{lines_of, session, main-session, main_unterminated}

abbrev client_of : List ℕ → Client Pipe
client_of bytes = record {
  socket = pipe bytes;
  loop_thread = false;
  running = false;
  thread_ends = true;
  out = [];
}

abbrev client : Client Pipe
client = client_of []

main-session_example :
    main memory little 3
      (record {
        text = lines_of (codes "start" ∷ codes "x y" ∷ []) (10 ∷ codes "stop");
        at_end = false;
      })
      client
    ≡ session memory little (codes "start" ∷ codes "x y" ∷ []) client
main-session_example =
    main-session memory little (codes "start" ∷ codes "x y" ∷ []) (codes "stop") 3 client
      (ground arith) (omega arith)

main_unterminated_example :
    ¬ (main memory little 1000 (record { text = codes "stop"; at_end = false }) client ≡ ok client)
main_unterminated_example =
    main_unterminated memory little (codes "stop") 1000 client client (ground arith)

-- A user who reads a cell, makes two mistakes and reads a table.
abbrev typed : List Entry
typed =
    cell coils 3
    ∷ unknown (codes "foo") (codes "bar" ∷ [])
    ∷ short (codes "all" ∷ [])
    ∷ table inputs
    ∷ []

typed-IsEntry : All IsEntry typed
unfolding join
typed-IsEntry = (omega arith, (ground arith, (ground arith, (tt, tt))))

abbrev served : Client Pipe
served = client_of (
    replies memory-IsStream (
      loop memory little (λ _. true) (λ k. service (λ j. server)) 3 0
        (pipe (requests (commands typed)))))

abbrev regs : ℕ → AllRegs
regs k = tables mapping mapping mapping mapping

main_reads_example :
    (s' : Pipe) × (main memory big 5
        (record { text = lines_of (lines typed) (10 ∷ []); at_end = false })
        served
      ≡ ok (print (screen regs regs 0 typed) (record served { socket = s' })))
    × Holds memory-IsStream s' [] ([] ++ requests (commands typed))
main_reads_example =
    main_reads memory-IsStream memory-IsStream little big (λ k j. server) (λ k j. mapping)
      (λ k j. server-IsReady) typed [] 5 3 typed-IsEntry (omega arith) (omega arith)
      (pipe-Holds (requests (commands typed))) served []
      (pipe-Holds (
        replies memory-IsStream (
          loop memory little (λ _. true) (λ k. service (λ j. server)) 3 0
            (pipe (requests (commands typed))))))

-- The same user before `connect`, without the first line.
abbrev unconnected : Client Pipe
unconnected = record client { socket = record (pipe []) { open_ = false } }

abbrev mistaken : List Entry
mistaken = unknown (codes "foo") (codes "bar" ∷ []) ∷ short (codes "all" ∷ []) ∷ table inputs ∷ []

mistaken-IsEntry : All IsEntry mistaken
mistaken-IsEntry = typed-IsEntry.1

main_unconnected_example :
    main memory little 4
      (record { text = lines_of (lines mistaken) (10 ∷ []); at_end = false })
      unconnected
    ≡ terminated
main_unconnected_example =
    main_unconnected memory little mistaken [] 4 unconnected mistaken-IsEntry (omega arith)
      (λ bytes. refl)
