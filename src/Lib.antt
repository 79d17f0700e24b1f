-- ===== src/Lib.antt =====
-- Verification of mbtest, a demonstration of the Modbus protocol: a server that offers four tables
-- of ten registers each to Modbus clients and, over a protocol of its own, to a client on the
-- command line.
--
-- The program and the files that model it. Paths are those of the repository, whose root holds all
-- sources; a definition has the name of the function that it models, in snake case.
-- - Interfaces.h: Interfaces.antt. The interfaces of the classes are records of functions;
--   `Serves` is what TcpConnection relies on of IModbusService.
-- - protocol.h: Protocol/Code.antt has the codes of the commands. Protocol.antt describes
--   requests and answers as bytes in network order, apart from both programs;
--   Protocol/Lengths.antt has their lengths.
-- - ModbusServer.h, ModbusServer.cpp: ModbusServer.antt. Each method is a step on the server,
--   since it holds `ctxMutex`; `readAll` is four such steps, with any others between them.
--   ModbusServer/Reads.antt has the read methods, ModbusServer/Setup.antt the set-up and what
--   requests leave of it, ModbusServer/Inputs.antt the two tables that are set up,
--   ModbusServer/Unmapped.antt the read methods of a server without a mapping,
--   ModbusServer/Accepting.antt `run__` as a whole and `stop__`, ModbusServer/Accepting/Port.antt
--   its port, and ModbusServer/Destructor.antt what the destructor frees.
-- - ModbusConnection.h, ModbusConnection.cpp: ModbusConnection.antt, proved in
--   ModbusConnection/Laws.antt.
-- - TcpConnection.h, TcpConnection.cpp: TcpConnection.antt. The lemmas are in
--   TcpConnection/Responses.antt for `writeResponse`, TcpConnection/Handlers.antt for the
--   commands, TcpConnection/Loop.antt for the loop on a stream that ends,
--   TcpConnection/Stopping.antt for the loop of a connection that gets stopped, and
--   TcpConnection/Unmapped.antt for commands while the Modbus server has no mapping.
-- - TcpServer.h, TcpServer.cpp: TcpServer.antt, and TcpServer/Laws.antt. The accept loop, which
--   ModbusServer.cpp has in the same form, is BaseServer/Accept.antt; what other threads do to the
--   set meanwhile is an argument of it.
-- - Worker.h, Worker.cpp: Worker.antt. Objects with threads lie on a heap, by address.
-- - BaseServer.h, BaseServer.cpp: BaseServer.antt. The set of pointers is the ascending list of
--   the addresses. BaseServer/Laws.antt has the theorems on one call, BaseServer/Histories.antt
--   those on any sequence of calls, with finite sets, as a quotient of lists, in
--   BaseServer/Histories/Unordered.antt. BaseServer/Walk.antt has the loop of `stopConnections` by
--   its iterator, with what other threads do to the set meanwhile, and BaseServer/Kills.antt what
--   its calls of `pthread_kill` need.
-- - ThreadDeleter.h, ThreadDeleter.cpp: ThreadDeleter.antt, and ThreadDeleter/Drain.antt.
-- - The accept loop, the threads of the connections, the stop of the server and the deleter run
--   in any order: LifeCycle.antt has them as the steps of one relation, over the functions of the
--   files above. LifeCycle/Invariant.antt has what every step keeps, LifeCycle/Queue.antt lemmas
--   on the queue of the deleter; LifeCycle/Safety.antt, LifeCycle/Leaks.antt,
--   LifeCycle/Clean.antt what follows of it.
--   LifeCycle/Starting.antt has `run` of Worker.cpp in two parts, with steps of the others between,
--   and LifeCycle/Code.antt the code of a TCP connection as steps.
-- - mbserver.cpp: Server.antt. Server/Process.antt has `main`, its threads and the signals as
--   steps, Server/Invariant.antt and Server/Invariant/Always.antt what holds at any time,
--   Server/Ending.antt how `main` ends. Server/Whole.antt is the program as a whole: `main`, its
--   threads, signals, and the connections of both servers, which share the deleter.
--   Its children are Invariant.antt, Serves.antt for the steps of connections, Calls.antt for those
--   of `main` and signals, Reachable.antt, Outrun.antt for connections that `main` leaves, and
--   Kills.antt with Kills/Signal.antt for SIGINT and the threads that it interrupts.
-- - mbclient.cpp: Client.antt has the requests and the decoding, Client/Text.antt the words of a
--   line, Client/Commands.antt the commands and `main`, Client/Loop.antt the thread of `start`.
--   Client/Exchange.antt, Client/Reads.antt, Client/Text/Split.antt, Client/Text/Number.antt and
--   Lines, Session, Defined and Errors of Client/Commands have the theorems, Client/Broken.antt
--   those on answers that are cut off. Client/Text/Decimal.antt writes numbers in decimal digits,
--   apart from the program. Client/Commands/Thread.antt has `main` and the thread of `start` as
--   steps over the flag `running`, and Client/Commands/Race.antt when `stop` ends that thread.
--   Client/Sharing.antt has the reads and writes of `sendCommand` one by one, for two threads on
--   one socket, and Client/Sharing/Mixed.antt what the threads do to each other.
--   Client/Commands/Entries.antt has the lines of a user who reads, and what the screen is to
--   show for them; Client/Commands/Entries/Texts.antt and Client/Commands/Entries/Screen.antt
--   have their lemmas. Client/Commands/Unwritable.antt has the reads on a socket that cannot be
--   written to, and Client/Commands/Entries/Unconnected.antt a session on one.
-- - System.antt joins the client, the connection and the Modbus server: what one sends is what
--   the other receives. System/Lines.antt starts from the line as it is typed, System/Watch.antt
--   has the thread of `start`, and System/Session.antt a session from its first line to its last.
-- Prelude and its children are shared lists, tests, numbers and outcomes of C++ calls. Tests has
-- runs at concrete inputs.
--
-- Integers are natural numbers, reduced where the code has a narrower type: Wire.antt has the byte
-- orders of `uint16_t` and `uint32_t`, for a host of either order. A call returns a value, reaches
-- undefined behaviour, or ends the process (Prelude/Outcomes.antt).
--
-- Code outside the repository is a parameter: Boost.Asio and the network (Asio.antt), libmodbus
-- (Libmodbus.antt), the operating system (Posix.antt), the acceptor (TcpServer.antt), and the
-- calls of the blocking queue (ThreadDeleter.antt), since BlockingCollection.h is a copy of
-- another project's library. What is relied on of them are the records IsStream, IsLawful and
-- IsFifo, each with an instance in a file Memory.antt, and FillsBuffer of
-- Client/Commands/Defined.antt.
--
-- Loops run on fuel, one unit for a round and one to leave. A connection uses three bytes in a
-- round, so more than a third of the bytes of its stream is enough, and two for one command. Loops
-- on a flag need more rounds than pass before the flag is cleared, the deleter more than there are
-- workers in its queue, and `main` of the client more than there are commands.
--
-- Not modelled: what the server prints; interrupted system calls; a signal before `sigaction`,
-- which ends the process; the destructors but that of ModbusServer, which are empty; races in the
-- steps of LifeCycle.antt, each of which is a method as a whole, also `stopConnections`, which does
-- not take the mutex, and `run`, which BaseServer/Walk.antt and LifeCycle/Starting.antt have in
-- smaller steps; what a thread does that goes on after `main` has destroyed the servers; the
-- sockets of the Modbus connections; BlockingCollection.h. Where `stop` calls `pthread_kill` for a
-- worker without a thread, the steps of LifeCycle.antt and of the files of Server clear its flag,
-- and BaseServer/Kills.antt and Server/Whole/Kills.antt say that the code is undefined. Where a
-- file has one thread only, the effects of the others are arguments: the flag, the server as a
-- round finds it, what becomes of the set of connections, and whether the thread of `start` ends
-- once it is waited for.
pub mod Prelude
pub mod Posix
pub mod Wire
pub mod Interfaces
pub mod Libmodbus
pub mod ModbusServer
pub mod Asio
pub mod Protocol
pub mod TcpConnection
pub mod Client
pub mod System
pub mod Tests
pub mod Worker
pub mod BaseServer
pub mod ThreadDeleter
pub mod TcpServer
pub mod ModbusConnection
pub mod Server
pub mod LifeCycle
