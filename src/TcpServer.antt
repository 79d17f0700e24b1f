-- ===== src/TcpServer.antt =====
-- TcpServer.h and TcpServer.cpp: the server that accepts the connections of mbclient.cpp.
-- Boost.Asio's acceptor is a parameter. `set_option` without an error code throws, as does `close`.
pub mod Laws
use mbtest.Prelude.{
  ℕ, ◌+◌, ◌<◌, ◌≡◌, refl, Bool, true, false, List, [], Outcome, ok, terminated, ◌>>=◌, arith,
  if◌then◌else◌,
}
use mbtest.Worker.{Heap}
use mbtest.BaseServer.{stop_connections}
use mbtest.BaseServer.Accept.{accept_loop}

-- Whether a call sets its error code or, for `set_option` and `close`, throws.
pub record Acceptor : Type 1 where
  pub State : Type 0
  pub open_ : State → Bool × State
  pub set_reuse_address : State → Bool × State
  pub bind : ℕ → State → Bool × State
  pub listen : State → Bool × State
  pub close : State → Bool × State

module _ (A : Acceptor) where
  open A use {State, set_reuse_address, bind, listen, close}

  pub record TcpServer : Type 0 where
    pub port : ℕ
    pub acceptor : State
    pub connections : List ℕ
    pub workers : Heap

  -- The constructor
  abbrev pub construct : ℕ → State → Heap → TcpServer
  construct port acceptor workers = record {
    port = port;
    acceptor = acceptor;
    connections = [];
    workers = workers;
  }

  -- The error codes of `open`, `bind` and `listen` end `run__`; without one it goes on to its loop.
  pub set_up : TcpServer → Outcome (Bool × TcpServer)
  set_up s =
      let (not_open, a1) = A.open_ s.acceptor in
      let (thrown, a2) = set_reuse_address a1 in
      let (not_bound, a3) = bind s.port a2 in
      let (deaf, a4) = listen a3 in
      if not_open
      then ok (false, record s { acceptor = a1 })
      else if thrown
      then terminated
      else if not_bound
      then ok (false, record s { acceptor = a3 })
      else if deaf
      then ok (false, record s { acceptor = a4 })
      else ok (true, record s { acceptor = a4 })

  -- `run__`, with the parameters of its accept loop.
  pub run :
      (running accepted : ℕ → Bool) (address : ℕ → ℕ) (others : ℕ → List ℕ × Heap → List ℕ × Heap)
      → ℕ
      → TcpServer
      → Outcome TcpServer
  run running accepted address others fuel s = set_up s >>= λ (go_on, s'). elim go_on [
    | true ↦
        accept_loop running accepted address others fuel 0 (s'.connections, s'.workers)
        >>= λ (connections, workers).
            ok (record s' { connections = connections; workers = workers })
    | false ↦ ok s'
  ]

  -- `stop__`; `cancel_io` interrupts the thread of the server, and `cancel` is what the `stop__` of
  -- a connection does.
  pub stop :
      {S : Type 0} (cancel_io : S → S) (cancel : ℕ → S → S)
      → TcpServer × S
      → Outcome (TcpServer × S)
  stop cancel_io cancel (s, t) =
      let (thrown, a) = close s.acceptor in
      let (connections, workers, t') =
        stop_connections cancel s.connections (s.workers, cancel_io t) in
      if thrown
      then terminated
      else ok (record s { acceptor = a; connections = connections; workers = workers }, t')
