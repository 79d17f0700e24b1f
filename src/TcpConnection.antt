-- ===== src/TcpConnection.antt =====
-- TcpConnection.h and TcpConnection.cpp: a connection that answers register reads over TCP.
-- `std::cout` lines of the server are left out.
pub mod Responses
pub mod Handlers
pub mod Unmapped
pub mod Loop
pub mod Stopping
use mbtest.Prelude.{
  ℕ, zero, suc, ◌+◌, ◌*◌, ◌%◌, ◌^◌, ℤ, pos, Bool, true, false, Option, none, some, List, [], ◌∷◌,
  ◌++◌, Outcome, ok, terminated, out_of_fuel, ◌>>=◌, if◌then◌else◌, ltb, ◌==◌, length, take, drop,
}
use mbtest.Wire.{ByteOrder, store16, load16, ntohs, htons, store32, ntohl}
use mbtest.Posix.{Posix}
use mbtest.Worker.{cancel_io}
use mbtest.Asio.{Asio}
use mbtest.Interfaces.{AllRegs, ModbusService, BaseService}
use mbtest.Protocol.Code

-- `uint32_t` from `size_t`
abbrev to_uint32 : ℕ → ℕ
to_uint32 n = n % 2 ^ 32

-- `getSize`, as the 32 bits of its `int`.
pub get_size : AllRegs → ℕ
get_size data_ = to_uint32 (
    length data_.coils
    + 4
    + length data_.discrete
    + 4
    + length data_.inputs * 2
    + 4
    + length data_.holding * 2
    + 4)

-- The variables `cmd` and `arg`, which are 0, after `read` has stored bytes into them.
abbrev pub stored_byte : List ℕ → ℕ
stored_byte [] = 0
stored_byte (b ∷ bytes) = b

abbrev pub stored_second : List ℕ → ℕ
stored_second [] = 0
stored_second (a ∷ []) = 0
stored_second (a ∷ b ∷ bytes) = b

module _ (A : Asio) (order : ByteOrder) where
  open A use {Socket, read, write, close, has_remote_endpoint}

  -- The error code of each write is ignored.
  abbrev send : List ℕ → Socket → Socket
  send bytes s = (write s bytes).1

  -- `writeResponse(uint8_t *data, uint32_t size)`, where `memory` is what `data` points to.
  pub write_response : List ℕ → ℕ → Socket → Socket
  write_response memory size s =
      let s' = send (store32 order (ntohl order size)) s in
      if size == 0 then s' else send (take size memory) s'

  -- `writeResponse(uint8_t data)`
  pub write_response_byte : ℕ → Socket → Socket
  write_response_byte value s = write_response (value ∷ []) 1 s

  -- `writeResponse(uint16_t data)`
  pub write_response_word : ℕ → Socket → Socket
  write_response_word value s = write_response (store16 order (htons order value)) 2 s

  -- `writeResponse(const std::vector<uint8_t> &data)`
  pub write_response_bytes : List ℕ → Socket → Socket
  write_response_bytes values s =
      let s' = send (store32 order (ntohl order (to_uint32 (length values)))) s in
      if length values == 0 then s' else send values s'

  write_words : List ℕ → Socket → Socket
  write_words [] s = s
  write_words (w ∷ ws) s = write_words ws (send (store16 order (htons order w)) s)

  -- `writeResponse(const std::vector<uint16_t> &data)`
  pub write_response_words : List ℕ → Socket → Socket
  write_response_words values s =
      write_words values (send (store32 order (ntohl order (to_uint32 (length values * 2)))) s)

  -- `writeResponse(const allRegs &data)`
  pub write_response_regs : AllRegs → Socket → Socket
  write_response_regs regs s =
      let s0 = send (store32 order (ntohl order (get_size regs))) s in
      let s1 = write_response_bytes regs.coils s0 in
      let s2 = write_response_bytes regs.discrete s1 in
      let s3 = write_response_words regs.inputs s2 in write_response_words regs.holding s3

  module _ (server2 : ModbusService) where
    pub read_coil : ℤ → Socket → Outcome Socket
    read_coil arg s = do
      (n, value) ← server2.read_coil arg 0
      ok (if ltb 0 n then write_response_byte value s else write_response [] 0 s)

    pub read_discrete : ℤ → Socket → Outcome Socket
    read_discrete arg s = do
      (n, value) ← server2.read_discrete arg 0
      ok (if ltb 0 n then write_response_byte value s else write_response [] 0 s)

    pub read_input : ℤ → Socket → Outcome Socket
    read_input arg s = do
      (n, value) ← server2.read_input arg 0
      ok (if ltb 0 n then write_response_word value s else write_response [] 0 s)

    pub read_holding : ℤ → Socket → Outcome Socket
    read_holding arg s = do
      (n, value) ← server2.read_holding arg 0
      ok (if ltb 0 n then write_response_word value s else write_response [] 0 s)

    pub read_coil_all : Socket → Outcome Socket
    read_coil_all s = do
      (n, values) ← server2.read_coil_all []
      ok (if ltb 0 n then write_response_bytes values s else write_response [] 0 s)

    pub read_discrete_all : Socket → Outcome Socket
    read_discrete_all s = do
      (n, values) ← server2.read_discrete_all []
      ok (if ltb 0 n then write_response_bytes values s else write_response [] 0 s)

    pub read_input_all : Socket → Outcome Socket
    read_input_all s = do
      (n, values) ← server2.read_input_all []
      ok (if ltb 0 n then write_response_words values s else write_response [] 0 s)

    pub read_holding_all : Socket → Outcome Socket
    read_holding_all s = do
      (n, values) ← server2.read_holding_all []
      ok (if ltb 0 n then write_response_words values s else write_response [] 0 s)

    pub read_all : Socket → Outcome Socket
    read_all s = do
      (n, regs) ← server2.read_all (record { coils = []; discrete = []; inputs = []; holding = [] })
      ok (if ltb 0 n then write_response_regs regs s else write_response [] 0 s)

    -- The `switch` of `run__`.
    pub dispatch : ℕ → ℕ → Socket → Outcome Socket
    dispatch cmd arg s =
        if cmd == Code.read_coil
        then read_coil (pos arg) s
        else if cmd == Code.read_discrete
        then read_discrete (pos arg) s
        else if cmd == Code.read_input
        then read_input (pos arg) s
        else if cmd == Code.read_holding
        then read_holding (pos arg) s
        else if cmd == Code.read_coil_all
        then read_coil_all s
        else if cmd == Code.read_discrete_all
        then read_discrete_all s
        else if cmd == Code.read_input_all
        then read_input_all s
        else if cmd == Code.read_holding_all
        then read_holding_all s
        else if cmd == Code.read_all
        then read_all s
        else ok s

    -- One round of the loop of `run__`, and whether the loop goes on. The error code of the first
    -- `read` is overwritten by the second.
    pub round : Socket → Outcome (Bool × Socket)
    round s =
        let (cmd, _, s1) = read s 1 in
        let (arg, failed, s2) = read s1 2 in
        if failed then ok (false, s2) else (do
          let host = load16 order (stored_byte arg) (stored_second arg)
          s3 ← dispatch (stored_byte cmd) (ntohs order host) s2
          ok (true, s3))

  -- The loop of `run__` on `fuel` rounds, from round `k` on. `running k` is `bRunning` when round
  -- `k` reads it, and `server2 k` is the Modbus server as that round finds it.
  pub loop : (ℕ → Bool) → (ℕ → ModbusService) → ℕ → ℕ → Socket → Outcome Socket
  loop running server2 zero k s = out_of_fuel
  loop running server2 (suc fuel) k s = elim (running k) [
    | true ↦ round (server2 k) s >>= λ (go_on, s'). elim go_on [
      | true ↦ loop running server2 fuel (suc k) s'
      | false ↦ ok s'
    ]
    | false ↦ ok s
  ]

  -- The members. `server2 k` is the Modbus server as the k-th round of the loop finds it.
  pub record TcpConnection (State : Type 0) : Type 0 where
    pub socket : Socket
    pub server1 : BaseService State
    pub server2 : ℕ → ModbusService

  -- The constructor
  abbrev pub construct :
      {State : Type 0} → Socket → BaseService State → (ℕ → ModbusService) → TcpConnection State
  construct socket server1 server2 = record {
    socket = socket;
    server1 = server1;
    server2 = server2;
  }

  -- `stop__` of the connection at address `this`: the error code of `close` is ignored.
  abbrev pub stop :
      {State : Type 0} (P : Posix)
      → ℕ
      → TcpConnection State × P.State
      → TcpConnection State × P.State
  stop P this (c, s) = (record c { socket = (close c.socket).1 }, cancel_io P this s)

  -- `run__` of the connection at address `this`: `remote_endpoint` throws if the peer has gone.
  pub run :
      {State : Type 0}
      → (ℕ → Bool)
      → ℕ
      → ℕ
      → TcpConnection State
      → State
      → Outcome (TcpConnection State × State)
  run running fuel this c base =
      if has_remote_endpoint c.socket
      then (do
        s ← loop running c.server2 fuel 0 c.socket
        ok (record c { socket = s }, c.server1.deregister_connection this base))
      else terminated
