-- ===== src/ModbusServer.antt =====
-- ModbusServer.h and ModbusServer.cpp: the register tables behind libmodbus.
-- The mutex `ctxMutex` makes each method one step on the server; `read_all` takes it four times, so
-- it sees four states of the server, in order.
pub mod Inputs
pub mod Reads
pub mod Unmapped
pub mod Setup
pub mod Accepting
pub mod Destructor
use mbtest.Prelude.{
  ℕ, zero, suc, ◌+◌, ◌/◌, ◌%◌, ℤ, pos, negsuc, Bool, true, false, ◌&&◌, Option, none, some, List,
  [], ◌∷◌, ◌++◌, Outcome, ok, undefined, ◌>>=◌, deref, if◌then◌else◌, ltb, leb, ◌==◌, length,
  get_elem?, take, drop, replicate,
}
use mbtest.Interfaces.{AllRegs, ModbusService}
use mbtest.Libmodbus.{Mapping, Libmodbus}

-- The members that the methods use; `thread_` and `bRunning` are in Worker, the connections in
-- BaseServer.
pub record ModbusServer (Context : Type 0) : Type 0 where
  pub port : ℕ
  pub ctx : Option Context
  pub mb_mapping : Option Mapping
  pub server_socket : ℤ

abbrev pub nb_connection : ℕ
nb_connection = 5

abbrev pub nb_bits : ℕ
nb_bits = 10

abbrev pub nb_input_bits : ℕ
nb_input_bits = 10

abbrev pub nb_registers : ℕ
nb_registers = 10

abbrev pub nb_input_registers : ℕ
nb_input_registers = 10

-- The constructor
unfoldable pub construct : (Context : Type 0) → ℕ → ModbusServer Context
construct C port = record { port = port; ctx = none; mb_mapping = none; server_socket = negsuc 0 }

-- What the destructor hands to `modbus_mapping_free` and `modbus_free`.
pub data Freed (Context : Type 0) : Type 0 where
  mapping_free : Mapping → Freed Context
  modbus_free : Context → Freed Context

abbrev freed_mapping : {Context : Type 0} → Option Mapping → List (Freed Context)
freed_mapping none = []
freed_mapping (some m) = mapping_free m ∷ []

abbrev freed_context : {Context : Type 0} → Option Context → List (Freed Context)
freed_context none = []
freed_context (some c) = modbus_free c ∷ []

-- The destructor: its calls, in order.
pub destroy : {Context : Type 0} → ModbusServer Context → List (Freed Context)
destroy s = freed_mapping s.mb_mapping ++ freed_context s.ctx

-- `std::iota` and `std::fill` over the first `n` cells of an array.
iota_values : ℕ → ℕ → List ℕ
iota_values zero value = []
iota_values (suc n) value = value % 65536 ∷ iota_values n (value + 1)

iota : List ℕ → ℕ → ℕ → Outcome (List ℕ)
unfolding iota_values
iota tab n value = if leb n (length tab) then ok (iota_values n value ++ drop n tab) else undefined

fill : List ℕ → ℕ → ℕ → Outcome (List ℕ)
fill tab n value = if leb n (length tab) then ok (replicate n value ++ drop n tab) else undefined

-- `std::copy` of the first `n` cells of an array.
copy : List ℕ → ℕ → Outcome (List ℕ)
copy tab n = if leb n (length tab) then ok (take n tab) else undefined

-- `rc > 0`
abbrev is_positive : ℤ → Bool
is_positive (pos n) = ltb 0 n
is_positive (negsuc n) = false

-- `server_socket_ != -1`
abbrev is_socket : ℤ → Bool
is_socket (pos n) = true
is_socket (negsuc zero) = false
is_socket (negsuc (suc n)) = true

module _ (L : Libmodbus) where
  open L use {Context, new_tcp, mapping_new, tcp_listen, set_socket, receive, reply}

  -- `run__` after a mapping has been allocated.
  listen : ModbusServer Context → Mapping → Outcome (Bool × ModbusServer Context)
  unfolding iota fill
  listen s m = do
    registers ← iota m.tab_input_registers m.nb_input_registers 1
    bits ← fill m.tab_input_bits (m.nb_input_bits / 2) 1
    let m' : Mapping = record m { tab_input_registers = registers; tab_input_bits = bits }
    let (c, fd) = tcp_listen s.ctx nb_connection
    let s' : ModbusServer Context = record s { ctx = c; mb_mapping = some m'; server_socket = fd }
    ok (is_socket fd, s')

  -- `run__` up to its accept loop, and whether the loop is reached.
  unfoldable pub set_up : ModbusServer Context → Outcome (Bool × ModbusServer Context)
  unfolding listen
  set_up s = elim (new_tcp 1502) [
    | none ↦ ok (false, record s { ctx = none })
    | some c ↦ elim (mapping_new 10 10 10 10) [
      | none ↦ ok (false, record s { ctx = some c; mb_mapping = none })
      | some m ↦ listen (record s { ctx = some c; mb_mapping = some m }) m
    ]
  ]

  -- `handleModbusRequest`: the `int` that it returns, and the server after it.
  pub handle_modbus_request : ModbusServer Context → ℤ → ℤ × ModbusServer Context
  handle_modbus_request s sock =
      let (c, rc, query) = receive (set_socket s.ctx sock) in
      if is_positive rc
      then (let (c', n, m') = reply c query rc s.mb_mapping in
          (rc, record s { ctx = c'; mb_mapping = m' }))
      else (rc, record s { ctx = c })

-- `arg >= nb || arg < 0`
abbrev out_of_range : ℤ → ℕ → Bool
out_of_range (pos n) nb = leb nb n
out_of_range (negsuc n) nb = true

-- `tab[arg]`
abbrev at : List ℕ → ℤ → Outcome ℕ
at tab (pos n) = deref (get_elem? tab n)
at tab (negsuc n) = undefined

module _ {Context : Type 0} where
  pub read_coil : ModbusServer Context → ℤ → ℕ → Outcome (ℕ × ℕ)
  read_coil s arg val =
      if out_of_range arg nb_bits
      then ok (0, val)
      else (do m ← deref s.mb_mapping; val' ← at m.tab_bits arg; ok (1, val'))

  pub read_input : ModbusServer Context → ℤ → ℕ → Outcome (ℕ × ℕ)
  read_input s arg val =
      if out_of_range arg nb_input_registers
      then ok (0, val)
      else (do m ← deref s.mb_mapping; val' ← at m.tab_input_registers arg; ok (1, val'))

  pub read_discrete : ModbusServer Context → ℤ → ℕ → Outcome (ℕ × ℕ)
  read_discrete s arg val =
      if out_of_range arg nb_input_bits
      then ok (0, val)
      else (do m ← deref s.mb_mapping; val' ← at m.tab_input_bits arg; ok (1, val'))

  pub read_holding : ModbusServer Context → ℤ → ℕ → Outcome (ℕ × ℕ)
  read_holding s arg val =
      if out_of_range arg nb_registers
      then ok (0, val)
      else (do m ← deref s.mb_mapping; val' ← at m.tab_registers arg; ok (1, val'))

  -- The four methods clear `val` first, so its old value does not matter.
  pub read_coil_all : ModbusServer Context → List ℕ → Outcome (ℕ × List ℕ)
  unfolding copy
  read_coil_all s val =
      if nb_bits == 0
      then ok (0, [])
      else (do m ← deref s.mb_mapping; cells ← copy m.tab_bits m.nb_bits; ok (1, cells))

  pub read_input_all : ModbusServer Context → List ℕ → Outcome (ℕ × List ℕ)
  unfolding copy
  read_input_all s val = if nb_input_registers == 0 then ok (0, []) else (do
    m ← deref s.mb_mapping
    cells ← copy m.tab_input_registers m.nb_input_registers
    ok (1, cells))

  pub read_discrete_all : ModbusServer Context → List ℕ → Outcome (ℕ × List ℕ)
  unfolding copy
  read_discrete_all s val =
      if nb_input_bits == 0
      then ok (0, [])
      else (do m ← deref s.mb_mapping; cells ← copy m.tab_input_bits m.nb_input_bits; ok (1, cells))

  pub read_holding_all : ModbusServer Context → List ℕ → Outcome (ℕ × List ℕ)
  unfolding copy
  read_holding_all s val =
      if nb_registers == 0
      then ok (0, [])
      else (do m ← deref s.mb_mapping; cells ← copy m.tab_registers m.nb_registers; ok (1, cells))

  -- `view k` is the server when the mutex is taken for the k-th time.
  pub read_all : (ℕ → ModbusServer Context) → AllRegs → Outcome (ℕ × AllRegs)
  unfolding read_coil_all read_input_all read_discrete_all read_holding_all
  read_all view val = do
    (n1, coils) ← read_coil_all (view 0) val.coils
    (n2, inputs) ← read_input_all (view 1) val.inputs
    (n3, discrete) ← read_discrete_all (view 2) val.discrete
    (n4, holding) ← read_holding_all (view 3) val.holding
    let regs : AllRegs = record {
      coils = coils;
      discrete = discrete;
      inputs = inputs;
      holding = holding;
    }
    if ltb 0 n1 && ltb 0 n2 && ltb 0 n3 && ltb 0 n4 then ok (1, regs) else ok (0, regs)

  -- The server as the `IModbusService` of a connection, during one command.
  pub service : (ℕ → ModbusServer Context) → ModbusService
  unfolding read_coil read_input read_discrete read_holding read_coil_all read_input_all
      read_discrete_all read_holding_all read_all
  service view = record {
    read_coil = read_coil (view 0);
    read_input = read_input (view 0);
    read_discrete = read_discrete (view 0);
    read_holding = read_holding (view 0);
    read_coil_all = read_coil_all (view 0);
    read_input_all = read_input_all (view 0);
    read_discrete_all = read_discrete_all (view 0);
    read_holding_all = read_holding_all (view 0);
    read_all = read_all view;
  }
