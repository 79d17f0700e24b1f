-- ===== src/Client/Commands.antt =====
-- The command line of mbclient.cpp.
pub mod Errors
pub mod Lines
pub mod Session
pub mod Defined
pub mod Thread
pub mod Race
pub mod Entries
pub mod Unwritable
use mbtest.Prelude.{
  ℕ, zero, suc, ℤ, Bool, true, false, Option, none, some, List, [], ◌∷◌, Outcome, ok, terminated,
  out_of_fuel, ◌>>=◌, deref, if◌then◌else◌, get_elem?, eq_bytes,
}
use mbtest.Wire.{ByteOrder}
use mbtest.Asio.{Asio}
use mbtest.Client.{
  Client, Line, invalid_argument, too_few_args, invalid_command, error_message, connected,
  disconnected, prompt, print, read_coil, read_discrete, read_input, read_holding, read_coil_all,
  read_discrete_all, read_input_all, read_holding_all,
}
use mbtest.Client.Text.{codes, split_string, stoi, Input, getline}

module _ (A : Asio) (order : ByteOrder) where
  open A use {Socket, resolve, connect, close}

  -- The indices 1 and 2 are not checked. `resolve` throws if it finds nothing.
  pub connect_to_server : List (List ℕ) → Client Socket → Outcome (Client Socket)
  connect_to_server args c = do
    host ← deref (get_elem? args 1)
    service ← deref (get_elem? args 2)
    elim (resolve host service) [
      | none ↦ terminated
      | some endpoint ↦
          let (failed, s) = connect c.socket endpoint in
          ok (print ((if failed then error_message else connected) ∷ []) (record c { socket = s }))
    ]

  abbrev pub disconnect_from_server : List (List ℕ) → Client Socket → Outcome (Client Socket)
  disconnect_from_server args c =
      let (failed, s) = close c.socket in
      ok (print ((if failed then error_message else disconnected) ∷ []) (record c { socket = s }))

  pub read_all_regs_by_type : List ℕ → Client Socket → Outcome (Client Socket)
  read_all_regs_by_type mode c =
      if eq_bytes mode (codes "discrete")
      then read_discrete_all A order c
      else if eq_bytes mode (codes "coil")
      then read_coil_all A order c
      else if eq_bytes mode (codes "input")
      then read_input_all A order c
      else if eq_bytes mode (codes "holding")
      then read_holding_all A order c
      else ok (print (invalid_argument ∷ []) c)

  pub read_reg_by_type : List ℕ → ℤ → Client Socket → Outcome (Client Socket)
  read_reg_by_type mode n c =
      if eq_bytes mode (codes "discrete")
      then read_discrete A order n c
      else if eq_bytes mode (codes "coil")
      then read_coil A order n c
      else if eq_bytes mode (codes "input")
      then read_input A order n c
      else if eq_bytes mode (codes "holding")
      then read_holding A order n c
      else ok (print (invalid_argument ∷ []) c)

  pub process_read_op : List (List ℕ) → Client Socket → Outcome (Client Socket)
  process_read_op [] c = ok (print (too_few_args ∷ []) c)
  process_read_op (a ∷ []) c = ok (print (too_few_args ∷ []) c)
  process_read_op (a ∷ b ∷ []) c = ok (print (too_few_args ∷ []) c)
  process_read_op (a ∷ mode ∷ arg ∷ rest) c =
      if eq_bytes arg (codes "all")
      then read_all_regs_by_type mode c
      else (do n ← stoi arg; read_reg_by_type mode n c)

  -- Assigning to a joinable `std::thread` ends the process.
  pub start_loop : List (List ℕ) → Client Socket → Outcome (Client Socket)
  start_loop args c = if c.loop_thread then terminated else ok (record c { loop_thread = true })

  -- `running = false`, and `join` once it has returned.
  abbrev pub clear_running : Client Socket → Client Socket
  clear_running c = record c { running = false }

  abbrev pub joined : Client Socket → Client Socket
  joined c = record c { loop_thread = false }

  -- `join` returns only if the thread comes to its end; Thread has both threads, and Race when it
  -- does.
  pub stop_loop : List (List ℕ) → Client Socket → Outcome (Client Socket)
  stop_loop args c =
      let c' = clear_running c in
      if c'.loop_thread then (if c'.thread_ends then ok (joined c') else out_of_fuel) else ok c'

  -- The `if` ladder of `processCommand`, on the words of the command.
  pub process_words : List (List ℕ) → Client Socket → Outcome (Client Socket)
  process_words words c = do
    first ← deref (get_elem? words 0)
    if eq_bytes first (codes "connect")
        then connect_to_server words c
        else if eq_bytes first (codes "disconnect")
        then disconnect_from_server words c
        else if eq_bytes first (codes "read")
        then process_read_op words c
        else if eq_bytes first (codes "start")
        then start_loop words c
        else if eq_bytes first (codes "stop")
        then stop_loop words c
        else ok (print (invalid_command ∷ []) c)

  pub process_command : List ℕ → Client Socket → Outcome (Bool × Client Socket)
  process_command [] c = ok (false, c)
  process_command (x ∷ command) c = do
    words ← split_string (x ∷ command) 32
    c' ← process_words words c
    ok (true, c')

  -- The loop of `main` on `fuel` rounds; `command` is what the last round has left in the variable.
  pub main_loop : ℕ → Input → List ℕ → Client Socket → Outcome (Client Socket)
  main_loop zero input command c = out_of_fuel
  main_loop (suc fuel) input command c =
      let (line, input') = getline input command in
      process_command line (print (prompt ∷ []) c) >>= λ (go_on, c'). elim go_on [
        | true ↦ main_loop fuel input' line c'
        | false ↦ ok c'
      ]

  pub main : ℕ → Input → Client Socket → Outcome (Client Socket)
  main fuel input c = main_loop fuel input [] c
