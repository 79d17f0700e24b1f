-- ===== src/Client/Commands/Unwritable.antt =====
-- mbclient.cpp on a socket that is not connected, or no longer: `boost::asio::write` throws.
use mbtest.Prelude.{ℕ, ◌≡◌, refl, ℤ, to_uint16, true, List, [], ◌∷◌, terminated}
use mbtest.Wire.{ByteOrder}
use mbtest.Asio.{Asio}
use mbtest.Client.{
  Client, send_command, read_coil, read_discrete, read_input, read_holding, read_coil_all,
  read_discrete_all, read_input_all, read_holding_all, read_all,
}
use mbtest.Client.Commands.{read_reg_by_type, read_all_regs_by_type}
use mbtest.Client.Commands.Lines.{Table, discretes, coils, inputs, holdings, name}

-- Every write fails.
abbrev pub IsUnwritable : (A : Asio) → A.Socket → Type 0
IsUnwritable A s = (bytes : List ℕ) → (A.write s bytes).0 ≡ true

module _ (A : Asio) (order : ByteOrder) (c : Client A.Socket)
    (unwritable : IsUnwritable A c.socket) where
  send_command_lem : (cmd arg : ℕ) → send_command A order cmd arg c ≡ terminated
  unfolding send_command
  send_command_lem cmd arg = rw (unwritable (cmd ∷ [])) refl

  pub read_all_lem : read_all A order c ≡ terminated
  unfolding read_all
  read_all_lem = rw (send_command_lem 9 0) refl

  pub table_lem : (t : Table) → read_all_regs_by_type A order (name t) c ≡ terminated
  unfolding read_all_regs_by_type read_discrete_all read_coil_all read_input_all read_holding_all
  table_lem discretes = rw (send_command_lem 6 0) refl
  table_lem coils = rw (send_command_lem 5 0) refl
  table_lem inputs = rw (send_command_lem 7 0) refl
  table_lem holdings = rw (send_command_lem 8 0) refl

  pub cell_lem : (t : Table) (n : ℤ) → read_reg_by_type A order (name t) n c ≡ terminated
  unfolding read_reg_by_type read_discrete read_coil read_input read_holding
  cell_lem discretes n = rw (send_command_lem 2 (to_uint16 n)) refl
  cell_lem coils n = rw (send_command_lem 1 (to_uint16 n)) refl
  cell_lem inputs n = rw (send_command_lem 3 (to_uint16 n)) refl
  cell_lem holdings n = rw (send_command_lem 4 (to_uint16 n)) refl
