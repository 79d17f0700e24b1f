-- ===== src/TcpConnection/Unmapped.antt =====
-- What a TCP connection makes of a command that arrives while the Modbus server has no mapping.
use mbtest.Prelude.{
  ℕ, ◌≡◌, ◌⊎◌, refl, Bool, true, false, not, none, List, [], Outcome, ok, undefined, ◌>>=◌, leb,
  inl, inr, Bool-cases, arith, append-nil,
}
use mbtest.Wire.{ByteOrder}
use mbtest.Asio.{Asio, IsStream, Holds}
use mbtest.Interfaces.{ModbusService}
use mbtest.ModbusServer.{ModbusServer, service}
use mbtest.ModbusServer.Unmapped.{Unmapped, cell_read, service-Unmapped}
use mbtest.Protocol.{
  Command, coil, discrete, input, holding, coil_all, discrete_all, input_all, holding_all,
  all_tables, unknown, code_of, argument_of, IsOther, frame,
}
use mbtest.TcpConnection.{
  write_response, read_coil, read_discrete, read_input, read_holding, read_coil_all,
  read_discrete_all, read_input_all, read_holding_all, read_all, dispatch,
}
use mbtest.TcpConnection.Responses
use mbtest.TcpConnection.Handlers.{Sends}

-- Whether the answer to a command has to look into the mapping.
abbrev pub needs_mapping : Command → Bool
needs_mapping (coil n) = not (leb 10 n)
needs_mapping (discrete n) = not (leb 10 n)
needs_mapping (input n) = not (leb 10 n)
needs_mapping (holding n) = not (leb 10 n)
needs_mapping (coil_all n) = true
needs_mapping (discrete_all n) = true
needs_mapping (input_all n) = true
needs_mapping (holding_all n) = true
needs_mapping (all_tables n) = true
needs_mapping (unknown code arg) = false

-- What is sent in answer to a command that does not.
abbrev pub refusal : Command → List ℕ
refusal (unknown code arg) = []
refusal c = frame []

module _ {A : Asio} (S : IsStream A) (order : ByteOrder) {s : A.Socket} {i o : List ℕ}
    (h : Holds S s i o) where
  -- Either the command needs the mapping and `r` is undefined, or it does not and is refused.
  abbrev pub Falls : Command → Outcome A.Socket → Type 0
  Falls c r =
      ((needs_mapping c ≡ true) × (r ≡ undefined))
      ⊎ ((needs_mapping c ≡ false) × Sends S r i o (refusal c))

  -- A handler of one cell: what it does with a value does not matter.
  cell-falls :
      (n : ℕ) (use_ : ℕ × ℕ → A.Socket)
      → use_ (0, 0) ≡ write_response A order [] 0 s
      → ((not (leb 10 n) ≡ true) × ((cell_read n 0 >>= λ r. ok (use_ r)) ≡ undefined))
        ⊎ ((not (leb 10 n) ≡ false) × Sends S (cell_read n 0 >>= λ r. ok (use_ r)) i o (frame []))
  cell-falls n use_ e = elim (Bool-cases (leb 10 n)) [
    | inl large ↦
        inr (rw large refl, (_, rw (large, e) refl, Responses.write_response-Holds S order [] h))
    | inr small ↦ inl (rw small refl, rw small refl)
  ]

  module _ (m : ModbusService) (u : Unmapped m) where
    falls : (c : Command) → IsOther c → Falls c (dispatch A order m (code_of c) (argument_of c) s)
    unfolding dispatch read_coil read_discrete read_input read_holding read_coil_all
        read_discrete_all read_input_all read_holding_all read_all
    falls (coil n) k = rw (u.coil n 0) (cell-falls n _ refl)
    falls (discrete n) k = rw (u.discrete n 0) (cell-falls n _ refl)
    falls (input n) k = rw (u.input n 0) (cell-falls n _ refl)
    falls (holding n) k = rw (u.holding n 0) (cell-falls n _ refl)
    falls (coil_all n) k = inl (refl, rw (u.coil_all []) refl)
    falls (discrete_all n) k = inl (refl, rw (u.discrete_all []) refl)
    falls (input_all n) k = inl (refl, rw (u.input_all []) refl)
    falls (holding_all n) k = inl (refl, rw (u.holding_all []) refl)
    falls (all_tables n) k = inl (refl, rw (u.all _) refl)
    falls (unknown code arg) k = inr (refl, (s, ground arith, rw append-nil h))

  -- A command on a connected socket, while the Modbus server has no mapping. If it asks for a whole
  -- table, for all tables, or for a cell with an index below ten, the `switch` reads through a null
  -- pointer. Otherwise a cell is refused with an empty answer, and an unknown command gets none.
  pub dispatch_unmapped :
      {C : Type 0} (view : ℕ → ModbusServer C) (c : Command)
      → (view 0).mb_mapping ≡ none
      → IsOther c
      → Falls c (dispatch A order (service view) (code_of c) (argument_of c) s)
  dispatch_unmapped view c e = falls (service view) (service-Unmapped view e) c
