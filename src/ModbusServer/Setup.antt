-- ===== src/ModbusServer/Setup.antt =====
-- What `run__` of ModbusServer.cpp sets up, and what Modbus requests leave of it.
use mbtest.Prelude.{
  ℕ, ◌+◌, ◌≡◌, refl, ap, ◌∙◌, ◌⊎◌, inl, inr, ℤ, pos, Bool, true, false, none, some, ok, arith,
  Option-cases, Bool-cases, if◌then◌else◌, ltb, replicate,
}
use mathlib.Core.Path.{subst}
use mbtest.Libmodbus.{Mapping, Libmodbus, IsLawful}
use mbtest.ModbusServer.{
  ModbusServer, construct, is_positive, is_socket, listen, set_up, handle_modbus_request,
  read_input, read_discrete,
}
use mbtest.ModbusServer.Inputs.{one_to_ten, five_on, one_to_ten_cells, five_on_cells}
use mbtest.ModbusServer.Reads.{IsReady, read_input_lem, read_discrete_lem}

-- The server is ready and its two input tables are those that `run__` filled.
pub record HasInputs {C : Type 0} (s : ModbusServer C) (m : Mapping) : Type 0 where
  pub ready : IsReady s m
  pub registers : m.tab_input_registers ≡ one_to_ten
  pub bits : m.tab_input_bits ≡ five_on

module _ (L : Libmodbus) (lawful : IsLawful L) where
  abbrev zeroed : Mapping
  zeroed = record {
    nb_bits = 10;
    tab_bits = replicate 10 0;
    nb_input_bits = 10;
    tab_input_bits = replicate 10 0;
    nb_registers = 10;
    tab_registers = replicate 10 0;
    nb_input_registers = 10;
    tab_input_registers = replicate 10 0;
  }

  abbrev filled : Mapping
  filled = record zeroed { tab_input_registers = one_to_ten; tab_input_bits = five_on }

  listen_lem :
      (s : ModbusServer L.Context)
      → listen L s zeroed
        ≡ ok (
          is_socket (L.tcp_listen s.ctx 5).1,
          record s {
            ctx = (L.tcp_listen s.ctx 5).0;
            mb_mapping = some filled;
            server_socket = (L.tcp_listen s.ctx 5).1;
          },
        )
  unfolding listen
  listen_lem s = refl

  HasInputs-filled : (s : ModbusServer L.Context) → s.mb_mapping ≡ some filled → HasInputs s filled
  HasInputs-filled s e = record {
    ready = record {
      mapped = e;
      coils = omega arith;
      discrete = omega arith;
      inputs = omega arith;
      holding = omega arith;
    };
    registers = refl;
    bits = refl;
  }

  -- What `run__` leaves: no mapping and no accept loop, or filled tables and an accept loop if a
  -- socket listens.
  abbrev pub SetUp : Bool × ModbusServer L.Context → Type 0
  SetUp (b, s) =
      ((b ≡ false) × (s.mb_mapping ≡ none))
      ⊎ ((m : Mapping) × (b ≡ is_socket s.server_socket) × HasInputs s m)

  module _ (s : ModbusServer L.Context) where
    pub set_up_without_context :
        L.new_tcp 1502 ≡ none → set_up L s ≡ ok (false, record s { ctx = none })
    unfolding set_up
    set_up_without_context e = rw (e, set_up) refl

    pub set_up_without_mapping :
        (c : L.Context)
        → L.new_tcp 1502 ≡ some c
        → L.mapping_new 10 10 10 10 ≡ none
        → set_up L s ≡ ok (false, record s { ctx = some c; mb_mapping = none })
    unfolding set_up
    set_up_without_mapping c ec em = rw (ec, em, set_up) refl

    pub set_up_with_mapping :
        (c : L.Context) (m : Mapping)
        → L.new_tcp 1502 ≡ some c
        → L.mapping_new 10 10 10 10 ≡ some m
        → set_up L s
          ≡ ok (
            is_socket (L.tcp_listen (some c) 5).1,
            record s {
              ctx = (L.tcp_listen (some c) 5).0;
              mb_mapping = some filled;
              server_socket = (L.tcp_listen (some c) 5).1;
            },
          )
    unfolding set_up
    set_up_with_mapping c m ec em =
        rw (ec, em, set_up, lawful.mapping_new_zero 10 10 10 10 m em)
          (listen_lem (record s { ctx = some c; mb_mapping = some zeroed }))

  -- Over a libmodbus that does what it documents, `run__` on a server without a mapping always
  -- reaches its accept loop or returns. If it has got no mapping it does not reach the loop, and
  -- the server stays without one. Otherwise the server has ten cells in each table, with the input
  -- registers 1 to 10 and the first five discrete inputs set, and the loop is reached just if the
  -- server socket is not -1.
  pub set_up_lem :
      (s : ModbusServer L.Context)
      → s.mb_mapping ≡ none
      → (r : Bool × ModbusServer L.Context) × (set_up L s ≡ ok r) × SetUp r
  set_up_lem s unmapped = elim (Option-cases (L.new_tcp 1502)) [
    | inl e ↦ (_, set_up_without_context s e, inl (refl, unmapped))
    | inr (c, ec) ↦ elim (Option-cases (L.mapping_new 10 10 10 10)) [
      | inl em ↦ (_, set_up_without_mapping s c ec em, inl (refl, refl))
      | inr (m, em) ↦
          (_, set_up_with_mapping s c m ec em, inr (filled, refl, HasInputs-filled _ refl))
    ]
  ]

  -- A request leaves the server ready, and its input tables as they were.
  pub handle_modbus_request-HasInputs :
      (s : ModbusServer L.Context) (m : Mapping) (sock : ℤ)
      → HasInputs s m
      → (m' : Mapping) × HasInputs (handle_modbus_request L s sock).1 m'
  unfolding handle_modbus_request
  handle_modbus_request-HasInputs s m sock h =
      let (c, rc, query) = L.receive (L.set_socket s.ctx sock) in
      elim (Bool-cases (is_positive rc)) [
        | inl request ↦
            let (coils, holding, e, hc, hh) =
              lawful.reply_writes c query rc m 10 10 h.ready.coils h.ready.holding in
            (
              record m { tab_bits = coils; tab_registers = holding },
              rw request (record {
                ready = record {
                  mapped = rw h.ready.mapped e;
                  coils = hc;
                  discrete = h.ready.discrete;
                  inputs = h.ready.inputs;
                  holding = hh;
                };
                registers = h.registers;
                bits = h.bits;
              }),
            )
        | inr quiet ↦ (
          m,
          rw quiet (record {
            ready = record {
              mapped = h.ready.mapped;
              coils = h.ready.coils;
              discrete = h.ready.discrete;
              inputs = h.ready.inputs;
              holding = h.ready.holding;
            };
            registers = h.registers;
            bits = h.bits;
          }),
        )
      ]

-- The states that the server passes through once it accepts connections: `run__` has set it up, and
-- any number of requests have come in on any sockets.
pub data Reach (L : Libmodbus) : ModbusServer L.Context → Type 0 where
  started :
      (port : ℕ) {s : ModbusServer L.Context}
      → set_up L (construct L.Context port) ≡ ok (true, s)
      → Reach L s
  handled :
      {s t : ModbusServer L.Context} (sock : ℤ)
      → Reach L s
      → t ≡ (handle_modbus_request L s sock).1
      → Reach L t

module _ (L : Libmodbus) (lawful : IsLawful L) where
  started-HasInputs :
      (s : ModbusServer L.Context) (r : Bool × ModbusServer L.Context)
      → SetUp L lawful r
      → r ≡ (true, s)
      → (m : Mapping) × HasInputs s m
  started-HasInputs s (b, t) (inl (idle, _)) e = cc
  started-HasInputs s (b, t) (inr (m, _, h)) e =
      (m, subst (λ (u : ModbusServer L.Context). HasInputs u m) (ap (λ p. p.1) e) h)

  pub Reach-HasInputs : {s : ModbusServer L.Context} → Reach L s → (m : Mapping) × HasInputs s m
  unfolding construct
  Reach-HasInputs (started port {s} e) =
      let (r, er, d) = set_up_lem L lawful (construct L.Context port) refl in
      started-HasInputs s r d (ground arith)
  Reach-HasInputs (handled {s} {t} sock r e) =
      let (m, h) = Reach-HasInputs r in rw e (handle_modbus_request-HasInputs L lawful s m sock h)

  -- Whatever requests Modbus clients have made of a server that accepts connections, input register
  -- `n` reads n + 1 for n below ten, the discrete inputs 0 to 4 read 1 and those from 5 to 9 read
  -- 0, and greater indices are refused.
  pub inputs_fixed :
      {s : ModbusServer L.Context}
      → Reach L s
      → (n val : ℕ)
      → (read_input s (pos n) val ≡ (if ltb n 10 then ok (1, n + 1) else ok (0, val)))
        × (read_discrete s (pos n) val
            ≡ (if ltb n 5 then ok (1, 1) else if ltb n 10 then ok (1, 0) else ok (0, val)))
  inputs_fixed r n val =
      let (m, h) = Reach-HasInputs r in
      (
        read_input_lem h.ready n val ∙ rw h.registers (one_to_ten_cells n val),
        read_discrete_lem h.ready n val ∙ rw h.bits (five_on_cells n val),
      )
