-- ===== src/TcpConnection/Handlers.antt =====
-- Each handler of TcpConnection.cpp sends the answer that Protocol describes.
use mbtest.Prelude.{
  ℕ, ◌≡◌, refl, pos, Option, none, some, List, [], ◌++◌, Outcome, ok, ◌>>=◌, if◌then◌else◌, ltb,
  arith, get_elem?, append-nil,
}
use mbtest.Wire.{ByteOrder}
use mbtest.Asio.{Asio, IsStream, Holds}
use mbtest.Interfaces.{AllRegs, ModbusService, Serves, cell_or}
use mbtest.Protocol.{
  Command, coil, discrete, input, holding, coil_all, discrete_all, input_all, holding_all,
  all_tables, unknown, code_of, argument_of, IsOther, frame, cell_payload, word_payload, answer,
  IsWellFormed,
}
use mbtest.TcpConnection.{
  write_response, write_response_byte, write_response_word, read_coil, read_discrete, read_input,
  read_holding, read_coil_all, read_discrete_all, read_input_all, read_holding_all, read_all,
  dispatch,
}
use mbtest.TcpConnection.Responses

-- The call returns, and then the socket has sent `bytes` more and has `i` to come.
abbrev pub Sends :
    {A : Asio} (S : IsStream A) → Outcome A.Socket → List ℕ → List ℕ → List ℕ → Type 0
Sends {A} S r i o bytes = (s : A.Socket) × (r ≡ ok s) × Holds S s i (o ++ bytes)

module _ {A : Asio} (S : IsStream A) (order : ByteOrder) (m : ModbusService)
    {now snapshot : AllRegs} (serves : Serves m now snapshot) where
  module _ {s : A.Socket} {i o : List ℕ} (h : Holds S s i o) where
    send_cell :
        (c : Option ℕ)
        → Sends S
            (cell_or c 0 >>= λ (n, v).
              ok (
                if ltb 0 n then write_response_byte A order v s else write_response A order [] 0 s))
            i
            o
            (frame (cell_payload c))
    unfolding cell_payload
    send_cell none = (_, refl, Responses.write_response-Holds S order [] h)
    send_cell (some v) = (_, refl, Responses.write_response_byte-Holds S order v h)

    send_word :
        (c : Option ℕ)
        → Sends S
            (cell_or c 0 >>= λ (n, v).
              ok (
                if ltb 0 n then write_response_word A order v s else write_response A order [] 0 s))
            i
            o
            (frame (word_payload c))
    unfolding word_payload
    send_word none = (_, refl, Responses.write_response-Holds S order [] h)
    send_word (some v) = (_, refl, Responses.write_response_word-Holds S order v h)

    read_coil-Sends :
        (n : ℕ) → Sends S (read_coil A order m (pos n) s) i o (answer now snapshot (coil n))
    unfolding read_coil answer
    read_coil-Sends n = rw (serves.coil n 0) (send_cell (get_elem? now.coils n))

    read_discrete-Sends :
        (n : ℕ) → Sends S (read_discrete A order m (pos n) s) i o (answer now snapshot (discrete n))
    unfolding read_discrete answer
    read_discrete-Sends n = rw (serves.discrete n 0) (send_cell (get_elem? now.discrete n))

    read_input-Sends :
        (n : ℕ) → Sends S (read_input A order m (pos n) s) i o (answer now snapshot (input n))
    unfolding read_input answer
    read_input-Sends n = rw (serves.input n 0) (send_word (get_elem? now.inputs n))

    read_holding-Sends :
        (n : ℕ) → Sends S (read_holding A order m (pos n) s) i o (answer now snapshot (holding n))
    unfolding read_holding answer
    read_holding-Sends n = rw (serves.holding n 0) (send_word (get_elem? now.holding n))

    module _ (small : IsWellFormed now) where
      read_coil_all-Sends :
          (n : ℕ) → Sends S (read_coil_all A order m s) i o (answer now snapshot (coil_all n))
      unfolding read_coil_all answer
      read_coil_all-Sends n =
          rw (serves.coil_all [])
            (_, refl, Responses.write_response_bytes-Holds S order now.coils small.coils h)

      read_discrete_all-Sends :
          (n : ℕ)
          → Sends S (read_discrete_all A order m s) i o (answer now snapshot (discrete_all n))
      unfolding read_discrete_all answer
      read_discrete_all-Sends n =
          rw (serves.discrete_all [])
            (_, refl, Responses.write_response_bytes-Holds S order now.discrete small.discrete h)

      read_input_all-Sends :
          (n : ℕ) → Sends S (read_input_all A order m s) i o (answer now snapshot (input_all n))
      unfolding read_input_all answer
      read_input_all-Sends n =
          rw (serves.input_all [])
            (_, refl, Responses.write_response_words-Holds S order now.inputs small.inputs h)

      read_holding_all-Sends :
          (n : ℕ) → Sends S (read_holding_all A order m s) i o (answer now snapshot (holding_all n))
      unfolding read_holding_all answer
      read_holding_all-Sends n =
          rw (serves.holding_all [])
            (_, refl, Responses.write_response_words-Holds S order now.holding small.holding h)

    read_all-Sends :
        (n : ℕ)
        → IsWellFormed snapshot
        → Sends S (read_all A order m s) i o (answer now snapshot (all_tables n))
    unfolding read_all answer
    read_all-Sends n small =
        rw (serves.all _) (_, refl, Responses.write_response_regs-Holds S order snapshot small h)

    dispatch_unknown-Sends :
        (code arg : ℕ)
        → IsOther (unknown code arg)
        → Sends S (dispatch A order m code arg s) i o (answer now snapshot (unknown code arg))
    unfolding dispatch answer
    dispatch_unknown-Sends code arg other = (s, ground arith, rw append-nil h)

    -- On a connected socket, with a service that keeps its promise for tables of fewer than 65536
    -- cells each: the `switch` sends the answer to every command, and nothing to what is none.
    pub dispatch-Sends :
        (c : Command)
        → IsWellFormed now
        → IsWellFormed snapshot
        → IsOther c
        → Sends S (dispatch A order m (code_of c) (argument_of c) s) i o (answer now snapshot c)
    unfolding dispatch
    dispatch-Sends (coil n) small small' k = read_coil-Sends n
    dispatch-Sends (discrete n) small small' k = read_discrete-Sends n
    dispatch-Sends (input n) small small' k = read_input-Sends n
    dispatch-Sends (holding n) small small' k = read_holding-Sends n
    dispatch-Sends (coil_all n) small small' k = read_coil_all-Sends small n
    dispatch-Sends (discrete_all n) small small' k = read_discrete_all-Sends small n
    dispatch-Sends (input_all n) small small' k = read_input_all-Sends small n
    dispatch-Sends (holding_all n) small small' k = read_holding_all-Sends small n
    dispatch-Sends (all_tables n) small small' k = read_all-Sends n small'
    dispatch-Sends (unknown code arg) small small' k = dispatch_unknown-Sends code arg k
