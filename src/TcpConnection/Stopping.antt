-- ===== src/TcpConnection/Stopping.antt =====
-- `run__` of TcpConnection.cpp on a socket that may fail at any time.
use mbtest.Prelude.{
  ℕ, zero, suc, ◌+◌, ◌<◌, ◌≡◌, refl, ap, ◌∙◌, inl, inr, Bool, true, false, Option, none, some, [],
  Outcome, ok, terminated, ◌>>=◌, if◌then◌else◌, ◌==◌, arith, get_elem?, Bool-cases,
}
use mbtest.Wire.{ByteOrder, load16, ntohs}
use mbtest.Asio.{Asio}
use mbtest.Interfaces.{AllRegs, ModbusService, BaseService, cell_or, Serves}
use mbtest.Protocol.Code
use mbtest.TcpConnection.{
  read_coil, read_discrete, read_input, read_holding, read_coil_all, read_discrete_all,
  read_input_all, read_holding_all, read_all, dispatch, round, loop, construct, run, stored_byte,
  stored_second,
}

-- The call returns.
abbrev pub Returns : {R : Type 0} → Outcome R → Type 0
Returns {R} m = (r : R) × (m ≡ ok r)

if-Returns :
    {R : Type 0} (m n : Outcome R) (b : Bool) → Returns m → Returns n → Returns (if b then m else n)
if-Returns m n true h k = h
if-Returns m n false h k = k

cell-Returns :
    {R : Type 0} (cell : Option ℕ) (val : ℕ) (f : ℕ × ℕ → R)
    → Returns (cell_or cell val >>= λ r. ok (f r))
cell-Returns none val f = (_, refl)
cell-Returns (some v) val f = (_, refl)

continued :
    {R : Type 0} (rest : R → Outcome R) (m : Outcome (Bool × R))
    → Returns m
    → ((r : R) → Returns (rest r))
    → Returns (m >>= λ (go_on, r). elim go_on [ true ↦ rest r | false ↦ ok r ])
continued rest m ((true, r), e) h = rw e (h r)
continued rest m ((false, r), e) h = rw e (r, refl)

module _ (A : Asio) (order : ByteOrder) where
  module _ (m : ModbusService) {now snapshot : AllRegs} (serves : Serves m now snapshot) where
    dispatch-Returns : (cmd arg : ℕ) (s : A.Socket) → Returns (dispatch A order m cmd arg s)
    unfolding dispatch read_coil read_discrete read_input read_holding read_coil_all
        read_discrete_all read_input_all read_holding_all read_all
    dispatch-Returns cmd arg s =
        if-Returns _ _ (cmd == Code.read_coil)
          (rw (serves.coil arg 0) (cell-Returns (get_elem? now.coils arg) 0 _))
          (if-Returns _ _ (cmd == Code.read_discrete)
            (rw (serves.discrete arg 0) (cell-Returns (get_elem? now.discrete arg) 0 _))
            (if-Returns _ _ (cmd == Code.read_input)
              (rw (serves.input arg 0) (cell-Returns (get_elem? now.inputs arg) 0 _))
              (if-Returns _ _ (cmd == Code.read_holding)
                (rw (serves.holding arg 0) (cell-Returns (get_elem? now.holding arg) 0 _))
                (if-Returns _ _ (cmd == Code.read_coil_all) (rw (serves.coil_all []) (_, refl)) (
                  if-Returns _ _ (cmd == Code.read_discrete_all)
                    (rw (serves.discrete_all []) (_, refl))
                    (if-Returns _ _ (cmd == Code.read_input_all)
                      (rw (serves.input_all []) (_, refl))
                      (if-Returns _ _ (cmd == Code.read_holding_all)
                        (rw (serves.holding_all []) (_, refl))
                        (if-Returns _ _ (cmd == Code.read_all) (rw (serves.all _) (_, refl))
                          (s, refl)))))))))

    round-Returns : (s : A.Socket) → Returns (round A order m s)
    unfolding round
    round-Returns s =
        let (cmd, _, s1) = A.read s 1 in
        let (arg, failed, s2) = A.read s1 2 in
        let (s3, e) =
          dispatch-Returns (stored_byte cmd)
            (ntohs order (load16 order (stored_byte arg) (stored_second arg))) s2 in
        if-Returns _ _ failed ((false, s2), refl) ((true, s3), rw e refl)

  module _ (server2 : ℕ → ModbusService) (now snapshot : ℕ → AllRegs)
      (serves : (k : ℕ) → Serves (server2 k) (now k) (snapshot k)) (running : ℕ → Bool) where
    loop-Returns :
        (n fuel k : ℕ) (s : A.Socket)
        → running (k + n) ≡ false
        → n < fuel
        → Returns (loop A order running server2 fuel k s)
    unfolding loop
    loop-Returns n zero k s off enough = absurd (omega arith)
    loop-Returns zero (suc fuel) k s off enough =
        let stopped : running k ≡ false = ap running (omega arith) ∙ off in
        (s, rw (stopped, loop) refl)
    loop-Returns (suc n) (suc fuel) k s off enough = elim (Bool-cases (running k)) [
      | inl on ↦
          rw (on, loop)
            (continued (loop A order running server2 fuel (suc k)) (round A order (server2 k) s)
              (round-Returns (server2 k) (serves k) s)
              (λ s1. loop-Returns n fuel (suc k) s1 (ap running (omega arith) ∙ off) (omega arith)))
      | inr off' ↦ (s, rw (off', loop) refl)
    ]

    -- A connection that gets stopped, with a service that keeps its promise, on any socket: reads
    -- and writes may fail at any time and give any bytes. If the flag is clear when the n-th round,
    -- counted from 0, reads it, `run__` returns given more than `n` rounds of fuel, if the peer is
    -- known at the start, and has then deregistered the connection; if the peer is not known, the
    -- process ends.
    pub run_stops :
        {State : Type 0} (server1 : BaseService State) (n fuel this : ℕ) (s : A.Socket)
        (base : State)
        → running n ≡ false
        → n < fuel
        → (s' : A.Socket) × (run A order running fuel this
              (construct A order s server1 server2)
              base
            ≡ (if A.has_remote_endpoint s
                then ok
                    (construct A order s' server1 server2, server1.deregister_connection this base)
                else terminated))
    unfolding run
    run_stops server1 n fuel this s base off enough =
        let (s', e) = loop-Returns n fuel 0 s (ap running (omega arith) ∙ off) enough in
        (s', rw e refl)
