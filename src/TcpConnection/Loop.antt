-- ===== src/TcpConnection/Loop.antt =====
-- The loop of `run__` in TcpConnection.cpp answers all commands and ends with the peer's stream.
use mbtest.Prelude.{
  ℕ, zero, suc, ◌+◌, ◌*◌, ◌/◌, ◌%◌, ◌≤◌, ◌<◌, ◌≡◌, refl, ◌∙◌, inl, inr, true, false, List, [], ◌∷◌,
  ◌++◌, ok, arith, length, append-nil, append_assoc, All,
}
use mbtest.Wire.{ByteOrder, be16, load16, ntohs}
use mbtest.Wire.Laws.{ntohs-load16}
use mbtest.Asio.{Asio, IsStream, Holds, read-Holds, read_short-Holds}
use mbtest.Interfaces.{AllRegs, ModbusService, BaseService, Serves}
use mbtest.Protocol.{
  Command, code_of, argument_of, request, requests, answer, answers, IsSendable, IsWellFormed,
  IsOther, coil, discrete, input, holding, coil_all, discrete_all, input_all, holding_all,
  all_tables, unknown,
}
use mbtest.TcpConnection.{round, loop, construct, run}
use mbtest.TcpConnection.Handlers.{dispatch-Sends}

host_argument :
    (order : ByteOrder) (n : ℕ)
    → n < 65536
    → ntohs order (load16 order (n / 256 % 256) (n % 256)) ≡ n
host_argument order n h =
    ntohs-load16 order (n / 256 % 256) (n % 256) (omega arith) (omega arith) ∙ omega arith

-- Any two numbers are the code and the argument of a command, or of none.
command_of : (code arg : ℕ) → (c : Command) × (code_of c ≡ code) × (argument_of c ≡ arg) × IsOther c
command_of zero arg = (unknown 0 arg, refl, refl, inl refl)
command_of (suc zero) arg = (coil arg, refl, refl, tt)
command_of (suc (suc zero)) arg = (discrete arg, refl, refl, tt)
command_of (suc (suc (suc zero))) arg = (input arg, refl, refl, tt)
command_of (suc (suc (suc (suc zero)))) arg = (holding arg, refl, refl, tt)
command_of (suc (suc (suc (suc (suc zero))))) arg = (coil_all arg, refl, refl, tt)
command_of (suc (suc (suc (suc (suc (suc zero)))))) arg = (discrete_all arg, refl, refl, tt)
command_of (suc (suc (suc (suc (suc (suc (suc zero))))))) arg = (input_all arg, refl, refl, tt)
command_of (suc (suc (suc (suc (suc (suc (suc (suc zero)))))))) arg =
    (holding_all arg, refl, refl, tt)
command_of (suc (suc (suc (suc (suc (suc (suc (suc (suc zero))))))))) arg =
    (all_tables arg, refl, refl, tt)
command_of (suc (suc (suc (suc (suc (suc (suc (suc (suc (suc n)))))))))) arg =
    (unknown (n + 10) arg, omega arith, refl, inr (omega arith))

three_bytes :
    (a b c : ℕ) (command : Command)
    → b < 256
    → c < 256
    → code_of command ≡ a
    → argument_of command ≡ b * 256 + c
    → (others tail rest : List ℕ) → rest ≡ others ++ tail
    → a ∷ b ∷ c ∷ rest ≡ (request command ++ others) ++ tail
unfolding request
three_bytes a b c command hb hc ec ea others tail rest e =
    let high : argument_of command / 256 % 256 ≡ b = omega arith in
    let low : argument_of command % 256 ≡ c = omega arith in rw (high, low, ec, e) refl

-- Every sequence of bytes is a sequence of commands and less than one more.
pub split_requests :
    (i : List ℕ)
    → All (λ b. b < 256) i
    → (cs : List Command) × (tail : List ℕ) × (i ≡ requests cs ++ tail)
      × (length tail < 3)
      × All IsSendable cs
      × (length cs * 3 ≤ length i)
unfolding requests
split_requests [] h = ([], [], refl, omega arith, tt, omega arith)
split_requests (a ∷ []) h = ([], a ∷ [], refl, omega arith, tt, omega arith)
split_requests (a ∷ b ∷ []) h = ([], a ∷ b ∷ [], refl, omega arith, tt, omega arith)
split_requests (a ∷ b ∷ c ∷ rest) (ha, (hb, (hc, hrest))) =
    let (cs, tail, e, short, sendable, count) = split_requests rest hrest in
    let (command, ec, ea, other) = command_of a (b * 256 + c) in
    (
      command ∷ cs,
      tail,
      three_bytes a b c command hb hc ec ea (requests cs) tail rest e,
      short,
      (record { small = omega arith; fits = omega arith; other = other }, sendable),
      omega arith,
    )

module _ {A : Asio} (S : IsStream A) (order : ByteOrder) where
  -- A round that finds less than a whole command ends the loop.
  round_end :
      (m : ModbusService) {s : A.Socket} {o : List ℕ} (i : List ℕ)
      → Holds S s i o
      → length i < 3
      → (s' : A.Socket) × (round A order m s ≡ ok (false, s')) × Holds S s' [] o
  unfolding round
  round_end m [] h short =
      let (_, _, h1) = read_short-Holds S 1 h (omega arith) in
      let (_, failed, h2) = read_short-Holds S 2 h1 (omega arith) in (_, rw failed, h2)
  round_end m (a ∷ rest) h short =
      let (_, _, h1) = read-Holds S (a ∷ []) h in
      let (_, failed, h2) = read_short-Holds S 2 h1 (omega arith) in (_, rw failed, h2)

  module _ (m : ModbusService) {now snapshot : AllRegs} (serves : Serves m now snapshot)
      (small : IsWellFormed now) (small' : IsWellFormed snapshot) where
    -- A round that finds a command answers it.
    round-Sends :
        (c : Command) {s : A.Socket} {i o : List ℕ}
        → IsSendable c
        → Holds S s (request c ++ i) o
        → (s' : A.Socket) × (round A order m s ≡ ok (true, s'))
          × Holds S s' i (o ++ answer now snapshot c)
    unfolding round request
    round-Sends c {s} {i} {o} sendable h =
        let (cmd, _, h1) = read-Holds S {i = be16 (argument_of c) ++ i} (code_of c ∷ []) h in
        let (arg, fine, h2) = read-Holds S (be16 (argument_of c)) h1 in
        let (s', e, h3) = dispatch-Sends S order m serves h2 c small small' sendable.other in
        (s', rw (fine, cmd, arg, host_argument order (argument_of c) sendable.fits, e), h3)

  -- The loop with `running` set throughout, on a stream of commands and less than one more.
  module _ (server2 : ℕ → ModbusService) (now snapshot : ℕ → AllRegs)
      (serves : (k : ℕ) → Serves (server2 k) (now k) (snapshot k))
      (small : (k : ℕ) → IsWellFormed (now k)) (small' : (k : ℕ) → IsWellFormed (snapshot k)) where
    pub loop-answers :
        (cs : List Command) (tail : List ℕ) (fuel k : ℕ) {s : A.Socket} {o : List ℕ}
        → All IsSendable cs
        → length tail < 3
        → length cs < fuel
        → Holds S s (requests cs ++ tail) o
        → (s' : A.Socket) × (loop A order (λ _. true) server2 fuel k s ≡ ok s')
          × Holds S s' [] (o ++ answers now snapshot k cs)
    unfolding loop requests answers
    loop-answers cs tail zero k sendable short enough h = absurd (omega arith)
    loop-answers [] tail (suc fuel) k sendable short enough h =
        let (s', e, h') = round_end (server2 k) tail h short in (s', rw e, rw append-nil h')
    loop-answers (c ∷ cs) tail (suc fuel) k (first, others) short enough h =
        let (s1, e1, h1) =
          round-Sends (server2 k) (serves k) (small k) (small' k) c first (rw append_assoc at h) in
        let (s2, e2, h2) = loop-answers cs tail fuel (suc k) others short (omega arith) h1 in
        (s2, rw e1 e2, rw append_assoc at h2)

    -- A connection that its server does not stop, on a stream that ends after the bytes `i`: given
    -- more than a third of them as fuel the loop returns, and has answered all whole commands of
    -- `i`, in order, each as it found the tables.
    pub loop_bytes :
        (i : List ℕ) (fuel k : ℕ) {s : A.Socket} {o : List ℕ}
        → All (λ b. b < 256) i
        → length i < 3 * fuel
        → Holds S s i o
        → (cs : List Command) × (tail : List ℕ) × (s' : A.Socket) × (i ≡ requests cs ++ tail)
          × (length tail < 3)
          × All IsSendable cs
          × (loop A order (λ _. true) server2 fuel k s ≡ ok s')
          × Holds S s' [] (o ++ answers now snapshot k cs)
    loop_bytes i fuel k bytes enough h =
        let (cs, tail, e, short, sendable, count) = split_requests i bytes in
        let (s', r, h') = loop-answers cs tail fuel k sendable short (omega arith) (rw e at h) in
        (cs, tail, s', e, short, sendable, r, h')

    -- A connection that its server does not stop, on a socket whose peer is known and whose stream
    -- ends after the bytes `i`: `i` is a sequence of commands, each one of the nine or with a code
    -- that is none of theirs, and fewer than three bytes more. Given more than a third of the bytes
    -- as fuel `run__` returns; it has then answered each of these commands, in order, as it found
    -- the tables, those with another code with nothing, and after that has deregistered the
    -- connection.
    pub run_bytes :
        {State : Type 0} (server1 : BaseService State) (i : List ℕ) (fuel this : ℕ) (base : State)
        {s : A.Socket} {o : List ℕ}
        → All (λ b. b < 256) i
        → length i < 3 * fuel
        → A.has_remote_endpoint s ≡ true
        → Holds S s i o
        → (cs : List Command) × (tail : List ℕ) × (s' : A.Socket) × (i ≡ requests cs ++ tail)
          × (length tail < 3)
          × All IsSendable cs
          × (run A order (λ _. true) fuel this (construct A order s server1 server2) base
              ≡ ok (construct A order s' server1 server2, server1.deregister_connection this base))
          × Holds S s' [] (o ++ answers now snapshot 0 cs)
    unfolding run
    run_bytes server1 i fuel this base bytes enough peer h =
        let (cs, tail, s', e, short, sendable, r, h') = loop_bytes i fuel 0 bytes enough h in
        (cs, tail, s', e, short, sendable, rw (peer, r) refl, h')
