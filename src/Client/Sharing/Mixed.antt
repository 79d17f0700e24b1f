-- ===== src/Client/Sharing/Mixed.antt =====
-- What `main` and the thread of `start` do to each other on their socket.
use mbtest.Prelude.{
  ℕ, ◌+◌, ◌*◌, ◌/◌, ◌%◌, ◌^◌, ◌<◌, ◌≡◌, refl, ap, ◌∙◌, Bool, true, false, List, [], ◌∷◌, ◌++◌,
  Outcome, ok, ok-injective, undefined, terminated, out_of_fuel, ◌>>=◌, arith, length, append_assoc,
}
use mbtest.Wire.{ByteOrder, be16}
use mbtest.Wire.Laws.{store16-htons}
use mbtest.Asio.{Asio, IsStream, Holds, write-Holds, write-ok}
use mbtest.Protocol.{frame}
use mbtest.Client.{Client}
use mbtest.Client.Exchange.{read_response-frame}
use mbtest.Client.Sharing.{
  write_argument, read_size, done, Sending, sending, advance, advances, play, read_alone,
}

-- A thread that has written its code, one that has written its command, and one that has its
-- response.
abbrev coded : ℕ → ℕ → Sending
coded cmd arg = record { cmd = cmd; arg = arg; stage = write_argument }

abbrev pub waiting : ℕ → ℕ → Sending
waiting cmd arg = record { cmd = cmd; arg = arg; stage = read_size }

abbrev pub answered : ℕ → ℕ → List ℕ → Sending
answered cmd arg response = record { cmd = cmd; arg = arg; stage = done response }

then_ok :
    {B D : Type 0} (m : Outcome B) (r : B)
    → (m >>= λ x. ok x) ≡ ok r
    → (k : B → Outcome D) → (m >>= k) ≡ k r
then_ok (ok x) r e k = ap k (ok-injective e)
then_ok undefined r e k = cc
then_ok terminated r e k = cc
then_ok out_of_fuel r e k = cc

module _ {A : Asio} (S : IsStream A) (order : ByteOrder) where
  then_two :
      {D : Type 0} (m : Outcome (Sending × A.Socket)) (r : Sending × A.Socket)
      → (m >>= λ (t, s). advance A order t s >>= λ (t', s'). ok (t', s')) ≡ ok r
      → (k : Sending × A.Socket → Outcome D) → (m >>= λ (t, s). advance A order t s >>= k) ≡ k r
  then_two (ok (t, s)) r e k = then_ok (advance A order t s) r e k
  then_two undefined r e k = cc
  then_two terminated r e k = cc
  then_two out_of_fuel r e k = cc

  -- One call of a thread, and two.
  main_one :
      (m l m' : Sending) (s s' : A.Socket) (turns : List Bool)
      → advance A order m s ≡ ok (m', s')
      → play A order (true ∷ turns) (m, l, s) ≡ play A order turns (m', l, s')
  unfolding play
  main_one m l m' s s' turns e = rw e refl

  loop_one :
      (m l l' : Sending) (s s' : A.Socket) (turns : List Bool)
      → advance A order l s ≡ ok (l', s')
      → play A order (false ∷ turns) (m, l, s) ≡ play A order turns (m, l', s')
  unfolding play
  loop_one m l l' s s' turns e = rw e refl

  play_end : (m l : Sending) (s : A.Socket) → play A order [] (m, l, s) ≡ ok (m, l, s)
  unfolding play
  play_end m l s = refl

  main_two :
      (m l m' : Sending) (s s' : A.Socket) (turns : List Bool)
      → advances A order 2 m s ≡ ok (m', s')
      → play A order (true ∷ true ∷ turns) (m, l, s) ≡ play A order turns (m', l, s')
  unfolding advances play
  main_two m l m' s s' turns e =
      then_two (advance A order m s) (m', s') e (λ (m, s). play A order turns (m, l, s))

  loop_two :
      (m l l' : Sending) (s s' : A.Socket) (turns : List Bool)
      → advances A order 2 l s ≡ ok (l', s')
      → play A order (false ∷ false ∷ turns) (m, l, s) ≡ play A order turns (m, l', s')
  unfolding advances play
  loop_two m l l' s s' turns e =
      then_two (advance A order l s) (l', s') e (λ (l, s). play A order turns (m, l, s))

  code_sent :
      (cmd arg : ℕ) {s : A.Socket} {i o : List ℕ}
      → Holds S s i o
      → advance A order (sending cmd arg) s ≡ ok (coded cmd arg, (A.write s (cmd ∷ [])).1)
  unfolding advance
  code_sent cmd arg h = rw (write-ok S (cmd ∷ []) h) refl

  argument_sent :
      (cmd arg : ℕ) {s : A.Socket} {i o : List ℕ}
      → Holds S s i o
      → advance A order (coded cmd arg) s ≡ ok (waiting cmd arg, (A.write s (be16 arg)).1)
  unfolding advance
  argument_sent cmd arg h = rw (store16-htons, write-ok S (be16 arg) h) refl

  write_two :
      (cmd arg : ℕ) {s : A.Socket} {i o : List ℕ}
      → Holds S s i o
      → (s' : A.Socket) × (advances A order 2 (sending cmd arg) s ≡ ok (waiting cmd arg, s'))
        × Holds S s' i (o ++ (cmd ∷ be16 arg))
  unfolding advances
  write_two cmd arg {s} h =
      let h1 = write-Holds S (cmd ∷ []) h in
      let h2 = write-Holds S (be16 arg) h1 in
      (
        (A.write (A.write s (cmd ∷ [])).1 (be16 arg)).1,
        rw (code_sent cmd arg h) (rw (argument_sent cmd arg h1) refl),
        rw append_assoc at h2,
      )

  read_two :
      (cmd arg : ℕ) (payload : List ℕ) (c : Client A.Socket) {s : A.Socket} {i o : List ℕ}
      → length payload < 2 ^ 32
      → Holds S s (frame payload ++ i) o
      → (s' : A.Socket) × (advances A order 2 (waiting cmd arg) s
          ≡ ok (answered cmd arg payload, s'))
        × Holds S s' i o
  read_two cmd arg payload c {s} small h =
      let (s', e, h') = read_response-frame S order payload small h in
      (s', read_alone A order cmd arg c s ∙ rw e refl, h')

  -- The thread of `start` writes its command, and then `main` writes one. If `main` is the first to
  -- read, then on a connected socket on which the answers come in the order of the commands, each
  -- gets the response that is for the other.
  pub answers_swapped :
      (c : Client A.Socket) (cmd arg cmd' arg' : ℕ) (p p' i o : List ℕ)
      → length p < 2 ^ 32
      → length p' < 2 ^ 32
      → Holds S c.socket (frame p' ++ (frame p ++ i)) o
      → (s' : A.Socket) × (play A order
            (false ∷ false ∷ true ∷ true ∷ true ∷ true ∷ false ∷ false ∷ [])
            (sending cmd arg, sending cmd' arg', c.socket)
          ≡ ok (answered cmd arg p', answered cmd' arg' p, s'))
        × Holds S s' i ((o ++ (cmd' ∷ be16 arg')) ++ (cmd ∷ be16 arg))
  answers_swapped c cmd arg cmd' arg' p p' i o small small' h =
      let (s1, e1, h1) = write_two cmd' arg' h in
      let (s2, e2, h2) = write_two cmd arg h1 in
      let (s3, e3, h3) = read_two cmd arg p' c small' h2 in
      let (s4, e4, h4) = read_two cmd' arg' p c small h3 in
      (
        s4,
        loop_two (sending cmd arg) (sending cmd' arg') (waiting cmd' arg') c.socket s1 _ e1
            ∙ main_two (sending cmd arg) (waiting cmd' arg') (waiting cmd arg) s1 s2 _ e2
            ∙ main_two (waiting cmd arg) (waiting cmd' arg') (answered cmd arg p') s2 s3 _ e3
            ∙ loop_two (answered cmd arg p') (waiting cmd' arg') (answered cmd' arg' p) s3 s4 _ e4
            ∙ play_end (answered cmd arg p') (answered cmd' arg' p) s4,
        h4,
      )

  mixed_bytes :
      (cmd arg cmd' arg' : ℕ)
      → arg < 65536
      → cmd' < 256
      → (cmd ∷ be16 (cmd' * 256 + arg / 256)) ++ (arg % 256 ∷ be16 arg')
        ≡ (cmd ∷ []) ++ ((cmd' ∷ []) ++ (be16 arg ++ be16 arg'))
  unfolding be16
  mixed_bytes cmd arg cmd' arg' small small' =
      let high : (cmd' * 256 + arg / 256) / 256 % 256 ≡ cmd' = omega arith in
      let low : (cmd' * 256 + arg / 256) % 256 ≡ arg / 256 % 256 = omega arith in
      rw (high, low) refl

  -- If the two threads write in turns, the bytes make two commands that nobody has given: the first
  -- has the code of `main` and an argument of the other code and the high byte of the argument of
  -- `main`, and the second has its low byte as code and the argument of the other thread.
  pub requests_mixed :
      (cmd arg cmd' arg' : ℕ) {s : A.Socket} {i o : List ℕ}
      → arg < 65536
      → cmd' < 256
      → Holds S s i o
      → (s' : A.Socket) × (play A order
            (true ∷ false ∷ true ∷ false ∷ [])
            (sending cmd arg, sending cmd' arg', s)
          ≡ ok (waiting cmd arg, waiting cmd' arg', s'))
        × Holds S s' i (o ++ ((cmd ∷ be16 (cmd' * 256 + arg / 256)) ++ (arg % 256 ∷ be16 arg')))
  requests_mixed cmd arg cmd' arg' {s} {i} {o} small small' h =
      let h1 = write-Holds S (cmd ∷ []) h in
      let h2 = write-Holds S (cmd' ∷ []) h1 in
      let h3 = write-Holds S (be16 arg) h2 in
      let h4 = write-Holds S (be16 arg') h3 in
      (
        (A.write (A.write (A.write (A.write s (cmd ∷ [])).1 (cmd' ∷ [])).1 (be16 arg)).1
            (be16 arg')).1,
        main_one (sending cmd arg) (sending cmd' arg') _ _ _ _ (code_sent cmd arg h)
            ∙ loop_one (coded cmd arg) (sending cmd' arg') _ _ _ _ (code_sent cmd' arg' h1)
            ∙ main_one (coded cmd arg) (coded cmd' arg') _ _ _ _ (argument_sent cmd arg h2)
            ∙ loop_one (waiting cmd arg) (coded cmd' arg') _ _ _ _ (argument_sent cmd' arg' h3)
            ∙ play_end (waiting cmd arg) (waiting cmd' arg') _,
        rw (mixed_bytes cmd arg cmd' arg' small small')
            (rw (append_assoc, append_assoc, append_assoc) at h4),
      )
