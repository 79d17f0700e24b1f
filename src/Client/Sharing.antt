-- ===== src/Client/Sharing.antt =====
-- `sendCommand` of mbclient.cpp call by call. `main` and the thread of `start` run it on the same
-- socket, and nothing keeps their calls apart.
pub mod Mixed
use mbtest.Prelude.{
  ℕ, zero, suc, ◌+◌, ◌*◌, ◌-◌, ◌/◌, ◌%◌, ◌^◌, ◌<◌, ◌≡◌, refl, ap, ◌∙◌, Bool, true, false, inl, inr,
  Bool-cases, List, [], ◌∷◌, ◌++◌, Outcome, ok, undefined, terminated, out_of_fuel, ◌>>=◌,
  if◌then◌else◌, arith, length, replicate, append_assoc, append-nil,
}
use mbtest.Wire.{ByteOrder, be16, be32, store16, htons}
use mbtest.Wire.Laws.{store16-htons}
use mbtest.Asio.{Asio, IsStream, Holds, read-Holds, write-Holds, write-ok}
use mbtest.Protocol.{frame}
use mbtest.Client.{Client, size_of, read_response, send_command}
use mbtest.Client.Exchange.{host_size}

-- What a thread is to do next: write the code or the argument, or read the size or that many bytes;
-- or the response that it has got.
pub data Stage : Type 0 where
  write_code write_argument read_size : Stage
  read_body : ℕ → Stage
  done : List ℕ → Stage

pub record Sending : Type 0 where
  pub cmd : ℕ
  pub arg : ℕ
  pub stage : Stage

abbrev pub sending : ℕ → ℕ → Sending
sending cmd arg = record { cmd = cmd; arg = arg; stage = write_code }

module _ (A : Asio) (order : ByteOrder) where
  open A use {Socket, read, write}

  -- The next call.
  pub advance : Sending → Socket → Outcome (Sending × Socket)
  advance t s = elim t.stage [
    | write_code ↦
        let (failed, s') = write s (t.cmd ∷ []) in
        if failed then terminated else ok (record t { stage = write_argument }, s')
    | write_argument ↦
        let (failed, s') = write s (store16 order (htons order t.arg)) in
        if failed then terminated else ok (record t { stage = read_size }, s')
    | read_size ↦
        let (bytes, failed, s') = read s 4 in
        if failed
        then ok (record t { stage = done [] }, s')
        else (do n ← size_of A order bytes; ok (record t { stage = read_body n }, s'))
    | read_body n ↦
        let (response, failed, s') = read s n in
        ok (record t { stage = done (response ++ replicate (n - length response) 0) }, s')
    | done response ↦ ok (t, s)
  ]

  pub advances : ℕ → Sending → Socket → Outcome (Sending × Socket)
  advances zero t s = ok (t, s)
  advances (suc n) t s = advance t s >>= λ (t', s'). advances n t' s'

  -- The two threads, and which of them makes each call: `true` is `main`.
  pub play : List Bool → Sending × Sending × Socket → Outcome (Sending × Sending × Socket)
  play [] (m, l, s) = ok (m, l, s)
  play (true ∷ turns) (m, l, s) = advance m s >>= λ (m', s'). play turns (m', l, s')
  play (false ∷ turns) (m, l, s) = advance l s >>= λ (l', s'). play turns (m, l', s')

  -- The response of a call that is done.
  abbrev pub finish : ℕ → ℕ → List ℕ × Client Socket → Sending × Socket
  finish cmd arg (response, c) = (record { cmd = cmd; arg = arg; stage = done response }, c.socket)

  module _ (cmd arg : ℕ) (c : Client Socket) where
    -- A thread after the call that reads the size, and `readResponse` after it.
    abbrev after_size : Bool → Outcome ℕ → Socket → Outcome (Sending × Socket)
    after_size failed size s =
        if failed
        then ok (record { cmd = cmd; arg = arg; stage = done [] }, s)
        else (do n ← size; ok (record { cmd = cmd; arg = arg; stage = read_body n }, s))

    abbrev rest_of_response : Bool → Outcome ℕ → Socket → Outcome (List ℕ × Socket)
    rest_of_response failed size s = if failed then ok ([], s) else (do
      n ← size
      let (response, failed', s2) = read s n
      ok (response ++ replicate (n - length response) 0, s2))

    read_alone_from :
        (failed : Bool) (size : Outcome ℕ) (s : Socket)
        → (after_size failed size s >>= λ (t', s'). advances 1 t' s') ≡ (
            rest_of_response failed size s >>= λ r.
            ok (finish cmd arg (r.0, record c { socket = r.1 })))
    unfolding advances advance
    read_alone_from true size s = refl
    read_alone_from false (ok n) s = refl
    read_alone_from false undefined s = refl
    read_alone_from false terminated s = refl
    read_alone_from false out_of_fuel s = refl

    pub read_alone :
        (s : Socket)
        → advances 2 (record { cmd = cmd; arg = arg; stage = read_size }) s
          ≡ (read_response A order s >>= λ r. ok (finish cmd arg (r.0, record c { socket = r.1 })))
    unfolding advances advance read_response
    read_alone s = read_alone_from (read s 4).1 (size_of A order (read s 4).0) (read s 4).2

    response_bind :
        (m : Outcome (List ℕ × Socket))
        → (m >>= λ r. ok (finish cmd arg (r.0, record c { socket = r.1 }))) ≡ (
            (do (response, s3) ← m; ok (response, record c { socket = s3 })) >>= λ r.
            ok (finish cmd arg r))
    response_bind (ok r) = refl
    response_bind undefined = refl
    response_bind terminated = refl
    response_bind out_of_fuel = refl

    -- Four calls of a thread that no other comes between are one call of `sendCommand`, on any
    -- socket, also one that fails.
    pub send_alone :
        advances 4 (sending cmd arg) c.socket
        ≡ (send_command A order cmd arg c >>= λ r. ok (finish cmd arg r))
    unfolding advances advance send_command
    send_alone =
        let (failed, s1) = write c.socket (cmd ∷ []) in
        let (failed', s2) = write s1 (store16 order (htons order arg)) in
        elim (Bool-cases failed) [
          | inl lost ↦ rw lost refl
          | inr sent ↦ elim (Bool-cases failed') [
            | inl lost' ↦ rw (sent, lost') refl
            | inr sent' ↦
                rw (sent, sent') (read_alone s2 ∙ response_bind (read_response A order s2))
          ]
        ]
