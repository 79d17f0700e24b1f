-- ===== src/Client/Broken.antt =====
-- What mbclient.cpp makes of an answer that is cut off.
use mbtest.Prelude.{
  ℕ, zero, suc, ◌+◌, ◌-◌, ◌^◌, ◌<◌, ◌≡◌, refl, false, List, [], ◌∷◌, ◌++◌, ok, arith, length, take,
  replicate, ltb, if◌then◌else◌, append_assoc, length-take_within,
}
use mbtest.Wire.{ByteOrder, be16, be32}
use mbtest.Wire.Laws.{store16-htons}
use mbtest.Asio.{Asio, IsStream, Holds, read-Holds, read_short-Holds, write-Holds, write-ok}
use mbtest.Protocol.{frame}
use mbtest.Client.{Client, read_response, send_command}
use mbtest.Client.Exchange.{host_size}

-- The response to a block of which `j` bytes come.
abbrev pub cut_response : ℕ → List ℕ → List ℕ
cut_response j payload =
    if ltb j 4 then [] else take (j - 4) payload ++ replicate (length payload - (j - 4)) 0

module _ {A : Asio} (S : IsStream A) (order : ByteOrder) where
  without_size :
      (i : List ℕ) {s : A.Socket} {o : List ℕ}
      → length i < 4
      → Holds S s i o
      → (s' : A.Socket) × (read_response A order s ≡ ok ([], s')) × Holds S s' [] o
  unfolding read_response
  without_size i short h =
      let (_, failed, h1) = read_short-Holds S 4 h short in (_, rw failed refl, h1)

  with_size :
      (r : ℕ) (payload : List ℕ) {s : A.Socket} {o : List ℕ}
      → length payload < 2 ^ 32
      → r < length payload
      → Holds S s (be32 (length payload) ++ take r payload) o
      → (s' : A.Socket) × (read_response A order s
          ≡ ok (take r payload ++ replicate (length payload - r) 0, s'))
        × Holds S s' [] o
  unfolding read_response be32
  with_size r payload small short h =
      let n = length payload in
      let part : length (take r payload) ≡ r = length-take_within r payload (omega arith) in
      let (size, fine, h1) = read-Holds S {i = take r payload} (be32 n) h in
      let (got, failed, h2) = read_short-Holds S n h1 (rw part short) in
      (_, rw (fine, size, host_size order n small, got, part) refl, h2)

  read_response_cut :
      (j : ℕ) (payload : List ℕ) {s : A.Socket} {o : List ℕ}
      → length payload < 2 ^ 32
      → j < length payload + 4
      → Holds S s (take j (frame payload)) o
      → (s' : A.Socket) × (read_response A order s ≡ ok (cut_response j payload, s'))
        × Holds S s' [] o
  unfolding frame be32
  read_response_cut zero payload small short h = without_size [] (omega arith) h
  read_response_cut (suc zero) payload small short h = without_size _ (omega arith) h
  read_response_cut (suc (suc zero)) payload small short h = without_size _ (omega arith) h
  read_response_cut (suc (suc (suc zero))) payload small short h = without_size _ (omega arith) h
  read_response_cut (suc (suc (suc (suc r)))) payload small short h =
      let rest : suc (suc (suc (suc r))) - 4 ≡ r = omega arith in
      let late : ltb (suc (suc (suc (suc r)))) 4 ≡ false = ground arith in
      rw (late, rest) (with_size r payload small (omega arith) h)

  -- An answer that is cut off. On a connected socket whose stream ends after the first `j` bytes of
  -- a block shorter than 2 ^ 32 bytes, before the end of the block: with fewer than four bytes the
  -- client takes the response for empty, and with more it fills up what has not come with zeros and
  -- takes it for a response of the announced length.
  pub send_command_cut :
      (cmd arg j : ℕ) (payload : List ℕ) (c : Client A.Socket) {o : List ℕ}
      → length payload < 2 ^ 32
      → j < length payload + 4
      → Holds S c.socket (take j (frame payload)) o
      → (s' : A.Socket) × (send_command A order cmd arg c
          ≡ ok (cut_response j payload, record c { socket = s' }))
        × Holds S s' [] (o ++ (cmd ∷ be16 arg))
  unfolding send_command
  send_command_cut cmd arg j payload c small short h =
      let h1 = write-Holds S (cmd ∷ []) h in
      let h2 = write-Holds S (be16 arg) h1 in
      let (s3, e, h3) = read_response_cut j payload small short h2 in
      (
        s3,
        rw (store16-htons, write-ok S (cmd ∷ []) h, write-ok S (be16 arg) h1, e) refl,
        rw append_assoc at h3,
      )
