-- ===== src/Client/Exchange.antt =====
-- `readResponse`, `sendCommand` and `decodeResponse` of mbclient.cpp against the protocol.
use mbtest.Prelude.{
  ℕ, ◌/◌, ◌%◌, ◌^◌, ◌<◌, ◌≡◌, refl, ap, ◌∙◌, List, [], ◌∷◌, ◌++◌, ok, arith, length, append-nil,
  append_assoc, All,
}
use native.Mathlib.Nat.{sub_self}
use mbtest.Wire.{ByteOrder, be16, be32, be16s, load32, ntohl, ntohs, load16}
use mbtest.Wire.Laws.{ntohl-load32, ntohs-load16, store16-htons}
use mbtest.Asio.{Asio, IsStream, Holds, read-Holds, write-Holds, write-ok}
use mbtest.Protocol.{frame}
use mbtest.Client.{Client, read_response, send_command, decode_word, decode_words}

-- The client's words are those that were sent in network order, if they fit 16 bits.
pub decode_words-be16s :
    (order : ByteOrder) (words : List ℕ)
    → All (λ w. w < 65536) words
    → decode_words order (be16s words) ≡ words
unfolding decode_words be16s
decode_words-be16s order [] h = refl
decode_words-be16s order (w ∷ words) (hw, h) =
    let first : ntohs order (load16 order (w / 256 % 256) (w % 256)) ≡ w =
      ntohs-load16 order (w / 256 % 256) (w % 256) (omega arith) (omega arith) ∙ omega arith in
    rw (first, decode_words-be16s order words h) refl

pub decode_word-be16 : (order : ByteOrder) (w : ℕ) → w < 65536 → decode_word order (be16 w) ≡ ok w
unfolding decode_word be16
decode_word-be16 order w h =
    ap ok (ntohs-load16 order (w / 256 % 256) (w % 256) (omega arith) (omega arith) ∙ omega arith)

pub host_size :
    (order : ByteOrder) (n : ℕ)
    → n < 2 ^ 32
    → ntohl order (load32 order (n / 16777216 % 256) (n / 65536 % 256) (n / 256 % 256) (n % 256))
      ≡ n
host_size order n h =
    ntohl-load32 order _ _ _ _ (omega arith) (omega arith) (omega arith) (omega arith) ∙ omega arith

module _ {A : Asio} (S : IsStream A) (order : ByteOrder) where
  -- A response that is a block gives its payload, and leaves what follows.
  pub read_response-frame :
      (payload : List ℕ) {s : A.Socket} {i o : List ℕ}
      → length payload < 2 ^ 32
      → Holds S s (frame payload ++ i) o
      → (s' : A.Socket) × (read_response A order s ≡ ok (payload, s')) × Holds S s' i o
  unfolding read_response frame be32
  read_response-frame payload {s} {i} small h =
      let n = length payload in
      let (size, fine, h1) = read-Holds S {i = payload ++ i} (be32 n) (rw append_assoc at h) in
      let (got, fine', h2) = read-Holds S payload h1 in
      (_, rw (fine, size, host_size order n small, got, sub_self, append-nil) refl, h2)

  -- One command out, one block back: on a connected socket on which a block comes next, shorter
  -- than 2 ^ 32 bytes, the client gets the payload, leaves what follows, and has sent the three
  -- bytes.
  pub send_command-frame :
      (cmd arg : ℕ) (payload : List ℕ) (c : Client A.Socket) {i o : List ℕ}
      → length payload < 2 ^ 32
      → Holds S c.socket (frame payload ++ i) o
      → (s' : A.Socket) × (send_command A order cmd arg c ≡ ok (payload, record c { socket = s' }))
        × Holds S s' i (o ++ (cmd ∷ be16 arg))
  unfolding send_command
  send_command-frame cmd arg payload c {i} {o} small h =
      let h1 = write-Holds S (cmd ∷ []) h in
      let h2 = write-Holds S (be16 arg) h1 in
      let (s3, e, h3) = read_response-frame payload small h2 in
      (
        s3,
        rw (store16-htons, write-ok S (cmd ∷ []) h, write-ok S (be16 arg) h1, e) refl,
        rw append_assoc at h3,
      )
