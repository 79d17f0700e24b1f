-- ===== src/TcpConnection/Responses.antt =====
-- What the six `writeResponse` of TcpConnection.cpp put on a connected socket.
use mbtest.Prelude.{
  ℕ, suc, ◌==◌, false, ◌*◌, ◌^◌, ◌<◌, ◌≡◌, List, [], ◌∷◌, ◌++◌, arith, length, take-length,
  append_assoc, append-nil,
}
use mbtest.Wire.{ByteOrder, store16, store32, htons, ntohl, be16, be32, be16s}
use mbtest.Wire.Laws.{store16-htons, store32-ntohl, length-be16s}
use mbtest.Asio.{Asio, IsStream, Holds, write-Holds}
use mbtest.Interfaces.{AllRegs}
use mbtest.Protocol.{frame, all_payload, IsWellFormed}
use mbtest.Protocol.Lengths.{length-all_payload}
use mbtest.TcpConnection.{
  get_size, to_uint32, write_response, write_response_byte, write_response_word,
  write_response_bytes, write_words, write_response_words, write_response_regs, send,
}

nonempty : (bytes : List ℕ) → (suc (length bytes) == 0) ≡ false
nonempty bytes = ground arith

to_uint32_small : (n : ℕ) → n < 2 ^ 32 → to_uint32 n ≡ n
to_uint32_small n h = omega arith

frame-all_payload :
    (o : List ℕ) (r : AllRegs)
    → o ++ frame (all_payload r)
      ≡ (((o ++ be32 (length (all_payload r)) ++ frame r.coils) ++ frame r.discrete)
          ++ frame (be16s r.inputs))
        ++ frame (be16s r.holding)
unfolding frame all_payload
frame-all_payload o r = simp append_assoc

-- For tables of fewer than 65536 cells each, `getSize` is the length of the four blocks that
-- follow.
pub get_size-all_payload : (r : AllRegs) → IsWellFormed r → get_size r ≡ length (all_payload r)
unfolding get_size
get_size-all_payload r small = omega (arith, length-all_payload r)

module _ {A : Asio} (S : IsStream A) (order : ByteOrder) where
  send_size :
      {s : A.Socket} {i o : List ℕ} (n : ℕ)
      → Holds S s i o
      → Holds S (send A order (store32 order (ntohl order n)) s) i (o ++ be32 n)
  send_size n h = rw store32-ntohl (write-Holds S (be32 n) h)

  send_word :
      {s : A.Socket} {i o : List ℕ} (w : ℕ)
      → Holds S s i o
      → Holds S (send A order (store16 order (htons order w)) s) i (o ++ be16 w)
  send_word w h = rw store16-htons (write-Holds S (be16 w) h)

  pub write_response-Holds :
      {s : A.Socket} {i o : List ℕ} (bytes : List ℕ)
      → Holds S s i o
      → Holds S (write_response A order bytes (length bytes) s) i (o ++ frame bytes)
  unfolding write_response frame
  write_response-Holds [] h = rw append-nil (send_size 0 h)
  write_response-Holds (b ∷ bytes) h =
      rw (nonempty bytes, take-length, ← append_assoc)
        (write-Holds S (b ∷ bytes) (send_size (suc (length bytes)) h))

  pub write_response_bytes-Holds :
      {s : A.Socket} {i o : List ℕ} (bytes : List ℕ)
      → length bytes < 65536
      → Holds S s i o
      → Holds S (write_response_bytes A order bytes s) i (o ++ frame bytes)
  unfolding write_response_bytes frame
  write_response_bytes-Holds [] small h = rw append-nil (send_size 0 h)
  write_response_bytes-Holds (b ∷ bytes) small h =
      rw (nonempty bytes, to_uint32_small (suc (length bytes)) (omega arith), ← append_assoc)
        (write-Holds S (b ∷ bytes) (send_size (suc (length bytes)) h))

  write_words-Holds :
      (words : List ℕ) {s : A.Socket} {i o : List ℕ}
      → Holds S s i o
      → Holds S (write_words A order words s) i (o ++ be16s words)
  unfolding write_words be16s
  write_words-Holds [] h = rw append-nil h
  write_words-Holds (w ∷ words) h = rw (← append_assoc) (write_words-Holds words (send_word w h))

  pub write_response_words-Holds :
      {s : A.Socket} {i o : List ℕ} (words : List ℕ)
      → length words < 65536
      → Holds S s i o
      → Holds S (write_response_words A order words s) i (o ++ frame (be16s words))
  unfolding write_response_words frame
  write_response_words-Holds words small h =
      rw (to_uint32_small (length words * 2) (omega arith), ← length-be16s, ← append_assoc)
        (write_words-Holds words (send_size (length (be16s words)) h))

  pub write_response_regs-Holds :
      {s : A.Socket} {i o : List ℕ} (r : AllRegs)
      → IsWellFormed r
      → Holds S s i o
      → Holds S (write_response_regs A order r s) i (o ++ frame (all_payload r))
  unfolding write_response_regs
  write_response_regs-Holds r small h =
      rw (get_size-all_payload r small, frame-all_payload)
        (write_response_words-Holds r.holding small.holding (
          write_response_words-Holds r.inputs small.inputs (
            write_response_bytes-Holds r.discrete small.discrete (
              write_response_bytes-Holds r.coils small.coils
                (send_size (length (all_payload r)) h)))))

  pub write_response_byte-Holds :
      {s : A.Socket} {i o : List ℕ} (value : ℕ)
      → Holds S s i o
      → Holds S (write_response_byte A order value s) i (o ++ frame (value ∷ []))
  unfolding write_response_byte
  write_response_byte-Holds value h = write_response-Holds (value ∷ []) h

  pub write_response_word-Holds :
      {s : A.Socket} {i o : List ℕ} (value : ℕ)
      → Holds S s i o
      → Holds S (write_response_word A order value s) i (o ++ frame (be16 value))
  unfolding write_response_word be16
  write_response_word-Holds value h = rw store16-htons (write_response-Holds (be16 value) h)
