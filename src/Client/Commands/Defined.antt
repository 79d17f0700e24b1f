-- ===== src/Client/Commands/Defined.antt =====
-- What the commands of mbclient.cpp make of any bytes that a server sends.
use mbtest.Prelude.{
  ℕ, ◌≡◌, ℤ, to_uint16, true, false, List, [], ◌∷◌, Outcome, ok, ◌>>=◌, if◌then◌else◌, ltb, leb,
  arith, length, eq_bytes, IsDefined, bind-IsDefined, if-IsDefined, inl, inr, Bool-cases,
}
use mbtest.Wire.{ByteOrder, store16, htons}
use mbtest.Asio.{Asio}
use mbtest.Client.{
  Client, decode_byte, decode_word, size_of, read_response, send_command, read_coil, read_discrete,
  read_input, read_holding, read_coil_all, read_discrete_all, read_input_all, read_holding_all,
  print, value, no_values,
}
use mbtest.Client.Text.{codes, stoi}
use mbtest.Client.Text.Number.{stoi-IsDefined}
use mbtest.Client.Commands.{
  read_reg_by_type, read_all_regs_by_type, process_read_op, process_words, start_loop, stop_loop,
}

decode_byte-IsDefined :
    (response : List ℕ) → ltb 0 (length response) ≡ true → IsDefined (decode_byte response)
unfolding decode_byte
decode_byte-IsDefined [] h = cc
decode_byte-IsDefined (a ∷ response) h = tt

decode_word-IsDefined :
    (order : ByteOrder) (response : List ℕ)
    → leb 2 (length response) ≡ true
    → IsDefined (decode_word order response)
unfolding decode_word
decode_word-IsDefined order [] h = cc
decode_word-IsDefined order (a ∷ []) h = cc
decode_word-IsDefined order (a ∷ b ∷ response) h = tt

-- A composed read without an error fills its buffer.
pub record FillsBuffer (A : Asio) : Type 0 where
  pub full : (s : A.Socket) (n : ℕ) → (A.read s n).1 ≡ false → length (A.read s n).0 ≡ n

module _ {A : Asio} (fills : FillsBuffer A) (order : ByteOrder) where
  size_of-IsDefined : (bytes : List ℕ) → length bytes ≡ 4 → IsDefined (size_of A order bytes)
  size_of-IsDefined [] h = absurd (omega arith)
  size_of-IsDefined (a ∷ []) h = absurd (omega arith)
  size_of-IsDefined (a ∷ b ∷ []) h = absurd (omega arith)
  size_of-IsDefined (a ∷ b ∷ c ∷ []) h = absurd (omega arith)
  size_of-IsDefined (a ∷ b ∷ c ∷ d ∷ rest) h = tt

  read_response-IsDefined : (s : A.Socket) → IsDefined (read_response A order s)
  unfolding read_response
  read_response-IsDefined s = elim (Bool-cases (A.read s 4).1) [
    | inl failed ↦ rw (failed, read_response) tt
    | inr fine ↦
        rw (fine, read_response)
          (bind-IsDefined (size_of A order (A.read s 4).0) _
            (size_of-IsDefined (A.read s 4).0 (fills.full s 4 fine)) (λ n. tt))
  ]

  send_command-IsDefined :
      (cmd arg : ℕ) (c : Client A.Socket) → IsDefined (send_command A order cmd arg c)
  unfolding send_command
  send_command-IsDefined cmd arg c =
      if-IsDefined _ _ (A.write c.socket (cmd ∷ [])).0 (λ e. tt)
        (if-IsDefined _ _
          (A.write (A.write c.socket (cmd ∷ [])).1 (store16 order (htons order arg))).0 (λ e. tt)
          (bind-IsDefined
            (read_response A order
              (A.write (A.write c.socket (cmd ∷ [])).1 (store16 order (htons order arg))).1)
            _ (read_response-IsDefined _) (λ r. tt)))

  -- A read function whose last step is defined on every response.
  by_exchange :
      (cmd arg : ℕ) (c : Client A.Socket)
      (next : List ℕ × Client A.Socket → Outcome (Client A.Socket))
      → ((r : List ℕ × Client A.Socket) → IsDefined (next r))
      → IsDefined (send_command A order cmd arg c >>= next)
  by_exchange cmd arg c next h =
      bind-IsDefined (send_command A order cmd arg c) next (send_command-IsDefined cmd arg c) h

  module _ (c : Client A.Socket) where
    read_reg_by_type-IsDefined :
        (mode : List ℕ) (n : ℤ) → IsDefined (read_reg_by_type A order mode n c)
    unfolding read_reg_by_type read_discrete read_coil read_input read_holding
    read_reg_by_type-IsDefined mode n =
        if-IsDefined _ _ (eq_bytes mode (codes "discrete"))
          (λ e. by_exchange 2 (to_uint16 n) c _ byte)
          (if-IsDefined _ _ (eq_bytes mode (codes "coil"))
            (λ e. by_exchange 1 (to_uint16 n) c _ byte)
            (if-IsDefined _ _ (eq_bytes mode (codes "input"))
              (λ e. by_exchange 3 (to_uint16 n) c _ word)
              (if-IsDefined _ _ (eq_bytes mode (codes "holding"))
                (λ e. by_exchange 4 (to_uint16 n) c _ word) tt)))
      where
        byte :
            (r : List ℕ × Client A.Socket)
            → IsDefined (
                if ltb 0 (length r.0)
                then (decode_byte r.0 >>= λ v. ok (print (value v ∷ []) r.1))
                else ok (print (no_values ∷ []) r.1))
        byte (response, d) =
            if-IsDefined _ _ (ltb 0 (length response))
              (λ some_.
                bind-IsDefined (decode_byte response) _ (decode_byte-IsDefined response some_)
                  (λ v. tt))
              tt

        word :
            (r : List ℕ × Client A.Socket)
            → IsDefined (
                if leb 2 (length r.0)
                then (decode_word order r.0 >>= λ v. ok (print (value v ∷ []) r.1))
                else ok (print (no_values ∷ []) r.1))
        word (response, d) =
            if-IsDefined _ _ (leb 2 (length response))
              (λ some_.
                bind-IsDefined (decode_word order response) _
                  (decode_word-IsDefined order response some_) (λ v. tt))
              tt

    read_all_regs_by_type-IsDefined :
        (mode : List ℕ) → IsDefined (read_all_regs_by_type A order mode c)
    unfolding read_all_regs_by_type read_discrete_all read_coil_all read_input_all read_holding_all
    read_all_regs_by_type-IsDefined mode =
        if-IsDefined _ _ (eq_bytes mode (codes "discrete")) (λ e. by_exchange 6 0 c _ (λ r. tt))
          (if-IsDefined _ _ (eq_bytes mode (codes "coil")) (λ e. by_exchange 5 0 c _ (λ r. tt))
            (if-IsDefined _ _ (eq_bytes mode (codes "input")) (λ e. by_exchange 7 0 c _ (λ r. tt))
              (if-IsDefined _ _ (eq_bytes mode (codes "holding"))
                (λ e. by_exchange 8 0 c _ (λ r. tt)) tt)))

    -- Whatever a server sends, and whether it sends enough: if a read without an error fills its
    -- buffer, a line that has a first word reaches undefined behaviour only if that word is
    -- `connect`.
    pub process_words-IsDefined :
        (first : List ℕ) (rest : List (List ℕ))
        → eq_bytes first (codes "connect") ≡ false
        → IsDefined (process_words A order (first ∷ rest) c)
    unfolding process_words process_read_op start_loop stop_loop
    process_words-IsDefined first rest other =
        rw (other, process_words)
          (if-IsDefined _ _ (eq_bytes first (codes "disconnect")) (λ e. tt)
            (if-IsDefined _ _ (eq_bytes first (codes "read")) (λ e. read_op (first ∷ rest))
              (if-IsDefined _ _ (eq_bytes first (codes "start"))
                (λ e. if-IsDefined _ _ c.loop_thread (λ e. tt) tt)
                (if-IsDefined _ _ (eq_bytes first (codes "stop"))
                  (λ e.
                    if-IsDefined _ _ c.loop_thread
                      (λ e. if-IsDefined _ _ c.thread_ends (λ e. tt) tt) tt)
                  tt))))
      where
        read_op : (words : List (List ℕ)) → IsDefined (process_read_op A order words c)
        read_op [] = tt
        read_op (a ∷ []) = tt
        read_op (a ∷ b ∷ []) = tt
        read_op (a ∷ mode ∷ arg ∷ rest) =
            if-IsDefined _ _ (eq_bytes arg (codes "all"))
              (λ e. read_all_regs_by_type-IsDefined mode)
              (bind-IsDefined (stoi arg) _ (stoi-IsDefined arg) (read_reg_by_type-IsDefined mode))
