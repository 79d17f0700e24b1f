-- ===== src/Client/Reads.antt =====
-- What the nine read functions of mbclient.cpp print of the server's answer.
use mbtest.Prelude.{
  ℕ, ◌*◌, ◌<◌, ◌^◌, ◌≡◌, refl, ℤ, to_uint16, Option, none, some, List, [], ◌∷◌, ◌++◌, Outcome, ok,
  ◌>>=◌, if◌then◌else◌, ltb, leb, true, arith, length, get_elem?, All, All-get_elem?,
}
use mbtest.Wire.{ByteOrder, be16, be16s}
use mbtest.Wire.Laws.{length-be16s}
use mbtest.Asio.{Asio, IsStream, Holds}
use mbtest.Interfaces.{AllRegs}
use mbtest.Protocol.{
  Command, coil, discrete, input, holding, coil_all, discrete_all, input_all, holding_all,
  all_tables, unknown, frame, cell_payload, word_payload, all_payload, request, answer,
  IsWellFormed,
}
use mbtest.Protocol.Lengths.{length-all_payload}
use mbtest.Client.{
  Client, Line, value, response_size, no_values, print, decode_byte, decode_word, decode_words,
  values_from, send_command, read_coil, read_discrete, read_input, read_holding, read_coil_all,
  read_discrete_all, read_input_all, read_holding_all, read_all,
}
use mbtest.Client.Exchange.{decode_words-be16s, decode_word-be16, send_command-frame}

-- The lines that tell the user of a cell, and of a table.
abbrev pub cell_lines : Option ℕ → List Line
cell_lines none = no_values ∷ []
cell_lines (some v) = value v ∷ []

abbrev pub table_lines : List ℕ → List Line
table_lines [] = no_values ∷ []
table_lines (v ∷ values) = values_from 0 (v ∷ values)

-- What a command prints if the server's tables are `now`, and `snapshot` for all tables.
unfoldable pub shown : AllRegs → AllRegs → Command → List Line
shown now snapshot (coil n) = cell_lines (get_elem? now.coils n)
shown now snapshot (discrete n) = cell_lines (get_elem? now.discrete n)
shown now snapshot (input n) = cell_lines (get_elem? now.inputs n)
shown now snapshot (holding n) = cell_lines (get_elem? now.holding n)
shown now snapshot (coil_all n) = table_lines now.coils
shown now snapshot (discrete_all n) = table_lines now.discrete
shown now snapshot (input_all n) = table_lines now.inputs
shown now snapshot (holding_all n) = table_lines now.holding
shown now snapshot (all_tables n) = response_size (length (all_payload snapshot)) ∷ []
shown now snapshot (unknown code arg) = []

module _ {Socket : Type 0} (order : ByteOrder) (c : Client Socket) where
  show_cell :
      (cell : Option ℕ)
      → (if ltb 0 (length (cell_payload cell))
          then (decode_byte (cell_payload cell) >>= λ v. ok (print (value v ∷ []) c))
          else ok (print (no_values ∷ []) c))
        ≡ ok (print (cell_lines cell) c)
  unfolding cell_payload decode_byte
  show_cell none = refl
  show_cell (some v) = refl

  show_word :
      (cell : Option ℕ)
      → ((v : ℕ) → cell ≡ some v → v < 65536)
      → (if leb 2 (length (word_payload cell))
          then (decode_word order (word_payload cell) >>= λ v. ok (print (value v ∷ []) c))
          else ok (print (no_values ∷ []) c))
        ≡ ok (print (cell_lines cell) c)
  unfolding word_payload
  show_word none word = refl
  show_word (some v) word = rw (two_bytes, decode_word-be16 order v (word v refl)) refl
    where
      two_bytes : leb 2 (length (be16 v)) ≡ true
      two_bytes = unfold be16 in refl

  show_table :
      (cells : List ℕ)
      → ok
          (if ltb 0 (length cells) then print (values_from 0 cells) c else print (no_values ∷ []) c)
        ≡ ok (print (table_lines cells) c)
  show_table [] = refl
  show_table (v ∷ cells) = ground arith

  show_words :
      (words : List ℕ)
      → All (λ w. w < 65536) words
      → ok (
          if ltb 0 (length (be16s words))
          then print (values_from 0 (decode_words order (be16s words))) c
          else print (no_values ∷ []) c)
        ≡ ok (print (table_lines words) c)
  show_words words h = rw (decode_words-be16s order words h, length-be16s) (doubled words)
    where
      doubled :
          (words : List ℕ)
          → ok (
              if ltb 0 (length words * 2)
              then print (values_from 0 words) c
              else print (no_values ∷ []) c)
            ≡ ok (print (table_lines words) c)
      doubled [] = refl
      doubled (w ∷ words) = ground arith

length-be16s_small : (words : List ℕ) → length words < 65536 → length (be16s words) < 2 ^ 32
length-be16s_small words h = omega (arith, length-be16s words)

length-cell_payload : (cell : Option ℕ) → length (cell_payload cell) < 2 ^ 32
unfolding cell_payload
length-cell_payload none = omega arith
length-cell_payload (some v) = omega arith

length-word_payload : (cell : Option ℕ) → length (word_payload cell) < 2 ^ 32
unfolding word_payload be16
length-word_payload none = omega arith
length-word_payload (some v) = omega arith

module _ {A : Asio} (S : IsStream A) (order : ByteOrder) where
  -- A read function that sends a command and goes on with the payload.
  by_exchange :
      (cmd arg : ℕ) (payload : List ℕ)
      → length payload < 2 ^ 32
      → (next : List ℕ × Client A.Socket → Outcome (Client A.Socket)) (lines : List Line)
      → ((c : Client A.Socket) → next (payload, c) ≡ ok (print lines c))
      → (c : Client A.Socket) (i o : List ℕ) → Holds S c.socket (frame payload ++ i) o
      → (s' : A.Socket) × ((send_command A order cmd arg c >>= next)
          ≡ ok (print lines (record c { socket = s' })))
        × Holds S s' i (o ++ (cmd ∷ be16 arg))
  by_exchange cmd arg payload small next lines prints c i o h =
      let (s', r, h') = send_command-frame S order cmd arg payload c small h in
      (s', rw r (prints _), h')

  module _ {now snapshot : AllRegs} (valid : IsWellFormed now)
      (valid' : IsWellFormed snapshot) where
    -- The call returns. It has sent the request, read the answer and no more, and printed what the
    -- answer tells.
    abbrev pub Shows : (Client A.Socket → Outcome (Client A.Socket)) → Command → Type 0
    Shows read command =
        (c : Client A.Socket) (i o : List ℕ)
        → Holds S c.socket (answer now snapshot command ++ i) o
        → (s' : A.Socket) × (read c
            ≡ ok (print (shown now snapshot command) (record c { socket = s' })))
          × Holds S s' i (o ++ request command)

    pub read_coil-Shows : (n : ℤ) → Shows (read_coil A order n) (coil (to_uint16 n))
    unfolding read_coil answer shown request
    read_coil-Shows n =
        let cell = get_elem? now.coils (to_uint16 n) in
        by_exchange 1 (to_uint16 n) (cell_payload cell) (length-cell_payload cell) _ _
          (λ c. show_cell order c cell)

    pub read_discrete-Shows : (n : ℤ) → Shows (read_discrete A order n) (discrete (to_uint16 n))
    unfolding read_discrete answer shown request
    read_discrete-Shows n =
        let cell = get_elem? now.discrete (to_uint16 n) in
        by_exchange 2 (to_uint16 n) (cell_payload cell) (length-cell_payload cell) _ _
          (λ c. show_cell order c cell)

    pub read_input-Shows : (n : ℤ) → Shows (read_input A order n) (input (to_uint16 n))
    unfolding read_input answer shown request
    read_input-Shows n =
        let cell = get_elem? now.inputs (to_uint16 n) in
        by_exchange 3 (to_uint16 n) (word_payload cell) (length-word_payload cell) _ _ (λ c.
          show_word order c cell
            (λ v. All-get_elem? (λ w. w < 65536) now.inputs (to_uint16 n) valid.input_words))

    pub read_holding-Shows : (n : ℤ) → Shows (read_holding A order n) (holding (to_uint16 n))
    unfolding read_holding answer shown request
    read_holding-Shows n =
        let cell = get_elem? now.holding (to_uint16 n) in
        by_exchange 4 (to_uint16 n) (word_payload cell) (length-word_payload cell) _ _ (λ c.
          show_word order c cell
            (λ v. All-get_elem? (λ w. w < 65536) now.holding (to_uint16 n) valid.holding_words))

    pub read_coil_all-Shows : Shows (read_coil_all A order) (coil_all 0)
    unfolding read_coil_all answer shown request
    read_coil_all-Shows =
        by_exchange 5 0 now.coils (omega (arith, valid.coils)) _ _
          (λ c. show_table order c now.coils)

    pub read_discrete_all-Shows : Shows (read_discrete_all A order) (discrete_all 0)
    unfolding read_discrete_all answer shown request
    read_discrete_all-Shows =
        by_exchange 6 0 now.discrete (omega (arith, valid.discrete)) _ _
          (λ c. show_table order c now.discrete)

    pub read_input_all-Shows : Shows (read_input_all A order) (input_all 0)
    unfolding read_input_all answer shown request
    read_input_all-Shows =
        by_exchange 7 0 (be16s now.inputs) (length-be16s_small now.inputs valid.inputs) _ _
          (λ c. show_words order c now.inputs valid.input_words)

    pub read_holding_all-Shows : Shows (read_holding_all A order) (holding_all 0)
    unfolding read_holding_all answer shown request
    read_holding_all-Shows =
        by_exchange 8 0 (be16s now.holding) (length-be16s_small now.holding valid.holding) _ _
          (λ c. show_words order c now.holding valid.holding_words)

    pub read_all-Shows : Shows (read_all A order) (all_tables 0)
    unfolding read_all answer shown request
    read_all-Shows =
        by_exchange 9 0 (all_payload snapshot)
          (omega (
            arith,
            length-all_payload snapshot,
            valid'.coils,
            valid'.discrete,
            valid'.inputs,
            valid'.holding,
          ))
          _ _ (λ c. ground (arith, length-all_payload snapshot))
