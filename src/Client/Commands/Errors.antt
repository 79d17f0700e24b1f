-- ===== src/Client/Commands/Errors.antt =====
-- Command lines of mbclient.cpp that do not do what the user may expect.
use mbtest.Prelude.{
  ℕ, ◌+◌, ◌*◌, ◌%◌, ◌-◌, ◌<◌, ◌≡◌, refl, pos, negsuc, List, [], ◌∷◌, ok, undefined, length, arith,
}
use mbtest.Wire.{ByteOrder}
use mbtest.Asio.{Asio}
use mbtest.Client.{Client, too_few_args, print, read_coil, read_discrete, read_input, read_holding}
use mbtest.Client.Text.{codes}
use mbtest.Client.Commands.{connect_to_server, process_read_op, read_reg_by_type, process_words}

module _ (A : Asio) (order : ByteOrder) (c : Client A.Socket) where
  -- With fewer than two words after them, `connect` reads past the end of its arguments, while
  -- `read`, and so `read all`, sends nothing and says that there are too few.
  pub missing_words :
      (rest : List (List ℕ))
      → length rest < 2
      → (process_words A order (codes "connect" ∷ rest) c ≡ undefined)
        × (process_words A order (codes "read" ∷ rest) c ≡ ok (print (too_few_args ∷ []) c))
  unfolding process_words connect_to_server process_read_op
  missing_words [] h = (refl, refl)
  missing_words (a ∷ []) h = (refl, refl)
  missing_words (a ∷ b ∷ rest) h = absurd (omega arith)

  -- Register numbers count modulo 65536: a number too large for the two bytes of the argument reads
  -- the register of its remainder, and a negative one counts from 65536 down.
  pub registers_alias :
      (mode : List ℕ) (n k : ℕ)
      → n < 65536
      → (read_reg_by_type A order mode (pos (n + 65536 * k)) c
          ≡ read_reg_by_type A order mode (pos n) c)
        × (read_reg_by_type A order mode (negsuc (n + 65536 * k)) c
            ≡ read_reg_by_type A order mode (pos (65535 - n)) c)
  unfolding read_reg_by_type read_coil read_discrete read_input read_holding
  registers_alias mode n k h =
      let up : (n + 65536 * k) % 65536 ≡ n = omega arith in
      let same : n % 65536 ≡ n = omega arith in
      let down : (65535 - n) % 65536 ≡ 65535 - n = omega arith in
      (rw (up, same) refl, rw (up, down) refl)
