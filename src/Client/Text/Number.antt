-- ===== src/Client/Text/Number.antt =====
-- `std::stoi` on any text.
use mbtest.Prelude.{
  ℕ, zero, suc, ◌^◌, Bool, true, false, List, [], ◌∷◌, ltb, ◌==◌, IsDefined, if-IsDefined,
}
use mbtest.Client.Text.{to_int, unsigned, signed, skip_spaces, starts_with_digit, number, stoi}

to_int-IsDefined : (negative : Bool) (n : ℕ) → IsDefined (to_int negative n)
unfolding to_int
to_int-IsDefined false n = if-IsDefined _ _ (ltb n (2 ^ 31)) (λ e. tt) tt
to_int-IsDefined true zero = tt
to_int-IsDefined true (suc n) = if-IsDefined _ _ (ltb n (2 ^ 31)) (λ e. tt) tt

unsigned-IsDefined : (negative : Bool) (s : List ℕ) → IsDefined (unsigned negative s)
unfolding unsigned
unsigned-IsDefined negative s =
    if-IsDefined _ _ (starts_with_digit s) (λ e. to_int-IsDefined negative (number 0 s)) tt

signed-IsDefined : (s : List ℕ) → IsDefined (signed s)
unfolding signed
signed-IsDefined [] = tt
signed-IsDefined (x ∷ rest) =
    if-IsDefined _ _ (x == b'-') (λ e. unsigned-IsDefined true rest)
      (if-IsDefined _ _ (x == b'+') (λ e. unsigned-IsDefined false rest)
        (unsigned-IsDefined false (x ∷ rest)))

-- The call returns a number or throws.
pub stoi-IsDefined : (s : List ℕ) → IsDefined (stoi s)
unfolding stoi
stoi-IsDefined s = signed-IsDefined (skip_spaces s)
