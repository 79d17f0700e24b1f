-- ===== src/Client/Text/Decimal.antt =====
-- Numbers as a user writes them in a line of mbclient.cpp, and `std::stoi` on them.
use mbtest.Prelude.{
  ℕ, zero, suc, ◌+◌, ◌-◌, ◌*◌, ◌/◌, ◌%◌, ◌^◌, ◌<◌, ◌≤◌, ◌≡◌, refl, ap, ◌∙◌, pos, Bool, true, false,
  List, [], ◌∷◌, ◌++◌, ok, arith, All, All-append, ltb, ◌==◌, if◌then◌else◌, eq_bytes, lt→ltb,
  ltb→lt, Bool-cases, inl, inr,
}
use mbtest.Client.Text.{
  codes, is_space, is_digit, number, starts_with_digit, to_int, unsigned, signed, skip_spaces, stoi,
}
use mbtest.Client.Text.Split.{IsWord}

-- The digits of a number, most significant first, on `fuel` digits at most.
pub digits : ℕ → ℕ → List ℕ
digits zero n = []
digits (suc fuel) n =
    let rest = digits fuel (n / 10) in
    if ltb n 10 then (n + 48) ∷ [] else rest ++ ((n % 10 + 48) ∷ [])

unfoldable pub decimal : ℕ → List ℕ
decimal n = digits (suc n) n

abbrev AreDigits : List ℕ → Type 0
AreDigits = All (λ x. is_digit x ≡ true)

is_digit-digit : (d : ℕ) → d < 10 → is_digit (d + 48) ≡ true
unfolding is_digit
is_digit-digit d h = ground arith

number-append :
    (acc : ℕ) (xs : List ℕ) (d : ℕ)
    → d < 10
    → AreDigits xs
    → number acc (xs ++ ((d + 48) ∷ [])) ≡ number acc xs * 10 + d
unfolding number
number-append acc [] d small h = rw (is_digit-digit d small, number) (omega arith)
number-append acc (x ∷ xs) d small (hx, h) =
    rw (hx, number) (number-append (acc * 10 + (x - 48)) xs d small h)

digits-AreDigits : (fuel n : ℕ) → AreDigits (digits fuel n)
unfolding digits
digits-AreDigits zero n = tt
digits-AreDigits (suc fuel) n = elim (Bool-cases (ltb n 10)) [
  | inl one ↦ rw (one, digits) (is_digit-digit n (ltb→lt n 10 one), tt)
  | inr more ↦
      rw (more, digits)
        (All-append _ (digits fuel (n / 10)) _ (digits-AreDigits fuel (n / 10))
          (is_digit-digit (n % 10) (omega arith), tt))
]

number-digits : (fuel n : ℕ) → n < fuel → number 0 (digits fuel n) ≡ n
unfolding digits number
number-digits zero n h = absurd (omega arith)
number-digits (suc fuel) n h = elim (Bool-cases (ltb n 10)) [
  | inl one ↦ rw (one, digits) (number-append 0 [] n (ltb→lt n 10 one) tt ∙ omega arith)
  | inr more ↦
      let large : 10 ≤ n = ground (arith, more) in
      rw (more, digits)
        (number-append 0 (digits fuel (n / 10)) (n % 10) (omega arith)
            (digits-AreDigits fuel (n / 10))
          ∙ omega (arith, number-digits fuel (n / 10) (omega arith)))
]

starts_with_digit-append :
    (xs ys : List ℕ) → starts_with_digit xs ≡ true → starts_with_digit (xs ++ ys) ≡ true
unfolding starts_with_digit
starts_with_digit-append [] ys h = cc
starts_with_digit-append (x ∷ xs) ys h = h

AreDigits-IsWord : (xs : List ℕ) → AreDigits xs → IsWord 32 xs
unfolding is_digit
AreDigits-IsWord [] h = tt
AreDigits-IsWord (x ∷ xs) (hx, h) =
    ((ground (arith, hx), ground (arith, hx)), AreDigits-IsWord xs h)

AreDigits-one_line : (xs : List ℕ) → AreDigits xs → All (λ x. (x == 10) ≡ false) xs
unfolding is_digit
AreDigits-one_line [] h = tt
AreDigits-one_line (x ∷ xs) (hx, h) = (ground (arith, hx), AreDigits-one_line xs h)

starts_with_digit-digits : (fuel n : ℕ) → n < fuel → starts_with_digit (digits fuel n) ≡ true
unfolding digits starts_with_digit
starts_with_digit-digits zero n h = absurd (omega arith)
starts_with_digit-digits (suc fuel) n h = elim (Bool-cases (ltb n 10)) [
  | inl one ↦ rw (one, digits) (is_digit-digit n (ltb→lt n 10 one))
  | inr more ↦
      let large : 10 ≤ n = ground (arith, more) in
      rw (more, digits)
        (starts_with_digit-append (digits fuel (n / 10)) _
          (starts_with_digit-digits fuel (n / 10) (omega arith)))
]

skip_spaces_digit : (x : ℕ) (rest : List ℕ) → is_digit x ≡ true → skip_spaces (x ∷ rest) ≡ x ∷ rest
unfolding skip_spaces
skip_spaces_digit x rest h = rw (blank, skip_spaces) refl
  where
    blank : is_space x ≡ false
    blank = unfold is_digit is_space in ground (arith, h)

signed_digit :
    (x : ℕ) (rest : List ℕ) → is_digit x ≡ true → signed (x ∷ rest) ≡ unsigned false (x ∷ rest)
unfolding signed is_digit
signed_digit x rest h =
    let minus : (x == 45) ≡ false = ground (arith, h) in
    let plus : (x == 43) ≡ false = ground (arith, h) in rw (minus, plus) refl

unsigned_digits :
    (negative : Bool) (s : List ℕ)
    → starts_with_digit s ≡ true
    → unsigned negative s ≡ to_int negative (number 0 s)
unfolding unsigned
unsigned_digits negative s h = rw h refl

-- A text that starts with a digit has no blanks and no sign to skip.
stoi_digits : (s : List ℕ) → starts_with_digit s ≡ true → stoi s ≡ to_int false (number 0 s)
unfolding stoi starts_with_digit
stoi_digits [] h = cc
stoi_digits (x ∷ rest) h =
    ap signed (skip_spaces_digit x rest h)
    ∙ signed_digit x rest h
    ∙ unsigned_digits false (x ∷ rest) h

not_all : (s : List ℕ) → starts_with_digit s ≡ true → eq_bytes s (codes "all") ≡ false
unfolding starts_with_digit is_digit
not_all [] h = refl
not_all (x ∷ rest) h = let other : (x == 97) ≡ false = ground (arith, h) in rw other refl

-- `stoi` reads a number in decimal digits below 2 ^ 31.
pub stoi-decimal : (n : ℕ) → n < 2 ^ 31 → stoi (decimal n) ≡ ok (pos n)
unfolding decimal to_int
stoi-decimal n h =
    stoi_digits (digits (suc n) n) (starts_with_digit-digits (suc n) n (omega arith))
    ∙ rw (number-digits (suc n) n (omega arith), lt→ltb n (2 ^ 31) h) refl

-- It is a word of a line, and not the word `all`.
pub decimal-IsWord : (n : ℕ) → IsWord 32 (decimal n)
unfolding decimal
decimal-IsWord n = AreDigits-IsWord (digits (suc n) n) (digits-AreDigits (suc n) n)

-- It has no line end in it.
pub decimal-one_line : (n : ℕ) → All (λ x. (x == 10) ≡ false) (decimal n)
unfolding decimal
decimal-one_line n = AreDigits-one_line (digits (suc n) n) (digits-AreDigits (suc n) n)

pub decimal-not_all : (n : ℕ) → eq_bytes (decimal n) (codes "all") ≡ false
unfolding decimal
decimal-not_all n = not_all (digits (suc n) n) (starts_with_digit-digits (suc n) n (omega arith))
