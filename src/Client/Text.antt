-- ===== src/Client/Text.antt =====
-- `SplitString` of mbclient.cpp, and the parts of the C++ library that read text for the client:
-- `std::stoi` and `std::getline`. A string is the list of its bytes.
pub mod Split
pub mod Number
pub mod Decimal
use mbtest.Prelude.{
  ℕ, zero, suc, ◌+◌, ◌-◌, ◌*◌, ◌^◌, ℤ, pos, negsuc, Bool, true, false, ◌&&◌, ◌||◌, List, [], ◌∷◌,
  ◌++◌, Outcome, ok, undefined, terminated, ◌>>=◌, if◌then◌else◌, ltb, leb, ◌==◌,
}
use Prim.Native.Char.{code}
use Prim.Native.String.{String}

-- The bytes of an ASCII text.
abbrev pub codes : String → List ℕ
codes String.[] = []
codes (String.◌∷◌ c s) = code c ∷ codes s

-- The loop of `SplitString`: `segment` lies between `p1` and `p2`, and the list is what is at `p2`,
-- up to the terminating 0 of the C string. At a separator 0 the loop would run past the end.
pub split_from : ℕ → List ℕ → List ℕ → Outcome (List (List ℕ))
split_from c segment [] = if c == 0 then undefined else ok (segment ∷ [])
split_from c segment (x ∷ rest) = elim (x == c) [
  | true ↦ split_from c [] rest >>= λ words. ok (segment ∷ words)
  | false ↦ elim (x == 0) [
    | true ↦ ok (segment ∷ [])
    | false ↦ split_from c (segment ++ (x ∷ [])) rest
  ]
]

pub split_string : List ℕ → ℕ → Outcome (List (List ℕ))
split_string s c = split_from c [] s

-- `isspace` and `isdigit` in the C locale.
is_space : ℕ → Bool
is_space x = (x == 32) || (leb 9 x && leb x 13)

is_digit : ℕ → Bool
is_digit x = leb b'0' x && leb x b'9'

-- The digits at the front, as a number.
pub number : ℕ → List ℕ → ℕ
number acc [] = acc
number acc (x ∷ rest) = elim (is_digit x) [
  | true ↦ number (acc * 10 + (x - b'0')) rest
  | false ↦ acc
]

pub starts_with_digit : List ℕ → Bool
starts_with_digit [] = false
starts_with_digit (x ∷ rest) = is_digit x

-- A magnitude with its sign, if it fits an `int`: else `std::out_of_range` is thrown.
pub to_int : Bool → ℕ → Outcome ℤ
to_int false n = if ltb n (2 ^ 31) then ok (pos n) else terminated
to_int true zero = ok (pos 0)
to_int true (suc n) = if ltb n (2 ^ 31) then ok (negsuc n) else terminated

-- After the sign: without a digit `std::invalid_argument` is thrown.
pub unsigned : Bool → List ℕ → Outcome ℤ
unsigned negative s = if starts_with_digit s then to_int negative (number 0 s) else terminated

pub signed : List ℕ → Outcome ℤ
signed [] = terminated
signed (x ∷ rest) =
    if x == b'-'
    then unsigned true rest
    else if x == b'+'
    then unsigned false rest
    else unsigned false (x ∷ rest)

pub skip_spaces : List ℕ → List ℕ
skip_spaces [] = []
skip_spaces (x ∷ rest) = elim (is_space x) [ true ↦ skip_spaces rest | false ↦ x ∷ rest ]

-- `std::stoi`. No exception of it is caught.
unfoldable pub stoi : List ℕ → Outcome ℤ
unfolding is_space is_digit number starts_with_digit to_int unsigned signed skip_spaces
stoi s = signed (skip_spaces s)

-- `std::cin`: what has not been read, and whether the end has been met.
pub record Input : Type 0 where
  pub text : List ℕ
  pub at_end : Bool

-- A line up to its '\n', and what follows, or what is left and nothing.
unfoldable pub take_line : List ℕ → List ℕ × Input
take_line [] = ([], record { text = []; at_end = true })
take_line (x ∷ rest) = elim (x == 10) [
  | true ↦ ([], record { text = rest; at_end = false })
  | false ↦ (x ∷ (take_line rest).0, (take_line rest).1)
]

-- `std::getline(std::cin, line)`: at the end of the stream it leaves the string as it is.
unfoldable pub getline : Input → List ℕ → List ℕ × Input
unfolding take_line
getline input line = if input.at_end then (line, input) else take_line input.text
