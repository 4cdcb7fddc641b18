-- ===== src/Contester/Numbers.antt =====
-- contester/src/data.cpp: `db::stoi`, and the conversions to the fields' types.
pub mod Laws
use checker_olimp.Base.{
  ℕ, zero, suc, ◌+◌, ◌-◌, ◌*◌, ◌%◌, Bool, true, false, ◌&&◌, ◌||◌, Option, none, some, [], ◌∷◌,
  ◌==◌, ltb, leb, if◌then◌else◌,
}
use checker_olimp.Base.Int.{ℤ, pos, negsuc}
use checker_olimp.Text.{Text, is_space}
use checker_olimp.Effect.{Action, Halt, uncaught, pure, halt}
use checker_olimp.Words.{word, long_word}

abbrev pub is_digit : ℕ → Bool
is_digit c = leb 48 c && leb c 57

unfoldable pub skip_spaces : Text → Text
skip_spaces [] = []
skip_spaces (c ∷ s) = let rest = skip_spaces s in if is_space c then rest else c ∷ s

-- The digits at the front, added to those read before.
unfoldable pub read_digits : ℕ → Text → ℕ
read_digits n [] = n
read_digits n (c ∷ s) = elim (is_digit c) [ true ↦ read_digits (n * 10 + (c - 48)) s | false ↦ n ]

-- The digits at the front; `none` if there are none.
unfoldable pub read_number : Text → Option ℕ
unfolding read_digits
read_number [] = none
read_number (c ∷ s) = elim (is_digit c) [ true ↦ some (read_digits 0 (c ∷ s)) | false ↦ none ]

abbrev pub negated : ℕ → ℤ
negated zero = pos 0
negated (suc n) = negsuc n

-- A number with its sign, within 64 bits.
abbrev pub in_range : Bool → Option ℕ → Option ℤ
in_range negative none = none
in_range true (some n) = if leb n 9223372036854775808 then some (negated n) else none
in_range false (some n) = if ltb n 9223372036854775808 then some (pos n) else none

unfoldable pub read_signed : Text → Option ℤ
unfolding read_number
read_signed [] = none
read_signed (c ∷ s) =
    if c == 45
    then in_range true (read_number s)
    else if c == 43
    then in_range false (read_number s)
    else in_range false (read_number (c ∷ s))

-- `std::stoll`; `none` is one of its exceptions.
unfoldable pub stoll : Text → Option ℤ
unfolding read_signed skip_spaces
stoll t = read_signed (skip_spaces t)

-- `db::stoi`. The exceptions of `std::stoll` are none that the program handles.
unfoldable pub stoi : {W : Type 0} → Text → Action W ℤ
unfolding stoll
stoi [] = pure (pos 0)
stoi (c ∷ s) = elim (stoll (c ∷ s)) [ none ↦ halt uncaught | some z ↦ pure z ]

-- A `long long` as an `int`, and as an `unsigned long long`.
abbrev pub wrap : ℕ → ℤ
wrap n = if ltb n 2147483648 then pos n else negsuc (word - 1 - n)

unfoldable pub to_int : ℤ → ℤ
to_int (pos n) = wrap (n % word)
to_int (negsuc n) = wrap (word - 1 - n % word)

unfoldable pub to_unsigned : ℤ → ℕ
to_unsigned (pos n) = n % long_word
to_unsigned (negsuc n) = long_word - 1 - n % long_word
