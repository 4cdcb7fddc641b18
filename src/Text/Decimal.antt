-- ===== src/Text/Decimal.antt =====
-- Numbers as decimal text: `std::to_string`, and `%d` of `fprintf`.
use checker_olimp.Base.{ℕ, zero, suc, ◌+◌, ◌/◌, ◌%◌, [], ◌∷◌, ltb, if◌then◌else◌}
use checker_olimp.Base.Int.{ℤ, pos, negsuc}
use checker_olimp.Text.{Text}

-- The digits in front of a text, on fuel above the number.
unfoldable pub digits : ℕ → ℕ → Text → Text
digits zero n acc = acc
digits (suc fuel) n acc =
    let more = digits fuel (n / 10) ((48 + n % 10) ∷ acc) in
    if ltb n 10 then (48 + n) ∷ acc else more

unfoldable pub of_nat : ℕ → Text
unfolding digits
of_nat n = digits (suc n) n []

unfoldable pub of_int : ℤ → Text
unfolding of_nat
of_int (pos n) = of_nat n
of_int (negsuc n) = 45 ∷ of_nat (suc n)
