-- ===== src/Contester/Data/Fields.antt =====
-- The fields of a row as numbers.
use checker_olimp.Base.{ℕ, ◌<◌, arith, ◌≡◌, some, List, get_elem?}
use checker_olimp.Base.Int.{ℤ, pos}
use checker_olimp.Text.{Text}
use checker_olimp.Text.Decimal.{of_nat, of_int}
use checker_olimp.Effect.{ok, resume}
use checker_olimp.Contester.Numbers.{to_unsigned}
use checker_olimp.Contester.Numbers.Laws.{
  stoll-of_nat, IsInt, stoll-of_int, stoi-stoll, to_int-IsInt,
}
use checker_olimp.Contester.Data.{text_field, int_field, unsigned_field}

-- A field with the text that `std::to_string` gives for a number of the type `int` is read as that
-- number.
pub int_field-of_int :
    {W : Type 0} (row : List Text) (i : ℕ) (z : ℤ) (w : W)
    → get_elem? row i ≡ some (of_int z)
    → IsInt z
    → int_field row i w ≡ (ok z, w)
unfolding int_field text_field resume
int_field-of_int row i z w e h =
    rw e (rw (stoi-stoll (of_int z) z w (stoll-of_int z h)) (rw (to_int-IsInt z h)))

to_unsigned-pos : (n : ℕ) → n < 9223372036854775808 → to_unsigned (pos n) ≡ n
unfolding to_unsigned
to_unsigned-pos n h = omega arith

pub unsigned_field-of_nat :
    {W : Type 0} (row : List Text) (i n : ℕ) (w : W)
    → get_elem? row i ≡ some (of_nat n)
    → n < 9223372036854775808
    → unsigned_field row i w ≡ (ok n, w)
unfolding unsigned_field text_field resume
unsigned_field-of_nat row i n w e h =
    rw e (rw (stoi-stoll (of_nat n) (pos n) w (stoll-of_nat n h)) (rw (to_unsigned-pos n h)))
