-- ===== src/Contester/Numbers/Laws.antt =====
-- Numbers written by `std::to_string` are read back by `db::stoi`.
use checker_olimp.Base.{
  ℕ, zero, suc, ◌+◌, ◌-◌, ◌*◌, ◌/◌, ◌%◌, ◌≤◌, ◌<◌, ◌≡◌, ◌≢◌, ◌∙◌, ap, inl, inr, refl, true, false,
  some, [], ◌∷◌, ltb, leb, ◌==◌, Bool-cases, arith,
}
use checker_olimp.Base.Int.{ℤ, pos, negsuc}
use checker_olimp.Text.{is_space, Text}
use checker_olimp.Text.Decimal.{digits, of_nat, of_int}
use checker_olimp.Effect.{ok}
use checker_olimp.Contester.Numbers.{
  is_digit, skip_spaces, read_digits, read_number, read_signed, in_range, stoll, stoi, to_int,
}

-- A text that begins with a digit.
pub record BeginsWithDigit (s : Text) : Type 0 where
  pub first : ℕ
  pub rest : Text
  pub parts : s ≡ first ∷ rest
  pub at_least : 48 ≤ first
  pub at_most : first ≤ 57

digits-BeginsWithDigit : (fuel n : ℕ) (acc : Text) → n < fuel → BeginsWithDigit (digits fuel n acc)
unfolding digits
digits-BeginsWithDigit zero n acc h = absurd (omega arith)
digits-BeginsWithDigit (suc fuel) n acc h = elim (Bool-cases (ltb n 10)) [
  | inl small ↦ rw small (record {
    first = 48 + n;
    rest = acc;
    parts = refl;
    at_least = omega arith;
    at_most = ground arith;
  })
  | inr large ↦ rw large (digits-BeginsWithDigit fuel (n / 10) _ (ground arith))
]

read_digits-step :
    (n d : ℕ) (s : Text) → d < 10 → read_digits n ((48 + d) ∷ s) ≡ read_digits (n * 10 + d) s
unfolding read_digits
read_digits-step n d s h =
    let digit : is_digit (48 + d) ≡ true = ground arith in
    let value : n * 10 + (48 + d - 48) ≡ n * 10 + d = omega arith in
    rw (digit, read_digits) (rw value)

read_digits-digits :
    (fuel n : ℕ) (acc : Text) → n < fuel → read_digits 0 (digits fuel n acc) ≡ read_digits n acc
unfolding digits
read_digits-digits zero n acc h = absurd (omega arith)
read_digits-digits (suc fuel) n acc h = elim (Bool-cases (ltb n 10)) [
  | inl small ↦ rw small (
      let e : 0 * 10 + n ≡ n = omega arith in
      read_digits-step 0 n acc (ground arith) ∙ ap (λ k. read_digits k acc) e)
  | inr large ↦ rw large (
      let e : n / 10 * 10 + n % 10 ≡ n = omega arith in
      read_digits-digits fuel (n / 10) _ (ground arith)
      ∙ read_digits-step (n / 10) (n % 10) acc (omega arith)
      ∙ ap (λ k. read_digits k acc) e)
]

read_number_digit : (s : Text) → BeginsWithDigit s → read_number s ≡ some (read_digits 0 s)
unfolding read_number
read_number_digit s d =
    let digit : is_digit d.first ≡ true = ground (arith, d.at_least, d.at_most) in
    rw (d.parts, read_number) (rw digit)

read_number-of_nat : (n : ℕ) → read_number (of_nat n) ≡ some n
unfolding of_nat read_digits
read_number-of_nat n =
    read_number_digit _ (digits-BeginsWithDigit (suc n) n [] (omega arith))
    ∙ ap (λ k. some k) (read_digits-digits (suc n) n [] (omega arith))

-- Only a digit can begin what is read as it stands.
stoll_digit : (s : Text) → BeginsWithDigit s → stoll s ≡ in_range false (read_number s)
unfolding stoll skip_spaces read_signed
stoll_digit s d =
    let not_space : is_space d.first ≡ false = ground (arith, d.at_least, d.at_most) in
    let not_minus : (d.first == 45) ≡ false = ground (arith, d.at_least) in
    let not_plus : (d.first == 43) ≡ false = ground (arith, d.at_least) in
    rw d.parts (rw (not_space, skip_spaces) (rw (not_minus, read_signed) (rw not_plus)))

pub stoll-of_nat : (n : ℕ) → n < 9223372036854775808 → stoll (of_nat n) ≡ some (pos n)
unfolding of_nat
stoll-of_nat n h =
    let small : ltb n 9223372036854775808 ≡ true = ground arith in
    stoll_digit _ (digits-BeginsWithDigit (suc n) n [] (omega arith))
    ∙ ap (in_range false) (read_number-of_nat n)
    ∙ rw small

stoll-minus : (n : ℕ) → n < 9223372036854775808 → stoll (45 ∷ of_nat (suc n)) ≡ some (negsuc n)
unfolding stoll skip_spaces read_signed
stoll-minus n h =
    let small : leb (suc n) 9223372036854775808 ≡ true = ground arith in
    ap (in_range true) (read_number-of_nat (suc n)) ∙ rw small

-- The values of the type `int`.
abbrev pub IsInt : ℤ → Type 0
IsInt (pos n) = n < 2147483648
IsInt (negsuc n) = n < 2147483648

pub stoll-of_int : (z : ℤ) → IsInt z → stoll (of_int z) ≡ some z
unfolding of_int
stoll-of_int (pos n) h = stoll-of_nat n (omega arith)
stoll-of_int (negsuc n) h = stoll-minus n (omega arith)

pub to_int-IsInt : (z : ℤ) → IsInt z → to_int z ≡ z
unfolding to_int
to_int-IsInt (pos n) h = ground arith
to_int-IsInt (negsuc n) h = ground arith

stoll_empty : (z : ℤ) → stoll [] ≢ some z
unfolding stoll skip_spaces read_signed
stoll_empty z e = cc

pub stoi-stoll : {W : Type 0} (t : Text) (z : ℤ) (w : W) → stoll t ≡ some z → stoi t w ≡ (ok z, w)
unfolding stoi
stoi-stoll [] z w e = absurd (stoll_empty z e)
stoi-stoll (c ∷ s) z w e = rw (e, stoi)
