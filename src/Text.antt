-- ===== src/Text.antt =====
-- `std::string` as the list of its bytes, with the member functions that the sources call.
pub mod Find
pub mod Decimal
use Prim.Native.Char.{code}
use Prim.Native.String.{String}
use checker_olimp.Base.{
  ℕ, zero, suc, ◌+◌, ◌-◌, Bool, true, false, ◌&&◌, ◌||◌, leb, Option, none, some, List, [], ◌∷◌,
  ◌++◌, length, take, drop, ◌==◌, if◌then◌else◌, ◌≡◌, ◌≢◌, refl, All, arith,
}
use mathlib.Core.Option

abbrev pub Text : Type 0
Text = List ℕ

-- A literal of the sources, all of which are ASCII.
abbrev pub lit : String → Text
lit String.[] = []
lit (String.◌∷◌ c s) = code c ∷ lit s

-- `isspace` of the C locale
abbrev pub is_space : ℕ → Bool
is_space c = c == 32 || (leb 9 c && leb c 13)

-- `operator==`
unfoldable pub text_eq : Text → Text → Bool
text_eq [] [] = true
text_eq (a ∷ s) (b ∷ t) = a == b && text_eq s t
text_eq _ _ = false

-- Does the text begin with the pattern?
unfoldable pub has_prefix : Text → Text → Bool
has_prefix [] s = true
has_prefix (p ∷ ps) [] = false
has_prefix (p ∷ ps) (c ∷ s) = p == c && has_prefix ps s

-- `s.find(p)`; `none` is `std::string::npos`.
unfoldable pub find : Text → Text → Option ℕ
unfolding has_prefix
find p [] = if has_prefix p [] then some 0 else none
find p (c ∷ s) = if has_prefix p (c ∷ s) then some 0 else Option.map suc (find p s)

-- `s.replace(pos, n, r)`, at a position within the text.
abbrev pub replace : Text → ℕ → ℕ → Text → Text
replace s pos n r = take pos s ++ (r ++ drop (pos + n) s)

-- The part of a text before its first NUL: what a `const char *` made by `c_str()` denotes.
unfoldable pub c_str : Text → Text
c_str [] = []
c_str (c ∷ s) = if c == 0 then [] else c ∷ c_str s

pub c_str-append : (s t : Text) → All (λ c. c ≢ 0) s → c_str (s ++ t) ≡ s ++ c_str t
unfolding c_str
c_str-append [] t h = refl
c_str-append (c ∷ s) t h = ground (arith, c_str-append s t h.1)

pub c_str-c_str : (s : Text) → c_str (c_str s) ≡ c_str s
unfolding c_str
c_str-c_str [] = refl
c_str-c_str (c ∷ s) = ground (arith, c_str-c_str s)
