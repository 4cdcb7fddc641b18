-- ===== src/Config/Space.antt =====
-- checker_rc/reader.h and reader.cpp: the state of a `config_reader`, and `delete_first_space`.
use checker_olimp.Base.{
  ℕ, suc, ◌<◌, ◌≡◌, ◌↔◌, refl, ap, true, false, Option, none, some, [], ◌∷◌, ◌++◌, drop, ltb,
  if◌then◌else◌, All, arith, inl, inr, Bool-cases, Option-cases, ◌∙◌,
}
use mathlib.Core.Option
use checker_olimp.Text.{Text, is_space}

-- `enum state_in`; nothing looks at the state.
pub data StateIn : Type 0 where
  q re unknown : StateIn

pub record ConfigReader : Type 0 where
  pub state : StateIn

abbrev pub new_config_reader : ConfigReader
new_config_reader = record { state = unknown }

-- The loop, which ends at the NUL behind the text. A byte from 128 on is negative as a `char`, and
-- `isspace` is then undefined; `none` stands for that.
unfoldable pub count_spaces : Text → Option ℕ
count_spaces [] = some 0
count_spaces (c ∷ str) =
    let rest = count_spaces str in
    if ltb c 128 then (if is_space c then Option.map suc rest else some 0) else none

unfoldable pub delete_first_space : Text → Option Text
unfolding count_spaces
delete_first_space str = Option.map (λ i. drop i str) (count_spaces str)

-- A text that does not begin with a space, nor with a byte that is undefined.
abbrev pub StartsPlain : Text → Type 0
StartsPlain [] = Unit
StartsPlain (c ∷ _) = (c < 128) × (is_space c ≡ false)

abbrev pub IsBlank : ℕ → Type 0
IsBlank c = is_space c ≡ true

delete_first_space-blank :
    (c : ℕ) (str : Text) → IsBlank c → delete_first_space (c ∷ str) ≡ delete_first_space str
unfolding delete_first_space
delete_first_space-blank c str space =
    let small : ltb c 128 ≡ true = ground (arith, space) in
    rw (small, space)
      (elim (Option-cases (count_spaces str)) [
        | inl undefined ↦ rw undefined refl
        | inr (i, counted) ↦ rw counted refl
      ])

delete_first_space-plain :
    (c : ℕ) (str : Text) → StartsPlain (c ∷ str) → delete_first_space (c ∷ str) ≡ some (c ∷ str)
unfolding delete_first_space
delete_first_space-plain c str (small, plain) =
    let small' : ltb c 128 ≡ true = ground (arith, small) in rw (small', plain) refl

delete_first_space-undefined :
    (c : ℕ) (str : Text) → ltb c 128 ≡ false → delete_first_space (c ∷ str) ≡ none
unfolding delete_first_space
delete_first_space-undefined c str large = rw large refl

delete_nothing : delete_first_space [] ≡ some []
unfolding delete_first_space
delete_nothing = refl

skipped :
    (blanks r : Text)
    → All IsBlank blanks
    → StartsPlain r
    → delete_first_space (blanks ++ r) ≡ some r
skipped [] [] h p = delete_nothing
skipped [] (c ∷ r) h p = delete_first_space-plain c r p
skipped (b ∷ blanks) r h p = delete_first_space-blank b (blanks ++ r) h.0 ∙ skipped blanks r h.1 p

-- What `delete_first_space` leaves of a text.
abbrev pub IsRest : Text → Text → Type 0
IsRest str r = (blanks : Text) × (str ≡ blanks ++ r) × All IsBlank blanks × StartsPlain r

delete_first_space-IsRest : (str r : Text) → delete_first_space str ≡ some r → IsRest str r
unfolding delete_first_space
delete_first_space-IsRest [] r e = let empty : r ≡ [] = cc in rw empty ([], refl, tt, tt)
delete_first_space-IsRest (c ∷ str) r e = elim (Bool-cases (ltb c 128)) [
  | inr large ↦ cc (rw (delete_first_space-undefined c str large) at e)
  | inl small ↦ elim (Bool-cases (is_space c)) [
    | inl space ↦
        let (blanks, parts, all, plain) =
          delete_first_space-IsRest str r (rw (delete_first_space-blank c str space) at e) in
        (c ∷ blanks, ap (◌∷◌ c) parts, (space, all), plain)
    | inr other ↦
        let plain : StartsPlain (c ∷ str) = (ground (arith, small), other) in
        let whole : r ≡ c ∷ str = cc (rw (delete_first_space-plain c str plain) at e) in
        rw whole ([], refl, tt, plain)
  ]
]

-- `delete_first_space` leaves a text exactly when that is what remains after some spaces at the
-- front, and begins neither with a space nor with a byte from 128 on.
pub delete_first_space_iff : (str r : Text) → (delete_first_space str ≡ some r) ↔ IsRest str r
delete_first_space_iff str r =
    (delete_first_space-IsRest str r, λ h. rw (h.1) (skipped h.0 r h.2 h.3))
