-- ===== src/Text/Find.antt =====
-- What `text_eq` and `find` answer: equality, the first occurrence, and `none` exactly when there
-- is no occurrence.
use checker_olimp.Base.{
  ℕ, ◌≡◌, ◌≢◌, ◌↔◌, refl, ap, false, true, none, some, inl, inr, [], ◌∷◌, ◌++◌, arith, length, drop,
  All, Bool-cases, Option-cases,
}
use checker_olimp.Text.{Text, text_eq, has_prefix, find}

pub text_eq→eq : (s t : Text) → text_eq s t ≡ true → s ≡ t
unfolding text_eq
text_eq→eq [] [] h = refl
text_eq→eq [] (b ∷ t) h = ground arith
text_eq→eq (a ∷ s) [] h = ground arith
text_eq→eq (a ∷ s) (b ∷ t) h = ground (arith, text_eq→eq s t)

pub text_eq_refl : (s : Text) → text_eq s s ≡ true
unfolding text_eq
text_eq_refl [] = refl
text_eq_refl (a ∷ s) = ground (arith, text_eq_refl s)

pub text_eq_iff : (s t : Text) → (text_eq s t ≡ true) ↔ (s ≡ t)
text_eq_iff s t = (text_eq→eq s t, λ e. rw e (text_eq_refl t))

pub text_eq_ne : (s t : Text) → s ≢ t → text_eq s t ≡ false
text_eq_ne s t h = elim (Bool-cases (text_eq s t)) [
  | inl same ↦ absurd (h (text_eq→eq s t same))
  | inr other ↦ other
]

-- The pattern stands somewhere in the text.
abbrev pub Occurs : Text → Text → Type 0
Occurs p s = (a : Text) × (b : Text) × (s ≡ a ++ (p ++ b))

pub has_prefix-append : (p s : Text) → has_prefix p (p ++ s) ≡ true
unfolding has_prefix
has_prefix-append [] s = refl
has_prefix-append (c ∷ p) s = ground (arith, has_prefix-append p s)

pub has_prefix→eq : (p s : Text) → has_prefix p s ≡ true → s ≡ p ++ drop (length p) s
unfolding has_prefix
has_prefix→eq [] s h = refl
has_prefix→eq (c ∷ p) [] h = ground arith
has_prefix→eq (c ∷ p) (d ∷ s) h = ground (arith, has_prefix→eq p s)

-- A found pattern stands at the position found.
pub find→Occurs : (p s : Text) (i : ℕ) → find p s ≡ some i → Occurs p s
unfolding find
find→Occurs p [] i h = elim (Bool-cases (has_prefix p [])) [
  | inl starts ↦ ([], drop (length p) [], has_prefix→eq p [] starts)
  | inr other ↦ ground arith
]
find→Occurs p (c ∷ s) i h = elim (Bool-cases (has_prefix p (c ∷ s))) [
  | inl starts ↦ ([], drop (length p) (c ∷ s), has_prefix→eq p (c ∷ s) starts)
  | inr other ↦ elim (Option-cases (find p s)) [
    | inl missing ↦ ground arith
    | inr (j, later) ↦ let o = find→Occurs p s j later in (c ∷ o.0, o.1, ap (◌∷◌ c) o.2)
  ]
]

-- A pattern that stands in the text is found.
pub find-append : (p a b : Text) → find p (a ++ (p ++ b)) ≢ none
unfolding find
find-append [] [] [] h = ground arith
find-append [] [] (d ∷ b) h = ground arith
find-append (c ∷ p) [] b h = ground (arith, has_prefix-append (c ∷ p) b)
find-append p (c ∷ a) b h = ground (arith, find-append p a b)

pub Occurs→find : (p s : Text) → Occurs p s → find p s ≢ none
Occurs→find p s (a, b, e) h = find-append p a b (rw e at h)

pub Occurs-position : (p s : Text) → Occurs p s → (i : ℕ) × (find p s ≡ some i)
Occurs-position p s o = elim (Option-cases (find p s)) [
  | inl missing ↦ absurd (Occurs→find p s o missing)
  | inr found ↦ found
]

-- `find` is `npos` exactly when the pattern does not occur.
pub find-none_iff : (p s : Text) → (find p s ≡ none) ↔ ¬ (Occurs p s)
find-none_iff p s = (
  λ h o. Occurs→find p s o h,
  λ absent. elim (Option-cases (find p s)) [
    | inl h ↦ h
    | inr (i, h) ↦ absurd (absent (find→Occurs p s i h))
  ],
)

-- A pattern is found at its place, where its first byte stands nowhere before it.
pub find_first :
    (c : ℕ) (p a b : Text) → All (λ d. d ≢ c) a → find (c ∷ p) (a ++ (c ∷ p ++ b)) ≡ some (length a)
unfolding find
find_first c p [] b h = rw (has_prefix-append (c ∷ p) b)
find_first c p (d ∷ a) b h = rw (find_first c p a b h.1) (ground arith)

-- A pattern is not found in a text without its first byte.
pub find_absent : (c : ℕ) (p s : Text) → All (λ d. d ≢ c) s → find (c ∷ p) s ≡ none
unfolding find
find_absent c p [] h = refl
find_absent c p (d ∷ s) h = rw (find_absent c p s h.1) (ground arith)
