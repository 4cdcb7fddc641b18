-- ===== src/Contester/Queue.antt =====
-- The contester's work as its tables show it: the solutions, of which some wait for their result.
pub mod Turn
pub mod Mixed
use checker_olimp.Base.{
  ℕ, zero, suc, ◌+◌, ◌-◌, ◌≡◌, ◌≢◌, ltb, inl, inr, refl, ap, sym, ◌∙◌, Bool, true, false, ◌==◌,
  List, [], ◌∷◌, map, length, Any, All, arith, if◌then◌else◌, Bool-cases,
}
use checker_olimp.Base.Int.{ℤ, pos, negsuc}
use checker_olimp.Text.{Text}
use checker_olimp.Contester.Solution.{Solution, status_not_checked, status_checked}

abbrev pub same_id : ℤ → ℤ → Bool
same_id (pos a) (pos b) = a == b
same_id (negsuc a) (negsuc b) = a == b
same_id _ _ = false

same_id→eq : (a b : ℤ) → same_id a b ≡ true → a ≡ b
same_id→eq (pos a) (pos b) h = ap pos (ground (arith, h))
same_id→eq (negsuc a) (negsuc b) h = ap negsuc (ground (arith, h))
same_id→eq (pos a) (negsuc b) h = cc
same_id→eq (negsuc a) (pos b) h = cc

pub same_id_refl : (a : ℤ) → same_id a a ≡ true
same_id_refl (pos a) = ground arith
same_id_refl (negsuc a) = ground arith

pub same_id_ne : (a b : ℤ) → a ≢ b → same_id a b ≡ false
same_id_ne a b h = elim (Bool-cases (same_id a b)) [
  | inl same ↦ absurd (h (same_id→eq a b same))
  | inr other ↦ other
]

-- The key of the table, and whether a solution waits.
abbrev pub key : Solution → ℤ
key x = x.id

abbrev pub waits : Solution → Bool
waits x = same_id x.status status_not_checked

abbrev pub keys : List Solution → List ℤ
keys = map key

-- No key occurs twice.
abbrev pub Distinct : List ℤ → Type 0
Distinct [] = Unit
Distinct (i ∷ is) = All (λ j. j ≢ i) is × Distinct is

-- How many solutions wait, and that the one with the key does.
abbrev pub waiting_count : List Solution → ℕ
waiting_count [] = 0
waiting_count (x ∷ xs) = let rest = waiting_count xs in if waits x then suc rest else rest

abbrev pub IsWaiting : ℤ → List Solution → Type 0
IsWaiting id = Any (λ x. (key x ≡ id) × (waits x ≡ true))

-- The row with the key gets its result, and waits no more.
abbrev pub finished : Text → Solution → Solution
finished result x = record x { result = result; status = status_checked }

abbrev pub finish : ℤ → Text → List Solution → List Solution
finish id result [] = []
finish id result (x ∷ xs) =
    (if same_id (key x) id then finished result x else x) ∷ finish id result xs

module _ (id : ℤ) (result : Text) where
  pub keys-finish : (xs : List Solution) → keys (finish id result xs) ≡ keys xs
  keys-finish [] = refl
  keys-finish (x ∷ xs) = elim (Bool-cases (same_id (key x) id)) [
    | inl same ↦ rw (same, keys-finish xs) refl
    | inr other ↦ rw (other, keys-finish xs) refl
  ]

  pub finish_absent : (xs : List Solution) → All (λ j. j ≢ id) (keys xs) → finish id result xs ≡ xs
  finish_absent [] h = refl
  finish_absent (x ∷ xs) h = rw (same_id_ne (key x) id h.0, finish_absent xs h.1) refl

  -- A key that is not among others.
  pub apart : (i : ℤ) (xs : List Solution) → All (λ j. j ≢ i) (keys xs) → IsWaiting id xs → i ≢ id
  apart i [] h waiting same = absurd waiting
  apart i (x ∷ xs) h (inl (e, w)) same = h.0 (e ∙ sym same)
  apart i (x ∷ xs) h (inr later) same = apart i xs h.1 later same

  pub finish-waiting_count :
      (xs : List Solution)
      → Distinct (keys xs)
      → IsWaiting id xs
      → suc (waiting_count (finish id result xs)) ≡ waiting_count xs
  finish-waiting_count [] h waiting = absurd waiting
  finish-waiting_count (x ∷ xs) h (inl (e, w)) =
      let same : same_id (key x) id ≡ true = rw e (same_id_refl id) in
      let absent : All (λ j. j ≢ id) (keys xs) = rw (← e) h.0 in
      rw (same, w, finish_absent xs absent) refl
  finish-waiting_count (x ∷ xs) h (inr later) =
      let other = same_id_ne (key x) id (apart (key x) xs h.0 later) in
      let fewer = finish-waiting_count xs h.1 later in
      elim (Bool-cases (waits x)) [
        | inl open_row ↦ rw (other, open_row, fewer) refl
        | inr done ↦ rw (other, done) fewer
      ]

  pub finish-IsWaiting :
      (other : ℤ) (xs : List Solution)
      → other ≢ id
      → IsWaiting other xs
      → IsWaiting other (finish id result xs)
  finish-IsWaiting other [] h waiting = waiting
  finish-IsWaiting other (x ∷ xs) h (inl (e, w)) =
      let kept = same_id_ne (key x) id (λ same. h (sym e ∙ same)) in rw kept (inl (e, w))
  finish-IsWaiting other (x ∷ xs) h (inr later) = inr (finish-IsWaiting other xs h later)

pub All-IsWaiting :
    (id : ℤ) (result : Text) (ids : List ℤ) (xs : List Solution)
    → All (λ j. j ≢ id) ids
    → All (λ j. IsWaiting j xs) ids
    → All (λ j. IsWaiting j (finish id result xs)) ids
All-IsWaiting id result [] xs d h = tt
All-IsWaiting id result (j ∷ ids) xs d h =
    (finish-IsWaiting id result j xs d.0 h.0, All-IsWaiting id result ids xs d.1 h.1)

abbrev pub at_most : ℕ → ℕ → ℕ
at_most limit n = if ltb limit n then limit else n
