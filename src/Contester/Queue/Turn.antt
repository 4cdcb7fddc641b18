-- ===== src/Contester/Queue/Turn.antt =====
-- The abstract view of a turn: which solutions are finished, and what becomes of the table.
use checker_olimp.Base.{
  ◌+◌, ◌-◌, ◌≡◌, ◌≢◌, ◌⊎◌, inl, inr, refl, true, false, List, [], ◌∷◌, length, Any, All, arith,
  Bool-cases,
}
use checker_olimp.Base.Int.{ℤ}
use checker_olimp.Text.{Text}
use checker_olimp.Contester.Solution.{Solution}
use checker_olimp.Contester.Queue.{
  key, waits, keys, Distinct, waiting_count, IsWaiting, finished, finish, keys-finish,
  finish_absent, finish-waiting_count, All-IsWaiting, at_most, same_id_refl, same_id_ne, apart,
  same_id,
}

-- Any result.
abbrev pub SomeResult : Solution → Text → Type 0
SomeResult _ _ = Unit

-- Which results a solution may get.
module _ (R : Solution → Text → Type 0) where
  -- A solution with the id waits, and the result is one for it.
  abbrev pub IsFor : ℤ → Text → List Solution → Type 0
  IsFor id result = Any (λ x. (key x ≡ id) × (waits x ≡ true) × R x result)

  -- One after the other gets a result.
  abbrev pub Finishes : List ℤ → List Solution → List Solution → Type 0
  Finishes [] before after = before ≡ after
  Finishes (id ∷ ids) before after =
      (result : Text) × IsFor id result before × Finishes ids (finish id result before) after

  -- One turn of the contester, as the tables show it: ten different solutions that wait are finished,
  -- or all if they are fewer.
  pub record IsTurn (before after : List Solution) : Type 0 where
    pub ids : List ℤ
    pub different : Distinct ids
    pub all_wait : All (λ id. IsWaiting id before) ids
    pub as_many : length ids ≡ at_most 10 (waiting_count before)
    pub finishes : Finishes ids before after

  -- A row is as it was, or waited and is finished.
  abbrev pub IsNext : Solution → Solution → Type 0
  IsNext x y = (y ≡ x) ⊎ ((waits x ≡ true) × (result : Text) × R x result × (y ≡ finished result x))

  -- Each row.
  abbrev pub AllNext : List Solution → List Solution → Type 0
  AllNext [] [] = Unit
  AllNext (x ∷ xs) (y ∷ ys) = IsNext x y × AllNext xs ys
  AllNext _ _ = ⊥

  -- A row that did not wait is as it was, and any other is finished.
  abbrev pub IsSettled : Solution → Solution → Type 0
  IsSettled x y =
      ((waits x ≡ false) × (y ≡ x))
      ⊎ ((waits x ≡ true) × (result : Text) × R x result × (y ≡ finished result x))

  abbrev pub AllSettled : List Solution → List Solution → Type 0
  AllSettled [] [] = Unit
  AllSettled (x ∷ xs) (y ∷ ys) = IsSettled x y × AllSettled xs ys
  AllSettled _ _ = ⊥

  IsFor-IsWaiting :
      (id : ℤ) (result : Text) (xs : List Solution) → IsFor id result xs → IsWaiting id xs
  IsFor-IsWaiting id result [] h = absurd h
  IsFor-IsWaiting id result (x ∷ xs) (inl h) = inl (h.0, h.1)
  IsFor-IsWaiting id result (x ∷ xs) (inr later) = inr (IsFor-IsWaiting id result xs later)

  -- Each solution that is finished is one that waits less, and the keys stay.
  pub Finishes-waiting_count :
      (ids : List ℤ) (before after : List Solution)
      → Finishes ids before after
      → Distinct (keys before)
      → Distinct ids
      → All (λ j. IsWaiting j before) ids
      → waiting_count after + length ids ≡ waiting_count before
  Finishes-waiting_count [] before after h k d w = rw h (omega arith)
  Finishes-waiting_count (id ∷ ids) before after (result, given, h) k d w =
      let fewer = finish-waiting_count id result before k w.0 in
      let rest =
        Finishes-waiting_count ids (finish id result before) after h
          (rw (keys-finish id result before) k) d.1 (All-IsWaiting id result ids before d.0 w.1) in
      omega (arith, fewer, rest)

  pub IsTurn-waiting_count :
      (before after : List Solution)
      → Distinct (keys before)
      → IsTurn before after
      → waiting_count after ≡ waiting_count before - 10
  IsTurn-waiting_count before after k t =
      let fewer = Finishes-waiting_count t.ids before after t.finishes k t.different t.all_wait in
      let many = t.as_many in ground (arith, fewer, many)

  pub AllNext-refl : (xs : List Solution) → AllNext xs xs
  AllNext-refl [] = tt
  AllNext-refl (x ∷ xs) = (inl refl, AllNext-refl xs)

  next : (x y z : Solution) → IsNext x y → IsNext y z → IsNext x z
  next x y z (inl e) h = rw (← e) h
  next x y z (inr done) (inl e) = rw e (inr done)
  next x y z (inr (w, result, r, e)) (inr (w', result', r', e')) =
      let over : waits y ≡ false = rw e refl in cc

  pub AllNext-trans : (xs ys zs : List Solution) → AllNext xs ys → AllNext ys zs → AllNext xs zs
  AllNext-trans [] [] [] h h' = tt
  AllNext-trans (x ∷ xs) (y ∷ ys) (z ∷ zs) h h' =
      (next x y z h.0 h'.0, AllNext-trans xs ys zs h.1 h'.1)
  AllNext-trans [] (y ∷ ys) zs h h' = absurd h
  AllNext-trans (x ∷ xs) [] zs h h' = absurd h
  AllNext-trans [] [] (z ∷ zs) h h' = absurd h'
  AllNext-trans (x ∷ xs) (y ∷ ys) [] h h' = absurd h'

  pub finish-AllNext :
      (id : ℤ) (result : Text) (xs : List Solution)
      → Distinct (keys xs)
      → IsFor id result xs
      → AllNext xs (finish id result xs)
  finish-AllNext id result [] d h = tt
  finish-AllNext id result (x ∷ xs) d (inl (e, w, r)) =
      let same : same_id (key x) id ≡ true = rw e (same_id_refl id) in
      let absent : All (λ j. j ≢ id) (keys xs) = rw (← e) d.0 in
      rw (same, finish_absent id result xs absent) (inr (w, result, r, refl), AllNext-refl xs)
  finish-AllNext id result (x ∷ xs) d (inr later) =
      let other =
        same_id_ne (key x) id
          (apart id result (key x) xs d.0 (IsFor-IsWaiting id result xs later)) in
      rw other (inl refl, finish-AllNext id result xs d.1 later)

  Finishes-AllNext :
      (ids : List ℤ) (before after : List Solution)
      → Distinct (keys before)
      → Finishes ids before after
      → AllNext before after
  Finishes-AllNext [] before after d h = rw (← h) (AllNext-refl before)
  Finishes-AllNext (id ∷ ids) before after d (result, given, h) =
      let then = finish id result before in
      AllNext-trans before then after (finish-AllNext id result before d given)
        (Finishes-AllNext ids then after (rw (keys-finish id result before) d) h)

  -- A turn finishes rows that waited, with results for them, and leaves the others as they were.
  pub IsTurn-AllNext :
      (before after : List Solution)
      → Distinct (keys before)
      → IsTurn before after
      → AllNext before after
  IsTurn-AllNext before after d t = Finishes-AllNext t.ids before after d t.finishes

  -- When none waits any more, all are settled.
  pub AllNext-AllSettled :
      (before after : List Solution)
      → AllNext before after
      → waiting_count after ≡ 0
      → AllSettled before after
  AllNext-AllSettled [] [] h none_waits = tt
  AllNext-AllSettled [] (y ∷ ys) h none_waits = absurd h
  AllNext-AllSettled (x ∷ xs) [] h none_waits = absurd h
  AllNext-AllSettled (x ∷ xs) (y ∷ ys) (inl e, h) none_waits = elim (Bool-cases (waits y)) [
    | inl open_row ↦ absurd (ground (arith, open_row, none_waits))
    | inr done ↦
        (inl (rw (← e) done, e), AllNext-AllSettled xs ys h (ground (arith, done, none_waits)))
  ]
  AllNext-AllSettled (x ∷ xs) (y ∷ ys) (inr (w, result, r, e), h) none_waits =
      let done : waits y ≡ false = rw e refl in
      (inr (w, result, r, e), AllNext-AllSettled xs ys h (ground (arith, done, none_waits)))
