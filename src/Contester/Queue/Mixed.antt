-- ===== src/Contester/Queue/Mixed.antt =====
-- A turn over solutions of which some cannot be run.
use checker_olimp.Base.{
  ℕ, ◌+◌, ◌-◌, ◌≤◌, ◌≡◌, ◌≢◌, ◌⊎◌, inl, inr, refl, Bool, true, false, not, ◌&&◌, List, [], ◌∷◌,
  length, All, arith, Bool-cases,
}
use checker_olimp.Base.Int.{ℤ}
use checker_olimp.Text.{Text}
use checker_olimp.Contester.Solution.{Solution}
use checker_olimp.Contester.Queue.{
  key, waits, keys, Distinct, waiting_count, IsWaiting, finish, keys-finish, finish_absent,
  All-IsWaiting, at_most, same_id_refl, same_id_ne, apart, same_id,
}
use checker_olimp.Contester.Queue.Turn.{
  IsFor, IsSettled, AllNext, AllNext-refl, AllNext-trans, finish-AllNext,
}

abbrev pub one : Bool → ℕ
one true = 1
one false = 0

-- How many solutions wait of those that the test takes.
module _ (p : ℤ → Bool) where
  abbrev pub tally : List Solution → ℕ
  tally [] = 0
  tally (x ∷ xs) = one (waits x && p (key x)) + tally xs

  abbrev pub tally_ids : List ℤ → ℕ
  tally_ids [] = 0
  tally_ids (id ∷ ids) = one (p id) + tally_ids ids

  finish-tally :
      (id : ℤ) (result : Text) (xs : List Solution)
      → Distinct (keys xs)
      → IsWaiting id xs
      → tally (finish id result xs) + one (p id) ≡ tally xs
  finish-tally id result [] d w = absurd w
  finish-tally id result (x ∷ xs) d (inl (e, w)) =
      let same : same_id (key x) id ≡ true = rw e (same_id_refl id) in
      let absent : All (λ j. j ≢ id) (keys xs) = rw (← e) d.0 in
      rw (same, w, finish_absent id result xs absent, e) (omega arith)
  finish-tally id result (x ∷ xs) d (inr later) =
      let other = same_id_ne (key x) id (apart id result (key x) xs d.0 later) in
      let fewer = finish-tally id result xs d.1 later in rw other (omega (arith, fewer))

  -- Different solutions that wait are no more than those that wait.
  tally_ids-tally :
      (ids : List ℤ) (xs : List Solution)
      → Distinct (keys xs)
      → Distinct ids
      → All (λ id. IsWaiting id xs) ids
      → tally_ids ids ≤ tally xs
  tally_ids-tally [] xs k d w = omega arith
  tally_ids-tally (id ∷ ids) xs k d w =
      let fewer = finish-tally id [] xs k w.0 in
      let rest =
        tally_ids-tally ids (finish id [] xs) (rw (keys-finish id [] xs) k) d.1
          (All-IsWaiting id [] ids xs d.0 w.1) in
      omega (arith, fewer, rest)

module _ (broken : ℤ → Bool) where
  abbrev pub sound : ℤ → Bool
  sound id = not (broken id)

  -- How many wait that can be run, and that cannot.
  abbrev pub sound_count : List Solution → ℕ
  sound_count = tally sound

  abbrev pub broken_count : List Solution → ℕ
  broken_count = tally broken

  both_counts : (xs : List Solution) → waiting_count xs ≡ sound_count xs + broken_count xs
  both_counts [] = refl
  both_counts (x ∷ xs) = let rest = both_counts xs in ground (arith, rest)

  both_ids : (ids : List ℤ) → length ids ≡ tally_ids sound ids + tally_ids broken ids
  both_ids [] = refl
  both_ids (id ∷ ids) = let rest = both_ids ids in ground (arith, rest)

module _ (broken : ℤ → Bool) (R : Solution → Text → Type 0) where
  -- One after the other, those that can be run get a result that is one for them.
  abbrev pub FinishesSound : List ℤ → List Solution → List Solution → Type 0
  FinishesSound [] before after = before ≡ after
  FinishesSound (id ∷ ids) before after =
      ((broken id ≡ true) × FinishesSound ids before after)
      ⊎ ((broken id ≡ false)
          × (result : Text) × IsFor R id result before
          × FinishesSound ids (finish id result before) after)

  -- What is finished are those that can be run.
  FinishesSound-tally :
      (ids : List ℤ) (before after : List Solution)
      → FinishesSound ids before after
      → Distinct (keys before)
      → Distinct ids
      → All (λ id. IsWaiting id before) ids
      → (sound_count broken after + tally_ids (sound broken) ids ≡ sound_count broken before)
        × (broken_count broken after ≡ broken_count broken before)
  FinishesSound-tally [] before after h k d w = rw h (omega arith, refl)
  FinishesSound-tally (id ∷ ids) before after (inl (bad, h)) k d w =
      let (finishes, keeps) = FinishesSound-tally ids before after h k d.1 w.1 in
      (ground (arith, bad, finishes), keeps)
  FinishesSound-tally (id ∷ ids) before after (inr (good, result, given, h)) k d w =
      let fewer = finish-tally (sound broken) id result before k w.0 in
      let same = finish-tally broken id result before k w.0 in
      let (finishes, keeps) =
        FinishesSound-tally ids (finish id result before) after h
          (rw (keys-finish id result before) k) d.1 (All-IsWaiting id result ids before d.0 w.1) in
      ground (arith, fewer, same, finishes, keeps, good)

  -- A turn over ten solutions, or all that wait, of which at most nine cannot be run, finishes one
  -- that can, if there is one.
  pub FinishesSound-sound_count :
      (ids : List ℤ) (before after : List Solution)
      → FinishesSound ids before after
      → Distinct (keys before)
      → Distinct ids
      → All (λ id. IsWaiting id before) ids
      → length ids ≡ at_most 10 (waiting_count before)
      → broken_count broken before ≤ 9
      → (sound_count broken after ≤ sound_count broken before - 1)
        × (broken_count broken after ≡ broken_count broken before)
  FinishesSound-sound_count ids before after h k d w many few =
      let (finishes, keeps) = FinishesSound-tally ids before after h k d w in
      let broken_ids = tally_ids-tally broken ids before k d w in
      let all_wait = both_counts broken before in
      let all_ids = both_ids broken ids in
      (ground (arith, finishes, broken_ids, all_wait, all_ids, many, few), keeps)

  -- Each row is as it was, or waited and is finished.
  pub FinishesSound-AllNext :
      (ids : List ℤ) (before after : List Solution)
      → FinishesSound ids before after
      → Distinct (keys before)
      → AllNext R before after
  FinishesSound-AllNext [] before after h d = rw (← h) (AllNext-refl R before)
  FinishesSound-AllNext (id ∷ ids) before after (inl (bad, h)) d =
      FinishesSound-AllNext ids before after h d
  FinishesSound-AllNext (id ∷ ids) before after (inr (good, result, given, h)) d =
      let then = finish id result before in
      AllNext-trans R before then after (finish-AllNext R id result before d given)
        (FinishesSound-AllNext ids then after h (rw (keys-finish id result before) d))

  -- A row is settled, or it cannot be run and is as it was.
  abbrev pub AllSettledSound : List Solution → List Solution → Type 0
  AllSettledSound [] [] = Unit
  AllSettledSound (x ∷ xs) (y ∷ ys) =
      (IsSettled R x y ⊎ ((broken (key x) ≡ true) × (y ≡ x))) × AllSettledSound xs ys
  AllSettledSound _ _ = ⊥

  -- When none that can be run waits any more, all that can be run are settled.
  pub AllNext-AllSettledSound :
      (before after : List Solution)
      → AllNext R before after
      → sound_count broken after ≡ 0
      → AllSettledSound before after
  AllNext-AllSettledSound [] [] h none_waits = tt
  AllNext-AllSettledSound [] (y ∷ ys) h none_waits = absurd h
  AllNext-AllSettledSound (x ∷ xs) [] h none_waits = absurd h
  AllNext-AllSettledSound (x ∷ xs) (y ∷ ys) (inr (w, result, r, e), h) none_waits =
      (inl (inr (w, result, r, e)), AllNext-AllSettledSound xs ys h (omega (arith, none_waits)))
  AllNext-AllSettledSound (x ∷ xs) (y ∷ ys) (inl e, h) none_waits =
      let rest = AllNext-AllSettledSound xs ys h (omega (arith, none_waits)) in
      elim (Bool-cases (waits y)) [
        | inr done ↦ (inl (inl (rw (← e) done, e)), rest)
        | inl open_row ↦ elim (Bool-cases (broken (key y))) [
          | inl bad ↦ (inr (rw (← e) bad, e), rest)
          | inr good ↦ absurd (ground (arith, open_row, good, none_waits))
        ]
      ]
