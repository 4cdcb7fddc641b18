-- ===== src/Contester/Main/Mixed.antt =====
-- The loop of contester.cpp, when some solutions cannot be run.
use checker_olimp.Base.{
  ℕ, ◌+◌, ◌-◌, ◌≤◌, ◌≡◌, refl, Bool, true, false, inl, inr, Any, All, List, [], ◌∷◌, arith,
  Bool-cases,
}
use checker_olimp.Base.Int.{ℤ}
use checker_olimp.Text.{Text}
use checker_olimp.Effect.{thrown, resume, handle}
use checker_olimp.Effect.Laws.{Returns, returns, Returns-bind, Returns-weaken}
use checker_olimp.System.{System, Shell}
use checker_olimp.Json.{Json}
use checker_olimp.Contester.Database.{MySql}
use checker_olimp.Contester.Data.Stored.{ids_of-Lists}
use checker_olimp.Contester.Solution.{Solution, get_not_checked_ids}
use checker_olimp.Contester.Solution.Stored.{HoldsSolution}
use checker_olimp.Contester.Queue.{key, Distinct, IsWaiting, All-IsWaiting}
use checker_olimp.Contester.Queue.Turn.{IsFor, AllNext, AllNext-refl, AllNext-trans}
use checker_olimp.Contester.Queue.Mixed.{
  sound_count, broken_count, FinishesSound, FinishesSound-sound_count, FinishesSound-AllNext,
}
use checker_olimp.Contester.Tables.{TableView, Same, Same-trans}
use checker_olimp.Contester.Main.{
  Config, report_failure, check_solution, check_solutions, turn, loop,
}
use checker_olimp.Contester.Main.Steps.{attempt}
use checker_olimp.Contester.Main.Turns.{pause_keeps, loop-Returns}
use checker_olimp.Contester.Main.Finish.{GivesResults, check_solution-finish}

module _ (S : System) (H : Shell S.State) (D : MySql S.State) (J : Json) (V : TableView S H D)
    (config : Config) (broken : ℤ → Bool) where
  open V use {IsUp, view}

  -- The tables hold each solution that is not broken.
  abbrev pub SoundHeld : Type 0
  SoundHeld =
      (s : S.State) (x : Solution)
      → IsUp s
      → Any (λ y. y ≡ x) (view s)
      → broken (key x) ≡ false
      → HoldsSolution D s x

  -- An attempt on a broken one throws, and leaves the tables alone.
  abbrev pub BrokenThrow : Type 0
  BrokenThrow =
      (s : S.State) (id : ℤ)
      → IsUp s
      → IsWaiting id (view s)
      → broken id ≡ true
      → (message : Text) × (s₁ : S.State) × (attempt S H D J config.settings id s
          ≡ (thrown message, s₁))
        × Same IsUp view s s₁

  check_solution-Same :
      (id : ℤ) (s s₁ : S.State) (message : Text)
      → attempt S H D J config.settings id s ≡ (thrown message, s₁)
      → Same IsUp view s s₁
      → Returns (λ _ s'. Same IsUp view s s') (check_solution S H D J config.settings id s)
  unfolding check_solution report_failure handle resume
  check_solution-Same id s s₁ message failed kept =
      rw failed (returns (Same-trans kept (V.print_keeps _ s₁)))

  module _ (R : Solution → Text → Type 0) where
    -- The results that are read for the solutions that wait and are not broken are results for them.
    abbrev pub GivesSound : Type 0
    GivesSound =
        GivesResults S H D J config.settings V (λ x result. broken (key x) ≡ false → R x result)

    IsFor-sound :
        (id : ℤ) (result : Text) (xs : List Solution)
        → broken id ≡ false
        → IsFor (λ x result. broken (key x) ≡ false → R x result) id result xs
        → IsFor R id result xs
    IsFor-sound id result [] good h = absurd h
    IsFor-sound id result (x ∷ xs) good (inl (e, w, r)) = inl (e, w, r (rw e good))
    IsFor-sound id result (x ∷ xs) good (inr later) = inr (IsFor-sound id result xs good later)

    check_solutions-FinishesSound :
        SoundHeld
        → BrokenThrow
        → GivesSound
        → (ids : List ℤ) (s : S.State) → IsUp s
        → Distinct ids
        → All (λ id. IsWaiting id (view s)) ids
        → Returns
            (λ _ s'. IsUp s' × FinishesSound broken R ids (view s) (view s'))
            (check_solutions S H D J config.settings ids s)
    unfolding check_solutions
    check_solutions-FinishesSound held throws gives [] s up d w = returns (up, refl)
    check_solutions-FinishesSound held throws gives (id ∷ ids) s up d w =
        elim (Bool-cases (broken id)) [
          | inl bad ↦
              let (message, s₁, failed, same) = throws s id up w.0 bad in
              Returns-bind (check_solution-Same id s s₁ message failed same) λ _ s₂ h.
                Returns-weaken
                  (check_solutions-FinishesSound held throws gives ids s₂ h.up d.1
                    (rw (h.kept) w.1))
                  λ _ s' after. (after.0, inl (bad, rw (h.kept) at (after.1)))
          | inr good ↦
              Returns-bind
                (check_solution-finish S H D J V config _ gives id s
                  (λ x e there. held s x up there (rw e good)) up w.0)
                λ _ s₁ (result, here, up₁, e).
                  Returns-weaken
                    (check_solutions-FinishesSound held throws gives ids s₁ up₁ d.1
                      (rw e (All-IsWaiting id result ids (view s) d.0 w.1)))
                    λ _ s' after. (
                      after.0,
                      inr (
                        good,
                        result,
                        IsFor-sound id result (view s) good here,
                        rw e at (after.1),
                      ),
                    )
        ]

    -- A turn finishes one that is not broken, if one waits, and the broken ones stay.
    abbrev pub IsTurnMixed : S.State → S.State → Type 0
    IsTurnMixed s s' =
        IsUp s'
        × (sound_count broken (view s') ≤ sound_count broken (view s) - 1)
        × (broken_count broken (view s') ≡ broken_count broken (view s))
        × AllNext R (view s) (view s')

    turn_lem :
        SoundHeld
        → BrokenThrow
        → GivesSound
        → (s : S.State) → IsUp s
        → broken_count broken (view s) ≤ 9
        → Returns (λ _ s'. IsTurnMixed s s') (turn S H D J config s)
    unfolding turn get_not_checked_ids resume
    turn_lem held throws gives s up few =
        let s₁ = (H.clock s).1 in
        let clock = V.clock_keeps s up in
        let up₁ = clock.up in
        let same = clock.kept in
        let different = V.chosen_distinct s₁ up₁ in
        let waiting = V.chosen_waiting s₁ up₁ in
        rw (ids_of-Lists D s₁ (V.chosen s₁) (V.listed s₁ up₁)) (
          Returns-bind
            (check_solutions-FinishesSound held throws gives (V.chosen s₁) s₁ up₁ different waiting)
            λ _ s₂ h.
              Returns-weaken (pause_keeps S H D V config.delay (H.clock s).0 s₂ h.0) λ _ s' pause.
                let counts =
                  FinishesSound-sound_count broken R (V.chosen s₁) (view s₁) (view s₂) h.1
                    (V.distinct s₁ up₁) different waiting (V.chosen_count s₁ up₁) (rw same few) in
                let rows =
                  FinishesSound-AllNext broken R (V.chosen s₁) (view s₁) (view s₂) h.1
                    (V.distinct s₁ up₁) in
                (
                  pause.up,
                  rw (pause.kept, ← same) counts.0,
                  rw (pause.kept, ← same) counts.1,
                  rw (pause.kept, ← same) rows,
                ))

    -- After n turns at least n fewer wait of those that are not broken, or none, and each row is as it
    -- was, or waited and is finished.
    pub loop_lem :
        SoundHeld
        → BrokenThrow
        → GivesSound
        → (n : ℕ) (s : S.State) → IsUp s
        → broken_count broken (view s) ≤ 9
        → (s' : S.State) × ((fuel : ℕ)
            → loop S H D J (n + fuel) config s ≡ loop S H D J fuel config s')
          × IsUp s'
          × (sound_count broken (view s') ≤ sound_count broken (view s) - n)
          × AllNext R (view s) (view s')
    loop_lem held throws gives n s up few =
        let left = sound_count broken (view s) - n in
        let (s', on, over) =
          loop-Returns S H D J config
            (λ k t.
              IsUp t
              × (broken_count broken (view t) ≤ 9)
              × (sound_count broken (view t) - k ≤ left)
              × AllNext R (view s) (view t))
            (λ k t h. Returns-weaken (turn_lem held throws gives t h.0 h.1) λ _ t' turned.
              let few_now = h.1 in
              let left_now = h.2 in
              let fewer = turned.1 in
              let same = turned.2 in
              (
                turned.0,
                omega (arith, few_now, same),
                omega (arith, left_now, fewer),
                AllNext-trans R (view s) (view t) (view t') h.3 turned.3,
              ))
            n s (up, few, omega arith, AllNext-refl R (view s)) in
        let left_over = over.2 in (s', on, over.0, omega (arith, left_over), over.3)
