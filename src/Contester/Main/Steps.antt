-- ===== src/Contester/Main/Steps.antt =====
-- The inner loop of the contester as steps, one for each solution.
use checker_olimp.Base.{◌≡◌, refl, ◌++◌, List, [], ◌∷◌}
use checker_olimp.Base.Int.{ℤ}
use checker_olimp.Text.{Text, lit}
use checker_olimp.Text.Decimal.{of_int}
use checker_olimp.Effect.{Outcome, Action, ok, thrown, halted, pure, handle, ◌>>=◌}
use checker_olimp.Effect.Laws.{
  Post, returned, ended, Post-ok, Post-bind, Post-weaken, Post-equation,
}
use checker_olimp.System.{System, Shell}
use checker_olimp.Json.{Json}
use checker_olimp.Contester.Database.{MySql}
use checker_olimp.Contester.Solution.{Solution, Settings, new_solution}
use checker_olimp.Contester.Checker.{run}
use checker_olimp.Contester.Checker.Laws.{IsSaved, run-IsSaved}
use checker_olimp.Contester.Main.{report_failure, check_solution, check_solutions}
use checker_olimp.Contester.Main.Laws.{Caught, check_solutions-Caught}
use checker_olimp.Contester.Main.Verdict.{checker_of}

module _ (S : System) (H : Shell S.State) (D : MySql S.State) (J : Json) (settings : Settings) where
  -- What is tried for a solution.
  abbrev pub attempt : ℤ → Action S.State (Unit {0})
  attempt id = do
    x ← new_solution D id
    saved ← run S H D J settings (checker_of settings x)
    pure tt

  -- A solution was loaded and its result saved, as the last thing done.
  abbrev pub IsDone : ℤ → S.State → S.State → Type 0
  IsDone id s s' =
      (x : Solution) × (s₁ : S.State) × (sol : Solution) × (new_solution D id s ≡ (ok x, s₁))
      × IsSaved S D (checker_of settings x) sol s'

  -- One solution: it is done, or an exception was thrown and its message is printed.
  pub data Step (id : ℤ) (s : S.State) : S.State → Type 0 where
    done : {s' : S.State} → IsDone id s s' → Step id s s'
    failed :
        {s₁ : S.State} (message : Text)
        → attempt id s ≡ (thrown message, s₁)
        → Step id s (
            S.print_error
              (lit "solution #" ++ (of_int id ++ (lit ": " ++ (message ++ lit "\n"))))
              s₁)

  -- A step for each solution, in their order.
  pub data Steps : List ℤ → S.State → S.State → Type 0 where
    none_left : {s : S.State} → Steps [] s s
    one_more :
        {id : ℤ} {ids : List ℤ} {s s₁ s' : S.State}
        → Step id s s₁
        → Steps ids s₁ s'
        → Steps (id ∷ ids) s s'

  attempt-IsDone : (id : ℤ) (s : S.State) → Post (λ _ s'. IsDone id s s') (attempt id s)
  attempt-IsDone id s = Post-equation (new_solution D id s) λ x s₁ e.
      Post-bind (run-IsSaved S D H J settings (checker_of settings x) s₁)
        λ sol s' h. returned (x, s₁, sol, e, h)

  handled :
      (id : ℤ) (s : S.State) (r : Outcome (Unit {0}) × S.State)
      → attempt id s ≡ r
      → Post (λ _ s'. IsDone id s s') r
      → Post (λ _ s'. Step id s s') (handle (report_failure S H D J id) r)
  unfolding handle report_failure
  handled id s (ok a, s') e h = returned (done (Post-ok h))
  handled id s (thrown message, s') e h = returned (failed message e)
  handled id s (halted t, s') e h = ended

  check_solution-Step :
      (id : ℤ) (s : S.State) → Post (λ _ s'. Step id s s') (check_solution S H D J settings id s)
  unfolding check_solution
  check_solution-Step id s = handled id s _ refl (attempt-IsDone id s)

  steps_lem :
      (ids : List ℤ) (s : S.State)
      → Post (λ _ s'. Steps ids s s') (check_solutions S H D J settings ids s)
  unfolding check_solutions
  steps_lem [] s = returned none_left
  steps_lem (id ∷ ids) s =
      Post-bind (check_solution-Step id s)
        λ _ s₁ h. Post-weaken (steps_lem ids s₁) λ _ s' hs. one_more h hs

  -- The loop over the unchecked solutions never ends in an exception of the type that the program
  -- throws; and if it returns, it has made a step for each solution, in their order: either the
  -- solution was loaded and its result saved as the last thing done, or an exception ended the
  -- attempt and its message was printed with the id.
  pub check_solutions-Steps :
      (ids : List ℤ) (s : S.State)
      → let r = check_solutions S H D J settings ids s in
        Caught S H D J settings r × Post (λ _ s'. Steps ids s s') r
  check_solutions-Steps ids s = (check_solutions-Caught S H D J settings ids s, steps_lem ids s)
