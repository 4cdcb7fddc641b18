-- ===== src/Contester/Checker/Laws.antt =====
-- What a run of the checker leaves in the database.
use checker_olimp.Base.{◌≡◌, refl, inl, inr, true, ◌++◌, Bool-cases}
use checker_olimp.Text.{Text, lit, c_str}
use checker_olimp.Text.Decimal.{of_int}
use checker_olimp.Effect.{resume}
use checker_olimp.Effect.Laws.{Post, returned, threw, Post-step, Post-value, Post-bind}
use checker_olimp.System.{System, Shell}
use checker_olimp.Json.{Json}
use checker_olimp.Contester.Database.{MySql, exec}
use checker_olimp.Contester.Solution.{Solution, Settings, save_result_to_db}
use checker_olimp.Contester.Checker.{Checker, content_or_empty, run}

module _ (S : System) (D : MySql S.State) where
  -- The statement was run, with success, as the last thing done.
  abbrev pub IsDone : Text → S.State → S.State → Type 0
  IsDone sql s s' = D.query (c_str sql) s ≡ (true, s')

  exec-IsDone : (sql : Text) (s : S.State) → Post (λ _ s'. IsDone sql s s') (exec D sql s)
  unfolding exec resume
  exec-IsDone sql s = elim (Bool-cases (D.query (c_str sql) s).0) [
    | inl done ↦ rw done (returned refl)
    | inr failed ↦ rw failed threw
  ]

  -- The solution has the content of the result file as its result, which is empty if there is none;
  -- the file is removed, and the row of the solution is updated.
  abbrev pub IsSaved : Checker → Solution → S.State → Type 0
  IsSaved ch sol s' =
      (s : S.State) × (sol ≡ record (ch.sol) { result = content_or_empty (S.read_file ch.res s) })
      × IsDone
          (lit "UPDATE solutions SET result = '"
            ++ (sol.result ++ (lit "', status = 1 WHERE id = " ++ of_int sol.id)))
          (S.remove_file (c_str ch.res) s) s'

  -- If `checker::run` returns, the solution given back is the one it was made for, with the content
  -- of the result file as its result, which is empty where the file cannot be read; the file is
  -- then removed, and as the last thing done the row of the solution is updated with that result,
  -- with success.
  pub run-IsSaved :
      (H : Shell S.State) (J : Json) (settings : Settings) (ch : Checker) (s : S.State)
      → Post (IsSaved ch) (run S H D J settings ch s)
  unfolding run save_result_to_db
  run-IsSaved H J settings ch s = Post-step _ λ src s₁. Post-step _ λ cfg s₂. Post-step _ λ _ s₃.
      Post-step _ λ _ s₄. Post-step _ λ _ s₅.
        Post-value _ (Post-value _ (Post-bind (exec-IsDone _ _) λ _ s₆ h. returned (s₅, refl, h)))
