-- ===== src/Main/Progress.antt =====
-- The program puts a verdict to the result file, or ends by an assertion.
use checker_olimp.Base.{ℕ, ◌≤◌, ◌≡◌, [], ◌∷◌, ◌++◌, length}
use checker_olimp.Text.{Text, c_str}
use checker_olimp.Effect.{ok}
use checker_olimp.Effect.Laws.{Guarded, gives, Guarded-bind, Guarded-value}
use checker_olimp.System.{System}
use checker_olimp.Json.{Json}
use checker_olimp.Executor.Clock.{IsTimed}
use checker_olimp.Paths.Progress.{WritesNames, get_full_path_name-IsFullPath}
use checker_olimp.Paths.Laws.{Names}
use checker_olimp.Config.{MainConfig, new_problem_store, read_main_config}
use checker_olimp.Judge.{Verdict}
use checker_olimp.Judge.Report.{IsVerdict}
use checker_olimp.Judge.Progress.{Behaves, IsUsable, check-IsUsable}
use checker_olimp.Main.{serizlize, main}

module _ (S : System) (J : Json) where
  -- The status is 0, and a verdict of the configuration is in the result file, written as the last
  -- thing done.
  pub data Delivers (fuel : ℕ) (config : MainConfig) (source result : Text)
      : ℕ → S.State → Type 0 where
    delivers :
        (directory : Text) (v : Verdict) (s : S.State)
        → IsVerdict S fuel directory (c_str source) config v
        → Delivers fuel config source result 0
            (S.write_file (c_str result) (serizlize S J v ++ (10 ∷ [])) s).1

  -- `main` with four arguments, where the configuration file that its first argument names can be
  -- read and run, has the status 0 and puts a verdict of that configuration to the result file, as
  -- `serizlize` prints it and a newline, as the last thing done, or ends the process by an
  -- assertion. Conditions: GetFullPathName writes a name to its buffer for every path, none being
  -- too long for it (WritesNames); the system is as in IsTimed and Behaves, the time limit fits the
  -- clock and the rounds and each test has an answer (IsUsable), and the source's name has five
  -- bytes or more.
  pub main-Delivers :
      (T : IsTimed S) (fuel : ℕ) (B : Behaves S T fuel) (W : WritesNames S) (config : MainConfig)
      (path profile source result : Text) (s : S.State)
      → ((full : Text)
          → Names S path s full
          → read_main_config S J full new_problem_store s ≡ (ok config, s))
      → IsUsable S T fuel config
      → 5 ≤ length (c_str source)
      → Guarded
          (Delivers fuel config source result)
          (main S J fuel (path ∷ profile ∷ source ∷ result ∷ []) s)
  unfolding main
  main-Delivers T fuel B W config path profile source result s readable usable long =
      Guarded-bind (get_full_path_name-IsFullPath S W path s) λ full s₁ h.
        Guarded-bind (get_full_path_name-IsFullPath S W profile s₁) λ directory s₂ h'.
          Guarded-bind
            (check-IsUsable S T fuel B W J full directory (c_str source) config s₂ s
              (rw (h'.1, h.1) (readable full h.0)) usable long)
            λ v s₃ hv. Guarded-value _ (gives (delivers directory v s₃ hv))
