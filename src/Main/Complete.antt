-- ===== src/Main/Complete.antt =====
-- The whole program, where nothing is missing that it asserts.
use checker_olimp.Base.{ℕ, ◌≡◌, [], ◌∷◌}
use checker_olimp.Text.{Text, c_str}
use checker_olimp.Effect.{ok}
use checker_olimp.Effect.Laws.{Returns, returns, Returns-bind, Returns-ok, Returns-value}
use checker_olimp.System.{System}
use checker_olimp.Json.{Json}
use checker_olimp.Executor.Clock.{IsTimed}
use checker_olimp.Paths.Laws.{Names, named_lem}
use checker_olimp.Config.{MainConfig, new_problem_store, read_main_config}
use checker_olimp.Judge.Progress.{Behaves}
use checker_olimp.Judge.Complete.{IsComplete, check-Returns}
use checker_olimp.Main.{main}
use checker_olimp.Main.Progress.{Delivers, delivers}

module _ (S : System) (J : Json) where
  -- `main` of checker_rc with four arguments returns, where nothing is missing that it asserts: its
  -- status is 0, and the last thing done is to put a verdict of the configuration to the result
  -- file, as `serizlize` prints it and a newline. Conditions: the first two arguments have full
  -- names, and the configuration can be read; the system is as in IsTimed and Behaves; and the
  -- configuration is complete (IsComplete): the time limit fits the clock and the rounds, the
  -- source's name has five bytes or more, the compiler is known and its template has its marks, a
  -- compiler of Pascal prints something, and in every state of the system the files of the tests
  -- can be read, the input and the first answer in one directory, whose checker ends, where it
  -- ends, with a code from 0 to 4 and leaves its report.
  pub main-Returns :
      (T : IsTimed S) (fuel : ℕ) (B : Behaves S T fuel) (config : MainConfig)
      (path profile source result full directory : Text) (s : S.State)
      → Names S path s full
      → Names S profile s directory
      → read_main_config S J full new_problem_store s ≡ (ok config, s)
      → IsComplete S T fuel B directory (c_str source) config
      → Returns
          (Delivers S J fuel config source result)
          (main S J fuel (path ∷ profile ∷ source ∷ result ∷ []) s)
  unfolding main
  main-Returns T fuel B config path profile source result full directory s named located readable
        complete =
      Returns-ok _ (named_lem S path s full named) (
        Returns-ok _ (named_lem S profile s directory located) (
          Returns-bind (check-Returns S T fuel B J _ _ (c_str source) config s s readable complete)
            λ v s₁ h. Returns-value _ (returns (delivers _ v s₁ h))))
