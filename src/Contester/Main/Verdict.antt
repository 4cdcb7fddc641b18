-- ===== src/Contester/Main/Verdict.antt =====
-- From a row of the solutions to its result: what one turn does for a solution that the tables hold.
use checker_olimp.Base.{ℕ, ◌≤◌, ◌<◌, ◌≡◌, length, true}
use checker_olimp.Text.{Text, lit, c_str}
use checker_olimp.Effect.{Outcome, Action, pure, resume, handle}
use checker_olimp.Effect.Laws.{Returns, returns}
use checker_olimp.System.{System, Shell}
use checker_olimp.Words.{word}
use checker_olimp.Json.{Json}
use checker_olimp.Json.Document.{ReadsBack}
use checker_olimp.Executor.Clock.{IsTimed, InRange, enough}
use checker_olimp.Config.File.{config_doc}
use checker_olimp.Paths.Progress.{WritesNames}
use checker_olimp.Judge.Progress.{Behaves}
use checker_olimp.Contester.Database.{MySql}
use checker_olimp.Contester.Solution.{Solution, Settings}
use checker_olimp.Contester.Solution.Reading.{config_file}
use checker_olimp.Contester.Solution.Stored.{HoldsSolution, new_solution-HoldsSolution}
use checker_olimp.Contester.Checker.{Checker, new_checker}
use checker_olimp.Contester.Checker.Laws.{IsSaved}
use checker_olimp.Contester.Checker.Verdict.{Launches, IsJudged, run-IsJudged}
use checker_olimp.Contester.Main.{check_solution}

-- The object that the loop makes of a solution.
abbrev pub checker_of : Settings → Solution → Checker
checker_of settings x =
    new_checker settings x (lit "solution") (lit "solution.json") (lit "result.json")

-- An action that returns is not handled.
pub handle-Returns :
    {W A : Type 0} {P : A → W → Type 0} {r : Outcome A × W} (k : Text → Action W (Unit {0}))
    → Returns P r
    → Returns (λ _ w. (a : A) × P a w) (handle k (resume (λ a. pure tt) r))
unfolding handle resume
handle-Returns k (returns h) = returns (_, h)

module _ (S : System) (H : Shell S.State) (D : MySql S.State) (J : Json) (fuel : ℕ)
    (settings : Settings) (T : IsTimed S) (B : Behaves S T fuel) (W : WritesNames S) where
  -- The body of the contester's inner loop, for a solution that the tables hold with its task,
  -- language and tests, returns; the row of the solution is then updated, as the last thing done,
  -- with the content of the result file, which is the print of a verdict of the solution's task and
  -- language, or else that run of checker_rc was ended by an assertion. Conditions: GetFullPathName
  -- writes a name to its buffer for every path, none being too long for it (WritesNames); the
  -- command runs checker_rc with its four arguments, and files are read as they were written
  -- (Launches); what is written as JSON is read back; the limits have 32 bits, and the time limit
  -- with a margin fits the clock and the rounds; the system is as in Behaves; the name of the
  -- source has five bytes or more; and the database takes every statement.
  pub check_solution-IsJudged :
      (x : Solution) (s : S.State)
      → let ch = checker_of settings x in
        HoldsSolution D s x
        → Launches S H J fuel settings ch
        → ReadsBack J (config_doc (config_file settings x))
        → x.pt.time_limit < word
        → x.pt.memory_limit < word
        → InRange S T x.pt.time_limit
        → enough S T x.pt.time_limit ≤ fuel
        → 5 ≤ length (c_str ch.src)
        → ((sql : Text) (s₁ : S.State) → (D.query sql s₁).0 ≡ true)
        → Returns
            (λ _ s'.
              (sol : Solution) × (IsSaved S D ch sol s' × IsJudged S J fuel settings ch s sol))
            (check_solution S H D J settings x.id s)
  unfolding check_solution resume
  check_solution-IsJudged x s held L read_back short small fits rounds long accepts =
      rw (new_solution-HoldsSolution D s x held) (
        handle-Returns _ (
          run-IsJudged S H D J fuel settings (checker_of settings x) L T B read_back short small
            fits rounds long W s accepts))
