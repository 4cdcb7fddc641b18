-- ===== src/Contester/Checker/Complete.antt =====
-- The two programs together, where nothing is missing that checker_rc asserts.
use checker_olimp.Base.{ℕ, ◌≤◌, ◌<◌, ◌∷◌, []}
use checker_olimp.Text.{Text, lit, c_str}
use checker_olimp.Effect.Laws.{Returns, Returns-result}
use checker_olimp.System.{System, Shell}
use checker_olimp.Words.{word}
use checker_olimp.Json.{Json}
use checker_olimp.Json.Document.{ReadsBack}
use checker_olimp.Executor.Clock.{IsTimed, InRange, enough}
use checker_olimp.Config.File.{config_doc}
use checker_olimp.Paths.Complete.{HasFullName}
use checker_olimp.Judge.Progress.{Behaves}
use checker_olimp.Judge.Complete.{IsComplete}
use checker_olimp.Main.{main}
use checker_olimp.Main.Progress.{Delivers}
use checker_olimp.Main.Complete.{main-Returns}
use checker_olimp.Contester.Database.{MySql}
use checker_olimp.Contester.Solution.{Settings}
use checker_olimp.Contester.Solution.Reading.{config_file}
use checker_olimp.Contester.Checker.{Checker, command, content_or_empty}
use checker_olimp.Contester.Checker.Verdict.{
  Launches, HasVerdict, judged_config, prepared, readable, delivered-HasVerdict,
}

-- The files and directories of a solution can be named, and nothing is missing that its check
-- asserts.
pub record IsFurnished (S : System) (T : IsTimed S) (fuel : ℕ) (B : Behaves S T fuel)
    (settings : Settings) (ch : Checker) : Type 0 where
  pub directory : Text
  pub located : HasFullName S (lit ".") directory
  pub config_full : Text
  pub config_named : HasFullName S ch.cfg config_full
  pub complete : IsComplete S T fuel B directory (c_str ch.src) (judged_config settings ch)

module _ (S : System) (H : Shell S.State) (D : MySql S.State) (J : Json) (fuel : ℕ)
    (settings : Settings) (ch : Checker) (L : Launches S H J fuel settings ch) (T : IsTimed S)
    (B : Behaves S T fuel) (read_back : ReadsBack J (config_doc (config_file settings ch.sol)))
    (short : ch.sol.pt.time_limit < word) (small : ch.sol.pt.memory_limit < word)
    (fits : InRange S T ch.sol.pt.time_limit) (rounds : enough S T ch.sol.pt.time_limit ≤ fuel)
    (F : IsFurnished S T fuel B settings ch) where
  runs :
      (s : S.State)
      → let start = prepared S J fuel settings ch s in
        Returns
          (Delivers S J fuel (judged_config settings ch) ch.src ch.res)
          (main S J fuel (ch.cfg ∷ lit "." ∷ ch.src ∷ ch.res ∷ []) start)
  runs s =
      let start = prepared S J fuel settings ch s in
      main-Returns S J T fuel B (judged_config settings ch) ch.cfg (lit ".") ch.src ch.res _ _ start
        (F.config_named start) (F.located start)
        (readable S H D J fuel settings ch L T B read_back short small fits rounds F.complete.long s
          _ (F.config_named start))
        F.complete

  -- The content of the result file once the two other files are removed.
  pub verdict_left :
      (s : S.State)
      → let after = S.remove_file (c_str ch.cfg) (
          S.remove_file
            (c_str ch.src)
            (H.run_command (c_str (command settings ch)) (prepared S J fuel settings ch s))) in
        HasVerdict S J fuel settings ch
          (record (ch.sol) { result = content_or_empty (S.read_file ch.res after) })
  verdict_left s =
      let (code, s₁, ended, d) = Returns-result (runs s) in
      delivered-HasVerdict S H D J fuel settings ch L s code s₁ ended d
