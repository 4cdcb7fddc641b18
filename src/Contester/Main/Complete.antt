-- ===== src/Contester/Main/Complete.antt =====
-- The contester and checker_rc together, where nothing is missing that checker_rc asserts.
use checker_olimp.Base.{ℕ, ◌+◌, ◌*◌, ◌≤◌, ◌≡◌, Any, true, some}
use checker_olimp.Text.{Text, lit, c_str}
use checker_olimp.System.{System, Shell}
use checker_olimp.Json.{Json}
use checker_olimp.Json.Document.{Represents}
use checker_olimp.Executor.Clock.{IsTimed}
use checker_olimp.Judge.Progress.{Behaves}
use checker_olimp.Contester.Database.{MySql}
use checker_olimp.Contester.Solution.{Solution, Settings}
use checker_olimp.Contester.Checker.Verdict.{HasVerdict}
use checker_olimp.Contester.Checker.Complete.{IsFurnished, verdict_left}
use checker_olimp.Contester.Queue.{waits, waiting_count}
use checker_olimp.Contester.Queue.Turn.{AllSettled}
use checker_olimp.Contester.Tables.{TableView, AllHeld}
use checker_olimp.Contester.Main.{loop, main}
use checker_olimp.Contester.Main.Verdict.{checker_of}
use checker_olimp.Contester.Main.Finish.{GivesResults}
use checker_olimp.Contester.Main.Reading.{SettingsFile, settings_doc, config_of}
use checker_olimp.Contester.Main.Start.{greeted, Accepts}
use checker_olimp.Contester.Main.Judged.{AllRunnable, main-settled}

module _ (S : System) (H : Shell S.State) (D : MySql S.State) (J : Json) (rounds : ℕ)
    (T : IsTimed S) (B : Behaves S T rounds) where
  -- The result is the print of a verdict of the solution.
  abbrev pub Verdicts : Settings → Solution → Text → Type 0
  Verdicts settings x result =
      HasVerdict S J rounds settings (checker_of settings x) (record x { result = result })

  -- Nothing is missing for any solution that waits.
  abbrev pub AllFurnished : Settings → TableView S H D → Type 0
  AllFurnished settings V =
      (x : Solution) (s : S.State)
      → V.IsUp s
      → Any (λ y. y ≡ x) (V.view s)
      → waits x ≡ true
      → IsFurnished S T rounds B settings (checker_of settings x)

  gives-Verdicts :
      (settings : Settings) (V : TableView S H D)
      → AllRunnable S H D J rounds T B settings V
      → AllFurnished settings V
      → GivesResults S H D J settings V (Verdicts settings)
  gives-Verdicts settings V runnable furnished x s up there open_row =
      let r = runnable x s up there open_row in
      verdict_left S H D J rounds settings (checker_of settings x) r.launches T B r.read_back
        r.short r.small r.fits r.in_rounds (furnished x s up there open_row) s

  -- The whole, where nothing is missing: `main` of the contester comes, after n turns, where at
  -- most ten solutions for each turn wait at the start, to a state from which it goes on as its
  -- loop does, and in which every row is settled: one that waited is finished, with the status of a
  -- checked one and, as its result, the print of a verdict of its task and language, and every
  -- other is as it was. Conditions: the settings can be read and stand for their document; the
  -- server accepts the connection; the statements change the tables as SQL says and nothing else
  -- changes them (TableView), and the tables hold all that belongs to a solution (AllHeld); the
  -- system is as in IsTimed and Behaves; checker_rc can be run on each solution that waits
  -- (AllRunnable); and nothing is missing that it asserts (AllFurnished): paths have their full
  -- names, the compiler is known and its template has its marks, a compiler of Pascal prints
  -- something, and in every state of the system the files of the tests can be read, the input and
  -- the first answer in one directory, whose checker ends, where it ends, with a code from 0 to 4
  -- and leaves its report.
  pub main-AllVerdicts :
      (V : TableView S H D)
      → AllHeld D V.IsUp V.view
      → (content : Text) (c : SettingsFile) (s s₁ : S.State)
      → let settings = (config_of c).settings in
        S.read_file (lit "contester.cfg") (greeted S H D J s) ≡ some content
        → Represents J (J.parse (c_str content)) (settings_doc c)
        → Accepts S H D J s s₁
        → V.IsUp s₁
        → AllRunnable S H D J rounds T B settings V
        → AllFurnished settings V
        → (n : ℕ) → waiting_count (V.view s₁) ≤ 10 * n
        → (s' : S.State) × ((fuel : ℕ)
            → main S H D J (n + fuel) s ≡ loop S H D J fuel (config_of c) s')
          × AllSettled (Verdicts settings) (V.view s₁) (V.view s')
  main-AllVerdicts V held content c s s₁ e r accepted up runnable furnished n many =
      let settings = (config_of c).settings in
      main-settled S H D J V held content c s s₁ e r accepted up (Verdicts settings)
        (gives-Verdicts settings V runnable furnished) n many
