-- ===== src/Contester/Main/Sound.antt =====
-- The contester and checker_rc together, when some solutions cannot be run.
use checker_olimp.Base.{ℕ, ◌+◌, ◌≤◌, ◌≡◌, Bool, Any, true, false, some, arith}
use checker_olimp.Base.Int.{ℤ}
use checker_olimp.Text.{Text, lit, c_str}
use checker_olimp.System.{System, Shell}
use checker_olimp.Json.{Json}
use checker_olimp.Json.Document.{Represents}
use checker_olimp.Executor.Clock.{IsTimed}
use checker_olimp.Judge.Progress.{Behaves}
use checker_olimp.Contester.Database.{MySql}
use checker_olimp.Contester.Solution.{Solution, Settings}
use checker_olimp.Contester.Checker.Complete.{IsFurnished, verdict_left}
use checker_olimp.Contester.Queue.{key, waits}
use checker_olimp.Contester.Queue.Mixed.{
  sound_count, broken_count, AllSettledSound, AllNext-AllSettledSound,
}
use checker_olimp.Contester.Tables.{TableView}
use checker_olimp.Contester.Main.{Config, loop, main}
use checker_olimp.Contester.Main.Verdict.{checker_of}
use checker_olimp.Contester.Main.Reading.{SettingsFile, settings_doc, config_of}
use checker_olimp.Contester.Main.Start.{greeted, Accepts, main_lem}
use checker_olimp.Contester.Main.Judged.{IsRunnable}
use checker_olimp.Contester.Main.Complete.{Verdicts}
use checker_olimp.Contester.Main.Mixed.{SoundHeld, BrokenThrow, GivesSound, loop_lem}

module _ (S : System) (H : Shell S.State) (D : MySql S.State) (J : Json) (rounds : ℕ)
    (T : IsTimed S) (B : Behaves S T rounds) (V : TableView S H D) (broken : ℤ → Bool) where
  -- The checker can be run on each solution that waits and is not broken, and nothing is missing
  -- that it asserts.
  abbrev pub SoundRun : Settings → Type 0
  SoundRun settings =
      (x : Solution) (s : S.State)
      → V.IsUp s
      → Any (λ y. y ≡ x) (V.view s)
      → waits x ≡ true
      → broken (key x) ≡ false
      → IsRunnable S H D J rounds T B settings x
        × IsFurnished S T rounds B settings (checker_of settings x)

  gives-Verdicts :
      (config : Config)
      → SoundRun config.settings
      → GivesSound S H D J V config broken (Verdicts S H D J rounds T B config.settings)
  gives-Verdicts config run x s up there open_row good =
      let (r, f) = run x s up there open_row good in
      verdict_left S H D J rounds config.settings (checker_of config.settings x) r.launches T B
        r.read_back r.short r.small r.fits r.in_rounds f s

  -- Solutions that cannot be run do not keep the others from their verdicts while they are at most
  -- nine: `main` of the contester comes, after n turns, where at most n of the others wait at the
  -- start, to a state from which it goes on as its loop does, and in which every row is settled,
  -- with the print of a verdict of its task and language as its result if it waited, or is that of
  -- a broken solution and as it was. Conditions: the settings can be read and stand for their
  -- document; the server accepts the connection; the statements change the tables as SQL says and
  -- nothing else changes them (TableView); the system is as in IsTimed and Behaves; at most nine
  -- broken solutions wait at the start, and an attempt on one throws and leaves the tables alone
  -- (BrokenThrow); the tables hold each solution that is not broken, with all that belongs to it
  -- (SoundHeld); and for each of these that waits, checker_rc can be run on it, and nothing is
  -- missing that it asserts (SoundRun).
  pub main-AllSettledSound :
      (content : Text) (c : SettingsFile) (s s₁ : S.State)
      → let config = config_of c in
        S.read_file (lit "contester.cfg") (greeted S H D J s) ≡ some content
        → Represents J (J.parse (c_str content)) (settings_doc c)
        → Accepts S H D J s s₁
        → V.IsUp s₁
        → SoundHeld S H D J V config broken
        → BrokenThrow S H D J V config broken
        → SoundRun config.settings
        → broken_count broken (V.view s₁) ≤ 9
        → (n : ℕ) → sound_count broken (V.view s₁) ≤ n
        → (s' : S.State) × ((fuel : ℕ) → main S H D J (n + fuel) s ≡ loop S H D J fuel config s')
          × AllSettledSound broken
              (Verdicts S H D J rounds T B config.settings)
              (V.view s₁)
              (V.view s')
  main-AllSettledSound content c s s₁ e r accepted up held throws run few n many =
      let config = config_of c in
      let R = Verdicts S H D J rounds T B config.settings in
      let (s', on, still_up, left, rows) =
        loop_lem S H D J V config broken R held throws (gives-Verdicts config run) n s₁ up few in
      (
        s',
        λ fuel. rw (main_lem S H D J s content c s₁ (n + fuel) e r accepted) (on fuel),
        AllNext-AllSettledSound broken R (V.view s₁) (V.view s') rows (omega (arith, left, many)),
      )
