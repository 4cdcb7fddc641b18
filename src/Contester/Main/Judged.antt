-- ===== src/Contester/Main/Judged.antt =====
-- The contester and checker_rc together, from the start of the contester on.
use checker_olimp.Base.{ℕ, ◌+◌, ◌*◌, ◌≤◌, ◌<◌, ◌≡◌, Any, true, refl, some, length, arith}
use checker_olimp.Text.{Text, lit, c_str}
use checker_olimp.System.{System, Shell}
use checker_olimp.Words.{word}
use checker_olimp.Json.{Json}
use checker_olimp.Json.Document.{ReadsBack, Represents}
use checker_olimp.Executor.Clock.{IsTimed, InRange, enough}
use checker_olimp.Config.File.{config_doc}
use checker_olimp.Paths.Progress.{WritesNames}
use checker_olimp.Judge.Progress.{Behaves}
use checker_olimp.Contester.Database.{MySql}
use checker_olimp.Contester.Solution.{Solution, Settings}
use checker_olimp.Contester.Solution.Reading.{config_file}
use checker_olimp.Contester.Checker.Verdict.{Launches, IsJudged, judged}
use checker_olimp.Contester.Queue.{waits, waiting_count}
use checker_olimp.Contester.Queue.Turn.{AllSettled, AllNext-AllSettled}
use checker_olimp.Contester.Tables.{TableView, AllHeld}
use checker_olimp.Contester.Main.{loop, main}
use checker_olimp.Contester.Main.Verdict.{checker_of}
use checker_olimp.Contester.Main.Finish.{GivesResults, result_of}
use checker_olimp.Contester.Main.Drain.{loop_lem}
use checker_olimp.Contester.Main.Reading.{SettingsFile, settings_doc, config_of}
use checker_olimp.Contester.Main.Since.{Since, start, view_since}
use checker_olimp.Contester.Main.Start.{greeted, Accepts, main_lem}

module _ (S : System) (H : Shell S.State) (D : MySql S.State) (J : Json) (rounds : ℕ)
    (T : IsTimed S) (B : Behaves S T rounds) (settings : Settings) where
  -- The checker can be run on the solution: it is launched with its files, its configuration is
  -- read back, and its limits fit 32 bits, the clock and the rounds.
  pub record IsRunnable (x : Solution) : Type 0 where
    pub launches : Launches S H J rounds settings (checker_of settings x)
    pub read_back : ReadsBack J (config_doc (config_file settings x))
    pub short : x.pt.time_limit < word
    pub small : x.pt.memory_limit < word
    pub fits : InRange S T x.pt.time_limit
    pub in_rounds : enough S T x.pt.time_limit ≤ rounds
    pub long : 5 ≤ length (c_str (checker_of settings x).src)

  -- It can be run on every solution that waits.
  abbrev pub AllRunnable : TableView S H D → Type 0
  AllRunnable V =
      (x : Solution) (s : S.State)
      → V.IsUp s
      → Any (λ y. y ≡ x) (V.view s)
      → waits x ≡ true
      → IsRunnable x

  -- The result is what is read once the command was run in a state that the contester's calls lead to
  -- from where it began, in which the tables hold the solution and it waits; and it is the print of a verdict of the solution, or
  -- the run of checker_rc from that state is ended by an assertion.
  abbrev pub Judged : TableView S H D → S.State → Solution → Text → Type 0
  Judged V began x result =
      (s : S.State) × Since S H D began s
      × V.IsUp s
      × Any (λ y. y ≡ x) (V.view s)
      × (waits x ≡ true)
      × (result ≡ result_of S H J settings x s)
      × IsJudged S J rounds settings (checker_of settings x) s (record x { result = result })

  pub AllRunnable-Judged :
      WritesNames S
      → (V : TableView S H D) → AllRunnable V
      → (began : S.State)
      → GivesResults S H D J settings (view_since S H D began V) (Judged V began)
  AllRunnable-Judged W V runnable began x s (up, since) there open_row =
      let r = runnable x s up there open_row in
      (
        s,
        since,
        up,
        there,
        open_row,
        refl,
        judged S H D J rounds settings (checker_of settings x) r.launches T B r.read_back r.short
            r.small r.fits r.in_rounds r.long W s,
      )

module _ (S : System) (H : Shell S.State) (D : MySql S.State) (J : Json) (V : TableView S H D) where
  -- The work is done after enough turns, with results of any kind that the runs give.
  pub main-settled :
      AllHeld D V.IsUp V.view
      → (content : Text) (c : SettingsFile) (s s₁ : S.State)
      → let settings = (config_of c).settings in
        S.read_file (lit "contester.cfg") (greeted S H D J s) ≡ some content
        → Represents J (J.parse (c_str content)) (settings_doc c)
        → Accepts S H D J s s₁
        → V.IsUp s₁
        → (R : Solution → Text → Type 0) → GivesResults S H D J settings V R
        → (n : ℕ) → waiting_count (V.view s₁) ≤ 10 * n
        → (s' : S.State) × ((fuel : ℕ)
            → main S H D J (n + fuel) s ≡ loop S H D J fuel (config_of c) s')
          × AllSettled R (V.view s₁) (V.view s')
  main-settled held content c s s₁ e r accepted up R good n many =
      let config = config_of c in
      let (s', on, over) = loop_lem S H D J V held config R good n s₁ up in
      let left = over.1 in
      (
        s',
        λ fuel. rw (main_lem S H D J s content c s₁ (n + fuel) e r accepted) (on fuel),
        AllNext-AllSettled R (V.view s₁) (V.view s') over.2 (omega (arith, left, many)),
      )

module _ (S : System) (H : Shell S.State) (D : MySql S.State) (J : Json) (rounds : ℕ)
    (T : IsTimed S) (B : Behaves S T rounds) (W : WritesNames S) (V : TableView S H D) where
  -- The whole: `main` of the contester comes, after n turns, where at most ten solutions for each
  -- turn wait at the start, to a state from which it goes on as its loop does, and in which every
  -- row is settled: one that waited is finished, with a result and the status of a checked one, and
  -- every other is as it was. The result is what is read from the result file after checker_rc was
  -- run on the solution, in a state that the contester's calls lead to from the start of the loop
  -- (Since) and in which the solution waits; and it is the print of a verdict of the solution's
  -- task and language, or that run of checker_rc was ended by an assertion. Conditions:
  -- GetFullPathName writes a name to its buffer for every path, none being too long for it
  -- (WritesNames); the settings can be read and stand for their document; the server accepts the
  -- connection; the statements change the tables as SQL says and nothing else changes them
  -- (TableView), and the tables hold all that belongs to a solution (AllHeld); checker_rc can be
  -- run on each solution that waits (AllRunnable); and the system is as in IsTimed and Behaves.
  pub main-AllSettled :
      AllHeld D V.IsUp V.view
      → (content : Text) (c : SettingsFile) (s s₁ : S.State)
      → let settings = (config_of c).settings in
        S.read_file (lit "contester.cfg") (greeted S H D J s) ≡ some content
        → Represents J (J.parse (c_str content)) (settings_doc c)
        → Accepts S H D J s s₁
        → V.IsUp s₁
        → AllRunnable S H D J rounds T B settings V
        → (n : ℕ) → waiting_count (V.view s₁) ≤ 10 * n
        → (s' : S.State) × ((fuel : ℕ)
            → main S H D J (n + fuel) s ≡ loop S H D J fuel (config_of c) s')
          × AllSettled (Judged S H D J rounds T B settings V s₁) (V.view s₁) (V.view s')
  main-AllSettled held content c s s₁ e r accepted up runnable n many =
      let settings = (config_of c).settings in
      main-settled S H D J (view_since S H D s₁ V) (λ t x up' there. held t x up'.0 there) content c
        s s₁ e r accepted (up, start) (Judged S H D J rounds T B settings V s₁)
        (AllRunnable-Judged S H D J rounds T B settings W V runnable s₁) n many
