-- ===== src/Judge/Complete.antt =====
-- `check`, where nothing is missing that it asserts.
use checker_olimp.Base.{
  ℕ, ◌≤◌, ◌≡◌, ◌≢◌, inl, inr, refl, true, none, List, [], ◌∷◌, ◌++◌, length, All, Bool-cases,
  Option-cases, arith, length-append,
}
use checker_olimp.Base.Int.{ℤ}
use checker_olimp.Text.{Text, lit}
use checker_olimp.Text.Find.{text_eq_refl}
use checker_olimp.Effect.{ok, resume}
use checker_olimp.Effect.Laws.{
  Post, Returns, returns, Returns-bind, Returns-ok, Returns-Post, Returns-value,
}
use checker_olimp.System.{System}
use checker_olimp.Json.{Json}
use checker_olimp.Assert.{assert_true}
use checker_olimp.Paths.{restore_path}
use checker_olimp.Paths.Laws.{SplitsAs}
use checker_olimp.Paths.Complete.{
  HasFullName, IsThere, IsFileOf, get_full_path_name-HasFullName, is_file_exist-IsThere,
  get_directory_and_file-HasFullName,
}
use checker_olimp.Executor.{RequestType, Request, correct, tle, mle, Executor, set_config}
use checker_olimp.Executor.Clock.{IsTimed, InRange, enough}
use checker_olimp.Tool
use checker_olimp.Tool.{executor_cpp, command_line, run_tool}
use checker_olimp.Builder.Complete.{IsBuildable, build_from_source-Returns}
use checker_olimp.Config.{TestPath, MainConfig, new_problem_store, read_main_config}
use checker_olimp.Config.Safety.{AnyValue}
use checker_olimp.TestReader.{TestElement}
use checker_olimp.TestReader.Complete.{read-IsThere}
use checker_olimp.Judge.Progress.{Behaves, IsUsable, tool_runs, run-Returns}
use checker_olimp.Judge.Testlib.{IsAnswer, answers_match-IsAnswer}
use checker_olimp.Judge.Report.{IsVerdict, judge-IsVerdict}
use checker_olimp.Judge.{
  matcher_cpp, is_tool_code, take_report, answers_match, report_of, run_tests, judge, check,
}

-- The external checker of the directory.
abbrev pub checker_program : Text → Text
checker_program directory = directory ++ (92 ∷ lit "check.exe")

module _ (S : System) (fuel : ℕ) (profile output source : Text) where
  -- A test that can be judged: its input and its answers are there, the input and the first answer
  -- stand in one directory, and the external checker of that directory ends, where it ends, with one
  -- of its codes, 0 to 4, and leaves its report.
  pub record IsJudgeable (t : TestPath) : Type 0 where
    pub directory : Text
    pub answer : Text
    pub more : List Text
    pub quest_full : Text
    pub answer_full : Text
    pub report_full : Text
    pub testlib_full : Text
    pub listed : t.answer_path_list ≡ answer ∷ more
    pub input_there : IsThere S t.quest_file
    pub answers_there : All (IsThere S) t.answer_path_list
    pub quest_file : IsFileOf S directory t.quest_file quest_full
    pub answer_file : IsFileOf S directory answer answer_full
    pub report_named : HasFullName S (restore_path profile output) report_full
    pub testlib_named :
        HasFullName S (restore_path profile (source ++ lit "testlib_checker.report")) testlib_full
    pub checker_named : HasFullName S (checker_program directory) (checker_program directory)
    pub reports :
        (s : S.State)
        → Post
            (λ code s'. (is_tool_code code ≡ true) × (S.read_file testlib_full s' ≢ none))
            (run_tool S fuel
              (command_line
                (directory, lit "check.exe")
                (quest_full ∷ report_full ∷ answer_full ∷ testlib_full ∷ []))
              s)

module _ (S : System) (T : IsTimed S) (fuel : ℕ) (B : Behaves S T fuel) where
  -- The tool is started by its full path.
  tool-Returns :
      {P : ℤ → S.State → Type 0} (directory : Text) (argv : List Text) (s : S.State)
      → directory ≢ []
      → HasFullName S (checker_program directory) (checker_program directory)
      → ((s₁ : S.State)
          → Post P (run_tool S fuel (command_line (directory, lit "check.exe") argv) s₁))
      → Returns P (Tool.execute S fuel (checker_program directory) argv s)
  unfolding Tool.execute
  tool-Returns directory argv s filled named reports =
      let split : SplitsAs (checker_program directory) directory (lit "check.exe") = record {
        parts = refl;
        plain = ground arith;
        has_directory = filled;
        has_name = λ e. cc;
      } in
      Returns-ok _
        (assert_true S _ executor_cpp 262 s
          (ground (arith, length-append directory (92 ∷ lit "check.exe"))))
        (Returns-ok _ (get_directory_and_file-HasFullName S _ _ directory _ s named split)
          (Returns-Post (tool_runs S T fuel B _ s) (reports s)))

  take_report-Returns :
      (path : Text) (s : S.State)
      → S.read_file path s ≢ none
      → Returns AnyValue (take_report S path s)
  unfolding take_report resume
  take_report-Returns path s h = elim (Option-cases (S.read_file path s)) [
    | inl missing ↦ absurd (h missing)
    | inr (content, found) ↦ rw found (returns tt)
  ]

  module _ (profile output source : Text) where
    answers_match-Returns :
        (t : TestPath) (s : S.State) (j : IsJudgeable S fuel profile output source t)
        → Returns AnyValue (
            answers_match S fuel t.quest_file j.answer
              (restore_path profile output)
              (restore_path profile (source ++ lit "testlib_checker.report"))
              s)
    unfolding answers_match
    answers_match-Returns t s j =
        let q = j.quest_file in
        let a = j.answer_file in
        Returns-ok _ (get_full_path_name-HasFullName S _ _ s q.named) (
          Returns-ok _ (get_full_path_name-HasFullName S _ _ s a.named) (
            Returns-ok _ (get_full_path_name-HasFullName S _ _ s j.report_named) (
              Returns-ok _ (get_full_path_name-HasFullName S _ _ s j.testlib_named) (
                Returns-ok _ (is_file_exist-IsThere S _ s q.there) (
                  Returns-ok _ (assert_true S true matcher_cpp 67 s refl) (
                    Returns-ok _ (is_file_exist-IsThere S _ s a.there) (
                      Returns-ok _ (assert_true S true matcher_cpp 68 s refl) (
                        Returns-ok _
                          (get_directory_and_file-HasFullName S _ _ _ _ s q.absolute q.split)
                          (Returns-ok _
                            (get_directory_and_file-HasFullName S _ _ _ _ s a.absolute a.split)
                            (Returns-ok _
                              (assert_true S _ matcher_cpp 74 s (text_eq_refl j.directory))
                              (Returns-bind
                                (tool-Returns j.directory _ s q.split.has_directory j.checker_named
                                  j.reports)
                                λ code s₁ h. rw h.0 (take_report-Returns _ s₁ h.1))))))))))))

    -- On a test that can be judged, the external checker's `answers_match` does return, with an
    -- answer as IsAnswer says: that of a run of `check.exe` in the directory of the input and the
    -- answer. Conditions: the input and the answers are there, the input and the first answer are
    -- files of one directory, the full names can be had, and the external checker ends, where it
    -- ends, with one of its codes and leaves its report (IsJudgeable); and the system is as in
    -- IsTimed and Behaves.
    pub answers_match-IsJudgeable :
        (t : TestPath) (s : S.State) (j : IsJudgeable S fuel profile output source t)
        → Returns
            (IsAnswer S fuel t.quest_file j.answer
              (restore_path profile output)
              (restore_path profile (source ++ lit "testlib_checker.report"))
              s)
            (answers_match S fuel t.quest_file j.answer
              (restore_path profile output)
              (restore_path profile (source ++ lit "testlib_checker.report"))
              s)
    answers_match-IsJudgeable t s j =
        Returns-Post (answers_match-Returns t s j) (answers_match-IsAnswer S fuel _ _ _ _ s)

    report_of-Returns :
        (t : TestPath) (v : RequestType) (request : Request) (s : S.State)
        → IsJudgeable S fuel profile output source t
        → Returns AnyValue (report_of S fuel profile output source t v request s)
    unfolding report_of
    report_of-Returns t correct request s j =
        rw j.listed
          (Returns-value _ (Returns-bind (answers_match-Returns t s j) λ matched s₂ _. returns tt))
    report_of-Returns t tle request s j = returns tt
    report_of-Returns t mle request s j = returns tt
    report_of-Returns t _ request s j = returns tt

    run_tests-Returns :
        (ts : List TestPath) (test : TestElement) (e : Executor S) (s : S.State)
        → All (IsJudgeable S fuel profile output source) ts
        → InRange S T e.time_limit
        → enough S T e.time_limit ≤ fuel
        → Returns AnyValue (run_tests S fuel profile output source ts test e s)
    unfolding run_tests
    run_tests-Returns [] test e s h fits f = returns tt
    run_tests-Returns (t ∷ ts) test e s h fits f =
        let j = h.0 in
        Returns-bind (read-IsThere S _ _ test s j.input_there j.answers_there) λ test' s₁ _.
          Returns-bind (run-Returns S T fuel B test'.quest e s₁ fits f) λ e' s₂ k.
            Returns-bind (report_of-Returns t _ e'.request_report s₂ j) λ r s₃ _.
              Returns-bind
                (run_tests-Returns ts test' e' s₃ h.1 (rw k.same_time fits) (rw k.same_time f))
                λ rs s₄ _. returns tt

  -- Nothing is missing for the configuration: it can be built, and each of its tests can be judged.
  pub record IsComplete (profile source : Text) (config : MainConfig) : Type 0 where
    pub usable : IsUsable S T fuel config
    pub long : 5 ≤ length source
    pub buildable :
        IsBuildable S profile source config.compiler_name config.compiler_command_template
    pub judgeable :
        All
          (IsJudgeable S fuel profile config.problem.output_file_name source)
          config.problem.test_path_list

  judge-Returns :
      (profile source : Text) (config : MainConfig) (s : S.State)
      → IsComplete profile source config
      → Returns AnyValue (judge S fuel profile source config s)
  unfolding judge set_config
  judge-Returns profile source config s c =
      Returns-bind
        (build_from_source-Returns S fuel B.compilers_end profile source [] c.long _ _ s
          c.buildable)
        λ built s₁ _. elim (Bool-cases built.0) [
          | inr failed ↦ rw failed (returns tt)
          | inl ready ↦ rw ready (
              Returns-bind
                (run_tests-Returns profile _ source _ _ _ s₁ c.judgeable c.usable.in_range
                  c.usable.rounds)
                λ rs s₂ _. returns tt)
        ]

  -- A configuration that is read and complete gets a verdict.
  pub check-Returns :
      (J : Json) (path profile source : Text) (config : MainConfig) (s s₁ : S.State)
      → read_main_config S J path new_problem_store s ≡ (ok config, s₁)
      → IsComplete profile source config
      → Returns
          (λ v _. IsVerdict S fuel profile source config v)
          (check S J fuel path profile source s)
  unfolding check
  check-Returns J path profile source config s s₁ e complete = Returns-ok _ e (
      Returns-Post (judge-Returns profile source config s₁ complete)
        (judge-IsVerdict S fuel profile source config s₁))
