-- ===== src/Judge/Progress.antt =====
-- `check` comes to an end: it gives a verdict, or ends the process by an assertion.
use checker_olimp.Base.{
  ℕ, ◌≤◌, ◌≡◌, ◌≢◌, inl, inr, refl, true, false, Option, none, some, List, [], ◌∷◌, length, All,
  Bool-cases, Option-cases,
}
use checker_olimp.Text.{Text, c_str}
use checker_olimp.Effect.{ok, resume}
use checker_olimp.Effect.Laws.{
  Guarded, gives, exits, Guarded-bind, Guarded-value, Guarded-Post, Guarded-equation,
  Returns-Guarded, Returns, Returns-Post,
}
use checker_olimp.System.{System}
use checker_olimp.Json.{Json, IsChecked}
use checker_olimp.Assert.{assert_false}
use checker_olimp.Paths.Progress.{
  WritesNames, get_full_path_name-Guarded, get_directory_and_file-Guarded, is_file_exist-Guarded,
}
use checker_olimp.Executor.{RequestType, Request, correct, tle, mle, Executor, execute, set_config}
use checker_olimp.Executor.Clock.{IsTimed, Answers, InRange, enough}
use checker_olimp.Executor.Keeps.{Keeps, execute-Keeps}
use checker_olimp.Executor.Termination.{execute-Returns}
use checker_olimp.Tool
use checker_olimp.Tool.Laws.{Code}
use checker_olimp.Tool.{run_tool, tool_limit, executor_cpp}
use checker_olimp.Tool.Termination.{run_tool-Returns}
use checker_olimp.Builder.Progress.{Ends, build_from_source-Guarded}
use checker_olimp.Config.{TestPath, MainConfig, new_problem_store, read_main_config}
use checker_olimp.Config.Safety.{AnyValue, assert-Guarded, value_of-Guarded}
use checker_olimp.Config.Guards.{ObjectTests, read_main_config-Guarded}
use checker_olimp.TestReader.{TestElement}
use checker_olimp.TestReader.Progress.{read-Guarded}
use checker_olimp.Judge.Report.{IsVerdict, judge-IsVerdict, check-IsVerdict}
use checker_olimp.Judge.{
  matcher_cpp, is_tool_code, take_report, answers_match, report_of, run_tests, judge, check,
}

-- What is asked of the system: a process that was created answers, and the handle of one that was not
-- never does; every compiler comes to its end; and there are rounds enough for a tool.
pub record Behaves (S : System) (T : IsTimed S) (fuel : ℕ) : Type 0 where
  pub answers :
      (application command directory : Option Text) (s : S.State)
      → let created = S.create_process application command directory s in
        created.0 ≡ true → Answers S created.1
  pub silent :
      (application command directory : Option Text) (s s' : S.State)
      → let created = S.create_process application command directory s in
        created.0 ≡ false → (S.exit_code_process created.1 s').0 ≡ none
  pub active : S.still_active ≢ 0
  pub compilers_end : Ends S fuel
  pub tools_in_range : InRange S T tool_limit
  pub tool_rounds : enough S T tool_limit ≤ fuel

-- A test has an answer to look at.
abbrev pub HasAnswer : TestPath → Type 0
HasAnswer t = t.answer_path_list ≢ []

-- A configuration that can be run: its time limit fits the clock and the rounds, and each test has
-- an answer.
pub record IsUsable (S : System) (T : IsTimed S) (fuel : ℕ) (config : MainConfig) : Type 0 where
  pub in_range : InRange S T config.problem.time_limit
  pub rounds : enough S T config.problem.time_limit ≤ fuel
  pub answered : All HasAnswer config.problem.test_path_list

first_answer :
    (paths : List Text)
    → paths ≢ []
    → (elim paths as (λ _. Option Text) [ [] ↦ none | path ∷ _ ↦ some path ]) ≢ none
first_answer [] h e = h refl
first_answer (path ∷ paths) h e = cc

module _ (S : System) (T : IsTimed S) (fuel : ℕ) (B : Behaves S T fuel) where
  -- A run of any tool returns.
  pub tool_runs : (command : Text) (s : S.State) → Returns Code (run_tool S fuel command s)
  tool_runs command s =
      run_tool-Returns S command fuel s T
        (record { answers = B.answers none _ none; silent = B.silent none _ none }) B.active
        B.tools_in_range B.tool_rounds

  pub run-Returns :
      (quest : Text) (e : Executor S) (s : S.State)
      → InRange S T e.time_limit
      → enough S T e.time_limit ≤ fuel
      → Returns (Keeps S e) (execute S fuel quest e s)
  run-Returns quest e s fits f =
      Returns-Post (execute-Returns S T fuel quest e s (λ s₁. B.answers _ none _ s₁) fits f)
        (execute-Keeps S e fuel quest s)

module _ (S : System) (T : IsTimed S) (fuel : ℕ) (B : Behaves S T fuel) (W : WritesNames S) where
  tool-Guarded :
      (program : Text) (argv : List Text) (s : S.State)
      → Guarded AnyValue (Tool.execute S fuel program argv s)
  unfolding Tool.execute
  tool-Guarded program argv s = Guarded-bind (assert-Guarded S _ executor_cpp 262 s) λ _ s₁ _.
      Guarded-bind (get_directory_and_file-Guarded S W program s₁)
        λ parts s₂ _. Returns-Guarded (tool_runs S T fuel B _ s₂) (λ _ _ _. tt)

  take_report-Guarded : (path : Text) (s : S.State) → Guarded AnyValue (take_report S path s)
  unfolding take_report resume
  take_report-Guarded path s = elim (Option-cases (S.read_file path s)) [
    | inl missing ↦ rw (missing, assert_false S false matcher_cpp 93 s refl) exits
    | inr (content, found) ↦ rw found (gives tt)
  ]

  answers_match-Guarded :
      (quest answer report testlib : Text) (s : S.State)
      → Guarded AnyValue (answers_match S fuel quest answer report testlib s)
  unfolding answers_match
  answers_match-Guarded quest answer report testlib s =
      Guarded-bind (get_full_path_name-Guarded S W _ s) λ q s₁ _.
        Guarded-bind (get_full_path_name-Guarded S W _ s₁) λ a s₂ _.
          Guarded-bind (get_full_path_name-Guarded S W _ s₂) λ r s₃ _.
            Guarded-bind (get_full_path_name-Guarded S W _ s₃) λ t s₄ _.
              Guarded-bind (is_file_exist-Guarded S q s₄) λ there s₅ _.
                Guarded-bind (assert-Guarded S there matcher_cpp 67 s₅) λ _ s₆ _.
                  Guarded-bind (is_file_exist-Guarded S a s₆) λ also s₇ _.
                    Guarded-bind (assert-Guarded S also matcher_cpp 68 s₇) λ _ s₈ _.
                      Guarded-bind (get_directory_and_file-Guarded S W q s₈) λ tests s₉ _.
                        Guarded-bind (get_directory_and_file-Guarded S W a s₉) λ temp s₁₀ _.
                          Guarded-bind (assert-Guarded S _ matcher_cpp 74 s₁₀) λ _ s₁₁ _.
                            Guarded-bind (tool-Guarded _ _ s₁₁) λ code s₁₂ _.
                              elim (Bool-cases (is_tool_code code)) [
                                | inl known ↦ rw known (take_report-Guarded t s₁₂)
                                | inr other ↦ rw other (
                                    Guarded-value _ (
                                      Guarded-bind (assert-Guarded S false matcher_cpp 85 _)
                                        λ _ s₁₃ _. gives tt))
                              ]

  module _ (profile output source : Text) where
    report_of-Guarded :
        (t : TestPath) (v : RequestType) (request : Request) (s : S.State)
        → HasAnswer t
        → Guarded AnyValue (report_of S fuel profile output source t v request s)
    unfolding report_of
    report_of-Guarded t correct request s h =
        Guarded-bind (value_of-Guarded S _ s (first_answer t.answer_path_list h))
          λ answer s₁ _. Guarded-bind (answers_match-Guarded _ _ _ _ s₁) λ matched s₂ _. gives tt
    report_of-Guarded t tle request s h = gives tt
    report_of-Guarded t mle request s h = gives tt
    report_of-Guarded t _ request s h = gives tt

    -- The executor keeps its limit from test to test.
    run_tests-Guarded :
        (ts : List TestPath) (test : TestElement) (e : Executor S) (s : S.State)
        → All HasAnswer ts
        → InRange S T e.time_limit
        → enough S T e.time_limit ≤ fuel
        → Guarded AnyValue (run_tests S fuel profile output source ts test e s)
    unfolding run_tests
    run_tests-Guarded [] test e s h fits f = gives tt
    run_tests-Guarded (t ∷ ts) test e s h fits f =
        Guarded-bind (read-Guarded S _ _ test s) λ test' s₁ _.
          Guarded-bind
            (Returns-Guarded (run-Returns S T fuel B test'.quest e s₁ fits f) (λ _ _ k. k))
            λ e' s₂ k. Guarded-bind (report_of-Guarded t _ e'.request_report s₂ h.0) λ r s₃ _.
              Guarded-bind
                (run_tests-Guarded ts test' e' s₃ h.1 (rw k.same_time fits) (rw k.same_time f))
                λ rs s₄ _. gives tt

  judge-Guarded :
      (profile source : Text) (config : MainConfig) (s : S.State)
      → 5 ≤ length source
      → IsUsable S T fuel config
      → Guarded AnyValue (judge S fuel profile source config s)
  unfolding judge set_config
  judge-Guarded profile source config s long usable =
      Guarded-bind (build_from_source-Guarded S fuel B.compilers_end profile source [] long _ _ s)
        λ built s₁ _. elim (Bool-cases built.0) [
          | inr failed ↦ rw failed (gives tt)
          | inl ready ↦ rw ready (
              Guarded-bind
                (run_tests-Guarded profile _ source _ _ _ s₁ usable.answered usable.in_range
                  usable.rounds)
                λ rs s₂ _. gives tt)
        ]

  -- A configuration that can be run is judged.
  pub check-IsUsable :
      (J : Json) (path profile source : Text) (config : MainConfig) (s s₁ : S.State)
      → read_main_config S J path new_problem_store s ≡ (ok config, s₁)
      → IsUsable S T fuel config
      → 5 ≤ length source
      → Guarded
          (λ v _. IsVerdict S fuel profile source config v)
          (check S J fuel path profile source s)
  unfolding check resume
  check-IsUsable J path profile source config s s₁ e usable long = rw e (
      Guarded-Post (judge-Guarded profile source config s₁ long usable)
        (judge-IsVerdict S fuel profile source config s₁))

  ends :
      (J : Json) (C : IsChecked J) (path profile source : Text) (s : S.State)
      → 5 ≤ length source
      → ((text : Text)
          → S.read_file path s ≡ some text
          → let document = J.parse (c_str text) in
            (J.is_object document ≡ true) × ObjectTests S J C document)
      → ((config : MainConfig) (s₁ : S.State)
          → read_main_config S J path new_problem_store s ≡ (ok config, s₁)
          → IsUsable S T fuel config)
      → Guarded AnyValue (check S J fuel path profile source s)
  unfolding check
  ends J C path profile source s long shaped usable =
      Guarded-equation (read_main_config-Guarded S J C path new_problem_store s shaped)
        λ config s₁ e. judge-Guarded profile source config s₁ long (usable config s₁ e)

  -- `check` comes to an end: it gives a verdict of the configuration that was read, as IsVerdict
  -- says, or ends the process by an assertion; it does nothing undefined, throws nothing, and stays
  -- within its rounds. Conditions: GetFullPathName writes a name to its buffer for every path, none
  -- being too long for it (WritesNames); the system is as in IsTimed and Behaves, so that processes
  -- answer and compilers come to their end; the source's name has five bytes or more; the
  -- configuration's document and its tests are objects (ObjectTests), on which rapidjson's readings
  -- succeed (IsChecked); and a configuration that is read has a time limit that fits the clock and
  -- the rounds, and an answer for each test (IsUsable).
  pub check-Guarded :
      (J : Json) (C : IsChecked J) (path profile source : Text) (s : S.State)
      → 5 ≤ length source
      → ((text : Text)
          → S.read_file path s ≡ some text
          → let document = J.parse (c_str text) in
            (J.is_object document ≡ true) × ObjectTests S J C document)
      → ((config : MainConfig) (s₁ : S.State)
          → read_main_config S J path new_problem_store s ≡ (ok config, s₁)
          → IsUsable S T fuel config)
      → Guarded
          (λ v _.
            (config : MainConfig) × (s₁ : S.State) × (read_main_config S J path new_problem_store s
              ≡ (ok config, s₁))
            × IsVerdict S fuel profile source config v)
          (check S J fuel path profile source s)
  check-Guarded J C path profile source s long shaped usable =
      Guarded-Post (ends J C path profile source s long shaped usable)
        (check-IsVerdict S fuel profile source J path s)
