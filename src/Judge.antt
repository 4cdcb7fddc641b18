-- ===== src/Judge.antt =====
-- checker_rc/matcher.cpp, the `answers_match` that runs the external checker, and
-- checker_rc/checker.cpp: `check`, which builds a solution and runs it on every test.
pub mod Report
pub mod Testlib
pub mod Progress
pub mod Complete
use checker_olimp.Base.{
  ℕ, Bool, true, false, not, Option, none, some, List, [], ◌∷◌, ◌++◌, leb, if◌then◌else◌,
}
use checker_olimp.Base.Int.{ℤ, pos, negsuc}
use checker_olimp.Text.{Text, lit, text_eq, c_str}
use checker_olimp.Text.Decimal.{of_int}
use checker_olimp.Effect.{Action, value_of, pure, query, effect, ◌>>=◌, ◌>>◌}
use checker_olimp.System.{System}
use checker_olimp.Json.{Json}
use checker_olimp.Words.{max_word}
use checker_olimp.Assert.{checker_assert}
use checker_olimp.Paths.{get_full_path_name, get_directory_and_file, is_file_exist, restore_path}
use checker_olimp.Matcher.{parse_testlib_checker_report}
use checker_olimp.Executor.{
  RequestType, Request, correct, crash, tle, mle, nif, cpf, cctf, Executor, new_executor,
  set_config, execute,
}
use checker_olimp.Tool
use checker_olimp.Config.{TestPath, ProblemStore, MainConfig, new_problem_store, read_main_config}
use checker_olimp.TestReader
use checker_olimp.TestReader.{TestElement, new_test_element}
use checker_olimp.Builder.{build_from_source}

abbrev pub matcher_cpp : Text
matcher_cpp = lit "matcher.cpp"

-- `return_code >= 0 && return_code <= 4`
unfoldable pub is_tool_code : ℤ → Bool
is_tool_code (pos code) = leb code 4
is_tool_code (negsuc n) = false

-- What `fprintf` prints about another code.
unfoldable pub code_message : ℤ → Text → Text
unfolding of_int
code_message code quest_file_path =
    lit "with exit code = "
    ++ (of_int code ++ (lit " on quest_file_path = " ++ c_str quest_file_path))

-- `struct report_elem`
pub record ReportElem : Type 0 where
  pub id : ℕ
  pub result : Text
  pub time : ℕ
  pub memory : ℕ
  pub score : ℤ

abbrev pub report_elem : TestPath → Text → ℕ → ℕ → ℤ → ReportElem
report_elem t result time memory score = record {
  id = t.id;
  result = result;
  time = time;
  memory = memory;
  score = score;
}

-- `struct verdict`
pub record Verdict : Type 0 where
  pub status : Text
  pub error_msg : Text
  pub report : List ReportElem

abbrev pub failed_verdict : Verdict
failed_verdict = record { status = lit "bad"; error_msg = lit "compilation_error"; report = [] }

module _ (S : System) where
  -- The report file of the checker is read and removed.
  unfoldable pub take_report : Text → Action S.State Bool
  take_report report_path = do
    content ← query (S.read_file report_path)
    elim content [
      | none ↦ do checker_assert S false matcher_cpp 93; pure false
      | some testlib_checker_report ↦ do
        effect (S.remove_file (c_str report_path))
        pure (parse_testlib_checker_report testlib_checker_report)
    ]

  -- The paths are made full, the input and the answer must be files of one directory, and the program
  -- `check.exe` in that directory decides.
  unfoldable pub answers_match : ℕ → Text → Text → Text → Text → Action S.State Bool
  unfolding take_report is_tool_code
  answers_match fuel quest_path answer_path report_path testlib_path = do
    quest ← get_full_path_name S (c_str quest_path)
    answer ← get_full_path_name S (c_str answer_path)
    report ← get_full_path_name S (c_str report_path)
    testlib ← get_full_path_name S (c_str testlib_path)
    quest_exists ← is_file_exist S quest
    checker_assert S quest_exists matcher_cpp 67
    answer_exists ← is_file_exist S answer
    checker_assert S answer_exists matcher_cpp 68
    (dir_tests, quest_name) ← get_directory_and_file S quest
    (dir_temp, answer_name) ← get_directory_and_file S answer
    checker_assert S (text_eq dir_tests dir_temp) matcher_cpp 74
    code ←
        Tool.execute S fuel (dir_tests ++ (92 ∷ lit "check.exe"))
          (quest ∷ report ∷ answer ∷ testlib ∷ [])
    if is_tool_code code then take_report testlib else (do
      effect (S.print_error (code_message code quest))
      checker_assert S false matcher_cpp 85
      pure false)

  -- The `switch` on the outcome of a run. The first answer is looked at only after a correct run.
  unfoldable pub report_of :
      ℕ → Text → Text → Text → TestPath → RequestType → Request → Action S.State ReportElem
  report_of fuel profile_path output_name source_name t correct request = do
    answer ← value_of (elim (t.answer_path_list) [ [] ↦ none | path ∷ _ ↦ some path ])
    matched ←
        answers_match fuel t.quest_file answer (restore_path profile_path output_name)
          (restore_path profile_path (source_name ++ lit "testlib_checker.report"))
    pure (
        if matched
        then report_elem t (lit "ok") request.time_out request.memory t.scores
        else report_elem t (lit "bad") request.time_out request.memory (pos 0))
  report_of fuel profile_path output_name source_name t tle request =
      pure (report_elem t (lit "tle") max_word request.memory (pos 0))
  report_of fuel profile_path output_name source_name t mle request =
      pure (report_elem t (lit "mle") request.time_out max_word (pos 0))
  report_of fuel profile_path output_name source_name t _ request =
      pure (report_elem t (lit "crash") max_word max_word (pos 0))

  -- The loop over the tests. The reader's element and the executor are kept from test to test.
  unfoldable pub run_tests :
      ℕ
      → Text
      → Text
      → Text
      → List TestPath
      → TestElement
      → Executor S
      → Action S.State (List ReportElem)
  run_tests fuel profile_path output_name source_name [] test e = pure []
  run_tests fuel profile_path output_name source_name (t ∷ ts) test e = do
    test' ← TestReader.read S t.quest_file t.answer_path_list test
    e' ← execute S fuel test'.quest e
    elem ←
        report_of fuel profile_path output_name source_name t e'.request_report.verdict
          e'.request_report
    rest ← run_tests fuel profile_path output_name source_name ts test' e'
    pure (elem ∷ rest)

  -- From the configuration on.
  unfoldable pub judge : ℕ → Text → Text → MainConfig → Action S.State Verdict
  judge fuel profile_path source_name config = do
    let problem = config.problem
    (built, exe) ←
        build_from_source S fuel profile_path source_name config.compiler_name
          config.compiler_command_template []
    let e =
        set_config S profile_path exe (restore_path profile_path problem.input_file_name)
          (restore_path profile_path problem.output_file_name) problem.time_limit
          problem.memory_limit (new_executor S S.null_handle S.null_handle)
    if built
        then (do
          report ←
              run_tests fuel profile_path problem.output_file_name source_name
                problem.test_path_list new_test_element e
          pure (record { status = lit "ok"; error_msg = []; report = report }))
        else pure failed_verdict

module _ (S : System) (J : Json) where
  unfoldable pub check : ℕ → Text → Text → Text → Action S.State Verdict
  unfolding judge
  check fuel main_config_file_path profile_path source_name = do
    config ← read_main_config S J main_config_file_path new_problem_store
    judge S fuel profile_path source_name config
