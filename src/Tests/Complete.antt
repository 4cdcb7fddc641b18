-- ===== src/Tests/Complete.antt =====
-- A check for which nothing is missing.
use checker_olimp.Base.{
  ℕ, ◌≡◌, ◌≢◌, refl, ap, true, false, none, [], ◌∷◌, ◌++◌, arith, inl, inr, Option-cases, Bool, suc,
  length,
}
use checker_olimp.Base.Int.{ℤ, pos}
use checker_olimp.Text.{Text, lit, text_eq, c_str}
use checker_olimp.Text.Decimal.{of_int, of_nat, digits}
use checker_olimp.Contester.Numbers.{to_unsigned}
use checker_olimp.Contester.Solution.{clng_at, get_tests_dir}
use checker_olimp.Effect.{resume, Outcome}
use checker_olimp.Effect.Laws.{Post, returned, Post-value, Post-bind, Returns}
use checker_olimp.Paths.{restore_path}
use checker_olimp.Paths.Laws.{NoBackslash}
use checker_olimp.Paths.Complete.{IsFileOf, HasFullName}
use checker_olimp.Builder.{msv_cpp, exe_str}
use checker_olimp.Builder.Complete.{IsBuildable}
use checker_olimp.Builder.Command.{IsPas, Plain, parse_compiler_config-source_first}
use checker_olimp.Config.{MainConfig, TestPath, new_problem_store}
use checker_olimp.Config.File.{config_of}
use checker_olimp.Tool.{watch_tool, run_tool, return_code}
use checker_olimp.Judge.{is_tool_code, answers_match}
use checker_olimp.Judge.Testlib.{IsAnswer, answers_match-IsAnswer}
use checker_olimp.Judge.Complete.{IsJudgeable, IsComplete, answers_match-IsJudgeable}
use checker_olimp.Main.{main}
use checker_olimp.Main.Progress.{Delivers}
use checker_olimp.Main.Complete.{main-Returns}
use checker_olimp.Simulation.{Machine, lookup}
use checker_olimp.Tests.{machine}
use checker_olimp.Tests.Settings.{small, small_json}
use checker_olimp.Tests.Progress.{
  quiet_system, quiet_timing, quiet-Behaves, rounds, small-read, small-IsUsable,
}

abbrev config : MainConfig
config = config_of small new_problem_store

abbrev pub directory : Text
directory = lit "tests\\2\\3"

abbrev pub in_directory : Text → Text
in_directory name = directory ++ (92 ∷ name)

abbrev IsReported : Text → ℤ → Machine → Type 0
IsReported report code m = (is_tool_code code ≡ true) × (quiet_system.read_file report m ≢ none)

other_there :
    (path : Text) (m : Machine)
    → text_eq path (lit "result.json") ≡ false
    → quiet_system.read_file path m ≢ none
other_there path m other e = elim (Option-cases (lookup path m.files)) [
  | inl missing ↦ cc (rw (other, missing) at e)
  | inr (text, found) ↦ cc (rw (other, found) at e)
]

-- A tool ends at once, and a file of another name than that of the result is there.
watch_ends :
    (report : Text) (other : text_eq report (lit "result.json") ≡ false) (process : Bool)
    (start fuel : ℕ) (m : Machine)
    → Post (IsReported report) (watch_tool quiet_system process start (suc fuel) 0 m)
unfolding watch_tool return_code is_tool_code resume
watch_ends report other true start fuel m = returned (refl, other_there report m other)
watch_ends report other false start fuel m = returned (refl, other_there report m other)

tool_ends :
    (report : Text) (other : text_eq report (lit "result.json") ≡ false) (command : Text)
    (m : Machine)
    → Post (IsReported report) (run_tool quiet_system rounds command m)
unfolding run_tool
tool_ends report other command m = Post-value _ (
    Post-value _ (
      Post-bind (watch_ends report other _ _ 19999999999 _)
        λ code m₁ h. Post-value _ (Post-value _ (returned h))))

pub full_name : (path : Text) → c_str path ≡ path → path ≢ [] → HasFullName quiet_system path path
full_name path e h m = (rw e (filled path h), c_str path, refl, rw (e, e) refl)
  where
    filled : (t : Text) → t ≢ [] → length t ≢ 0
    filled [] h = absurd (h refl)
    filled (x ∷ t) h = λ e. omega (arith, e)

test_file :
    (name : Text)
    → let path = in_directory name in
      c_str path ≡ path
      → text_eq path (lit "result.json") ≡ false
      → NoBackslash name
      → name ≢ []
      → IsFileOf quiet_system directory path path
test_file name e other plain h =
    let full : HasFullName quiet_system (in_directory name) (in_directory name) =
      full_name _ e (λ e. cc) in
    record {
      name = name;
      named = full;
      absolute = full;
      split = record { parts = refl; plain = plain; has_directory = λ e. cc; has_name = h };
      there = λ m. other_there _ m other;
    }

abbrev pub only_test : TestPath
only_test = record {
  id = 5;
  scores = pos 10;
  quest_file = in_directory (lit "01");
  answer_path_list = in_directory (lit "01.a") ∷ [];
}

-- The test can be judged for any source and directory with names that are texts of C++.
module _ (profile source : Text) where
  abbrev report_path : Text
  report_path = profile ++ (92 ∷ (source ++ lit "testlib_checker.report"))

  abbrev output_path : Text
  output_path = profile ++ (92 ∷ lit "output.txt")

  pub test-IsJudgeable :
      c_str report_path ≡ report_path
      → report_path ≢ []
      → text_eq report_path (lit "result.json") ≡ false
      → c_str output_path ≡ output_path
      → output_path ≢ []
      → IsJudgeable quiet_system rounds profile (lit "output.txt") source only_test
  unfolding text_eq c_str restore_path
  test-IsJudgeable whole named other whole_output named_output = record {
    directory = directory;
    answer = in_directory (lit "01.a");
    more = [];
    quest_full = in_directory (lit "01");
    answer_full = in_directory (lit "01.a");
    report_full = output_path;
    testlib_full = report_path;
    listed = refl;
    input_there = λ m. other_there (in_directory (lit "01")) m refl;
    answers_there = (λ m. other_there (in_directory (lit "01.a")) m refl, tt);
    quest_file = test_file (lit "01") refl refl (ground arith) (λ e. cc);
    answer_file = test_file (lit "01.a") refl refl (ground arith) (λ e. cc);
    report_named = full_name _ whole_output named_output;
    testlib_named = full_name _ whole named;
    checker_named = full_name _ refl (λ e. cc);
    reports = tool_ends report_path other _;
  }

abbrev IsGiven : Bool → Machine → Type 0
IsGiven =
    IsAnswer quiet_system rounds (in_directory (lit "01")) (in_directory (lit "01.a"))
      (restore_path (lit "w") (lit "output.txt"))
      (restore_path (lit "w") (lit "a.cpp" ++ lit "testlib_checker.report")) machine

abbrev given : Outcome Bool × Machine
given =
    answers_match quiet_system rounds (in_directory (lit "01")) (in_directory (lit "01.a"))
      (restore_path (lit "w") (lit "output.txt"))
      (restore_path (lit "w") (lit "a.cpp" ++ lit "testlib_checker.report")) machine

answers_match-IsAnswer_example : Post IsGiven given
answers_match-IsAnswer_example =
    answers_match-IsAnswer quiet_system rounds (in_directory (lit "01")) (in_directory (lit "01.a"))
      (restore_path (lit "w") (lit "output.txt"))
      (restore_path (lit "w") (lit "a.cpp" ++ lit "testlib_checker.report")) machine

answers_match-IsJudgeable_example : Returns IsGiven given
unfolding text_eq c_str restore_path test-IsJudgeable
answers_match-IsJudgeable_example =
    answers_match-IsJudgeable quiet_system quiet_timing rounds quiet-Behaves (lit "w")
      (lit "output.txt") (lit "a.cpp") only_test machine
      (test-IsJudgeable (lit "w") (lit "a.cpp") refl (λ e. cc) refl refl (λ e. cc))

not-IsPas : ¬ (IsPas msv_cpp)
unfolding text_eq
not-IsPas (inl e) = let differ : true ≡ false = ap (text_eq msv_cpp) e in cc
not-IsPas (inr e) = let differ : true ≡ false = ap (text_eq msv_cpp) e in cc

pub cl-IsBuildable :
    (profile source : Text)
    → Plain (restore_path profile source)
    → IsBuildable quiet_system profile source msv_cpp (lit "cl $1 /out:$2")
cl-IsBuildable profile source plain = record {
  known = inl (inl refl);
  command =
      lit "cl "
      ++ (restore_path profile source
          ++ (lit " /out:" ++ (restore_path profile (source ++ exe_str) ++ [])));
  marked = λ m.
      parse_compiler_config-source_first quiet_system profile source m msv_cpp (lit "cl ")
        (lit " /out:") [] (inl refl) (ground arith) (ground arith) plain;
  talks = λ m m₁ m₂ pipe output h opened prints. absurd (not-IsPas h);
}

small-IsComplete :
    IsComplete quiet_system quiet_timing rounds quiet-Behaves (lit "w") (lit "a.cpp") config
unfolding text_eq c_str clng_at get_tests_dir of_int of_nat digits to_unsigned restore_path
small-IsComplete = record {
  usable = small-IsUsable;
  long = omega arith;
  buildable = cl-IsBuildable (lit "w") (lit "a.cpp") (omega arith);
  judgeable = (test-IsJudgeable (lit "w") (lit "a.cpp") refl (λ e. cc) refl refl (λ e. cc), tt);
}

main-Returns_example :
    Returns (Delivers quiet_system small_json rounds config (lit "a.cpp") (lit "result")) (
      main quiet_system small_json rounds
        (lit "config" ∷ lit "w" ∷ lit "a.cpp" ∷ lit "result" ∷ [])
        machine)
unfolding c_str
main-Returns_example =
    main-Returns quiet_system small_json quiet_timing rounds quiet-Behaves config (lit "config")
      (lit "w") (lit "a.cpp") (lit "result") (lit "config") (lit "w") machine
      (full_name (lit "config") refl (λ e. cc) machine) (full_name (lit "w") refl (λ e. cc) machine)
      small-read small-IsComplete
