-- ===== src/Tests/Verdicts.antt =====
-- The contester and checker_rc, on solutions for which nothing is missing.
use checker_olimp.Base.{ℕ, ◌+◌, ◌≡◌, refl, arith, Option, inl, inr}
use checker_olimp.Base.Int.{ℤ}
use checker_olimp.Text.{Text, lit, text_eq, c_str}
use checker_olimp.Text.Decimal.{of_int, of_nat, digits}
use checker_olimp.Paths.{restore_path}
use checker_olimp.Judge.Progress.{IsUsable}
use checker_olimp.Judge.Complete.{IsComplete}
use checker_olimp.Contester.Numbers.{to_unsigned}
use checker_olimp.Contester.Solution.{clng_at, get_src_ext, get_tests_dir}
use checker_olimp.Contester.Checker.Verdict.{judged_config}
use checker_olimp.Contester.Checker.Complete.{IsFurnished}
use checker_olimp.Contester.Main
use checker_olimp.Contester.Main.{loop}
use checker_olimp.Contester.Main.Reading.{config_of}
use checker_olimp.Contester.Main.Verdict.{checker_of}
use checker_olimp.Contester.Main.Start.{greeted}
use checker_olimp.Contester.Main.Complete.{Verdicts, AllFurnished, main-AllVerdicts}
use checker_olimp.Contester.Queue.Turn.{AllSettled}
use checker_olimp.Simulation.{Machine}
use checker_olimp.Tests.Startup.{starting, settings_file, settings_represented}
use checker_olimp.Tests.Progress.{quiet_system, quiet_timing, quiet-Behaves, rounds}
use checker_olimp.Tests.Complete.{full_name, test-IsJudgeable, cl-IsBuildable}
use checker_olimp.Tests.Board.{entry, board, board_mysql}
use checker_olimp.Tests.Queue.{board_held}
use checker_olimp.Tests.Judged.{parse, both_json, checker_shell, view, read_settings, runnable}

entry-IsUsable :
    (id : ℤ) (a : Option Text)
    → IsUsable quiet_system quiet_timing rounds
        (judged_config read_settings (checker_of read_settings (entry id a)))
unfolding text_eq c_str clng_at get_src_ext get_tests_dir
entry-IsUsable id a = record {
  in_range = omega arith;
  rounds = omega arith;
  answered = (λ e. cc, tt);
}

entry-IsComplete :
    (id : ℤ) (a : Option Text)
    → IsComplete quiet_system quiet_timing rounds quiet-Behaves
        (lit ".")
        (lit "solution.cpp")
        (judged_config read_settings (checker_of read_settings (entry id a)))
unfolding text_eq c_str clng_at get_src_ext get_tests_dir of_int of_nat digits to_unsigned
    restore_path
entry-IsComplete id a = record {
  usable = entry-IsUsable id a;
  long = omega arith;
  buildable = cl-IsBuildable (lit ".") (lit "solution.cpp") (omega arith);
  judgeable =
      (test-IsJudgeable (lit ".") (lit "solution.cpp") refl (λ e. cc) refl refl (λ e. cc), tt);
}

pub entry-IsFurnished :
    (id : ℤ) (a : Option Text)
    → IsFurnished quiet_system quiet_timing rounds quiet-Behaves read_settings
        (checker_of read_settings (entry id a))
unfolding text_eq c_str clng_at get_src_ext
entry-IsFurnished id a = record {
  directory = lit ".";
  located = full_name (lit ".") refl (λ e. cc);
  config_full = lit "solution.json";
  config_named = full_name (lit "solution.json") refl (λ e. cc);
  complete = entry-IsComplete id a;
}

furnished :
    AllFurnished quiet_system checker_shell board_mysql both_json rounds quiet_timing quiet-Behaves
      read_settings view
furnished x m up (inl e) open_row = rw (← e) (entry-IsFurnished _ m.first_result)
furnished x m up (inr (inl e)) open_row = rw (← e) (entry-IsFurnished _ m.second_result)
furnished x m up (inr (inr none_left)) open_row = absurd none_left

main-AllVerdicts_example :
    (m : Machine) × ((fuel : ℕ)
      → Main.main quiet_system checker_shell board_mysql both_json (1 + fuel) starting
        ≡ loop quiet_system checker_shell board_mysql both_json fuel (config_of settings_file) m)
    × AllSettled
        (Verdicts quiet_system checker_shell board_mysql both_json rounds quiet_timing quiet-Behaves
          read_settings)
        (board starting)
        (board m)
unfolding text_eq c_str
main-AllVerdicts_example =
    main-AllVerdicts quiet_system checker_shell board_mysql both_json rounds quiet_timing
      quiet-Behaves view board_held (lit "json") settings_file starting
      (greeted quiet_system checker_shell board_mysql both_json starting) refl
      (settings_represented parse) refl tt runnable furnished 1 (omega arith)
