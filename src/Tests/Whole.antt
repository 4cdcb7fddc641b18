-- ===== src/Tests/Whole.antt =====
-- The contester and checker_rc on one machine.
use checker_olimp.Base.{◌≤◌, length, refl, [], ◌∷◌, arith, if◌then◌else◌}
use checker_olimp.Text.{lit, text_eq, c_str}
use checker_olimp.Text.Find.{text_eq_refl}
use checker_olimp.Effect.Laws.{Returns}
use checker_olimp.System.{Shell}
use checker_olimp.Json.{Json}
use checker_olimp.Config.File.{config_doc}
use checker_olimp.Main.{main}
use checker_olimp.Contester.Solution.Reading.{config_file}
use checker_olimp.Contester.Checker.{command}
use checker_olimp.Contester.Checker.Laws.{IsSaved}
use checker_olimp.Contester.Checker.Verdict.{Launches, IsJudged}
use checker_olimp.Contester.Main.{check_solution}
use checker_olimp.Contester.Main.Verdict.{check_solution-IsJudged}
use checker_olimp.Contester.Solution.{Solution}
use checker_olimp.Base.Int.{pos}
use checker_olimp.Tests.Tables.{table_mysql, sent_held}
use checker_olimp.Simulation.{Machine, machine_shell, lookup-without}
use checker_olimp.Simulation.Values.{doc_json}
use checker_olimp.Tests.{machine}
use checker_olimp.Tests.Contest.{settings, sent, checked}
use checker_olimp.Tests.Settings.{written_back}
use checker_olimp.Tests.Progress.{
  quiet_system, quiet_stored, quiet_timing, quiet_writes, same_name, quiet-Behaves, rounds,
}

abbrev sent_json : Json
sent_json = doc_json (config_doc (config_file settings sent))

-- A shell with one program.
abbrev checker_shell : Shell Machine
checker_shell = record machine_shell {
  run_command = λ line m.
      if text_eq line (c_str (command settings checked))
      then (main quiet_system sent_json rounds
          (checked.cfg ∷ lit "." ∷ checked.src ∷ checked.res ∷ []) m).1
      else m;
}

checker-Launches : Launches quiet_system checker_shell sent_json rounds settings checked
unfolding text_eq c_str
checker-Launches = record {
  launched = λ m code s e. rw (text_eq_refl, e) refl;
  stores = λ path content m h. quiet_stored path content m;
  config_written = λ content m. refl;
  result_written = λ content m. refl;
  config_opened = λ m full named. rw (same_name (lit "solution.json") full m refl named) refl;
  source_apart = λ m. lookup-without checked.res (c_str checked.src) m.files refl;
  config_apart = λ m. lookup-without checked.res (c_str checked.cfg) m.files refl;
  result_plain = refl;
}

long_name : 5 ≤ length (c_str checked.src)
unfolding c_str
long_name = omega arith

check_solution-IsJudged_example :
    Returns
      (λ _ m.
        (sol : Solution) × (IsSaved quiet_system table_mysql checked sol m
          × IsJudged quiet_system sent_json rounds settings checked machine sol))
      (check_solution quiet_system checker_shell table_mysql sent_json settings (pos 7) machine)
check_solution-IsJudged_example =
    check_solution-IsJudged quiet_system checker_shell table_mysql sent_json rounds settings
      quiet_timing quiet-Behaves quiet_writes sent machine sent_held checker-Launches written_back
      (omega arith) (omega arith) (omega arith) (omega arith) long_name (λ sql m. refl)
