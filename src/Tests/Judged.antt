-- ===== src/Tests/Judged.antt =====
-- The contester and checker_rc work off the solutions of a database.
use checker_olimp.Base.{
  ℕ, ◌+◌, ◌≡◌, refl, arith, Option, [], ◌∷◌, List, inl, inr, Bool-cases, if◌then◌else◌,
}
use checker_olimp.Base.Int.{ℤ}
use checker_olimp.Text.{Text, lit, text_eq, c_str}
use checker_olimp.Effect.{Outcome, ok, thrown, halted}
use checker_olimp.Effect.Laws.{Post, returned, threw, ended}
use checker_olimp.System.{Shell}
use checker_olimp.Json.{Json}
use checker_olimp.Json.Document.{Doc, ReadsBack}
use checker_olimp.Config.File.{config_doc}
use checker_olimp.Main.{serizlize, main}
use checker_olimp.Main.Laws.{IsRun, is_run, main-IsRun}
use checker_olimp.Contester.Solution.{Settings, clng_at, get_src_ext, get_tests_dir}
use checker_olimp.Contester.Solution.Reading.{config_file}
use checker_olimp.Contester.Checker.{command}
use checker_olimp.Contester.Checker.Verdict.{Launches}
use checker_olimp.Contester.Database.{MySql}
use checker_olimp.Contester.Main
use checker_olimp.Contester.Main.{loop}
use checker_olimp.Contester.Main.Reading.{config_of, settings_doc}
use checker_olimp.Contester.Main.Verdict.{checker_of}
use checker_olimp.Contester.Main.Start.{greeted}
use checker_olimp.Contester.Main.Judged.{IsRunnable, Judged, AllRunnable, main-AllSettled}
use checker_olimp.Contester.Queue.Turn.{AllSettled}
use checker_olimp.Contester.Tables.{TableView, Same}
use checker_olimp.Simulation.{Machine, machine_shell, lookup-without}
use checker_olimp.Simulation.Values.{docs_json}
use checker_olimp.Tests.Contest.{settings, sent, checked}
use checker_olimp.Tests.Settings.{document_represented}
use checker_olimp.Tests.Startup.{starting, settings_file, settings_represented}
use checker_olimp.Tests.Progress.{
  quiet_system, quiet_stored, quiet_timing, quiet_writes, same_name, quiet-Behaves, rounds,
}
use checker_olimp.Tests.Board.{entry, board, full, board_mysql}
use checker_olimp.Tests.View.{StaysReady, board_view}
use checker_olimp.Tests.Updates.{IsReady}
use checker_olimp.Tests.Queue.{board_held}

-- The file of the settings, and any other.
abbrev pub parse : Text → Doc
parse t =
    if text_eq t (lit "json")
    then settings_doc settings_file
    else config_doc (config_file settings sent)

abbrev pub both_json : Json
both_json = docs_json parse

abbrev pub arguments : List Text
arguments = checked.cfg ∷ lit "." ∷ checked.src ∷ checked.res ∷ []

-- What a program leaves, if it returns.
abbrev pub left_by : Machine → Outcome ℕ × Machine → Machine
left_by m (ok code, s) = record s { first_result = m.first_result; second_result = m.second_result }
left_by m (thrown message, s) = m
left_by m (halted e, s) = m

-- A shell with one program, which does not reach the tables.
abbrev pub checker_shell : Shell Machine
checker_shell = record machine_shell {
  run_command = λ line m.
      if text_eq line (c_str (command settings checked))
      then left_by m (main quiet_system both_json rounds arguments m)
      else m;
}

left_by-Same :
    (m : Machine) (r : Outcome ℕ × Machine)
    → IsReady m
    → Post (IsRun quiet_system both_json rounds checked.src (lit "result.json")) r
    → Same IsReady board m (left_by m r)
unfolding text_eq c_str serizlize
left_by-Same m _ up (returned (is_run config v s₀ s₁ s path directory e h)) = record {
  up = omega arith;
  kept = refl;
}
left_by-Same m _ up threw = record { up = up; kept = refl }
left_by-Same m _ up ended = record { up = up; kept = refl }

pub command_keeps : (line : Text) → StaysReady (checker_shell.run_command line)
command_keeps line m up = elim (Bool-cases (text_eq line (c_str (command settings checked)))) [
  | inl same ↦ rw same (
      left_by-Same m _ up (
        main-IsRun quiet_system both_json rounds checked.cfg (lit ".") checked.src
          (lit "result.json") m))
  | inr other ↦ rw other (record { up = up; kept = refl })
]

pub clock_keeps : StaysReady (λ m. (checker_shell.clock m).1)
clock_keeps m up = record { up = up; kept = refl }

abbrev pub view : TableView quiet_system checker_shell board_mysql
view = board_view full checker_shell command_keeps clock_keeps

-- The settings that are read.
abbrev pub read_settings : Settings
read_settings = (config_of settings_file).settings

entry-Launches :
    (id : ℤ) (a : Option Text)
    → Launches quiet_system checker_shell both_json rounds read_settings
        (checker_of read_settings (entry id a))
unfolding text_eq c_str clng_at get_src_ext get_tests_dir
entry-Launches id a = record {
  launched = λ m code s e. rw e refl;
  stores = λ path content m h. quiet_stored path content m;
  config_written = λ content m. refl;
  result_written = λ content m. refl;
  config_opened = λ m full named. rw (same_name (lit "solution.json") full m refl named) refl;
  source_apart = λ m. lookup-without checked.res (c_str checked.src) m.files refl;
  config_apart = λ m. lookup-without checked.res (c_str checked.cfg) m.files refl;
  result_plain = refl;
}

written_back : ReadsBack both_json (config_doc (config_file settings sent))
unfolding text_eq c_str
written_back = document_represented parse 67108864 (omega arith)

pub entry-IsRunnable :
    (D : MySql Machine) (id : ℤ) (a : Option Text)
    → IsRunnable quiet_system checker_shell D both_json rounds quiet_timing quiet-Behaves
        read_settings
        (entry id a)
unfolding text_eq c_str clng_at get_src_ext get_tests_dir
entry-IsRunnable D id a = record {
  launches = entry-Launches id a;
  read_back = written_back;
  short = omega arith;
  small = omega arith;
  fits = omega arith;
  in_rounds = omega arith;
  long = omega arith;
}

pub runnable :
    AllRunnable quiet_system checker_shell board_mysql both_json rounds quiet_timing quiet-Behaves
      read_settings view
runnable x m up (inl e) open_row = rw (← e) (entry-IsRunnable board_mysql _ m.first_result)
runnable x m up (inr (inl e)) open_row = rw (← e) (entry-IsRunnable board_mysql _ m.second_result)
runnable x m up (inr (inr none_left)) open_row = absurd none_left

main-AllSettled_example :
    (m : Machine) × ((fuel : ℕ)
      → Main.main quiet_system checker_shell board_mysql both_json (1 + fuel) starting
        ≡ loop quiet_system checker_shell board_mysql both_json fuel (config_of settings_file) m)
    × AllSettled
        (Judged quiet_system checker_shell board_mysql both_json rounds quiet_timing quiet-Behaves
          read_settings view
          (greeted quiet_system checker_shell board_mysql both_json starting))
        (board starting)
        (board m)
unfolding text_eq c_str
main-AllSettled_example =
    main-AllSettled quiet_system checker_shell board_mysql both_json rounds quiet_timing
      quiet-Behaves quiet_writes view board_held (lit "json") settings_file starting
      (greeted quiet_system checker_shell board_mysql both_json starting) refl
      (settings_represented parse) refl tt runnable 1 (omega arith)
