-- ===== src/Tests/Mixed.antt =====
-- The contester on a database with one solution that can be run, and one that cannot.
use checker_olimp.Base.{ℕ, ◌+◌, ◌≡◌, refl, arith, Bool, [], ◌++◌, inl, inr, if◌then◌else◌}
use checker_olimp.Base.Int.{ℤ, pos}
use checker_olimp.Text.{Text, lit, text_eq, has_prefix, c_str}
use checker_olimp.Text.Decimal.{digits, of_nat, of_int}
use checker_olimp.Effect.{thrown, resume}
use checker_olimp.Contester.Data.Stored.{id_row, new_task-Holds, new_lang-Holds}
use checker_olimp.Contester.Solution.Stored.{new_solution-no_test}
use checker_olimp.Contester.Queue.{same_id}
use checker_olimp.Contester.Queue.Mixed.{AllSettledSound}
use checker_olimp.Contester.Main.{loop}
use checker_olimp.Contester.Main.Steps.{attempt}
use checker_olimp.Contester.Main.Mixed.{SoundHeld, BrokenThrow}
use checker_olimp.Contester.Main.Sound.{SoundRun, main-AllSettledSound}
use checker_olimp.Contester.Main.Complete.{Verdicts}
use checker_olimp.Contester.Main
use checker_olimp.Contester.Main.{Config}
use checker_olimp.Contester.Main.Start.{greeted}
use checker_olimp.Contester.Main.Reading.{config_of}
use checker_olimp.Tests.Startup.{starting, settings_file, settings_represented}
use checker_olimp.Simulation.{Machine}
use checker_olimp.Tests.Contest.{task, language}
use checker_olimp.Tests.Tables.{Rows, raw}
use checker_olimp.Tests.Board.{
  entry, board, database, full, Agrees, selected, found, row_texts, entry-Numbers, task-Holds,
  lang-Holds, held_first,
}
use checker_olimp.Tests.Progress.{quiet_system, quiet_timing, quiet-Behaves, rounds}
use checker_olimp.Tests.View.{board_view}
use checker_olimp.Contester.Tables.{TableView}
use checker_olimp.Tests.Judged.{
  parse, both_json, checker_shell, command_keeps, clock_keeps, read_settings, entry-IsRunnable,
}
use checker_olimp.Tests.Verdicts.{entry-IsFurnished}

-- The second solution has passed a test whose row is missing.
abbrev dangling : Text → Rows
dangling sql =
    if text_eq sql (lit "select id from tests where sid = 8")
    then raw (id_row (pos 9))
    else full sql

dangling-Agrees : Agrees dangling
dangling-Agrees sql h = rw h refl

abbrev is_second : ℤ → Bool
is_second id = same_id id (pos 8)

abbrev no_test : Text
no_test = lit "test #" ++ (of_int (pos 9) ++ lit " not exist")

-- The view of the tables, with the shell of checker_rc.
abbrev dangling_view : TableView quiet_system checker_shell (database dangling)
dangling_view = board_view dangling checker_shell command_keeps clock_keeps

abbrev config : Config
config = config_of settings_file

thrown_second :
    (m : Machine)
    → attempt quiet_system checker_shell (database dangling) both_json read_settings (pos 8) m
      ≡ (thrown no_test, m)
unfolding text_eq has_prefix c_str of_int of_nat digits resume
thrown_second m =
    let a = m.second_result in
    rw
      (new_solution-no_test (database dangling) m (entry (pos 8) a) (pos 9) []
        ([], found dangling m _ _ _ refl refl (row_texts (pos 8) a refl))
        (entry-Numbers (pos 8) a (omega arith))
        (new_task-Holds (database dangling) m task (task-Holds dangling m dangling-Agrees))
        (new_lang-Holds (database dangling) m language (lang-Holds dangling m dangling-Agrees))
        (selected dangling m _ (raw (id_row (pos 9))) refl refl, (omega arith, tt))
        (selected dangling m _ [] refl refl))
      refl

sound-Held :
    SoundHeld quiet_system checker_shell
      (database dangling)
      both_json
      dangling_view
      config
      is_second
sound-Held m x up (inl e) sound = rw (← e) (held_first dangling m dangling-Agrees)
sound-Held m x up (inr (inl e)) sound = cc (rw (← e) at sound)
sound-Held m x up (inr (inr none_left)) sound = absurd none_left

second-BrokenThrow :
    BrokenThrow quiet_system checker_shell
      (database dangling)
      both_json
      dangling_view
      config
      is_second
second-BrokenThrow m id up (inl (e, w)) bad = cc (rw (← e) at bad)
second-BrokenThrow m id up (inr (inl (e, w))) bad =
    rw (← e) (no_test, m, thrown_second m, record { up = up; kept = refl })
second-BrokenThrow m id up (inr (inr none_left)) bad = absurd none_left

first-SoundRun :
    SoundRun quiet_system checker_shell
      (database dangling)
      both_json
      rounds
      quiet_timing
      quiet-Behaves
      dangling_view
      is_second
      read_settings
first-SoundRun x m up (inl e) open_row sound =
    rw (← e)
      (entry-IsRunnable (database dangling) _ m.first_result, entry-IsFurnished _ m.first_result)
first-SoundRun x m up (inr (inl e)) open_row sound = cc (rw (← e) at sound)
first-SoundRun x m up (inr (inr none_left)) open_row sound = absurd none_left

main-AllSettledSound_example :
    (m : Machine) × ((fuel : ℕ)
      → Main.main quiet_system checker_shell (database dangling) both_json (1 + fuel) starting
        ≡ loop quiet_system checker_shell (database dangling) both_json fuel config m)
    × AllSettledSound is_second
        (Verdicts quiet_system checker_shell
          (database dangling)
          both_json
          rounds
          quiet_timing
          quiet-Behaves
          read_settings)
        (board starting)
        (board m)
unfolding text_eq c_str
main-AllSettledSound_example =
    main-AllSettledSound quiet_system checker_shell (database dangling) both_json rounds
      quiet_timing quiet-Behaves dangling_view is_second (lit "json") settings_file starting
      (greeted quiet_system checker_shell (database dangling) both_json starting) refl
      (settings_represented parse) refl tt sound-Held second-BrokenThrow first-SoundRun
      (omega arith) 1 (omega arith)
