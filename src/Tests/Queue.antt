-- ===== src/Tests/Queue.antt =====
-- The contester works off the solutions of a database.
use checker_olimp.Base.{ℕ, ◌+◌, ◌-◌, ◌*◌, ◌≡◌, refl, inl, inr}
use checker_olimp.Base.Int.{pos}
use checker_olimp.Text.{lit, text_eq}
use checker_olimp.Effect.Laws.{Returns}
use checker_olimp.Contester.Main.{Config, turn, loop, main}
use checker_olimp.Contester.Main.Reading.{config_of}
use checker_olimp.Contester.Main.Start.{greeted, main-waiting_count}
use checker_olimp.Tests.Startup.{starting, settings_file, settings_json, settings_represented}
use checker_olimp.Contester.Main.Waiting.{turn-IsTurn}
use checker_olimp.Contester.Queue.{waiting_count}
use checker_olimp.Contester.Queue.Turn.{IsTurn, SomeResult}
use checker_olimp.Tests.Progress.{quiet_system}
use checker_olimp.Contester.Tables.{AllHeld}
use checker_olimp.Simulation.{Machine}
use checker_olimp.Tests.{machine}
use checker_olimp.Tests.Contest.{settings, string_json}
use checker_olimp.Tests.View.{verdict_shell, verdict_view}
use checker_olimp.Tests.Updates.{IsReady}
use checker_olimp.Tests.Board.{full, board, board_mysql, held_first, held_second}

pub board_held : AllHeld board_mysql IsReady board
board_held m x _ (inl e) = rw (← e) (held_first full m (λ sql h. refl))
board_held m x _ (inr (inl e)) = rw (← e) (held_second m)
board_held m x _ (inr (inr none_left)) = absurd none_left

abbrev pub config : Config
config = record { delay = pos 1000; settings = settings }

turn-IsTurn_example :
    Returns
      (λ _ m. IsReady m × IsTurn SomeResult (board machine) (board m))
      (turn quiet_system verdict_shell board_mysql string_json config machine)
unfolding text_eq
turn-IsTurn_example =
    turn-IsTurn quiet_system verdict_shell board_mysql string_json (verdict_view full) board_held
      config machine tt

-- Both solutions are finished in the first turn.
main-waiting_count_example :
    (m : Machine) × ((fuel : ℕ)
      → main quiet_system verdict_shell board_mysql settings_json (1 + fuel) starting
        ≡ loop quiet_system verdict_shell board_mysql settings_json fuel
            (config_of settings_file)
            m)
    × IsReady m
    × (waiting_count (board m) ≡ 2 - 10 * 1)
unfolding text_eq
main-waiting_count_example =
    main-waiting_count quiet_system verdict_shell board_mysql settings_json starting
      (verdict_view full) board_held (lit "json") settings_file
      (greeted quiet_system verdict_shell board_mysql settings_json starting) refl
      (settings_represented _) refl tt 1
