-- ===== src/Contester/Main/Waiting.antt =====
-- The loop of contester.cpp, and how many solutions wait.
use checker_olimp.Base.{ℕ, ◌+◌, ◌-◌, ◌*◌, ◌≡◌}
use checker_olimp.Effect.Laws.{Returns}
use checker_olimp.System.{System, Shell}
use checker_olimp.Json.{Json}
use checker_olimp.Contester.Database.{MySql}
use checker_olimp.Contester.Queue.{waiting_count}
use checker_olimp.Contester.Queue.Turn.{IsTurn, SomeResult}
use checker_olimp.Contester.Tables.{TableView, AllHeld}
use checker_olimp.Contester.Main.{Config, turn, loop}
use checker_olimp.Contester.Main.Drain.{turn_lem, loop_lem}

module _ (S : System) (H : Shell S.State) (D : MySql S.State) (J : Json) (V : TableView S H D)
    (held : AllHeld D V.IsUp V.view) (config : Config) where
  -- A turn of the loop returns, and is a turn as the tables show it (IsTurn): ten different
  -- solutions that wait, or all if they are fewer, are finished one after the other, each with some
  -- result. Conditions: the statements change the tables as SQL says and nothing else changes them,
  -- and the results hold no quote, backslash or NUL (TableView); and the tables hold all that
  -- belongs to a solution (AllHeld).
  pub turn-IsTurn :
      (s : S.State)
      → V.IsUp s
      → Returns
          (λ _ s'. V.IsUp s' × IsTurn SomeResult (V.view s) (V.view s'))
          (turn S H D J config s)
  turn-IsTurn = turn_lem S H D J V held config SomeResult (λ _ _ _ _ _. tt)

  -- After n turns ten solutions fewer wait for each turn, or none, and the loop goes on.
  pub loop-waiting_count :
      (n : ℕ) (s : S.State)
      → V.IsUp s
      → (s' : S.State) × ((fuel : ℕ)
          → loop S H D J (n + fuel) config s ≡ loop S H D J fuel config s')
        × V.IsUp s'
        × (waiting_count (V.view s') ≡ waiting_count (V.view s) - 10 * n)
  loop-waiting_count n s up =
      let (s', on, over) = loop_lem S H D J V held config SomeResult (λ _ _ _ _ _. tt) n s up in
      (s', on, over.0, over.1)
