-- ===== src/Tests/Starved.antt =====
-- The contester on a database in which the task of its solutions is missing.
use checker_olimp.Base.{ℕ, ◌+◌, ◌≡◌, refl, arith, Option, none, some, [], ◌++◌, All}
use checker_olimp.Base.Int.{ℤ, pos}
use checker_olimp.Text.{Text, lit, text_eq, has_prefix, c_str}
use checker_olimp.Text.Decimal.{digits, of_nat, of_int}
use checker_olimp.Effect.{thrown, resume}
use checker_olimp.Contester.Numbers.Laws.{IsInt}
use checker_olimp.Contester.Data.Stored.{Finds}
use checker_olimp.Contester.Solution.Stored.{new_solution-no_task, solution_sql, solution_row}
use checker_olimp.Contester.Main.{loop}
use checker_olimp.Contester.Main.Steps.{attempt}
use checker_olimp.Contester.Main.Stuck.{IsBroken, loop-IsBroken}
use checker_olimp.Simulation.{Machine}
use checker_olimp.Tests.Progress.{quiet_system}
use checker_olimp.Tests.{machine}
use checker_olimp.Tests.Contest.{string_json, settings}
use checker_olimp.Tests.Tables.{Rows}
use checker_olimp.Tests.Board.{
  entry, board, open_ids, database, selected, found, row_texts, entry-Numbers,
}
use checker_olimp.Tests.View.{verdict_shell, verdict_view}
use checker_olimp.Tests.Updates.{IsReady}
use checker_olimp.Tests.Queue.{config}

abbrev no_rows : Text → Rows
no_rows _ = []

abbrev Broken : ℤ → Type 0
Broken =
    IsBroken quiet_system verdict_shell (database no_rows) string_json (verdict_view no_rows) config
      (board machine)

abbrev no_task : Text
no_task = lit "task #" ++ (of_int (pos 3) ++ lit " not exist")

thrown_at :
    (m : Machine) (id : ℤ) (a : Option Text)
    → IsInt id
    → Finds (database no_rows) m solution_sql id (solution_row (entry id a))
    → attempt quiet_system verdict_shell (database no_rows) string_json settings id m
      ≡ (thrown no_task, m)
unfolding text_eq has_prefix c_str of_int of_nat digits resume
thrown_at m id a fits row =
    rw
      (new_solution-no_task (database no_rows) m (entry id a) row (entry-Numbers id a fits)
        (selected no_rows m _ [] refl refl))
      refl

first-Broken : Broken (pos 7)
unfolding text_eq has_prefix c_str of_int of_nat digits
first-Broken m e =
    let a = m.first_result in
    let row = found no_rows m _ _ _ refl refl (row_texts (pos 7) a refl) in
    (no_task, m, thrown_at m (pos 7) a (omega arith) ([], row), e)

second-Broken : Broken (pos 8)
unfolding text_eq has_prefix c_str of_int of_nat digits
second-Broken m e =
    let a = m.second_result in
    let row = found no_rows m _ _ _ refl refl (row_texts (pos 8) a refl) in
    (no_task, m, thrown_at m (pos 8) a (omega arith) ([], row), e)

All-Broken : (a b : Option Text) → All Broken (open_ids a b)
All-Broken none none = (first-Broken, (second-Broken, tt))
All-Broken none (some _) = (first-Broken, tt)
All-Broken (some _) none = (second-Broken, tt)
All-Broken (some _) (some _) = tt

loop-IsBroken_example :
    (m : Machine) × ((fuel : ℕ)
      → loop quiet_system verdict_shell (database no_rows) string_json (5 + fuel) config machine
        ≡ loop quiet_system verdict_shell (database no_rows) string_json fuel config m)
    × (IsReady m × (board m ≡ board machine))
unfolding text_eq
loop-IsBroken_example =
    loop-IsBroken quiet_system verdict_shell (database no_rows) string_json (verdict_view no_rows)
      config (board machine) (λ m _. All-Broken m.first_result m.second_result) 5 machine (tt, refl)
