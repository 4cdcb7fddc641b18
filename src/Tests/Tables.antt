-- ===== src/Tests/Tables.antt =====
-- A solution in the tables of a small database.
use checker_olimp.Base.{
  ◌≡◌, refl, ap, arith, true, Option, some, List, [], ◌∷◌, ◌++◌, map, if◌then◌else◌,
}
use checker_olimp.Base.Int.{pos}
use checker_olimp.Text.{Text, lit, text_eq, c_str}
use checker_olimp.Text.Decimal.{digits, of_nat, of_int}
use checker_olimp.Effect.{ok}
use checker_olimp.Contester.Database.{MySql, Row, field_text}
use checker_olimp.Contester.Data.Stored.{
  lang_row, ch_test_row, ch_group_row, task_row, id_row, Selects,
}
use checker_olimp.Contester.Solution.{new_solution}
use checker_olimp.Contester.Solution.Stored.{
  solution_sql, solution_row, HoldsSolution, new_solution-HoldsSolution,
}
use checker_olimp.Simulation.{Machine}
use checker_olimp.Tests.{machine}
use checker_olimp.Tests.Contest.{language, first_test, group, task, sent}

abbrev pub Rows : Type 0
Rows = List (List (Option Text))

abbrev pub raw : Row → Rows
raw row = map (λ t. some t) row ∷ []

-- The queries that have an answer, each of one row.
abbrev pub answers : List (Text × Row)
answers =
    (solution_sql ++ lit "7", solution_row sent)
    ∷ (
      lit
          "SELECT id, cid, time_limit, memory_limit, title, content, input, output, checker FROM tasks WHERE id = 3",
      task_row task,
    )
    ∷ (
      lit "SELECT id, name, compiler, extension, identifier FROM langs WHERE id = 1",
      lang_row language,
    )
    ∷ (lit "select id from checkergroups where tid = 3", id_row (pos 4))
    ∷ (
      lit "SELECT id, tid, method, scores, name FROM checkergroups WHERE id = 4",
      ch_group_row group,
    )
    ∷ (lit "select id from checkertests where gid = 4", id_row (pos 5))
    ∷ (
      lit "SELECT id, gid, scores, input, output FROM checkertests WHERE id = 5",
      ch_test_row first_test,
    )
    ∷ []

abbrev pub answer : List (Text × Row) → Text → Rows
answer [] sql = []
answer (a ∷ others) sql = let rest = answer others sql in if text_eq a.0 sql then raw a.1 else rest

abbrev pub fetch : List Rows → Machine → Option Rows × Machine
fetch [] m = (some [], m)
fetch (rows ∷ more) m = (some rows, record m { pending = more })

abbrev pub table_mysql : MySql Machine
table_mysql = record {
  connect = λ host user passwd dbname port m. (true, m);
  query = λ sql m. (true, record m { pending = answer answers sql ∷ m.pending });
  error = λ m. [];
  store_result = λ m. fetch m.pending m;
  close = λ m. m;
}

-- The rows that a query selects.
selected :
    (sql : Text) (rows : Rows)
    → answer answers (c_str sql) ≡ rows
    → Selects table_mysql machine sql (map (map field_text) rows)
selected sql rows e = record {
  asked = record machine { pending = rows ∷ [] };
  result = rows;
  accepted = ap (λ r. (true, record machine { pending = r ∷ [] })) e;
  fetched = refl;
  texts = refl;
}

pub sent_held : HoldsSolution table_mysql machine sent
unfolding text_eq c_str of_int of_nat digits
sent_held = record {
  row = ([], selected _ (raw (solution_row sent)) refl);
  numbers = omega arith;
  its_task = refl;
  task_held = (
    ([], selected _ (raw (task_row task)) refl),
    omega arith,
    omega arith,
    omega arith,
    omega arith,
    (selected _ (raw (id_row (pos 4))) refl, omega arith),
    (
      (
        ([], selected _ (raw (ch_group_row group)) refl),
        omega arith,
        omega arith,
        omega arith,
        omega arith,
        (selected _ (raw (id_row (pos 5))) refl, omega arith),
        (
          (
            ([], selected _ (raw (ch_test_row first_test)) refl),
            omega arith,
            omega arith,
            omega arith,
          ),
          tt,
        ),
      ),
      tt,
    ),
  );
  its_lang = refl;
  lang_held = (([], selected _ (raw (lang_row language)) refl), omega arith);
  listed = (selected _ [] refl, tt);
  tests_held = tt;
}

new_solution-HoldsSolution_example : new_solution table_mysql (pos 7) machine ≡ (ok sent, machine)
new_solution-HoldsSolution_example = new_solution-HoldsSolution table_mysql machine sent sent_held
