-- ===== src/Tests/Board.antt =====
-- A database with two solutions, whose results the program sets.
use checker_olimp.Base.{
  ◌≡◌, ◌≢◌, refl, ap, arith, true, false, Option, none, some, List, [], ◌∷◌, ◌++◌, map, drop, All,
  ◌==◌, if◌then◌else◌,
}
use checker_olimp.Base.Int.{ℤ, pos}
use checker_olimp.Text.{Text, lit, text_eq, has_prefix, c_str, c_str-c_str}
use checker_olimp.Text.Decimal.{digits, of_nat, of_int}
use checker_olimp.Contester.Database.{MySql, Row, field_text}
use checker_olimp.Contester.Data.Stored.{
  lang_row, ch_test_row, ch_group_row, task_row, id_row, id_rows, Selects, HoldsTask, HoldsLang,
}
use checker_olimp.Contester.Numbers.Laws.{IsInt}
use checker_olimp.Contester.Solution.{Solution, status_not_checked, status_checked}
use checker_olimp.Contester.Solution.Stored.{solution_sql, solution_row, HoldsSolution, Numbers}
use checker_olimp.Simulation.{Machine}
use checker_olimp.Tests.Contest.{language, first_test, group, task, sent}
use checker_olimp.Tests.Tables.{Rows, raw, answers, answer, table_mysql}

abbrev status_of : Option Text → ℤ
status_of none = status_not_checked
status_of (some _) = status_checked

abbrev result_of : Option Text → Text
result_of none = []
result_of (some result) = c_str result

abbrev pub entry : ℤ → Option Text → Solution
entry id result = record sent { id = id; status = status_of result; result = result_of result }

abbrev pub board : Machine → List Solution
board m = entry (pos 7) m.first_result ∷ entry (pos 8) m.second_result ∷ []

abbrev pub open_ids : Option Text → Option Text → List ℤ
open_ids none none = pos 7 ∷ pos 8 ∷ []
open_ids none (some _) = pos 7 ∷ []
open_ids (some _) none = pos 8 ∷ []
open_ids (some _) (some _) = []

abbrev pub open_rows : List ℤ → Rows
open_rows ids = map (map (λ t. some t)) (id_rows ids)

-- What is selected; the other tables answer for themselves.
abbrev pub select : (Text → Rows) → Machine → Text → Rows
select others m sql =
    if text_eq sql (solution_sql ++ lit "7")
    then raw (solution_row (entry (pos 7) m.first_result))
    else if text_eq sql (solution_sql ++ lit "8")
    then raw (solution_row (entry (pos 8) m.second_result))
    else if text_eq sql (lit "select id from solutions where status = 0 limit 10")
    then open_rows (open_ids m.first_result m.second_result)
    else others sql

-- The parts of a text at its first quote.
abbrev pub before_quote : Text → Text
before_quote [] = []
before_quote (c ∷ s) = let rest = before_quote s in if c == 39 then [] else c ∷ rest

abbrev pub after_quote : Text → Text
after_quote [] = []
after_quote (c ∷ s) = let rest = after_quote s in if c == 39 then s else rest

abbrev pub update : Text
update = lit "UPDATE solutions SET result = '"

abbrev change : Text → Machine → Machine
change text m =
    if text_eq (after_quote text) (lit ", status = 1 WHERE id = 7")
    then record m { first_result = some (before_quote text) }
    else if text_eq (after_quote text) (lit ", status = 1 WHERE id = 8")
    then record m { second_result = some (before_quote text) }
    else m

-- The database whose other tables answer so.
abbrev pub database : (Text → Rows) → MySql Machine
database others = record table_mysql {
  query = λ sql m.
      if has_prefix update sql
      then (true, change (drop 31 sql) m)
      else (true, record m { pending = select others m sql ∷ m.pending });
}

pub before_quote-append : (s t : Text) → All (λ c. c ≢ 39) s → before_quote (s ++ (39 ∷ t)) ≡ s
before_quote-append [] t h = refl
before_quote-append (c ∷ s) t h = ground (arith, before_quote-append s t h.1)

pub after_quote-append : (s t : Text) → All (λ c. c ≢ 39) s → after_quote (s ++ (39 ∷ t)) ≡ t
after_quote-append [] t h = refl
after_quote-append (c ∷ s) t h = ground (arith, after_quote-append s t h.1)

pub selected :
    (others : Text → Rows) (m : Machine) (sql : Text) (rows : Rows)
    → has_prefix update (c_str sql) ≡ false
    → select others m (c_str sql) ≡ rows
    → Selects (database others) m sql (map (map field_text) rows)
selected others m sql rows p e = record {
  asked = record m { pending = rows ∷ m.pending };
  result = rows;
  accepted = rw p (ap (λ r. (true, record m { pending = r ∷ m.pending })) e);
  fetched = refl;
  texts = refl;
}

pub row_texts :
    (id : ℤ) (a : Option Text)
    → c_str (of_int id) ≡ of_int id
    → map (map field_text) (raw (solution_row (entry id a))) ≡ solution_row (entry id a) ∷ []
unfolding c_str of_int of_nat digits
row_texts id none e = rw e refl
row_texts id (some r) e = rw (e, c_str-c_str r) refl

status_IsInt : (a : Option Text) → IsInt (status_of a)
status_IsInt none = omega arith
status_IsInt (some _) = omega arith

-- The rows that a query selects, with their texts.
pub found :
    (others : Text → Rows) (m : Machine) (sql : Text) (rows : Rows) (texts : List Row)
    → has_prefix update (c_str sql) ≡ false
    → select others m (c_str sql) ≡ rows
    → map (map field_text) rows ≡ texts
    → Selects (database others) m sql texts
found others m sql rows texts p e t = rw (← t) (selected others m sql rows p e)

pub entry-Numbers : (id : ℤ) (a : Option Text) → IsInt id → Numbers (entry id a)
entry-Numbers id a fits = (
  fits,
  (omega arith, (omega arith, (omega arith, (omega arith, (status_IsInt a, (omega arith, tt)))))),
)

-- The tables that belong to the solutions are there.
abbrev pub full : Text → Rows
full = answer (drop 1 answers)

abbrev pub board_mysql : MySql Machine
board_mysql = database full

-- The other tables are as these, but for the tests of the second solution.
abbrev pub Agrees : (Text → Rows) → Type 0
Agrees others =
    (sql : Text)
    → text_eq sql (lit "select id from tests where sid = 8") ≡ false
    → others sql ≡ full sql

pub task-Holds :
    (others : Text → Rows) (m : Machine) → Agrees others → HoldsTask (database others) m task
unfolding text_eq has_prefix c_str of_int of_nat digits
task-Holds others m agree = (
  ([], selected others m _ (raw (task_row task)) refl (agree _ refl)),
  omega arith,
  omega arith,
  omega arith,
  omega arith,
  (selected others m _ (raw (id_row (pos 4))) refl (agree _ refl), omega arith),
  (
    (
      ([], selected others m _ (raw (ch_group_row group)) refl (agree _ refl)),
      omega arith,
      omega arith,
      omega arith,
      omega arith,
      (selected others m _ (raw (id_row (pos 5))) refl (agree _ refl), omega arith),
      (
        (
          ([], selected others m _ (raw (ch_test_row first_test)) refl (agree _ refl)),
          omega arith,
          omega arith,
          omega arith,
        ),
        tt,
      ),
    ),
    tt,
  ),
)

pub lang-Holds :
    (others : Text → Rows) (m : Machine) → Agrees others → HoldsLang (database others) m language
unfolding text_eq has_prefix c_str of_int of_nat digits
lang-Holds others m agree =
    (([], selected others m _ (raw (lang_row language)) refl (agree _ refl)), omega arith)

held_entry :
    (others : Text → Rows) (m : Machine) (id : ℤ) (a : Option Text)
    → Agrees others
    → IsInt id
    → Selects (database others) m (solution_sql ++ of_int id) (solution_row (entry id a) ∷ [])
    → Selects (database others) m (lit "select id from tests where sid = " ++ of_int id) []
    → HoldsSolution (database others) m (entry id a)
held_entry others m id a agree fits row tests = record {
  row = ([], row);
  numbers = entry-Numbers id a fits;
  its_task = refl;
  task_held = task-Holds others m agree;
  its_lang = refl;
  lang_held = lang-Holds others m agree;
  listed = (tests, tt);
  tests_held = tt;
}

pub held_first :
    (others : Text → Rows) (m : Machine)
    → Agrees others
    → HoldsSolution (database others) m (entry (pos 7) m.first_result)
unfolding text_eq has_prefix c_str of_int of_nat digits
held_first others m agree =
    held_entry others m (pos 7) m.first_result agree (omega arith)
      (found others m _ _ _ refl refl (row_texts (pos 7) m.first_result refl))
      (selected others m _ [] refl (agree _ refl))

pub held_second : (m : Machine) → HoldsSolution board_mysql m (entry (pos 8) m.second_result)
unfolding text_eq has_prefix c_str of_int of_nat digits
held_second m =
    held_entry full m (pos 8) m.second_result (λ sql h. refl) (omega arith)
      (found full m _ _ _ refl refl (row_texts (pos 8) m.second_result refl))
      (selected full m _ [] refl refl)
