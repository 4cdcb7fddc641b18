-- ===== src/Tests/View.antt =====
-- The view of the database's solutions.
use checker_olimp.Base.{
  ◌≡◌, refl, arith, Option, none, some, List, [], ◌∷◌, ◌++◌, map, All, inl, inr, length, Bool-cases,
}
use checker_olimp.Base.Int.{pos}
use checker_olimp.Text.{Text, lit, text_eq, has_prefix, c_str}
use checker_olimp.Text.Decimal.{digits, of_nat, of_int}
use checker_olimp.System.{Shell}
use checker_olimp.Contester.Data.Stored.{id_rows, Lists}
use checker_olimp.Contester.Database.{field_text}
use checker_olimp.Contester.Numbers.Laws.{IsInt}
use checker_olimp.Contester.Solution.{Solution}
use checker_olimp.Text.Find.{text_eq→eq}
use checker_olimp.Contester.Checker.{content_or_empty}
use checker_olimp.Contester.Queue.{keys, Distinct, at_most, IsWaiting, waiting_count}
use checker_olimp.Contester.Tables.{IsPlain, Same, not_checked_sql, TableView}
use checker_olimp.Simulation.{Machine, machine_shell, lookup, without, lookup-without}
use checker_olimp.Tests.Tables.{Rows}
use checker_olimp.Tests.Progress.{quiet_system}
use checker_olimp.Tests.Board.{entry, board, open_ids, database, found, open_rows}
use checker_olimp.Tests.Updates.{IsReady, board_updated}

abbrev entries : Option Text → Option Text → List Solution
entries a b = entry (pos 7) a ∷ entry (pos 8) b ∷ []

pub open-Distinct : (a b : Option Text) → Distinct (open_ids a b)
open-Distinct none none = ((λ e. cc, tt), (tt, tt))
open-Distinct none (some _) = (tt, tt)
open-Distinct (some _) none = (tt, tt)
open-Distinct (some _) (some _) = tt

pub open-IsWaiting : (a b : Option Text) → All (λ id. IsWaiting id (entries a b)) (open_ids a b)
open-IsWaiting none none = (inl (refl, refl), (inr (inl (refl, refl)), tt))
open-IsWaiting none (some _) = (inl (refl, refl), tt)
open-IsWaiting (some _) none = (inr (inl (refl, refl)), tt)
open-IsWaiting (some _) (some _) = tt

pub open_count :
    (a b : Option Text) → length (open_ids a b) ≡ at_most 10 (waiting_count (entries a b))
open_count none none = refl
open_count none (some _) = refl
open_count (some _) none = refl
open_count (some _) (some _) = refl

open_fits : (a b : Option Text) → All IsInt (open_ids a b)
open_fits none none = omega arith
open_fits none (some _) = omega arith
open_fits (some _) none = omega arith
open_fits (some _) (some _) = tt

open_texts :
    (a b : Option Text) → map (map field_text) (open_rows (open_ids a b)) ≡ id_rows (open_ids a b)
unfolding c_str of_int of_nat digits
open_texts none none = refl
open_texts none (some _) = refl
open_texts (some _) none = refl
open_texts (some _) (some _) = refl

pub open_listed :
    (others : Text → Rows) (m : Machine)
    → Lists (database others) m not_checked_sql (open_ids m.first_result m.second_result)
unfolding text_eq has_prefix c_str of_int of_nat digits
open_listed others m = (
  found others m _ _ _ refl refl (open_texts m.first_result m.second_result),
  open_fits m.first_result m.second_result,
)

pub board-Distinct : (m : Machine) → Distinct (keys (board m))
board-Distinct m = ((λ e. cc, tt), (tt, tt))

-- A file that is removed is missing, and any other is as it was.
removed : (path : Text) (files : List (Text × Text)) → lookup path (without path files) ≡ none
removed path [] = refl
removed path (f ∷ files) = elim (Bool-cases (text_eq path f.0)) [
  | inl same ↦ rw (same, removed path files) refl
  | inr other ↦ rw other (rw (other, removed path files) refl)
]

pub IsPlain-without :
    (path other : Text) (files : List (Text × Text))
    → IsPlain (content_or_empty (lookup path files))
    → IsPlain (content_or_empty (lookup path (without other files)))
IsPlain-without path other files h = elim (Bool-cases (text_eq path other)) [
  | inl same ↦ rw (← text_eq→eq path other same, removed path files) tt
  | inr apart ↦ rw (lookup-without path other files apart) h
]

abbrev pub StaysReady : (Machine → Machine) → Type 0
StaysReady f = (m : Machine) → IsReady m → Same IsReady board m (f m)

pub write_keeps :
    (ending text : Text) (m : Machine)
    → IsReady m
    → Same IsReady board m (quiet_system.write_file (lit "solution" ++ ending) text m).1
unfolding text_eq
write_keeps ending text m up = record {
  up = IsPlain-without (lit "result.json") (lit "solution" ++ ending) m.files up;
  kept = refl;
}

pub IsPlain-result :
    (m : Machine)
    → IsReady m
    → IsPlain (content_or_empty (quiet_system.read_file (lit "result.json") m))
unfolding text_eq
IsPlain-result m up = up

-- The view, with a shell whose command and clock keep it.
abbrev pub board_view :
    (others : Text → Rows) (H : Shell Machine)
    → ((line : Text) → StaysReady (H.run_command line))
    → StaysReady (λ m. (H.clock m).1)
    → TableView quiet_system H (database others)
board_view others H command_keeps clock_keeps = record {
  IsUp = IsReady;
  plain_result = IsPlain-result;
  view = board;
  distinct = λ m _. board-Distinct m;
  chosen = λ m. open_ids m.first_result m.second_result;
  listed = λ m _. open_listed others m;
  chosen_distinct = λ m _. open-Distinct m.first_result m.second_result;
  chosen_waiting = λ m _. open-IsWaiting m.first_result m.second_result;
  chosen_count = λ m _. open_count m.first_result m.second_result;
  updated = board_updated others;
  write_keeps = write_keeps;
  remove_keeps =
      λ path m up. record { up = IsPlain-without (lit "result.json") path m.files up; kept = refl };
  command_keeps = command_keeps;
  clock_keeps = clock_keeps;
  print_keeps = λ text m up. record { up = up; kept = refl };
  sleep_keeps = λ time m up. record { up = up; kept = refl };
}

-- A shell whose command leaves an empty object in the result file.
abbrev pub verdict_shell : Shell Machine
verdict_shell = record machine_shell {
  run_command = λ line m. (quiet_system.write_file (lit "result.json") (lit "{}") m).1;
}

IsPlain-object : IsPlain (lit "{}")
IsPlain-object = omega arith

pub verdict_keeps : (line : Text) → StaysReady (verdict_shell.run_command line)
unfolding text_eq
verdict_keeps line m up = record { up = IsPlain-object; kept = refl }

pub verdict_clock : StaysReady (λ m. (verdict_shell.clock m).1)
verdict_clock m up = record { up = up; kept = refl }

abbrev pub verdict_view :
    (others : Text → Rows) → TableView quiet_system verdict_shell (database others)
verdict_view others = board_view others verdict_shell verdict_keeps verdict_clock
