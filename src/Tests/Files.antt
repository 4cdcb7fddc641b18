-- ===== src/Tests/Files.antt =====
-- Paths, files, comparisons and the configuration.
use checker_olimp.Base.{◌≤◌, ◌≡◌, ◌↔◌, refl, true, some, [], ◌∷◌, Any, arith}
use checker_olimp.Text.{Text, lit, text_eq, c_str}
use checker_olimp.Effect.{ok}
use checker_olimp.Effect.Laws.{Guarded}
use checker_olimp.System.{FileTime}
use checker_olimp.Paths.{get_directory_and_file}
use checker_olimp.Paths.Laws.{Names, SplitsAs, get_directory_and_file_iff}
use checker_olimp.Matcher.{wnl, answers_match}
use checker_olimp.Matcher.Laws.{Agrees, answers_match_iff}
use checker_olimp.Config.{new_problem_store, read_main_config}
use checker_olimp.Config.Safety.{AnyValue}
use checker_olimp.Config.Guards.{ObjectTests, read_main_config-Guarded}
use checker_olimp.Config.Space.{delete_first_space, IsRest, delete_first_space_iff}
use checker_olimp.TestReader
use checker_olimp.TestReader.{TestElement, new_test_element}
use checker_olimp.TestReader.Laws.{Contents, read_iff}
use checker_olimp.Executor.Time.{
  IsFileTime, kernel_plus_user_time, kernel_plus_user_time_exact, kernel_plus_user_time_bound,
}
use checker_olimp.Simulation.{machine_system}
use checker_olimp.Simulation.Values.{is_object}
use checker_olimp.Tests.Settings.{small_json, small_json-IsChecked, small-ObjectTests}
use checker_olimp.Tests.{machine}

get_directory_and_file_iff_example :
    (get_directory_and_file machine_system (lit "d\\f") machine ≡ (ok (lit "d", lit "f"), machine))
    ↔ ((full : Text) × Names machine_system (lit "d\\f") machine full
        × SplitsAs full (lit "d") (lit "f"))
unfolding c_str
get_directory_and_file_iff_example =
    get_directory_and_file_iff machine_system (lit "d\\f") machine (lit "d") (lit "f")

answers_match_iff_example :
    (answers_match (lit "3\n") (lit "2" ∷ lit "3" ∷ []) wnl ≡ true)
    ↔ Any (Agrees wnl (lit "3\n")) (lit "2" ∷ lit "3" ∷ [])
answers_match_iff_example = answers_match_iff (lit "3\n") (lit "2" ∷ lit "3" ∷ []) wnl

abbrev element : TestElement
element = record { quest = lit "1 2"; answer_list = lit "3" ∷ [] }

read_iff_example :
    (TestReader.read machine_system (lit "1.in") (lit "1.out" ∷ []) new_test_element machine
      ≡ (ok element, machine))
    ↔ ((some (lit "1 2") ≡ some (lit "1 2"))
        × Contents machine_system machine (lit "1.out" ∷ []) (lit "3" ∷ []))
unfolding text_eq
read_iff_example =
    read_iff machine_system machine (lit "1.in") (lit "1.out" ∷ []) new_test_element element

abbrev short : FileTime
short = record { low = 40000; high = 0 }

abbrev long : FileTime
long = record { low = 1; high = 7 }

short-IsFileTime : IsFileTime short
short-IsFileTime = record { low_fits = omega arith; high_fits = omega arith }

kernel_plus_user_time_exact_example : kernel_plus_user_time short short ≡ 8
kernel_plus_user_time_exact_example =
    kernel_plus_user_time_exact short short short-IsFileTime short-IsFileTime (omega arith)
      (omega arith)

kernel_plus_user_time_bound_example : kernel_plus_user_time long long ≤ 858992
kernel_plus_user_time_bound_example = kernel_plus_user_time_bound long long

shaped :
    (content : Text)
    → machine_system.read_file (lit "config") machine ≡ some content
    → (is_object (small_json.parse (c_str content)) ≡ true)
      × ObjectTests machine_system small_json small_json-IsChecked
          (small_json.parse (c_str content))
shaped content e = (refl, small-ObjectTests machine_system)

read_main_config-Guarded_example :
    Guarded AnyValue
      (read_main_config machine_system small_json (lit "config") new_problem_store machine)
read_main_config-Guarded_example =
    read_main_config-Guarded machine_system small_json small_json-IsChecked (lit "config")
      new_problem_store machine shaped

delete_first_space_iff_example :
    (delete_first_space (lit " \ta b") ≡ some (lit "a b")) ↔ IsRest (lit " \ta b") (lit "a b")
delete_first_space_iff_example = delete_first_space_iff (lit " \ta b") (lit "a b")
