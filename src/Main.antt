-- ===== src/Main.antt =====
-- checker_rc/checker.cpp: `serizlize`, and checker_rc/main.cpp.
pub mod Laws
pub mod Progress
pub mod Complete
use checker_olimp.Base.{ℕ, Bool, true, false, Option, none, some, List, [], ◌∷◌, ◌++◌}
use checker_olimp.Base.Int.{ℤ}
use checker_olimp.Text.{Text, lit, c_str}
use checker_olimp.Effect.{Action, pure, call, halt, exit, ◌>>=◌, ◌>>◌}
use checker_olimp.System.{System}
use checker_olimp.Json.{
  Json, Event, start_object, end_object, start_array, end_array, string, uint64, int,
}
use checker_olimp.Assert.{checker_assert}
use checker_olimp.Paths.{get_full_path_name}
use checker_olimp.Judge.{ReportElem, Verdict, check}

-- The calls of the writer for one element of the report.
unfoldable pub elem_events : ReportElem → List Event
elem_events r =
    start_object
    ∷ string (lit "id")
    ∷ uint64 r.id
    ∷ string (lit "result")
    ∷ string (c_str r.result)
    ∷ string (lit "time")
    ∷ uint64 r.time
    ∷ string (lit "memory")
    ∷ uint64 r.memory
    ∷ string (lit "score")
    ∷ int r.score
    ∷ end_object
    ∷ []

unfoldable pub report_events : List ReportElem → List Event
unfolding elem_events
report_events [] = []
report_events (r ∷ rs) = elem_events r ++ report_events rs

unfoldable pub verdict_events : Verdict → List Event
unfolding report_events
verdict_events v =
    start_object
    ∷ string (lit "status")
    ∷ string (c_str v.status)
    ∷ string (lit "error_msg")
    ∷ string (c_str v.error_msg)
    ∷ string (lit "report")
    ∷ start_array
    ∷ (report_events v.report ++ (end_array ∷ end_object ∷ []))

abbrev pub main_cpp : Text
main_cpp = lit "main.cpp"

module _ (S : System) (J : Json) where
  unfoldable pub serizlize : Verdict → Text
  unfolding verdict_events
  serizlize v = c_str (J.render (verdict_events v))

  -- `main`, with the arguments that follow the program's name. The result is the exit status; that
  -- the result file could not be written goes unnoticed.
  unfoldable pub main : ℕ → List Text → Action S.State ℕ
  unfolding serizlize
  main fuel (config ∷ profile ∷ source_name ∷ result_name ∷ []) = do
    main_config_file_path ← get_full_path_name S (c_str config)
    profile_path ← get_full_path_name S (c_str profile)
    v ← check S J fuel main_config_file_path profile_path (c_str source_name)
    written ← call (S.write_file (c_str result_name) (serizlize v ++ (10 ∷ [])))
    pure 0
  main fuel _ = do checker_assert S false main_cpp 22; pure 0
