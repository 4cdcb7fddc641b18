-- ===== src/Main/Laws.antt =====
-- The result of a run: what `serizlize` writes determines the verdict, and `main` writes the verdict
-- of `check`.
use checker_olimp.Base.{
  ℕ, ◌≡◌, refl, Option, none, some, ◌&&◌, if◌then◌else◌, List, [], ◌∷◌, ◌++◌, map,
}
use mathlib.Core.Option
use checker_olimp.Text.{Text, c_str, lit, text_eq}
use checker_olimp.Effect.{ok}
use checker_olimp.Effect.Laws.{Post, returned, Post-step, Post-bind, Post-value}
use checker_olimp.System.{System}
use checker_olimp.Json.{
  Json, Event, start_object, end_object, start_array, end_array, string, uint64, int,
}
use checker_olimp.Judge.{ReportElem, Verdict}
use checker_olimp.Judge.Report.{IsVerdict, check-IsVerdict}
use checker_olimp.Config.{MainConfig, new_problem_store, read_main_config}
use checker_olimp.Main.{elem_events, report_events, verdict_events, serizlize, main}

-- A reader of the calls, independent of the writer: it goes by the keys and by the kinds of the
-- values.
pub read_report : List Event → Option (List ReportElem)
read_report
      (start_object
        ∷ string k_id
        ∷ uint64 id
        ∷ string k_result
        ∷ string result
        ∷ string k_time
        ∷ uint64 time
        ∷ string k_memory
        ∷ uint64 memory
        ∷ string k_score
        ∷ int score
        ∷ end_object
        ∷ es) =
    let rest = read_report es in
    if text_eq k_id (lit "id")
      && text_eq k_result (lit "result")
      && text_eq k_time (lit "time")
      && text_eq k_memory (lit "memory")
      && text_eq k_score (lit "score")
    then Option.map
        (◌∷◌ (record { id = id; result = result; time = time; memory = memory; score = score }))
        rest
    else none
read_report (end_array ∷ end_object ∷ []) = some []
read_report _ = none

pub read_verdict : List Event → Option Verdict
read_verdict
      (start_object
        ∷ string k_status
        ∷ string status
        ∷ string k_error
        ∷ string error_msg
        ∷ string k_report
        ∷ start_array
        ∷ es) =
    if text_eq k_status (lit "status")
      && text_eq k_error (lit "error_msg")
      && text_eq k_report (lit "report")
    then Option.map (λ report. record { status = status; error_msg = error_msg; report = report })
        (read_report es)
    else none
read_verdict _ = none

-- The texts up to their first NUL.
abbrev pub clip_elem : ReportElem → ReportElem
clip_elem r = record r { result = c_str r.result }

abbrev pub clip : Verdict → Verdict
clip v = record {
  status = c_str v.status;
  error_msg = c_str v.error_msg;
  report = map clip_elem v.report;
}

read_report-report_events :
    (rs : List ReportElem)
    → read_report (report_events rs ++ (end_array ∷ end_object ∷ [])) ≡ some (map clip_elem rs)
unfolding report_events elem_events read_report text_eq
read_report-report_events [] = refl
read_report-report_events (r ∷ rs) = rw (read_report-report_events rs)

-- A reader that goes by the keys and the kinds of the values gets the verdict back from the calls
-- that write it, with each text up to its first NUL.
pub read_verdict-verdict_events : (v : Verdict) → read_verdict (verdict_events v) ≡ some (clip v)
unfolding verdict_events read_verdict text_eq
read_verdict-verdict_events v = rw (read_report-report_events v.report)

module _ (S : System) (J : Json) (fuel : ℕ) where
  -- What a run of the program leaves: a verdict of the configuration that was read, put to the result
  -- file, as the last thing done.
  pub data IsRun (source_name result_name : Text) : ℕ → S.State → Type 0 where
    is_run :
        (config : MainConfig) (v : Verdict) (s₀ s₁ s : S.State) (path directory : Text)
        → read_main_config S J path new_problem_store s₀ ≡ (ok config, s₁)
        → IsVerdict S fuel directory (c_str source_name) config v
        → IsRun source_name result_name 0
            (S.write_file (c_str result_name) (serizlize S J v ++ (10 ∷ [])) s).1

  -- If `main` with four arguments returns, its status is 0, and the last thing done is to write the
  -- verdict of a configuration that was read, as `serizlize` prints it and a newline, to the result
  -- file.
  pub main-IsRun :
      (config profile source result : Text) (s : S.State)
      → Post (IsRun source result) (main S J fuel (config ∷ profile ∷ source ∷ result ∷ []) s)
  unfolding main
  main-IsRun config profile source result s = Post-step _ λ path s₁. Post-step _ λ full s₂.
      Post-bind (check-IsVerdict S fuel full (c_str source) J path s₂)
        λ v s₃ h. Post-value _ (returned (is_run h.0 v s₂ h.1 s₃ path full h.2 h.3))
