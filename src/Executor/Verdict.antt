-- ===== src/Executor/Verdict.antt =====
-- What the `request` that `executor::execute` returns says of the run.
use checker_olimp.Base.{
  ℕ, ◌≤◌, ◌<◌, ◌≡◌, ◌⊎◌, inl, inr, refl, none, some, Bool, [], Option-cases, Bool-cases, arith,
}
use checker_olimp.Text.{Text, c_str}
use checker_olimp.Effect.{resume}
use checker_olimp.Effect.Laws.{Post, returned, Post-step, Post-value, Post-bind}
use checker_olimp.System.{System}
use checker_olimp.Words.{max_word}
use checker_olimp.Executor.{
  RequestType, correct, crash, tle, mle, nif, cpf, cctf, Watched, Executor, conclude, run_child,
  execute, create_child_process, fresh_report, remove_in_out_files, make_input_file,
}
use checker_olimp.Executor.Limits.{IsLate, Justifies, watch-IsJustified}

module _ (S : System) (e : Executor S) (quest : Text) (s₀ : S.State) where
  -- A run for the input, from the state on: the old files are removed, the input is written, the
  -- process is created, and the clock is started.
  abbrev written : Bool × S.State
  written =
      S.write_file e.input_file_path quest
        (S.remove_file (c_str e.output_file_path) (S.remove_file (c_str e.input_file_path) s₀))

  abbrev created : Bool × S.Handle × S.Handle × S.State
  created =
      S.create_process (some (c_str e.executable_file_path)) none
        (some (c_str e.executable_file_directory)) written.1

  abbrev clock_started : ℕ × S.State
  clock_started = S.tick_count created.3

  -- By the verdict: the time, the memory and the output in the report. Only a correct run has an
  -- output, which is the content of the output file at the end; runs that could not be started, and one
  -- without an output file, have used nothing.
  abbrev pub Accounts : RequestType → ℕ → ℕ → Text → S.State → Type 0
  Accounts correct time memory report s =
      (time ≤ e.time_limit)
      × (memory ≤ e.memory_limit)
      × (S.read_file e.output_file_path s ≡ some report)
  Accounts crash time memory report _ =
      (time ≤ e.time_limit) × (memory ≤ e.memory_limit) × (report ≡ [])
  Accounts tle time memory report _ =
      (IsLate S created.1 e.time_limit clock_started.0 clock_started.1 time)
      × (memory ≤ e.memory_limit)
      × (report ≡ [])
  Accounts mle time memory report _ =
      (time ≤ e.time_limit) × ((memory ≡ max_word) ⊎ (e.memory_limit < memory)) × (report ≡ [])
  Accounts nif time memory report s =
      (time ≡ 0) × (memory ≡ 0) × (report ≡ []) × (S.read_file e.output_file_path s ≡ none)
  Accounts cpf time memory report _ = (time ≡ 0) × (memory ≡ 0) × (report ≡ [])
  Accounts cctf time memory report _ = (time ≡ 0) × (memory ≡ 0) × (report ≡ [])

  abbrev pub IsAccount : Executor S → S.State → Type 0
  IsAccount e' s =
      let r = e'.request_report in Accounts r.verdict r.time_out r.memory r.report_program s

  -- The object while the program runs.
  abbrev started : Executor S
  started = record e { request_report = fresh_report S; process = created.1; thread = created.2 }

  conclude-IsAccount :
      (v : RequestType) (w : Watched) (s : S.State)
      → Justifies S started clock_started.0 clock_started.1 v w.work_time w.memory
      → Post IsAccount (conclude S v w started s)
  unfolding conclude resume
  conclude-IsAccount correct w s h = elim (Option-cases (S.read_file e.output_file_path s)) [
    | inl missing ↦ rw missing (returned (refl, refl, refl, missing))
    | inr (text, found) ↦ rw found (returned (h.0, h.1, found))
  ]
  conclude-IsAccount crash w s h = returned (h.0, h.1, refl)
  conclude-IsAccount tle w s h = returned (h.0, h.1, refl)
  conclude-IsAccount mle w s h = returned (h.0, h.1, refl)
  conclude-IsAccount nif w s h = absurd h
  conclude-IsAccount cpf w s h = absurd h
  conclude-IsAccount cctf w s h = absurd h

  run_child-IsAccount : (fuel : ℕ) → Post IsAccount (run_child S fuel started created.3)
  unfolding run_child
  run_child-IsAccount fuel = Post-value _ (
      Post-bind
        (watch-IsJustified S started clock_started.0 fuel 0 0 clock_started.1 (omega arith)
          (omega arith))
        λ w s₁ h. Post-step _ λ _ s₂. Post-step _ λ _ s₃. conclude-IsAccount w.verdict w s₃ h)

  pub execute-IsAccount : (fuel : ℕ) → Post IsAccount (execute S fuel quest e s₀)
  unfolding execute create_child_process remove_in_out_files make_input_file resume
  execute-IsAccount fuel = elim (Bool-cases written.0) [
    | inr unmade ↦ rw unmade (returned (refl, refl, refl))
    | inl made ↦ rw made (elim (Bool-cases created.0) [
      | inl runs ↦ rw runs (run_child-IsAccount fuel)
      | inr fails ↦ rw fails (returned (refl, refl, refl))
    ])
  ]
