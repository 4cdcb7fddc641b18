-- ===== src/Tool/Termination.antt =====
-- A run of a tool ends, by the clock if by nothing else; one that was never started ends with 0.
use checker_olimp.Base.{
  ℕ, zero, suc, ◌+◌, ◌*◌, ◌/◌, ◌%◌, ◌≤◌, ◌<◌, ◌≡◌, ◌≢◌, inl, inr, refl, Bool, true, false, none,
  some, ◌==◌, Bool-cases, Option-cases, arith,
}
use checker_olimp.Base.Int.{pos}
use checker_olimp.Text.{Text, c_str}
use checker_olimp.Effect.{value_of, resume, call, ◌>>=◌}
use checker_olimp.Effect.Laws.{
  Returns, returns, Returns-bind, Returns-value, Returns-Post, Returns-weaken,
}
use checker_olimp.System.{System}
use checker_olimp.Words.{word, sub_word}
use checker_olimp.Executor.{is_over_time}
use checker_olimp.Executor.Time.{kernel_plus_user_time}
use checker_olimp.Executor.Clock.{IsTimed, Answers, Prompt, in_time-early, InRange, enough}
use checker_olimp.Tool.Laws.{Code, run_tool-IsCode}
use checker_olimp.Tool.{tool_limit, keep_or, return_code, kill_tool, watch_tool, run_tool}

module _ (S : System) (T : IsTimed S) (process : S.Handle) (A : Answers S process) where
  open T use {elapsed, call_limit}

  times-Returns :
      (s : S.State) → Returns (Prompt S T s) ((call (S.process_times process) >>= value_of) s)
  unfolding resume
  times-Returns s = elim (Option-cases (S.process_times process s).0) [
    | inl failed ↦ absurd (A.times s failed)
    | inr (c, e₁) ↦ rw e₁ (returns (T.times_later process s, T.times_prompt process s))
  ]

  kill_tool-Returns : (s : S.State) → Returns (λ _ _. Unit {0}) (kill_tool S process s)
  unfolding kill_tool resume
  kill_tool-Returns s = elim (Option-cases (S.exit_code_process process s).0) [
    | inl failed ↦ absurd (A.exit_code s failed)
    | inr (c, e₁) ↦ rw e₁ (elim (Bool-cases (c == S.still_active)) [
      | inl active ↦ rw active (returns tt)
      | inr gone ↦ rw gone (returns tt)
    ])
  ]

  module _ (origin : ℕ) where
    abbrev latest : ℕ
    latest = origin + (tool_limit + 2049) * 1000000 + 2 * call_limit

    watch_tool-Returns :
        (fuel exit_code : ℕ) (s : S.State)
        → InRange S T tool_limit
        → origin ≤ elapsed s
        → elapsed s ≤ latest
        → latest < fuel + elapsed s
        → Returns
            (λ _ _. Unit {0})
            (watch_tool S process (origin / 1000000 % word) fuel exit_code s)
    unfolding watch_tool
    watch_tool-Returns zero exit_code s fits h l f = absurd (omega arith)
    watch_tool-Returns (suc fuel) exit_code s fits h l f =
        let s₁ = (S.exit_code_process process s).1 in
        let p₁ = T.exit_code_later process s in
        let q₁ = T.exit_code_prompt process s in
        let old = keep_or exit_code (S.exit_code_process process s).0 in
        Returns-value _ (elim (Bool-cases (old == S.still_active)) [
          | inr stopped ↦ rw stopped (returns tt)
          | inl active ↦ rw active (
              Returns-bind (times-Returns s₁) λ times s₂ p₂.
                Returns-value _
                  (elim (Bool-cases (
                    is_over_time tool_limit (kernel_plus_user_time times.0 times.1)
                      (sub_word (S.tick_count s₂).0 (origin / 1000000 % word)))) [
                        | inl late ↦
                            rw late (Returns-bind (kill_tool-Returns _) λ _ s₃ _. returns tt)
                        | inr in_time ↦ rw in_time (
                            watch_tool-Returns fuel old _ fits
                              (omega (arith, p₁, p₂, T.tick_advances s₂))
                              (omega (
                                arith,
                                p₁,
                                q₁,
                                p₂,
                                T.tick_prompt s₂,
                                in_time-early S T tool_limit origin _ s₂ (omega (arith, p₁, p₂))
                                    (omega (arith, q₁, p₂)) in_time,
                              ))
                              (omega (arith, p₁, p₂, T.tick_advances s₂)))
                      ]))
        ])

watch_tool-silent :
    (S : System) (process : S.Handle) (time_start fuel : ℕ) (s : S.State)
    → (S.exit_code_process process s).0 ≡ none
    → S.still_active ≢ 0
    → Returns (λ code _. code ≡ pos 0) (watch_tool S process time_start (suc fuel) 0 s)
unfolding watch_tool return_code
watch_tool-silent S process time_start fuel s silent active =
    let inactive : (0 == S.still_active) ≡ false = ground arith in
    Returns-value _ (rw silent (rw inactive (rw silent (returns refl))))

module _ (S : System) (command : Text) where
  -- `CreateProcess` for the tool.
  abbrev pub created : S.State → Bool × S.Handle × S.Handle × S.State
  created s = S.create_process none (some (c_str command)) none s

  -- A process that was created answers; the handle of one that was not never does.
  pub record IsProcess : Type 0 where
    pub answers : (s : S.State) → (created s).0 ≡ true → Answers S (created s).1
    pub silent :
        (s s' : S.State) → (created s).0 ≡ false → (S.exit_code_process (created s).1 s').0 ≡ none

  -- A tool that could not be started is reported with the code 0, that of an accepted answer.
  -- Conditions: the handle of a process that was not created never answers (IsProcess), the mark of
  -- an active process is not 0, and the loop has one round.
  pub run_tool-unstarted :
      (fuel : ℕ) (s : S.State)
      → IsProcess
      → S.still_active ≢ 0
      → (created s).0 ≡ false
      → Returns (λ code _. code ≡ pos 0) (run_tool S (suc fuel) command s)
  unfolding run_tool
  run_tool-unstarted fuel s P active failed = Returns-value _ (
      Returns-value _ (
        Returns-bind (watch_tool-silent S _ _ fuel _ (P.silent s _ failed) active)
          λ code s₁ e. Returns-value _ (Returns-value _ (returns e))))

  runs-Returns :
      (fuel : ℕ) (s : S.State) (T : IsTimed S)
      → Answers S (created s).1
      → InRange S T tool_limit
      → enough S T tool_limit ≤ fuel
      → Returns (λ _ _. Unit {0}) (run_tool S fuel command s)
  unfolding run_tool
  runs-Returns fuel s T A fits f =
      let s₁ = (created s).3 in
      Returns-value _ (
        Returns-value _ (
          rw (T.tick s₁) (
            Returns-bind
              (watch_tool-Returns S T (created s).1 A (T.elapsed s₁) fuel 0 _ fits
                (omega (arith, T.tick_advances s₁)) (omega (arith, T.tick_prompt s₁))
                (omega (arith, T.tick_advances s₁)))
              λ code s₂ _. Returns-value _ (Returns-value _ (returns tt)))))

  -- A run of a tool returns a code from 0 to 4, or -1, whatever the tool does. Conditions: a
  -- process that was created answers, and the handle of one that was not never does (IsProcess);
  -- the mark of an active process is not 0; the clock is as in IsTimed, the limit of the tool fits
  -- it, and the loop has as many rounds as `enough` says.
  pub run_tool-Returns :
      (fuel : ℕ) (s : S.State) (T : IsTimed S)
      → IsProcess
      → S.still_active ≢ 0
      → InRange S T tool_limit
      → enough S T tool_limit ≤ fuel
      → Returns Code (run_tool S fuel command s)
  run_tool-Returns zero s T P active fits f = absurd (omega arith)
  run_tool-Returns (suc fuel) s T P active fits f = elim (Bool-cases (created s).0) [
    | inr failed ↦
        Returns-weaken (run_tool-unstarted fuel s P active failed) (λ code _ e. rw e (omega arith))
    | inl runs ↦
        Returns-Post (runs-Returns (suc fuel) s T (P.answers s runs) fits f)
          (run_tool-IsCode S (suc fuel) command s)
  ]
