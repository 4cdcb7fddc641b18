-- ===== src/Executor/Termination.antt =====
-- The loop of `executor::execute` ends, whatever the contestant's program does: the clock alone
-- brings it to an end, also where the program sleeps and uses no processor time.
use checker_olimp.Base.{
  ℕ, zero, suc, ◌+◌, ◌*◌, ◌/◌, ◌%◌, ◌≤◌, ◌<◌, ◌≡◌, inl, inr, true, false, none, some, max, arith,
  ◌==◌, Bool-cases, Option-cases, Bool, if◌then◌else◌,
}
use checker_olimp.Effect.{resume, effect, pure}
use checker_olimp.Effect.Laws.{Returns, returns, Returns-bind, Returns-value, Returns-Post}
use checker_olimp.System.{System}
use checker_olimp.Words.{word, sub_word}
use checker_olimp.Executor.{
  RequestType, correct, Watched, Executor, close_handles, conclude, run_child, execute,
  create_child_process, remove_in_out_files, make_input_file, is_over_time, is_over_memory,
  get_exit_code, kill_child_process, get_memory_usage, get_process_kernel_plus_user_time, watch,
}
use checker_olimp.Text.{Text, c_str}
use checker_olimp.Executor.Clock.{IsTimed, Answers, Prompt, in_time-early, InRange, enough}
use checker_olimp.Executor.Verdict.{IsAccount, execute-IsAccount}

module _ (S : System) (T : IsTimed S) (e : Executor S) (A : Answers S e.process) where
  open T use {elapsed, call_limit}

  get_exit_code-Returns : (s : S.State) → Returns (Prompt S T s) (get_exit_code S e s)
  unfolding get_exit_code resume
  get_exit_code-Returns s = elim (Option-cases (S.exit_code_process e.process s).0) [
    | inl failed ↦ absurd (A.exit_code s failed)
    | inr (c, e₁) ↦ rw e₁ (returns (T.exit_code_later e.process s, T.exit_code_prompt e.process s))
  ]

  times-Returns : (s : S.State) → Returns (Prompt S T s) (get_process_kernel_plus_user_time S e s)
  unfolding get_process_kernel_plus_user_time resume
  times-Returns s = elim (Option-cases (S.process_times e.process s).0) [
    | inl failed ↦ absurd (A.times s failed)
    | inr (c, e₁) ↦ rw e₁ (returns (T.times_later e.process s, T.times_prompt e.process s))
  ]

  memory-Returns : (s : S.State) → Returns (Prompt S T s) (get_memory_usage S e s)
  unfolding get_memory_usage resume
  memory-Returns s = returns (T.memory_later e.process s, T.memory_prompt e.process s)

  kill-Returns : (s : S.State) → Returns (λ _ _. Unit {0}) (kill_child_process S e s)
  unfolding kill_child_process
  kill-Returns s =
      Returns-bind {P = λ _ _. Unit {0}}
        (Returns-bind (get_exit_code-Returns s) λ c s₁ _. returns tt) λ b s₁ _. killed b s₁
    where
      killed :
          (b : Bool) (s₁ : S.State)
          → Returns
              (λ _ _. Unit {0})
              ((if b then effect (S.terminate_process e.process 0) else pure tt) s₁)
      killed true s₁ = returns tt
      killed false s₁ = returns tt

  -- Started at `origin` on the clock, the latest time at which a round can begin.
  module _ (origin : ℕ) where
    abbrev latest : ℕ
    latest = origin + (e.time_limit + 2049) * 1000000 + 2 * call_limit

    watch-Returns :
        (fuel work_time memory : ℕ) (s : S.State)
        → (e.time_limit + 2051) * 1000000 + 4 * call_limit < word * 1000000
        → origin ≤ elapsed s
        → elapsed s ≤ latest
        → latest < fuel + elapsed s
        → Returns (λ _ _. Unit {0}) (watch S fuel e (origin / 1000000 % word) work_time memory s)
    unfolding watch
    watch-Returns zero work_time memory s fits h l f = absurd (omega arith)
    watch-Returns (suc fuel) work_time memory s fits h l f =
        Returns-bind (get_exit_code-Returns s) λ exit_code s₁ p₁.
          elim (Bool-cases (exit_code == S.still_active)) [
            | inr stopped ↦ rw stopped (returns tt)
            | inl active ↦ rw active (
                Returns-bind (times-Returns s₁) λ work_time' s₂ p₂.
                  Returns-value _
                    (elim (Bool-cases (
                      is_over_time e.time_limit work_time'
                        (sub_word (S.tick_count s₂).0 (origin / 1000000 % word)))) [
                          | inl late ↦ rw late (Returns-bind (kill-Returns _) λ _ s₃ _. returns tt)
                          | inr in_time ↦ rw in_time (
                              Returns-bind (memory-Returns _) λ usage s₃ p₃.
                                elim (Bool-cases
                                  (is_over_memory e.memory_limit (max memory usage))) [
                                    | inl large ↦
                                        rw large
                                          (Returns-bind (kill-Returns _) λ _ s₄ _. returns tt)
                                    | inr small ↦ rw small (
                                        watch-Returns fuel work_time' _ s₃ fits
                                          (omega (arith, p₁, p₂, p₃, T.tick_advances s₂))
                                          (omega (
                                            arith,
                                            p₁,
                                            p₂,
                                            p₃,
                                            T.tick_prompt s₂,
                                            in_time-early S T e.time_limit origin work_time' s₂
                                                (omega (arith, p₁, p₂)) (omega (arith, p₁, p₂))
                                                in_time,
                                          ))
                                          (omega (arith, p₁, p₂, p₃, T.tick_advances s₂)))
                                  ])
                        ]))
          ]

module _ (S : System) (e : Executor S) where
  close_handles-Returns : (s : S.State) → Returns (λ _ _. Unit {0}) (close_handles S e s)
  unfolding close_handles resume
  close_handles-Returns s = returns tt

  conclude-Returns :
      (v : RequestType) (w : Watched) (s : S.State) → Returns (λ _ _. Unit {0}) (conclude S v w e s)
  unfolding conclude resume
  conclude-Returns correct w s = elim (Option-cases (S.read_file e.output_file_path s)) [
    | inl missing ↦ rw missing (returns tt)
    | inr (text, found) ↦ rw found (returns tt)
  ]
  conclude-Returns _ w s = returns tt

module _ (S : System) (T : IsTimed S) where
  run_child-Returns :
      (fuel : ℕ) (e : Executor S) (s : S.State)
      → Answers S e.process
      → InRange S T e.time_limit
      → enough S T e.time_limit ≤ fuel
      → Returns (λ _ _. Unit {0}) (run_child S fuel e s)
  unfolding run_child
  run_child-Returns fuel e s A fits f = Returns-value _ (
      rw (T.tick s) (
        Returns-bind
          (watch-Returns S T e A (T.elapsed s) fuel 0 0 _ fits (omega (arith, T.tick_advances s))
            (omega (arith, T.tick_prompt s)) (omega (arith, T.tick_advances s)))
          λ w s₁ _. Returns-value _ (
            Returns-bind (close_handles-Returns S e _)
              λ _ s₂ _. conclude-Returns S e w.verdict w s₂)))

  -- Every process that is created can be asked for its exit code and its times.
  abbrev pub Created : Executor S → Type 0
  Created e =
      (s : S.State)
      → let created =
          S.create_process (some (c_str e.executable_file_path)) none
            (some (c_str e.executable_file_directory)) s in
        created.0 ≡ true → Answers S created.1

  execute_ends :
      (fuel : ℕ) (quest : Text) (e : Executor S) (s : S.State)
      → Created e
      → InRange S T e.time_limit
      → enough S T e.time_limit ≤ fuel
      → Returns (λ _ _. Unit {0}) (execute S fuel quest e s)
  unfolding execute create_child_process remove_in_out_files make_input_file resume
  execute_ends fuel quest e s A fits f =
      let s₁ =
        S.remove_file (c_str e.output_file_path) (S.remove_file (c_str e.input_file_path) s) in
      let written = S.write_file e.input_file_path quest s₁ in
      let created =
        S.create_process (some (c_str e.executable_file_path)) none
          (some (c_str e.executable_file_directory)) written.1 in
      elim (Bool-cases written.0) [
        | inr unmade ↦ rw unmade (returns tt)
        | inl made ↦ rw made (elim (Bool-cases created.0) [
          | inr fails ↦ rw fails (returns tt)
          | inl runs ↦ rw runs (run_child-Returns fuel _ _ (A written.1 runs) fits f)
        ])
      ]

  -- A run of the contestant's program returns, and its report accounts for the run as IsAccount
  -- says, whatever the program does. Conditions: the clock advances at each reading of it and no
  -- call of the system takes longer than a fixed time (IsTimed); a process that was created answers
  -- the queries; the time limit with a margin fits the 32 bits of the millisecond clock; and the
  -- loop has as many rounds as `enough` says.
  pub execute-Returns :
      (fuel : ℕ) (quest : Text) (e : Executor S) (s : S.State)
      → Created e
      → InRange S T e.time_limit
      → enough S T e.time_limit ≤ fuel
      → Returns (IsAccount S e quest s) (execute S fuel quest e s)
  execute-Returns fuel quest e s A fits f =
      Returns-Post (execute_ends fuel quest e s A fits f) (execute-IsAccount S e quest s fuel)
