-- ===== src/Executor/Limits.antt =====
-- What a verdict of `executor::execute` says of the limits.
use checker_olimp.Base.{
  ℕ, zero, suc, ◌≤◌, ◌<◌, ◌≡◌, ◌⊎◌, inl, inr, true, false, max, arith, ◌==◌, ==_iff, Bool-cases,
  ◌+◌, if◌then◌else◌, Option-cases, some, refl, Bool,
}
use checker_olimp.Effect.{ok, resume}
use checker_olimp.Effect.Laws.{Post, returned, ended, Post-step, Post-value, Post-bind, Post-weaken}
use checker_olimp.System.{System, FileTime}
use checker_olimp.Executor.Time.{kernel_plus_user_time}
use checker_olimp.Words.{max_word, sub_word}
use checker_olimp.Executor.{
  RequestType, correct, crash, tle, mle, nif, cpf, cctf, Watched, Executor, is_over_time,
  is_over_memory, watch, get_exit_code, get_process_kernel_plus_user_time, get_memory_usage,
}

pub within_time :
    (limit work_time timer : ℕ)
    → is_over_time limit work_time timer ≡ false
    → (work_time ≤ limit) × (timer ≤ work_time + 2048) × (work_time ≤ timer + 2048)
unfolding is_over_time
within_time limit work_time timer h = ground arith

within_memory : (limit memory : ℕ) → is_over_memory limit memory ≡ false → memory ≤ limit
unfolding is_over_memory
within_memory limit memory h = ground arith

over_memory :
    (limit memory : ℕ) → is_over_memory limit memory ≡ true → (memory ≡ max_word) ⊎ (limit < memory)
unfolding is_over_memory
over_memory limit memory h = elim (Bool-cases (memory == max_word)) [
  | inl full ↦ inl ((==_iff memory max_word).0 full)
  | inr less ↦ inr (ground arith)
]

-- The rounds of the watching loop, by the states that they begin in.
module _ (S : System) (process : S.Handle) (time_limit time_start : ℕ) where
  abbrev after_exit_code : S.State → S.State
  after_exit_code s = (S.exit_code_process process s).1

  abbrev after_times : S.State → S.State
  after_times s = (S.process_times process (after_exit_code s)).1

  abbrev next_round : S.State → S.State
  next_round s = (S.process_memory process (S.tick_count (after_times s)).1).1

  -- The process is active at the beginning of the round, and has used that processor time.
  abbrev pub Uses : S.State → ℕ → Type 0
  Uses s work_time =
      ((S.exit_code_process process s).0 ≡ some S.still_active)
      × (kernel : FileTime) × (user : FileTime) × ((S.process_times process (after_exit_code s)).0
          ≡ some (kernel, user))
      × (work_time ≡ kernel_plus_user_time kernel user)

  -- The test of the round, with the clock as it is read after the times.
  abbrev pub is_late : S.State → ℕ → Bool
  is_late s work_time =
      is_over_time time_limit work_time (sub_word (S.tick_count (after_times s)).0 time_start)

  -- Rounds that were in time lead from one state to the other.
  pub data Rounds : S.State → S.State → Type 0 where
    here : {s : S.State} → Rounds s s
    round :
        {s s' : S.State} (work_time : ℕ)
        → Uses s work_time
        → is_late s work_time ≡ false
        → Rounds (next_round s) s'
        → Rounds s s'

  -- The loop that began in the state came, by rounds that were in time, to one that was not, with
  -- that processor time.
  abbrev pub IsLate : S.State → ℕ → Type 0
  IsLate began work_time =
      (s : S.State) × Rounds began s × Uses s work_time × (is_late s work_time ≡ true)

module _ (S : System) (e : Executor S) where
  exit_code_read :
      (s : S.State)
      → Post
          (λ code s'.
            ((S.exit_code_process e.process s).0 ≡ some code)
            × (s' ≡ (S.exit_code_process e.process s).1))
          (get_exit_code S e s)
  unfolding get_exit_code resume
  exit_code_read s = elim (Option-cases (S.exit_code_process e.process s).0) [
    | inl failed ↦ rw failed ended
    | inr (code, e₁) ↦ rw e₁ (returned (refl, refl))
  ]

  times_read :
      (s : S.State)
      → Post
          (λ work_time s'.
            (kernel : FileTime) × (user : FileTime) × ((S.process_times e.process s).0
              ≡ some (kernel, user))
            × (work_time ≡ kernel_plus_user_time kernel user)
            × (s' ≡ (S.process_times e.process s).1))
          (get_process_kernel_plus_user_time S e s)
  unfolding get_process_kernel_plus_user_time resume
  times_read s = elim (Option-cases (S.process_times e.process s).0) [
    | inl failed ↦ rw failed ended
    | inr (times, e₁) ↦ rw e₁ (returned (times.0, times.1, refl, refl, refl))
  ]

  memory_read :
      (s : S.State) → Post (λ _ s'. s' ≡ (S.process_memory e.process s).1) (get_memory_usage S e s)
  unfolding get_memory_usage resume
  memory_read s = returned refl

module _ (S : System) (e : Executor S) (time_start : ℕ) where
  -- What the last samples must have been for a verdict, of a loop that began in the state. A run that
  -- ends by itself was within both limits at every sample. Time is exceeded by the processor time or
  -- by the clock, in a round of the loop; memory by the largest sample, or by a sample that could not
  -- be had.
  abbrev pub Justifies : S.State → RequestType → ℕ → ℕ → Type 0
  Justifies began correct work_time memory = (work_time ≤ e.time_limit) × (memory ≤ e.memory_limit)
  Justifies began crash work_time memory = (work_time ≤ e.time_limit) × (memory ≤ e.memory_limit)
  Justifies began tle work_time memory =
      IsLate S e.process e.time_limit time_start began work_time × (memory ≤ e.memory_limit)
  Justifies began mle work_time memory =
      (work_time ≤ e.time_limit) × ((memory ≡ max_word) ⊎ (e.memory_limit < memory))
  Justifies began nif work_time memory = ⊥
  Justifies began cpf work_time memory = ⊥
  Justifies began cctf work_time memory = ⊥

  abbrev pub IsJustified : S.State → Watched → S.State → Type 0
  IsJustified began w s = Justifies began w.verdict w.work_time w.memory

  -- A round that was in time comes before.
  earlier :
      (s : S.State) (time : ℕ) (v : RequestType) (work_time memory : ℕ)
      → Uses S e.process e.time_limit time_start s time
      → is_late S e.process e.time_limit time_start s time ≡ false
      → Justifies (next_round S e.process e.time_limit time_start s) v work_time memory
      → Justifies s v work_time memory
  earlier s time tle work_time memory uses in_time ((s', rounds, used, late), h) =
      ((s', round time uses in_time rounds, used, late), h)
  earlier s time correct work_time memory uses in_time h = h
  earlier s time crash work_time memory uses in_time h = h
  earlier s time mle work_time memory uses in_time h = h
  earlier s time nif work_time memory uses in_time h = h
  earlier s time cpf work_time memory uses in_time h = h
  earlier s time cctf work_time memory uses in_time h = h

  stops :
      (began : S.State) (work_time memory : ℕ)
      → work_time ≤ e.time_limit
      → memory ≤ e.memory_limit
      → (exit_code : ℕ) (s : S.State)
      → Post (IsJustified began) (
        ok (record {
          verdict = if exit_code == 0 then correct else crash;
          work_time = work_time;
          memory = memory;
        }),
        s,
      )
  stops began work_time memory hw hm exit_code s = elim (Bool-cases (exit_code == 0)) [
    | inl zero_code ↦ rw zero_code (returned (hw, hm))
    | inr other ↦ rw other (returned (hw, hm))
  ]

  -- If the watching loop, entered with samples within both limits, returns, its verdict is
  -- justified by the samples, as IsJustified says.
  pub watch-IsJustified :
      (fuel work_time memory : ℕ) (s : S.State)
      → work_time ≤ e.time_limit
      → memory ≤ e.memory_limit
      → Post (IsJustified s) (watch S fuel e time_start work_time memory s)
  unfolding watch
  watch-IsJustified zero work_time memory s hw hm = ended
  watch-IsJustified (suc fuel) work_time memory s hw hm =
      Post-bind (exit_code_read S e s) λ exit_code s₁ (asked, e₁).
        elim (Bool-cases (exit_code == S.still_active)) [
          | inr stopped ↦ rw stopped (stops s work_time memory hw hm exit_code s₁)
          | inl active ↦
              rw (active, e₁)
                (Post-bind (times_read S e _) λ work_time' s₂ (kernel, user, measured, time, e₂).
                  let running = (==_iff exit_code S.still_active).0 active in
                  let uses : Uses S e.process e.time_limit time_start s work_time' =
                    (rw running at asked, kernel, user, measured, time) in
                  rw e₂ (
                    Post-value _
                      (elim (Bool-cases
                        (is_late S e.process e.time_limit time_start s work_time')) [
                          | inl late ↦
                              rw late (Post-step _ λ _ s₃. returned ((s, here, uses, late), hm))
                          | inr in_time ↦
                              let fast = (within_time _ _ _ in_time).0 in
                              rw in_time (
                                Post-bind (memory_read S e _) λ usage s₃ e₃.
                                  elim (Bool-cases
                                    (is_over_memory e.memory_limit (max memory usage))) [
                                      | inl large ↦ rw large (
                                          Post-step _
                                            λ _ s₄. returned (fast, over_memory _ _ large))
                                      | inr small ↦
                                          rw (small, e₃)
                                            (Post-weaken
                                              (watch-IsJustified fuel work_time' _ _ fast
                                                (within_memory _ _ small))
                                              λ w s₄ h.
                                                earlier s work_time' w.verdict w.work_time w.memory
                                                  uses in_time h)
                                    ])
                        ])))
        ]
