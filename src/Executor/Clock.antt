-- ===== src/Executor/Clock.antt =====
-- The clock of the two polling loops of checker_rc/executor.cpp, and what is relied on of it.
use checker_olimp.Base.{ℕ, ◌+◌, ◌-◌, ◌*◌, ◌/◌, ◌%◌, ◌≤◌, ◌<◌, ◌≡◌, ◌≢◌, false, none, arith}
use checker_olimp.System.{System}
use checker_olimp.Words.{word, sub_word}
use checker_olimp.Executor.{is_over_time}
use checker_olimp.Executor.Limits.{within_time}

-- What is relied on of the clock, in nanoseconds since the system's start: `GetTickCount` gives its
-- milliseconds modulo 2^32 and takes some time, and none of the calls in the loop takes longer than
-- `call_limit`.
pub record IsTimed (S : System) : Type 0 where
  pub elapsed : S.State → ℕ
  pub call_limit : ℕ
  pub tick : (s : S.State) → (S.tick_count s).0 ≡ elapsed s / 1000000 % word
  pub tick_advances : (s : S.State) → elapsed s < elapsed (S.tick_count s).1
  pub tick_prompt : (s : S.State) → elapsed (S.tick_count s).1 ≤ elapsed s + call_limit
  pub exit_code_later :
      (h : S.Handle) (s : S.State) → elapsed s ≤ elapsed (S.exit_code_process h s).1
  pub exit_code_prompt :
      (h : S.Handle) (s : S.State) → elapsed (S.exit_code_process h s).1 ≤ elapsed s + call_limit
  pub times_later : (h : S.Handle) (s : S.State) → elapsed s ≤ elapsed (S.process_times h s).1
  pub times_prompt :
      (h : S.Handle) (s : S.State) → elapsed (S.process_times h s).1 ≤ elapsed s + call_limit
  pub memory_later : (h : S.Handle) (s : S.State) → elapsed s ≤ elapsed (S.process_memory h s).1
  pub memory_prompt :
      (h : S.Handle) (s : S.State) → elapsed (S.process_memory h s).1 ≤ elapsed s + call_limit

-- The handle is that of a process, whose exit code and times can be asked for.
pub record Answers (S : System) (h : S.Handle) : Type 0 where
  pub exit_code : (s : S.State) → (S.exit_code_process h s).0 ≢ none
  pub times : (s : S.State) → (S.process_times h s).0 ≢ none

-- The clock's difference is the true one, if less than 2^32 milliseconds have passed.
sub_word_exact : (a b : ℕ) → b ≤ a → a < b + word → sub_word (a % word) (b % word) ≡ a - b
sub_word_exact a b h k = omega arith

module _ (S : System) (T : IsTimed S) where
  open T use {elapsed, call_limit}

  -- A call goes on from one state to the other within its time.
  abbrev pub Prompt : {B : Type 0} → S.State → B → S.State → Type 0
  Prompt s _ s' = (elapsed s ≤ elapsed s') × (elapsed s' ≤ elapsed s + call_limit)

  -- The limits under which the difference of two clock readings cannot wrap before it is tested.
  abbrev pub InRange : ℕ → Type 0
  InRange time_limit = (time_limit + 2051) * 1000000 + 4 * T.call_limit < word * 1000000

  -- More rounds than the loop can make before the clock ends it.
  abbrev pub enough : ℕ → ℕ
  enough time_limit = (time_limit + 2049) * 1000000 + 2 * T.call_limit + 1

  -- A round that goes on was in time on the clock, which was started at `origin`.
  pub in_time-early :
      (limit origin work_time : ℕ) (s : S.State)
      → origin ≤ elapsed s
      → elapsed s + 1000000 ≤ origin + word * 1000000
      → is_over_time limit work_time (sub_word (S.tick_count s).0 (origin / 1000000 % word)) ≡ false
      → elapsed s < origin + (limit + 2049) * 1000000
  in_time-early limit origin work_time s later fits in_time =
      let timer : sub_word (elapsed s / 1000000 % word) (origin / 1000000 % word)
          ≡ elapsed s / 1000000 - origin / 1000000 =
        sub_word_exact _ _ (omega arith) (omega arith) in
      let bound = within_time _ _ _ (rw (T.tick s, timer) at in_time) in omega (arith, bound)
