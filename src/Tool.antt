-- ===== src/Tool.antt =====
-- checker_rc/executor.cpp, the static `executor::execute`: it runs a tool (the testlib checker) with
-- arguments and gives its return code.
pub mod Laws
pub mod Termination
use checker_olimp.Base.{
  ℕ, zero, suc, Bool, true, false, not, Option, none, some, List, [], ◌∷◌, ◌++◌, leb, ◌==◌, length,
  if◌then◌else◌,
}
use checker_olimp.Base.Int.{ℤ, pos, negsuc}
use checker_olimp.Text.{Text, lit, c_str}
use checker_olimp.Effect.{value_of, Action, out_of_fuel, pure, halt, effect, call, ◌>>=◌, ◌>>◌}
use checker_olimp.System.{System}
use checker_olimp.Words.{sub_word}
use checker_olimp.Assert.{checker_assert}
use checker_olimp.Paths.{get_directory_and_file}
use checker_olimp.Executor.{is_over_time}
use checker_olimp.Executor.Time.{kernel_plus_user_time}

abbrev pub executor_cpp : Text
executor_cpp = lit "executor.cpp"

-- `time_limit`, in milliseconds.
abbrev pub tool_limit : ℕ
tool_limit = 10000

-- Each argument in quotes, after a space.
unfoldable pub quoted : List Text → Text
quoted [] = []
quoted (arg ∷ args) = 32 ∷ 34 ∷ (arg ++ (34 ∷ quoted args))

-- A failed `GetExitCodeProcess` leaves the variable as it was.
abbrev pub keep_or : ℕ → Option ℕ → ℕ
keep_or old none = old
keep_or old (some code) = code

-- The codes 0 to 4 are passed on; any other is -1.
unfoldable pub return_code : ℕ → ℤ
return_code exit_code = if leb exit_code 4 then pos exit_code else negsuc 0

module _ (S : System) (process : S.Handle) where
  unfoldable pub kill_tool : Action S.State (Unit {0})
  kill_tool = do
    exit_code ← call (S.exit_code_process process) >>= value_of
    if exit_code == S.still_active then effect (S.terminate_process process 0) else pure tt

module _ (S : System) (process : S.Handle) (time_start : ℕ) where
  -- The `while (true)` loop, on fuel; `exit_code` is the variable that it keeps.
  unfoldable pub watch_tool : ℕ → ℕ → Action S.State ℤ
  watch_tool zero exit_code = halt out_of_fuel
  watch_tool (suc fuel) exit_code = do
    answer ← call (S.exit_code_process process)
    elim (keep_or exit_code answer == S.still_active) [
      | true ↦ do
        (kernel_time, user_time) ← call (S.process_times process) >>= value_of
        now ← call S.tick_count
        let work_time = kernel_plus_user_time kernel_time user_time
        elim (is_over_time tool_limit work_time (sub_word now time_start)) [
          | true ↦ do kill_tool S process; pure (negsuc 0)
          | false ↦ watch_tool fuel (keep_or exit_code answer)
        ]
      | false ↦ pure (return_code (keep_or exit_code answer))
    ]

-- The command line is the path of the program, not in quotes, and the arguments.
abbrev pub command_line : Text × Text → List Text → Text
command_line (directory, name) argv = directory ++ (92 ∷ (name ++ quoted argv))

module _ (S : System) where
  unfoldable pub run_tool : ℕ → Text → Action S.State ℤ
  run_tool fuel command = do
    (success, process, thread) ← call (λ s.
        let (success, process, thread, s') = S.create_process none (some (c_str command)) none s in
        ((success, process, thread), s'))
    time_start ← call S.tick_count
    code ← watch_tool S process time_start fuel 0
    effect (S.close_handle process)
    effect (S.close_handle thread)
    pure code

  unfoldable pub execute : ℕ → Text → List Text → Action S.State ℤ
  execute fuel program_path argv = do
    checker_assert S (not (length program_path == 0)) executor_cpp 262
    parts ← get_directory_and_file S program_path
    run_tool fuel (command_line parts argv)
