-- ===== src/System.antt =====
-- The operating system, as the programs call it: the standard library's files and pipes, and the
-- Win32 process calls. None of it is code of the repository, so it is an interface over an unknown
-- state. A call that lets time or other processes go on gives a new state.
use checker_olimp.Base.{ℕ, Bool, Option}
use checker_olimp.Text.{Text}

-- `FILETIME`, two 32-bit halves of a count of 100 nanoseconds.
pub record FileTime : Type 0 where
  pub low : ℕ
  pub high : ℕ

pub record System : Type 1 where
  pub State : Type 0
  pub Handle : Type 0
  pub Pipe : Type 0
  -- `std::cout << text`
  pub print : Text → State → State
  -- `fprintf(stderr, ...)` and `std::cerr << text`
  pub print_error : Text → State → State
  -- `GetFullPathName` with a buffer of 1024 bytes: the value returned and the text in the buffer,
  -- or `none` where nothing is written to it, as when the call fails or the name is too long.
  pub full_path_name : Text → State → ℕ × Option Text
  -- All that `std::ifstream` reads from a file, or `none` where it does not open.
  pub read_file : Text → State → Option Text
  -- `std::ofstream` opened, the bytes put, and closed; `false` where it does not open.
  pub write_file : Text → Text → State → Bool × State
  pub remove_file : Text → State → State
  -- `_popen`, one `fgets` into a buffer of the given size, `feof` and `_pclose`.
  pub open_pipe : Text → State → Option Pipe × State
  pub get_line : ℕ → Pipe → State → Option Text × State
  pub at_end : Pipe → State → Bool
  pub close_pipe : Pipe → State → State
  -- `CreateProcess` with an application name, a command line and a directory, each of which may be
  -- null: whether it succeeded, and the handles of the process and of its thread.
  pub create_process :
      Option Text → Option Text → Option Text → State → Bool × Handle × Handle × State
  -- The handles in a structure that `ZeroMemory` has cleared.
  pub null_handle : Handle
  -- `STILL_ACTIVE`
  pub still_active : ℕ
  -- `GetExitCodeProcess`, `GetProcessTimes` (kernel and user time) and the working set size of
  -- `GetProcessMemoryInfo`: `none` where the call fails and writes nothing.
  pub exit_code_process : Handle → State → Option ℕ × State
  pub process_times : Handle → State → Option (FileTime × FileTime) × State
  pub process_memory : Handle → State → Option ℕ × State
  pub terminate_process : Handle → ℕ → State → State
  pub close_handle : Handle → State → State
  -- `GetTickCount`, in milliseconds modulo 2^32, and `Sleep`.
  pub tick_count : State → ℕ × State
  pub sleep : ℕ → State → State

-- What only the contester calls.
pub record Shell (W : Type 0) : Type 0 where
  -- `clock`, and `system`, which waits for the command.
  pub clock : W → ℕ × W
  pub run_command : Text → W → W
