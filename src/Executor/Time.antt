-- ===== src/Executor/Time.antt =====
-- The times of a process in milliseconds: `FILETIME_TO_ULONGLONG` and
-- `get_process_kernel_plus_user_time` of checker_rc/executor.cpp.
use checker_olimp.Base.{ℕ, ◌+◌, ◌*◌, ◌/◌, ◌%◌, ◌≤◌, ◌<◌, ◌≡◌, arith}
use checker_olimp.Words.{word, long_word}
use checker_olimp.System.{FileTime}

-- The two halves as one 64-bit number.
unfoldable pub filetime_to_ulonglong : FileTime → ℕ
filetime_to_ulonglong ft = (ft.high * word % long_word + ft.low) % long_word

-- Each time is cut to 32 bits before it is divided.
unfoldable pub kernel_plus_user_time : FileTime → FileTime → ℕ
kernel_plus_user_time kernel_time user_time =
    let k_t = filetime_to_ulonglong kernel_time % word in
    let u_t = filetime_to_ulonglong user_time % word in (u_t / 10000 + k_t / 10000) % word

-- Each half has 32 bits.
pub record IsFileTime (ft : FileTime) : Type 0 where
  pub low_fits : ft.low < word
  pub high_fits : ft.high < word

-- The count of 100 nanoseconds that a `FILETIME` stands for.
abbrev pub ticks : FileTime → ℕ
ticks ft = ft.high * word + ft.low

pub filetime_to_ulonglong_lem :
    (ft : FileTime) → IsFileTime ft → filetime_to_ulonglong ft ≡ ticks ft
unfolding filetime_to_ulonglong
filetime_to_ulonglong_lem ft h = omega (arith, h.low_fits, h.high_fits)

-- Kernel and user times each below 2^32 units of 100 nanoseconds, some 429 seconds, are measured
-- exactly: the result is the sum of the two, each rounded down to milliseconds.
pub kernel_plus_user_time_exact :
    (kernel user : FileTime)
    → IsFileTime kernel
    → IsFileTime user
    → ticks kernel < word
    → ticks user < word
    → kernel_plus_user_time kernel user ≡ ticks kernel / 10000 + ticks user / 10000
unfolding kernel_plus_user_time
kernel_plus_user_time_exact kernel user hk hu k u =
    rw (filetime_to_ulonglong_lem kernel hk, filetime_to_ulonglong_lem user hu) (omega arith)

-- The measured time never passes 858,992 milliseconds, whatever the times of the process are.
pub kernel_plus_user_time_bound :
    (kernel user : FileTime) → kernel_plus_user_time kernel user ≤ 858992
unfolding kernel_plus_user_time
kernel_plus_user_time_bound kernel user = omega arith
