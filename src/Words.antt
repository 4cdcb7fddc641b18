-- ===== src/Words.antt =====
-- The 32-bit numbers of the programs, which are built for Win32: `size_t`, `DWORD` and
-- `unsigned int` have 32 bits, `ULONGLONG` has 64.
use checker_olimp.Base.{ℕ, ◌+◌, ◌-◌, ◌%◌, ◌^◌, Bool, ltb, ◌||◌}

abbrev pub word : ℕ
word = 2 ^ 32

abbrev pub long_word : ℕ
long_word = 2 ^ 64

-- `(size_t) -1`
abbrev pub max_word : ℕ
max_word = 4294967295

-- `a - b` on `size_t`
abbrev pub sub_word : ℕ → ℕ → ℕ
sub_word a b = (a + word - b) % word

-- `a < b` on a signed number of 32 bits
abbrev pub signed_less : ℕ → ℕ → Bool
signed_less a b = ltb ((a + 2 ^ 31) % word) ((b + 2 ^ 31) % word)

-- `abs((long long) a - b) > c`, which is computed without wrapping.
abbrev pub far_apart : ℕ → ℕ → ℕ → Bool
far_apart a b c = ltb (b + c) a || ltb (a + c) b
