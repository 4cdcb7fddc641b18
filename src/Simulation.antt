-- ===== src/Simulation.antt =====
-- A machine and a JSON library that can be run: instances of the interfaces of System and Json, for
-- the tests.
pub mod Values
use checker_olimp.Base.{
  ℕ, ◌+◌, ◌*◌, ◌/◌, ◌%◌, ◌≡◌, refl, arith, Bool, true, false, not, Option, none, some, List, [],
  ◌∷◌, length, ltb, inl, inr, Bool-cases, if◌then◌else◌,
}
use checker_olimp.Text.{Text, text_eq}
use checker_olimp.Text.Find.{text_eq→eq}
use checker_olimp.System.{System, Shell, FileTime}
use checker_olimp.Words.{word}
use checker_olimp.Executor.Clock.{IsTimed, Answers}

-- Files by their paths, the nanoseconds since the start, the lines that a pipe still has to give,
-- whether a process can be created, the rows of the queries that wait to be fetched, the last one
-- first, and the results of two solutions that a database has.
pub record Machine : Type 0 where
  pub files : List (Text × Text)
  pub clock : ℕ
  pub lines : List Text
  pub starts : Bool
  pub pending : List (List (List (Option Text)))
  pub first_result : Option Text
  pub second_result : Option Text

abbrev pub lookup : Text → List (Text × Text) → Option Text
lookup path [] = none
lookup path (f ∷ files) =
    let rest = lookup path files in if text_eq path f.0 then some f.1 else rest

abbrev pub without : Text → List (Text × Text) → List (Text × Text)
without path [] = []
without path (f ∷ files) =
    let rest = without path files in if text_eq path f.0 then rest else f ∷ rest

-- Removing a file leaves the others.
pub lookup-without :
    (path other : Text) (files : List (Text × Text))
    → text_eq path other ≡ false
    → lookup path (without other files) ≡ lookup path files
lookup-without path other [] h = refl
lookup-without path other (f ∷ files) h = elim (Bool-cases (text_eq other f.0)) [
  | inl same ↦
      let distinct : text_eq path f.0 ≡ false = rw (← text_eq→eq other f.0 same) h in
      rw (same, distinct) (lookup-without path other files h)
  | inr apart ↦ rw (apart, lookup-without path other files h) refl
]

abbrev pub later : ℕ → Machine → Machine
later time m = record m { clock = m.clock + time }

abbrev pub next_line : List Text → Machine → Option Text × Machine
next_line [] m = (none, m)
next_line (line ∷ lines) m = (some line, record m { lines = lines })

abbrev pub ended : List Text → Bool
ended [] = true
ended (_ ∷ _) = false

abbrev pub idle : FileTime
idle = record { low = 0; high = 0 }

-- A handle tells whether it is that of a process. Each process runs until the clock is at five
-- milliseconds, and ends with the code 0.
abbrev pub exit_code : Bool → Machine → Option ℕ
exit_code true m = some (if ltb m.clock 5000000 then 259 else 0)
exit_code false m = none

abbrev pub machine_system : System
machine_system = record {
  State = Machine;
  Handle = Bool;
  Pipe = Unit {0};
  print = λ text m. m;
  print_error = λ text m. m;
  full_path_name = λ path m. (length path, some path);
  read_file = λ path m. lookup path m.files;
  write_file = λ path text m. (true, record m { files = (path, text) ∷ without path m.files });
  remove_file = λ path m. record m { files = without path m.files };
  open_pipe = λ command m. (some tt, m);
  get_line = λ size pipe m. next_line m.lines m;
  at_end = λ pipe m. ended m.lines;
  close_pipe = λ pipe m. m;
  create_process = λ application command directory m. (m.starts, m.starts, m.starts, later 1000 m);
  null_handle = false;
  still_active = 259;
  exit_code_process = λ process m. (exit_code process m, later 1000 m);
  process_times = λ process m. (some (idle, idle), later 1000 m);
  process_memory = λ process m. (some 4096, later 1000 m);
  terminate_process = λ process code m. m;
  close_handle = λ handle m. m;
  tick_count = λ m. (m.clock / 1000000 % word, later 1000 m);
  sleep = λ time m. later (time * 1000000) m;
}

-- A shell whose commands do nothing.
abbrev pub machine_shell : Shell Machine
machine_shell = record {
  clock = λ m. (m.clock / 1000000 % word, later 1000 m);
  run_command = λ command m. m;
}

abbrev pub machine_timing : IsTimed machine_system
machine_timing = record {
  elapsed = λ m. m.clock;
  call_limit = 1000;
  tick = λ m. refl;
  tick_advances = λ m. omega arith;
  tick_prompt = λ m. omega arith;
  exit_code_later = λ h m. omega arith;
  exit_code_prompt = λ h m. omega arith;
  times_later = λ h m. omega arith;
  times_prompt = λ h m. omega arith;
  memory_later = λ h m. omega arith;
  memory_prompt = λ h m. omega arith;
}

pub process-Answers : Answers machine_system true
process-Answers = record { exit_code = λ m h. cc; times = λ m h. cc }
