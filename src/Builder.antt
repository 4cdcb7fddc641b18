-- ===== src/Builder.antt =====
-- checker_rc/builder.h and builder.cpp: the compiler's command line, and the build of the
-- contestant's source by each of the four compilers.
pub mod Command
pub mod Output
pub mod Build
pub mod Progress
pub mod Complete
use checker_olimp.Base.{
  ℕ, zero, suc, ◌+◌, ◌-◌, Bool, true, false, ◌||◌, not, Option, none, some, [], ◌∷◌, ◌++◌, length,
  get_elem?, take, drop, ltb, ◌==◌, if◌then◌else◌,
}
use checker_olimp.Text.{Text, lit, text_eq, find, replace, c_str}
use checker_olimp.Effect.{
  Action, undefined, out_of_fuel, pure, halt, query, effect, call, ◌>>=◌, ◌>>◌,
}
use checker_olimp.System.{System}
use checker_olimp.Assert.{checker_assert}
use checker_olimp.Paths.{restore_path}

abbrev pub builder_cpp : Text
builder_cpp = lit "builder.cpp"

abbrev pub msv_cpp : Text
msv_cpp = lit "msv_cpp"

abbrev pub mingw_cpp : Text
mingw_cpp = lit "mingw_cpp"

abbrev pub fp_pas : Text
fp_pas = lit "fp_pas"

abbrev pub abc_pas : Text
abc_pas = lit "abc_pas"

abbrev pub d1_str : Text
d1_str = lit "$1"

abbrev pub d2_str : Text
d2_str = lit "$2"

abbrev pub exe_str : Text
exe_str = lit ".exe"

-- The bytes before the first newline: the copying loop of the Microsoft build.
unfoldable pub until_newline : Text → Text
until_newline [] = []
until_newline (c ∷ s) = if c == 10 then [] else c ∷ until_newline s

-- The byte at the given distance from the end; `none` is an index out of range.
abbrev pub from_end : Text → ℕ → Option ℕ
from_end s k = if ltb (length s) k then none else get_elem? s (length s - k)

-- `s[s.length()-1] != 's' || ... 'a' || ... 'p' || ... '.'`, from the given distance on; `none` where
-- the test reads out of range.
unfoldable pub lacks_suffix : Text → Text → ℕ → Option Bool
lacks_suffix s [] k = some false
lacks_suffix s (c ∷ cs) k =
    let rest = lacks_suffix s cs (suc k) in
    elim (from_end s k) [ none ↦ none | some d ↦ if d == c then rest else some true ]

-- The test on the name of a Pascal source: `length() < 5 && (...)`.
unfoldable pub rejects_name : Text → Option Bool
unfolding lacks_suffix
rejects_name source_name =
    let suffix = lacks_suffix source_name (lit "sap.") 1 in
    if ltb (length source_name) 5 then suffix else some false

module _ (S : System) where
  -- The first mark is replaced; without one the process ends.
  unfoldable pub substitute : Text → Text → ℕ → Text → Action S.State Text
  substitute mark value line command = elim (find mark command) [
    | none ↦ do checker_assert S false builder_cpp line; pure command
    | some it ↦ pure (replace command it 2 value)
  ]

  -- The two `if` blocks of `parse_compiler_config`.
  unfoldable pub cpp_command : Text → Text → Text → Action S.State Text
  unfolding substitute
  cpp_command profile_path source_name compiler_config = do
    command ← substitute d1_str (restore_path profile_path source_name) 26 compiler_config
    substitute d2_str (restore_path profile_path (source_name ++ exe_str)) 30 command

  unfoldable pub pas_command : Text → Text → Text → Action S.State Text
  unfolding substitute
  pas_command profile_path source_name compiler_config =
      substitute d1_str (restore_path profile_path source_name) 39 compiler_config

  unfoldable pub parse_compiler_config : Text → Text → Text → Text → Action S.State Text
  parse_compiler_config profile_path source_name compiler_name compiler_config = do
    command ←
        if text_eq compiler_name msv_cpp || text_eq compiler_name mingw_cpp
        then cpp_command profile_path source_name compiler_config
        else pure []
    if text_eq compiler_name fp_pas || text_eq compiler_name abc_pas
        then pas_command profile_path source_name compiler_config
        else pure command

  -- `while (fgets(buffer, buffer_size, pipe) != nullptr) buffer_str += buffer`, on fuel.
  unfoldable pub read_pipe : ℕ → S.Pipe → Text → Action S.State Text
  read_pipe zero pipe buffer_str = halt out_of_fuel
  read_pipe (suc fuel) pipe buffer_str = do
    line ← call (S.get_line 512 pipe)
    elim line [
      | none ↦ pure buffer_str
      | some buffer ↦ read_pipe fuel pipe (buffer_str ++ c_str buffer)
    ]

  -- What the four builds do alike: the command is run, and its output read to the end and looked at.
  -- The empty output is an error of the Pascal builds, at the given line.
  unfoldable pub run_compiler :
      ℕ
      → Text
      → Option ℕ
      → (Text → Action S.State (Bool × Text))
      → Text
      → Action S.State (Bool × Text)
  run_compiler fuel command refuses_empty look exe = do
    opened ← call (S.open_pipe (c_str command))
    elim opened [
      | none ↦ pure (false, exe)
      | some pipe ↦ do
        output ← read_pipe fuel pipe []
        elim refuses_empty [
          | none ↦ pure tt
          | some line ↦ checker_assert S (not (length output == 0)) builder_cpp line
        ]
        ended ← query (S.at_end pipe)
        if ended then (do effect (S.close_pipe pipe); look output) else pure (false, exe)
    ]

-- The path that the linker printed behind `/out:`, at the given position; at the end of the output
-- the variable stays as it was.
unfoldable pub printed_path : Text → ℕ → Text → Text
unfolding until_newline
printed_path output it exe =
    if ltb (it + 5) (length output) then until_newline (drop (it + 5) output) else exe

-- The ends of the builds, from the output of the compiler on.
unfoldable pub msv_result : Text → Text → Bool × Text
unfolding printed_path
msv_result exe output = elim (find (lit "fatal error") output) [
  | some _ ↦ (false, exe)
  | none ↦ elim (find (lit "/out:") output) [
    | none ↦ (false, exe)
    | some it ↦ (true, printed_path output it exe)
  ]
]

unfoldable pub mingw_result : Text → Text → Text → Text → Bool × Text
mingw_result profile_path source_name exe output = elim (find (lit "error:") output) [
  | some _ ↦ (false, exe)
  | none ↦ (true, restore_path profile_path (source_name ++ exe_str))
]

-- The executable of a Pascal source: the last four bytes of its name are replaced.
abbrev pub pas_executable : Text → Text → Text
pas_executable profile_path source_name =
    restore_path profile_path (take (length source_name - 4) source_name ++ exe_str)

module _ (S : System) where
  unfoldable pub pas_end : Text → Text → Text → Action S.State (Bool × Text)
  unfolding rejects_name
  pas_end profile_path source_name exe = elim (rejects_name source_name) [
    | none ↦ halt undefined
    | some true ↦ pure (false, exe)
    | some false ↦ pure (true, pas_executable profile_path source_name)
  ]

  unfoldable pub fp_end : Text → Text → Text → Text → Action S.State (Bool × Text)
  fp_end profile_path source_name exe output = elim (find (lit "Fatal:") output) [
    | some _ ↦ pure (false, exe)
    | none ↦ pas_end profile_path source_name exe
  ]

  unfoldable pub abc_end : Text → Text → Text → Text → Action S.State (Bool × Text)
  abc_end profile_path source_name exe output = elim (find (lit "OK") output) [
    | none ↦ pure (false, exe)
    | some _ ↦ pas_end profile_path source_name exe
  ]

  -- The build by each compiler.
  module _ (fuel : ℕ) (profile_path source_name compiler_name compiler_config exe : Text) where
    abbrev compiler_command : Action S.State Text
    compiler_command =
        parse_compiler_config S profile_path source_name compiler_name compiler_config

    abbrev pub msv_build : Action S.State (Bool × Text)
    msv_build = do
      command ← compiler_command
      run_compiler S fuel command none (λ output. pure (msv_result exe output)) exe

    abbrev pub fp_build : Action S.State (Bool × Text)
    fp_build = do
      command ← compiler_command
      run_compiler S fuel command (some 108) (fp_end profile_path source_name exe) exe

    abbrev pub abc_build : Action S.State (Bool × Text)
    abc_build = do
      command ← compiler_command
      run_compiler S fuel command (some 153) (abc_end profile_path source_name exe) exe

    abbrev pub mingw_build : Action S.State (Bool × Text)
    mingw_build = do
      command ← compiler_command
      run_compiler S fuel (command ++ lit " 2>&1") none
          (λ output. pure (mingw_result profile_path source_name exe output)) exe

    -- Whether the build succeeded, and the path of the executable, which keeps the value given where
    -- the build does not set it.
    unfoldable pub build_from_source : Action S.State (Bool × Text)
    build_from_source =
        if text_eq compiler_name msv_cpp
        then msv_build
        else if text_eq compiler_name fp_pas
        then fp_build
        else if text_eq compiler_name abc_pas
        then abc_build
        else if text_eq compiler_name mingw_cpp
        then mingw_build
        else (do checker_assert S false builder_cpp 208; pure (false, exe))
