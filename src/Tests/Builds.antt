-- ===== src/Tests/Builds.antt =====
-- Whole builds.
use checker_olimp.Base.{Bool, ◌≡◌, ◌↔◌, inl, inr, refl, true, false, [], ◌∷◌, ◌++◌, arith}
use checker_olimp.Text.{Text, lit, c_str}
use checker_olimp.Text.Find.{Occurs}
use checker_olimp.Effect.{ok}
use checker_olimp.Paths.{restore_path}
use checker_olimp.Builder.{msv_cpp, mingw_cpp, fp_pas, abc_pas, build_from_source}
use checker_olimp.Builder.Command.{
  parse_compiler_config-source_first, parse_compiler_config-executable_first,
  parse_compiler_config-pas,
}
use checker_olimp.Builder.Output.{Prints, done, chunk, calls}
use checker_olimp.Builder.Build.{
  Compiles, Runs, build-msv_result, build-mingw_result, build-fp_result, build-abc_result,
}
use checker_olimp.Simulation.{Machine, machine_system}
use checker_olimp.Tests.{machine}
use checker_olimp.Tests.Commands.{home, home_path}

-- A compiler is about to print one line.
abbrev printing : Text → Machine
printing line = record machine { lines = line ∷ [] }

abbrev prints_line :
    (line : Text) → Prints machine_system tt (printing line) (c_str line ++ []) machine
prints_line line = chunk refl (done refl)

compiles :
    (command line : Text)
    → Compiles machine_system 2 command (c_str line ++ []) (printing line) machine
unfolding calls
compiles command line = record {
  pipe = tt;
  opened_state = printing line;
  printed_state = machine;
  opened = refl;
  prints = prints_line line;
  rounds = omega arith;
  ended = refl;
  closed = refl;
}

fpc-Runs :
    (line : Text)
    → Runs machine_system 2 home
        (lit "a.pas")
        (lit "fpc $1")
        []
        (printing line)
        machine
        fp_pas
        []
        (c_str line ++ [])
fpc-Runs line = (
  lit "fpc " ++ (home_path (lit "a.pas") ++ []),
  parse_compiler_config-pas machine_system home (lit "a.pas") (printing line) fp_pas (lit "fpc ") []
      (inl refl) (ground arith),
  compiles _ line,
)

build-fp_result_example :
    let build =
      build_from_source machine_system 2 home
        (lit "a.pas")
        fp_pas
        (lit "fpc $1")
        []
        (printing (lit "Fatal: x")) in
    (¬ (Occurs (lit "Fatal:") (lit "Fatal: x"))
      → build ≡ (ok (true, home_path (lit "a.exe")), machine))
    × (Occurs (lit "Fatal:") (lit "Fatal: x") → build ≡ (ok (false, []), machine))
unfolding c_str
build-fp_result_example =
    build-fp_result machine_system 2 home (lit "a") (lit "fpc $1") [] (printing (lit "Fatal: x"))
      machine (lit "Fatal: x") (λ e. cc) (λ e. cc) (fpc-Runs (lit "Fatal: x"))

abc-Runs :
    (line : Text)
    → Runs machine_system 2 home
        (lit "a.pas")
        (lit "abc $1")
        []
        (printing line)
        machine
        abc_pas
        []
        (c_str line ++ [])
abc-Runs line = (
  lit "abc " ++ (home_path (lit "a.pas") ++ []),
  parse_compiler_config-pas machine_system home (lit "a.pas") (printing line) abc_pas (lit "abc ")
      [] (inr refl) (ground arith),
  compiles _ line,
)

build-abc_result_example :
    let build =
      build_from_source machine_system 2 home
        (lit "a.pas")
        abc_pas
        (lit "abc $1")
        []
        (printing (lit "OK")) in
    (Occurs (lit "OK") (lit "OK") → build ≡ (ok (true, home_path (lit "a.exe")), machine))
    × (¬ (Occurs (lit "OK") (lit "OK")) → build ≡ (ok (false, []), machine))
unfolding c_str
build-abc_result_example =
    build-abc_result machine_system 2 home (lit "a") (lit "abc $1") [] (printing (lit "OK")) machine
      (lit "OK") (λ e. cc) (λ e. cc) (abc-Runs (lit "OK"))

msv-Runs :
    (line : Text)
    → Runs machine_system 2 home
        (lit "a")
        (lit "cl /out:$2 $1")
        []
        (printing line)
        machine
        msv_cpp
        []
        (c_str line ++ [])
msv-Runs line = (
  lit "cl /out:" ++ (home_path (lit "a.exe") ++ (lit " " ++ (home_path (lit "a") ++ []))),
  parse_compiler_config-executable_first machine_system home (lit "a") (printing line) msv_cpp
      (lit "cl /out:") (lit " ") [] (inl refl) (ground arith) (ground arith),
  compiles _ line,
)

build-msv_result_example :
    (r : Bool × Text) × (build_from_source machine_system 2 home
        (lit "a")
        msv_cpp
        (lit "cl /out:$2 $1")
        []
        (printing (lit "/out:a.exe\n"))
      ≡ (ok r, machine))
    × ((r.0 ≡ true) ↔ (
        Occurs (lit "/out:") (lit "/out:a.exe\n")
        × ¬ (Occurs (lit "fatal error") (lit "/out:a.exe\n"))))
unfolding c_str
build-msv_result_example =
    build-msv_result machine_system 2 home (lit "a") (lit "cl /out:$2 $1") []
      (printing (lit "/out:a.exe\n")) machine (lit "/out:a.exe\n") (msv-Runs (lit "/out:a.exe\n"))

mingw-Runs :
    (line : Text)
    → Runs machine_system 2 home
        (lit "a")
        (lit "g++ $1 -o $2")
        []
        (printing line)
        machine
        mingw_cpp
        (lit " 2>&1")
        (c_str line ++ [])
unfolding restore_path
mingw-Runs line = (
  lit "g++ " ++ (home_path (lit "a") ++ (lit " -o " ++ (home_path (lit "a.exe") ++ []))),
  parse_compiler_config-source_first machine_system home (lit "a") (printing line) mingw_cpp
      (lit "g++ ") (lit " -o ") [] (inr refl) (ground arith) (ground arith) (ground arith),
  compiles _ line,
)

build-mingw_result_example :
    let build =
      build_from_source machine_system 2 home
        (lit "a")
        mingw_cpp
        (lit "g++ $1 -o $2")
        []
        (printing (lit "warning")) in
    (¬ (Occurs (lit "error:") (lit "warning"))
      → build ≡ (ok (true, restore_path home (lit "a.exe")), machine))
    × (Occurs (lit "error:") (lit "warning") → build ≡ (ok (false, []), machine))
unfolding c_str
build-mingw_result_example =
    build-mingw_result machine_system 2 home (lit "a") (lit "g++ $1 -o $2") []
      (printing (lit "warning")) machine (lit "warning") (mingw-Runs (lit "warning"))
