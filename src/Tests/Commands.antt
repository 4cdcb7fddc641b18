-- ===== src/Tests/Commands.antt =====
-- The compilers' command lines.
use checker_olimp.Base.{◌≡◌, inl, inr, refl, [], ◌++◌, arith}
use checker_olimp.Text.{Text, lit}
use checker_olimp.Effect.{ok}
use checker_olimp.Paths.{restore_path}
use checker_olimp.Builder.{msv_cpp, mingw_cpp, parse_compiler_config}
use checker_olimp.Builder.Command.{
  parse_compiler_config-source_first, parse_compiler_config-executable_first,
}
use checker_olimp.Simulation.{machine_system}
use checker_olimp.Tests.{machine}

-- The directory of the contestant, and the paths there.
abbrev pub home : Text
home = lit "w"

abbrev pub home_path : Text → Text
home_path = restore_path home

parse_compiler_config-source_first_example :
    parse_compiler_config machine_system home (lit "a") mingw_cpp (lit "g++ $1 -o $2") machine ≡ (
      ok (lit "g++ " ++ (home_path (lit "a") ++ (lit " -o " ++ (home_path (lit "a.exe") ++ [])))),
      machine,
    )
unfolding restore_path
parse_compiler_config-source_first_example =
    parse_compiler_config-source_first machine_system home (lit "a") machine mingw_cpp (lit "g++ ")
      (lit " -o ") [] (inr refl) (ground arith) (ground arith) (ground arith)

parse_compiler_config-executable_first_example :
    parse_compiler_config machine_system home (lit "a") msv_cpp (lit "cl /out:$2 $1") machine ≡ (
      ok (lit "cl /out:" ++ (home_path (lit "a.exe") ++ (lit " " ++ (home_path (lit "a") ++ [])))),
      machine,
    )
parse_compiler_config-executable_first_example =
    parse_compiler_config-executable_first machine_system home (lit "a") machine msv_cpp
      (lit "cl /out:") (lit " ") [] (inl refl) (ground arith) (ground arith)
