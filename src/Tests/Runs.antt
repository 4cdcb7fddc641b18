-- ===== src/Tests/Runs.antt =====
-- Runs of programs and of tools, and the whole program.
use checker_olimp.Base.{ℕ, ◌≡◌, refl, false, some, [], ◌∷◌, arith}
use checker_olimp.Base.Int.{pos}
use checker_olimp.Text.{Text, lit}
use checker_olimp.Effect.{ok}
use checker_olimp.Effect.Laws.{Post, Returns}
use checker_olimp.Executor.{set_config, execute}
use checker_olimp.Executor.Verdict.{IsAccount}
use checker_olimp.Executor.Termination.{Created, execute-Returns}
use checker_olimp.Tool.{run_tool}
use checker_olimp.Tool.Laws.{Code}
use checker_olimp.Tool.Termination.{IsProcess, run_tool-unstarted, run_tool-Returns}
use checker_olimp.Config.{MainConfig, new_problem_store, read_main_config}
use checker_olimp.Judge.{Verdict, check}
use checker_olimp.Judge.Report.{IsVerdict, check-IsVerdict}
use checker_olimp.Main.{verdict_events}
use checker_olimp.Main.Laws.{read_verdict, clip, read_verdict-verdict_events}
use checker_olimp.Simulation.{Machine, machine_system, machine_timing, process-Answers}
use checker_olimp.Tests.Settings.{small_json}
use checker_olimp.Tests.{machine, executor}

abbrev rounds : ℕ
rounds = 20000000000

executor-Created : Created machine_system machine_timing executor
executor-Created s runs = rw runs process-Answers

execute-Returns_example :
    Returns
      (IsAccount machine_system executor (lit "1 2") machine)
      (execute machine_system rounds (lit "1 2") executor machine)
unfolding set_config
execute-Returns_example =
    execute-Returns machine_system machine_timing rounds (lit "1 2") executor machine
      executor-Created (omega arith) (omega arith)

machine-IsProcess : (command : Text) → IsProcess machine_system command
machine-IsProcess command = record {
  answers = λ s runs. rw runs process-Answers;
  silent = λ s s' failed. rw failed refl;
}

abbrev broken : Machine
broken = record machine { starts = false }

run_tool-unstarted_example :
    Returns (λ code _. code ≡ pos 0) (run_tool machine_system 3 (lit "check.exe") broken)
run_tool-unstarted_example =
    run_tool-unstarted machine_system (lit "check.exe") 2 broken
      (machine-IsProcess (lit "check.exe")) (λ e. omega (arith, e)) refl

run_tool-Returns_example : Returns Code (run_tool machine_system rounds (lit "check.exe") machine)
run_tool-Returns_example =
    run_tool-Returns machine_system (lit "check.exe") rounds machine machine_timing
      (machine-IsProcess (lit "check.exe")) (λ e. omega (arith, e)) (omega arith) (omega arith)

check-IsVerdict_example :
    Post
      (λ v _.
        (config : MainConfig) × (s₁ : Machine) × (read_main_config machine_system small_json
            (lit "config")
            new_problem_store
            machine
          ≡ (ok config, s₁))
        × IsVerdict machine_system 3 (lit "w") (lit "a.cpp") config v)
      (check machine_system small_json 3 (lit "config") (lit "w") (lit "a.cpp") machine)
check-IsVerdict_example =
    check-IsVerdict machine_system 3 (lit "w") (lit "a.cpp") small_json (lit "config") machine

abbrev verdict : Verdict
verdict = record {
  status = lit "ok";
  error_msg = [];
  report = (record { id = 1; result = lit "bad"; time = 15; memory = 4096; score = pos 0 }) ∷ [];
}

read_verdict-verdict_events_example : read_verdict (verdict_events verdict) ≡ some (clip verdict)
read_verdict-verdict_events_example = read_verdict-verdict_events verdict
