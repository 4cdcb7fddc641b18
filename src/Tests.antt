-- ===== src/Tests.antt =====
-- Runs and instances of the theorems on a small machine.
mod Files
mod Commands
mod Builds
mod Runs
mod Contest
mod Tables
mod Settings
mod Progress
mod Board
mod Updates
mod View
mod Queue
mod Starved
mod Mixed
mod Judged
mod Complete
mod Verdicts
mod Whole
mod Startup
use checker_olimp.Base.{[], ◌∷◌, true, none}
use checker_olimp.Text.{lit}
use checker_olimp.Executor.{Executor, new_executor, set_config}
use checker_olimp.Simulation.{Machine, machine_system}

abbrev pub machine : Machine
machine = record {
  files = (lit "config", lit "json") ∷ (lit "1.in", lit "1 2") ∷ (lit "1.out", lit "3") ∷ [];
  clock = 0;
  lines = [];
  starts = true;
  pending = [];
  first_result = none;
  second_result = none;
}

-- An executor with a limit of one second and of 64 MB.
abbrev pub executor : Executor machine_system
executor =
    set_config machine_system (lit "") (lit "a.exe") (lit "input.txt") (lit "output.txt") 1000
      67108864 (new_executor machine_system true true)
