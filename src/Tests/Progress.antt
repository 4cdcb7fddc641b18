-- ===== src/Tests/Progress.antt =====
-- The whole check on a machine whose pipes are empty.
use checker_olimp.Base.{
  ℕ, ◌≡◌, refl, Bool, true, false, Option, some, none, [], ◌∷◌, arith, inl, inr, Bool-cases,
}
use checker_olimp.Text.{Text, lit, text_eq, c_str}
use checker_olimp.Text.Find.{text_eq_refl}
use checker_olimp.Effect.{ok}
use checker_olimp.Effect.Laws.{Guarded}
use checker_olimp.System.{System}
use checker_olimp.Executor.Clock.{IsTimed}
use checker_olimp.Builder.Output.{done, calls}
use checker_olimp.Builder.Progress.{Ends}
use checker_olimp.Config.{MainConfig, new_problem_store, read_main_config}
use checker_olimp.Config.Guards.{ObjectTests}
use checker_olimp.Config.File.{config_of}
use checker_olimp.Config.Reading.{read_main_config-Represents}
use checker_olimp.Judge.{check}
use checker_olimp.Main.{main}
use checker_olimp.Main.Progress.{Delivers, main-Delivers}
use checker_olimp.Judge.Report.{IsVerdict}
use checker_olimp.Paths.Laws.{Names}
use checker_olimp.Paths.Progress.{WritesNames}
use checker_olimp.Judge.Progress.{Behaves, IsUsable, check-Guarded}
use checker_olimp.Simulation.{Machine, machine_system, lookup, later}
use checker_olimp.Simulation.Values.{is_object}
use checker_olimp.Tests.{machine}
use checker_olimp.Tests.Settings.{
  small, represented, small_json, small_json-IsChecked, small-ObjectTests,
}

-- A file that nobody has written is there, too, but for that of the result.
abbrev pub content : Bool → Option Text → Option Text
content true written = written
content false none = some (lit "3")
content false (some text) = some text

-- Every process ends at once, with the code 0.
abbrev pub end_code : Bool → Option ℕ
end_code true = some 0
end_code false = none

abbrev pub quiet_system : System
quiet_system = record machine_system {
  get_line = λ size pipe m. (none, m);
  read_file = λ path m. content (text_eq path (lit "result.json")) (lookup path m.files);
  exit_code_process = λ process m. (end_code process, later 1000 m);
}

pub quiet_stored :
    (path text : Text) (m : Machine)
    → quiet_system.read_file path (quiet_system.write_file path text m).1 ≡ some text
quiet_stored path text m = elim (Bool-cases (text_eq path (lit "result.json"))) [
  | inl result ↦ rw result (rw text_eq_refl)
  | inr other ↦ rw other (rw text_eq_refl)
]

abbrev pub quiet_timing : IsTimed quiet_system
quiet_timing = record {
  elapsed = λ m. m.clock;
  call_limit = 1000;
  tick = λ m. refl;
  tick_advances = λ m. omega arith;
  tick_prompt = λ m. omega arith;
  exit_code_later = λ h m. omega arith;
  exit_code_prompt = λ h m. omega arith;
  times_later = λ h m. omega arith;
  times_prompt = λ h m. omega arith;
  memory_later = λ h m. omega arith;
  memory_prompt = λ h m. omega arith;
}

abbrev pub rounds : ℕ
rounds = 20000000000

quiet-Ends : Ends quiet_system rounds
unfolding calls
quiet-Ends command s s₁ pipe opened = ([], s₁, done refl, omega arith)

pub quiet_writes : WritesNames quiet_system
quiet_writes path m e = cc

-- A path is its own full name.
pub same_name :
    (path full : Text) (m : Machine)
    → c_str path ≡ path
    → Names quiet_system path m full
    → full ≡ path
same_name path full m whole (h, buff, e, same) = cc

pub quiet-Behaves : Behaves quiet_system quiet_timing rounds
quiet-Behaves = record {
  answers = λ application command directory s h.
      rw h (record { exit_code = λ m k. cc; times = λ m k. cc });
  silent = λ application command directory s s' h. rw h refl;
  active = λ e. omega (arith, e);
  compilers_end = quiet-Ends;
  tools_in_range = omega arith;
  tool_rounds = omega arith;
}

shaped :
    (text : Text)
    → quiet_system.read_file (lit "config") machine ≡ some text
    → (is_object (small_json.parse (c_str text)) ≡ true)
      × ObjectTests quiet_system small_json small_json-IsChecked (small_json.parse (c_str text))
shaped text e = (refl, small-ObjectTests quiet_system)

pub small-read :
    read_main_config quiet_system small_json (lit "config") new_problem_store machine
    ≡ (ok (config_of small new_problem_store), machine)
unfolding text_eq
small-read =
    read_main_config-Represents quiet_system small_json machine (lit "config") (lit "json") small
      new_problem_store refl (represented 1024 (omega arith)) (omega arith) (omega arith)

pub small-IsUsable : IsUsable quiet_system quiet_timing rounds (config_of small new_problem_store)
small-IsUsable = record { in_range = omega arith; rounds = omega arith; answered = (λ e. cc, tt) }

usable :
    (config : MainConfig) (s : Machine)
    → read_main_config quiet_system small_json (lit "config") new_problem_store machine
      ≡ (ok config, s)
    → IsUsable quiet_system quiet_timing rounds config
usable config s e =
    let is_small : config ≡ config_of small new_problem_store = cc (rw small-read at e) in
    rw is_small small-IsUsable

check-Guarded_example :
    Guarded
      (λ v _.
        (config : MainConfig) × (s₁ : Machine) × (read_main_config quiet_system small_json
            (lit "config")
            new_problem_store
            machine
          ≡ (ok config, s₁))
        × IsVerdict quiet_system rounds (lit "w") (lit "a.cpp") config v)
      (check quiet_system small_json rounds (lit "config") (lit "w") (lit "a.cpp") machine)
check-Guarded_example =
    check-Guarded quiet_system quiet_timing rounds quiet-Behaves quiet_writes small_json
      small_json-IsChecked (lit "config") (lit "w") (lit "a.cpp") machine (omega arith) shaped
      usable

small_named :
    (full : Text)
    → Names quiet_system (lit "config") machine full
    → read_main_config quiet_system small_json full new_problem_store machine
      ≡ (ok (config_of small new_problem_store), machine)
unfolding c_str
small_named full named = rw (same_name (lit "config") full machine refl named) small-read

main-Delivers_example :
    Guarded
      (Delivers quiet_system small_json rounds
        (config_of small new_problem_store)
        (lit "a.cpp")
        (lit "result"))
      (main quiet_system small_json rounds
        (lit "config" ∷ lit "w" ∷ lit "a.cpp" ∷ lit "result" ∷ [])
        machine)
unfolding c_str
main-Delivers_example =
    main-Delivers quiet_system small_json quiet_timing rounds quiet-Behaves quiet_writes
      (config_of small new_problem_store) (lit "config") (lit "w") (lit "a.cpp") (lit "result")
      machine small_named small-IsUsable (omega arith)
