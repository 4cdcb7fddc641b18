-- ===== src/Contester/Main.antt =====
-- contester/src/contester.cpp: the settings, and the loop that takes unchecked solutions.
pub mod Laws
pub mod Pause
pub mod Ends
pub mod Steps
pub mod Reading
pub mod Verdict
pub mod Turns
pub mod Finish
pub mod Drain
pub mod Waiting
pub mod Stuck
pub mod Mixed
pub mod Start
pub mod Judged
pub mod Since
pub mod Complete
pub mod Sound
use checker_olimp.Base.{
  ℕ, zero, suc, ◌+◌, Bool, true, false, Option, none, some, List, [], ◌∷◌, ◌++◌, ◌%◌, if◌then◌else◌,
}
use checker_olimp.Base.Int.{ℤ, pos, negsuc}
use checker_olimp.Text.{Text, lit, c_str}
use checker_olimp.Text.Decimal.{of_int}
use checker_olimp.Effect.{
  Action, out_of_fuel, pure, halt, query, effect, call, value_of, try_catch, ◌>>=◌, ◌>>◌,
}
use checker_olimp.System.{System, Shell}
use checker_olimp.Json.{Json}
use checker_olimp.Words.{word, sub_word, signed_less}
use checker_olimp.Contester.Database.{MySql, init, connect}
use checker_olimp.Contester.Solution.{Clng, Settings, new_solution, get_not_checked_ids}
use checker_olimp.Contester.Checker.{content_or_empty, new_checker, run}

-- `DELAY`, and the static members of `checker`.
pub record Config : Type 0 where
  pub delay : ℤ
  pub settings : Settings

module _ (S : System) (J : Json) where
  -- `v[key].GetString()`
  unfoldable pub string_at : J.Value → Text → Action S.State Text
  string_at v key = do
    m ← value_of (J.member v key)
    text ← value_of (J.get_string m)
    pure (c_str text)

  -- The loop over the languages; a later one with the same name takes the place of an earlier one.
  unfoldable pub read_langs :
      ℕ → J.Value → ℕ → List (Text × Clng) → Action S.State (List (Text × Clng))
  unfolding string_at
  read_langs zero lv i clngs = pure clngs
  read_langs (suc left) lv i clngs = do
    li ← value_of (J.element lv i)
    cmd ← string_at li (lit "compiler")
    ext ← string_at li (lit "ext")
    id ← string_at li (lit "id")
    read_langs left lv (i + 1) ((id, record { ext = ext; cmd = cmd }) ∷ clngs)

  unfoldable pub read_config : Action S.State Config
  unfolding read_langs
  read_config = do
    content ← query (S.read_file (lit "contester.cfg"))
    let doc = J.parse (c_str (content_or_empty content))
    dv ← value_of (J.member doc (lit "delay"))
    delay ← value_of (J.get_int dv)
    ch_bin ← string_at doc (lit "checker")
    tests_dir ← string_at doc (lit "tests_dir")
    lv ← value_of (J.member doc (lit "langs"))
    if J.is_array lv
        then (do
          lv_size ← value_of (J.size lv)
          clngs ← read_langs lv_size lv 0 []
          pure (record {
            delay = delay;
            settings = record { ch_bin = ch_bin; tests_dir = tests_dir; clngs = clngs };
          }))
        else pure (record {
          delay = delay;
          settings = record { ch_bin = ch_bin; tests_dir = tests_dir; clngs = [] };
        })

  unfoldable pub print_version : Action S.State (Unit {0})
  print_version = do
    effect (S.print (lit "Contester for programming olimpiads\n"))
    effect (S.print (lit "(C) V. Salnikov and R.Zhalnin (Mordovian State University, Russia)\n"))
    effect (S.print (lit "Version 0.0.1dev\n\n"))

-- `start_time+DELAY`, which wraps to the 32 bits of `clock_t`.
abbrev pub end_time : ℤ → ℕ → ℕ
end_time (pos delay) start_time = (start_time + delay) % word
end_time (negsuc n) start_time = sub_word start_time (n + 1)

-- `clock() < end_time`, from a reading of the clock, and the argument of `Sleep`, from the next one.
unfoldable pub is_early : ℤ → ℕ → ℕ → Bool
is_early delay start_time now = signed_less now (end_time delay start_time)

unfoldable pub pause_time : ℤ → ℕ → ℕ → ℕ
pause_time (pos delay) start_time now = sub_word (delay + start_time) now
pause_time (negsuc n) start_time now = sub_word start_time (now + n + 1)

module _ (S : System) (H : Shell S.State) where
  unfoldable pub pause : ℤ → ℕ → Action S.State (Unit {0})
  unfolding is_early pause_time
  pause delay start_time = do
    now ← call H.clock
    if is_early delay start_time now
        then (do again ← call H.clock; effect (S.sleep (pause_time delay start_time again)))
        else pure tt

module _ (S : System) (H : Shell S.State) (D : MySql S.State) (J : Json) where
  unfoldable pub report_failure : ℤ → Text → Action S.State (Unit {0})
  report_failure id message =
      effect
        (S.print_error (lit "solution #" ++ (of_int id ++ (lit ": " ++ (message ++ lit "\n")))))

  -- The body of the inner loop.
  unfoldable pub check_solution : Settings → ℤ → Action S.State (Unit {0})
  unfolding report_failure
  check_solution settings id =
      try_catch
        (do
          s ← new_solution D id
          saved ←
              run S H D J settings
                (new_checker settings s (lit "solution") (lit "solution.json") (lit "result.json"))
          pure tt)
        (report_failure id)

  unfoldable pub check_solutions : Settings → List ℤ → Action S.State (Unit {0})
  unfolding check_solution
  check_solutions settings [] = pure tt
  check_solutions settings (id ∷ ids) = do check_solution settings id; check_solutions settings ids

  -- One turn of the outer loop, and the loop, on fuel; it never ends by itself.
  unfoldable pub turn : Config → Action S.State (Unit {0})
  unfolding check_solutions
  turn config = do
    start_time ← call H.clock
    ind ← get_not_checked_ids D
    check_solutions config.settings ind
    pause S H config.delay start_time

  unfoldable pub loop : ℕ → Config → Action S.State ℕ
  unfolding turn
  loop zero config = halt out_of_fuel
  loop (suc fuel) config = do turn config; loop fuel config

  unfoldable pub main : ℕ → Action S.State ℕ
  unfolding loop
  main fuel = do
    print_version S J
    config ← read_config S J
    connected ←
        try_catch
          (do
            connect D (init (lit "localhost") (lit "root") [] (lit "projects_contest") 3306)
            pure true)
          (λ message. do
            effect (S.print_error (lit "DB connection error: " ++ (message ++ lit "\n")))
            pure false)
    if connected then loop fuel config else pure 1
