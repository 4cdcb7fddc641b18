-- ===== src/Builder/Build.antt =====
-- A whole build: the command, the compiler's output and what is made of it.
use checker_olimp.Base.{
  ℕ, ◌≤◌, ◌≡◌, ◌≢◌, ◌↔◌, refl, ap, ◌∙◌, Bool, true, false, not, none, some, [], ◌++◌, append-nil,
  length, length-append, arith, ◌==◌, ◌∷◌,
}
use checker_olimp.Text.{Text, lit, text_eq, c_str}
use checker_olimp.Text.Find.{text_eq_ne, Occurs, Occurs-position, find-none_iff}
use checker_olimp.Effect.{ok, halted, exit, resume, Action, Outcome}
use checker_olimp.System.{System}
use checker_olimp.Assert.{assert_true, assert_false, assertion_message}
use checker_olimp.Paths.{restore_path}
use checker_olimp.Builder.{
  exe_str, pas_end, builder_cpp, msv_cpp, mingw_cpp, fp_pas, abc_pas, msv_result, mingw_result,
  fp_end, abc_end, run_compiler, parse_compiler_config, build_from_source,
}
use checker_olimp.Builder.Output.{
  Prints, calls, read_pipe-Prints, msv_result_iff, pas_executable-suffix, rejects_name_long,
}

-- A run of the compiler that comes to its end: the pipe opens, what is printed is read in the rounds
-- given, and the pipe is at its end.
pub record Compiles (S : System) (fuel : ℕ) (command output : Text) (s s' : S.State) : Type 0 where
  pub pipe : S.Pipe
  pub opened_state : S.State
  pub printed_state : S.State
  pub opened : S.open_pipe (c_str command) s ≡ (some pipe, opened_state)
  pub prints : Prints S pipe opened_state output printed_state
  pub rounds : calls S pipe prints ≤ fuel
  pub ended : S.at_end pipe printed_state ≡ true
  pub closed : S.close_pipe pipe printed_state ≡ s'

module _ (S : System) (fuel : ℕ) (command output exe : Text) (s s' : S.State) where
  run_compiler-output :
      (look : Text → Action S.State (Bool × Text))
      → Compiles S fuel command output s s'
      → run_compiler S fuel command none look exe s ≡ look output s'
  unfolding run_compiler resume
  run_compiler-output look c = rw c.opened (
      rw (read_pipe-Prints S c.pipe c.prints fuel [] c.rounds)
        (rw c.ended (ap (look output) c.closed)))

  run_compiler-refusing :
      (line : ℕ) (look : Text → Action S.State (Bool × Text))
      → output ≢ []
      → Compiles S fuel command output s s'
      → run_compiler S fuel command (some line) look exe s ≡ look output s'
  unfolding run_compiler resume
  run_compiler-refusing line look full c = rw c.opened (
      rw (read_pipe-Prints S c.pipe c.prints fuel [] c.rounds) (
        rw
          (assert_true S (not (length output == 0)) builder_cpp line c.printed_state
            (filled output full))
          (rw c.ended (ap (look output) c.closed))))
    where
      filled : (t : Text) → t ≢ [] → not (length t == 0) ≡ true
      filled [] h = absurd (h refl)
      filled (x ∷ t) h = ground arith

module _ (S : System) (fuel : ℕ) (profile source config exe : Text) (s s' : S.State) where
  -- The command of the named compiler is made, and its run comes to its end.
  abbrev pub Runs : Text → Text → Text → Type 0
  Runs name suffix output =
      (command : Text) × (parse_compiler_config S profile source name config s ≡ (ok command, s))
      × Compiles S fuel (command ++ suffix) output s s'

  abbrev build : Text → Outcome (Bool × Text) × S.State
  build name = build_from_source S fuel profile source name config exe s

  build-msv :
      (output : Text) → Runs msv_cpp [] output → build msv_cpp ≡ (ok (msv_result exe output), s')
  unfolding build_from_source text_eq resume
  build-msv output (command, parsed, c) =
      rw parsed (run_compiler-output S fuel command output exe s s' _ (rw append-nil at c))

  -- A Microsoft build whose compiler runs to its end gives a result, which is a success exactly
  -- when `/out:` occurs in what the compiler prints and `fatal error` does not.
  pub build-msv_result :
      (output : Text)
      → Runs msv_cpp [] output
      → (r : Bool × Text) × (build msv_cpp ≡ (ok r, s'))
        × ((r.0 ≡ true) ↔ (Occurs (lit "/out:") output × ¬ (Occurs (lit "fatal error") output)))
  build-msv_result output runs =
      (msv_result exe output, build-msv output runs, msv_result_iff exe output)

  build-mingw :
      (output : Text)
      → Runs mingw_cpp (lit " 2>&1") output
      → build mingw_cpp ≡ (ok (mingw_result profile source exe output), s')
  unfolding build_from_source text_eq resume
  build-mingw output (command, parsed, c) =
      rw parsed (run_compiler-output S fuel _ output exe s s' _ c)

  -- A MinGW build, whose command has `2>&1` added and whose compiler runs to its end, succeeds with
  -- the executable in the contestant's directory if `error:` does not occur in what the compiler
  -- prints, and else fails with the executable's name as it was.
  pub build-mingw_result :
      (output : Text)
      → Runs mingw_cpp (lit " 2>&1") output
      → (¬ (Occurs (lit "error:") output)
          → build mingw_cpp ≡ (ok (true, restore_path profile (source ++ exe_str)), s'))
        × (Occurs (lit "error:") output → build mingw_cpp ≡ (ok (false, exe), s'))
  unfolding mingw_result
  build-mingw_result output runs =
      let e = build-mingw output runs in
      (
        λ clean. e ∙ rw ((find-none_iff (lit "error:") output).1 clean, mingw_result),
        λ wrong. e ∙ rw ((Occurs-position (lit "error:") output wrong).1, mingw_result),
      )

  build-fp :
      (output : Text)
      → output ≢ []
      → Runs fp_pas [] output
      → build fp_pas ≡ fp_end S profile source exe output s'
  unfolding build_from_source text_eq resume
  build-fp output full (command, parsed, c) =
      rw parsed
        (run_compiler-refusing S fuel command output exe s s' 108 _ full (rw append-nil at c))

  build-abc :
      (output : Text)
      → output ≢ []
      → Runs abc_pas [] output
      → build abc_pas ≡ abc_end S profile source exe output s'
  unfolding build_from_source text_eq resume
  build-abc output full (command, parsed, c) =
      rw parsed
        (run_compiler-refusing S fuel command output exe s s' 153 _ full (rw append-nil at c))

  -- A compiler of a name other than the four known ones ends the process with status 1, once the
  -- assertion is printed.
  pub build-unknown :
      (name : Text)
      → name ≢ msv_cpp
      → name ≢ fp_pas
      → name ≢ abc_pas
      → name ≢ mingw_cpp
      → build name ≡ (halted (exit 1), S.print (assertion_message builder_cpp 208) s)
  unfolding build_from_source resume
  build-unknown name n₁ n₂ n₃ n₄ =
      rw
        (
          text_eq_ne name msv_cpp n₁,
          text_eq_ne name fp_pas n₂,
          text_eq_ne name abc_pas n₃,
          text_eq_ne name mingw_cpp n₄,
        )
        (rw (assert_false S false builder_cpp 208 s refl))

-- A Pascal build of a source with its suffix.
module _ (S : System) (fuel : ℕ) (profile base config exe : Text) (s s' : S.State) where
  abbrev source : Text
  source = base ++ lit ".pas"

  abbrev built : Outcome (Bool × Text) × S.State
  built = (ok (true, restore_path profile (base ++ exe_str)), s')

  abbrev failed : Outcome (Bool × Text) × S.State
  failed = (ok (false, exe), s')

  pas_end-suffix : base ≢ [] → pas_end S profile source exe s' ≡ built
  unfolding pas_end
  pas_end-suffix named =
      let long : 5 ≤ length source =
        omega (arith, length-append base (lit ".pas"), filled base named) in
      rw (rejects_name_long source long, pas_end)
        (ap (λ e. (ok (true, e), s')) (pas_executable-suffix profile base))
    where
      filled : (t : Text) → t ≢ [] → 1 ≤ length t
      filled [] h = absurd (h refl)
      filled (x ∷ t) h = omega arith

  -- A Free Pascal build of a source `base.pas`, with a nonempty base, whose compiler runs to its
  -- end and prints something, fails if `Fatal:` occurs in the output, with the executable's name as
  -- it was, and else succeeds with `base.exe` in the contestant's directory.
  pub build-fp_result :
      (output : Text)
      → base ≢ []
      → output ≢ []
      → Runs S fuel profile source config exe s s' fp_pas [] output
      → let build = build_from_source S fuel profile source fp_pas config exe s in
        (¬ (Occurs (lit "Fatal:") output) → build ≡ built)
        × (Occurs (lit "Fatal:") output → build ≡ failed)
  unfolding fp_end
  build-fp_result output named full runs =
      let e = build-fp S fuel profile source config exe s s' output full runs in
      (
        λ clean.
            e ∙ rw ((find-none_iff (lit "Fatal:") output).1 clean, fp_end) (pas_end-suffix named),
        λ fatal. e ∙ rw ((Occurs-position (lit "Fatal:") output fatal).1, fp_end),
      )

  -- A PascalABC build of a source `base.pas`, with a nonempty base, whose compiler runs to its end
  -- and prints something, succeeds with `base.exe` in the contestant's directory if `OK` occurs in
  -- the output, and else fails with the executable's name as it was.
  pub build-abc_result :
      (output : Text)
      → base ≢ []
      → output ≢ []
      → Runs S fuel profile source config exe s s' abc_pas [] output
      → let build = build_from_source S fuel profile source abc_pas config exe s in
        (Occurs (lit "OK") output → build ≡ built) × (¬ (Occurs (lit "OK") output) → build ≡ failed)
  unfolding abc_end
  build-abc_result output named full runs =
      let e = build-abc S fuel profile source config exe s s' output full runs in
      (
        λ ready.
            e ∙ rw ((Occurs-position (lit "OK") output ready).1, abc_end) (pas_end-suffix named),
        λ silent. e ∙ rw ((find-none_iff (lit "OK") output).1 silent, abc_end),
      )
