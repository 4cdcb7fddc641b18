-- ===== src/Builder/Complete.antt =====
-- A build for which no assertion fails.
use checker_olimp.Base.{
  ℕ, ◌≤◌, ◌≡◌, ◌≢◌, ◌⊎◌, inl, inr, refl, Bool, true, not, Option, none, some, [], ◌∷◌, length, ◌==◌,
  Bool-cases, Option-cases, ap, arith,
}
use checker_olimp.Text.{Text, text_eq, c_str}
use checker_olimp.Effect.{ok, Action, pure}
use checker_olimp.Effect.Laws.{Returns, returns, Returns-value, Returns-ok}
use checker_olimp.System.{System}
use checker_olimp.Assert.{assert_true, checker_assert}
use checker_olimp.Config.Safety.{AnyValue}
use checker_olimp.Builder.{builder_cpp, parse_compiler_config, run_compiler, build_from_source}
use checker_olimp.Builder.Command.{IsCpp, IsPas}
use checker_olimp.Builder.Output.{Prints, read_pipe-Prints}
use checker_olimp.Builder.Progress.{Ends, fp_end-Returns, abc_end-Returns}

-- The compiler is one of the four, its template has the marks that its command needs, and whatever
-- the compiler of a Pascal source does, it prints something.
pub record IsBuildable (S : System) (profile source name config : Text) : Type 0 where
  pub known : IsCpp name ⊎ IsPas name
  pub command : Text
  pub marked :
      (s : S.State) → parse_compiler_config S profile source name config s ≡ (ok command, s)
  pub talks :
      (s s₁ s₂ : S.State) (pipe : S.Pipe) (output : Text)
      → IsPas name
      → S.open_pipe (c_str command) s ≡ (some pipe, s₁)
      → Prints S pipe s₁ output s₂
      → output ≢ []

filled : (t : Text) → t ≢ [] → not (length t == 0) ≡ true
filled [] h = absurd (h refl)
filled (x ∷ t) h = ground arith

-- What an output must be for a build that refuses the empty one.
abbrev Passes : Option ℕ → Text → Type 0
Passes none output = Unit
Passes (some line) output = output ≢ []

module _ (S : System) (fuel : ℕ) (E : Ends S fuel) where
  passed :
      (refuses : Option ℕ) (output : Text) (s : S.State)
      → Passes refuses output
      → (elim refuses as (λ _. Action S.State (Unit {0})) [
        | none ↦ pure tt
        | some line ↦ checker_assert S (not (length output == 0)) builder_cpp line
      ])
          s
        ≡ (ok tt, s)
  passed none output s h = refl
  passed (some line) output s h = assert_true S _ builder_cpp line s (filled output h)

  module _ (command : Text) (refuses : Option ℕ) (look : Text → Action S.State (Bool × Text))
      (exe : Text) where
    run_compiler-Returns :
        (s : S.State)
        → ((s₁ s₂ : S.State) (pipe : S.Pipe) (output : Text)
            → S.open_pipe (c_str command) s ≡ (some pipe, s₁)
            → Prints S pipe s₁ output s₂
            → Passes refuses output)
        → ((output : Text) (s' : S.State) → Returns AnyValue (look output s'))
        → Returns AnyValue (run_compiler S fuel command refuses look exe s)
    unfolding run_compiler
    run_compiler-Returns s passes looks = elim (Option-cases (S.open_pipe (c_str command) s).0) [
      | inl unopened ↦ Returns-value _ (rw unopened (returns tt))
      | inr (pipe, opened) ↦
          let s₁ = (S.open_pipe (c_str command) s).1 in
          let runs : S.open_pipe (c_str command) s ≡ (some pipe, s₁) = ap (λ o. (o, s₁)) opened in
          let (output, s₂, prints, rounds) = E (c_str command) s s₁ pipe runs in
          Returns-value _ (
            rw (opened, read_pipe-Prints S pipe prints fuel [] rounds)
              (Returns-value _ (
                Returns-ok _ (passed refuses output s₂ (passes s₁ s₂ pipe output runs prints)) (
                  Returns-value _ (elim (Bool-cases (S.at_end pipe s₂)) [
                    | inl ended ↦ rw ended (Returns-value _ (looks output _))
                    | inr open_still ↦ rw open_still (returns tt)
                  ])))))
    ]

  module _ (profile source exe : Text) (long : 5 ≤ length source) where
    -- A build of a known compiler whose template has its marks returns, with success or without,
    -- if every compiler comes to its end and that of a Pascal source prints something.
    pub build_from_source-Returns :
        (name config : Text) (s : S.State)
        → IsBuildable S profile source name config
        → Returns AnyValue (build_from_source S fuel profile source name config exe s)
    unfolding build_from_source text_eq
    build_from_source-Returns name config s b = elim b.known [
      | inl (inl e) ↦ rw e (
          Returns-ok _ (rw e at (b.marked s))
            (run_compiler-Returns _ none _ exe s (λ _ _ _ _ _ _. tt) λ output s₂. returns tt))
      | inl (inr e) ↦ rw e (
          Returns-ok _ (rw e at (b.marked s))
            (run_compiler-Returns _ none _ exe s (λ _ _ _ _ _ _. tt) λ output s₂. returns tt))
      | inr (inl e) ↦ rw e (
          Returns-ok _ (rw e at (b.marked s)) (
            run_compiler-Returns _ (some 108) _ exe s
              (λ s₁ s₂ pipe output. b.talks s s₁ s₂ pipe output (inl e))
              (fp_end-Returns S profile source exe long)))
      | inr (inr e) ↦ rw e (
          Returns-ok _ (rw e at (b.marked s)) (
            run_compiler-Returns _ (some 153) _ exe s
              (λ s₁ s₂ pipe output. b.talks s s₁ s₂ pipe output (inr e))
              (abc_end-Returns S profile source exe long)))
    ]
