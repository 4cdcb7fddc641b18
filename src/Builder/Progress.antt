-- ===== src/Builder/Progress.antt =====
-- A build gives a result, or ends the process by an assertion, if every compiler comes to an end.
use checker_olimp.Base.{
  ℕ, ◌≤◌, ◌≡◌, inl, inr, refl, Bool, false, ◌||◌, not, Option, none, some, [], length, ◌==◌,
  Bool-cases, Option-cases, ap,
}
use checker_olimp.Text.{Text, lit, text_eq, find, c_str}
use checker_olimp.Effect.{Action, resume, pure}
use checker_olimp.Effect.Laws.{
  Guarded, gives, exits, Guarded-bind, Guarded-value, Guarded-weaken, Returns, returns,
  Returns-Guarded,
}
use checker_olimp.System.{System}
use checker_olimp.Assert.{assert_false, checker_assert}
use checker_olimp.Config.Safety.{AnyValue, assert-Guarded}
use checker_olimp.Builder.{
  builder_cpp, msv_cpp, mingw_cpp, fp_pas, abc_pas, substitute, cpp_command, pas_command,
  parse_compiler_config, run_compiler, pas_end, fp_end, abc_end, build_from_source,
}
use checker_olimp.Builder.Output.{Prints, calls, read_pipe-Prints, rejects_name_long}

module _ (S : System) where
  substitute-Guarded :
      (mark value : Text) (line : ℕ) (command : Text) (s : S.State)
      → Guarded AnyValue (substitute S mark value line command s)
  unfolding substitute resume
  substitute-Guarded mark value line command s = elim (Option-cases (find mark command)) [
    | inl missing ↦
        rw (missing, substitute) (rw (assert_false S false builder_cpp line s refl) exits)
    | inr (i, found) ↦ rw (found, substitute) (gives tt)
  ]

  module _ (profile source config : Text) where
    cpp_command-Guarded : (s : S.State) → Guarded AnyValue (cpp_command S profile source config s)
    unfolding cpp_command
    cpp_command-Guarded s =
        Guarded-bind (substitute-Guarded _ _ 26 config s)
          λ command s₁ _. substitute-Guarded _ _ 30 command s₁

    pas_command-Guarded : (s : S.State) → Guarded AnyValue (pas_command S profile source config s)
    unfolding pas_command
    pas_command-Guarded s = substitute-Guarded _ _ 39 config s

    parse-Guarded :
        (name : Text) (s : S.State)
        → Guarded AnyValue (parse_compiler_config S profile source name config s)
    unfolding parse_compiler_config
    parse-Guarded name s =
        Guarded-bind {P = AnyValue}
          (elim (Bool-cases (text_eq name msv_cpp || text_eq name mingw_cpp)) [
            | inl cpp ↦ rw cpp (cpp_command-Guarded s)
            | inr other ↦ rw other (gives tt)
          ])
          λ command s₁ _. elim (Bool-cases (text_eq name fp_pas || text_eq name abc_pas)) [
            | inl pas ↦ rw pas (pas_command-Guarded s₁)
            | inr other ↦ rw other (gives tt)
          ]

  -- Every pipe that opens comes to its end, within as many calls of `fgets` as there are rounds.
  abbrev pub Ends : ℕ → Type 0
  Ends fuel =
      (command : Text) (s s₁ : S.State) (pipe : S.Pipe)
      → S.open_pipe command s ≡ (some pipe, s₁)
      → (output : Text) × (s₂ : S.State) × (p : Prints S pipe s₁ output s₂) × (calls S pipe p
          ≤ fuel)

  module _ (profile source exe : Text) (long : 5 ≤ length source) where
    pas_end-Returns : (s : S.State) → Returns AnyValue (pas_end S profile source exe s)
    unfolding pas_end
    pas_end-Returns s = rw (rejects_name_long source long, pas_end) (returns tt)

    pub fp_end-Returns :
        (output : Text) (s : S.State) → Returns AnyValue (fp_end S profile source exe output s)
    unfolding fp_end
    fp_end-Returns output s = elim (Option-cases (find (lit "Fatal:") output)) [
      | inl clean ↦ rw (clean, fp_end) (pas_end-Returns s)
      | inr (i, fatal) ↦ rw (fatal, fp_end) (returns tt)
    ]

    pub abc_end-Returns :
        (output : Text) (s : S.State) → Returns AnyValue (abc_end S profile source exe output s)
    unfolding abc_end
    abc_end-Returns output s = elim (Option-cases (find (lit "OK") output)) [
      | inl silent ↦ rw (silent, abc_end) (returns tt)
      | inr (i, ready) ↦ rw (ready, abc_end) (pas_end-Returns s)
    ]

  module _ (fuel : ℕ) (E : Ends fuel) where
    refuse-Guarded :
        (refuses : Option ℕ) (output : Text) (s : S.State)
        → Guarded AnyValue (
            (elim refuses as (λ _. Action S.State (Unit {0})) [
              | none ↦ pure tt
              | some line ↦ checker_assert S (not (length output == 0)) builder_cpp line
            ])
              s)
    refuse-Guarded none output s = gives tt
    refuse-Guarded (some line) output s =
        Guarded-weaken (assert-Guarded S (not (length output == 0)) builder_cpp line s)
          (λ _ _ _. tt)

    module _ (command : Text) (refuses : Option ℕ) (look : Text → Action S.State (Bool × Text))
        (exe : Text) where
      run_compiler-Guarded :
          (s : S.State)
          → ((output : Text) (s' : S.State) → Guarded AnyValue (look output s'))
          → Guarded AnyValue (run_compiler S fuel command refuses look exe s)
      unfolding run_compiler
      run_compiler-Guarded s looks = elim (Option-cases (S.open_pipe (c_str command) s).0) [
        | inl unopened ↦ Guarded-value _ (rw unopened (gives tt))
        | inr (pipe, opened) ↦
            let s₁ = (S.open_pipe (c_str command) s).1 in
            let (output, s₂, prints, rounds) =
              E (c_str command) s s₁ pipe (ap (λ o. (o, s₁)) opened) in
            Guarded-value _ (
              rw (opened, read_pipe-Prints S pipe prints fuel [] rounds)
                (Guarded-value _ (
                  Guarded-bind (refuse-Guarded refuses output s₂) λ _ s₃ _.
                    Guarded-value _ (elim (Bool-cases (S.at_end pipe s₃)) [
                      | inl ended ↦ rw ended (Guarded-value _ (looks output _))
                      | inr open_still ↦ rw open_still (gives tt)
                    ]))))
      ]

    module _ (profile source exe : Text) (long : 5 ≤ length source) where
      pub build_from_source-Guarded :
          (name config : Text) (s : S.State)
          → Guarded AnyValue (build_from_source S fuel profile source name config exe s)
      unfolding build_from_source
      build_from_source-Guarded name config s =
          let parsed = parse-Guarded profile source config name s in
          elim (Bool-cases (text_eq name msv_cpp)) [
            | inl msv ↦ rw msv (
                Guarded-bind parsed
                  λ command s₁ _. run_compiler-Guarded _ _ _ exe s₁ λ output s₂. gives tt)
            | inr not_msv ↦ rw not_msv (elim (Bool-cases (text_eq name fp_pas)) [
              | inl fp ↦ rw fp (
                  Guarded-bind parsed λ command s₁ _. run_compiler-Guarded _ _ _ exe s₁ λ output s₂.
                    Returns-Guarded (fp_end-Returns profile source exe long output s₂) λ _ _ _. tt)
              | inr not_fp ↦ rw not_fp (elim (Bool-cases (text_eq name abc_pas)) [
                | inl abc ↦ rw abc (
                    Guarded-bind parsed λ command s₁ _.
                      run_compiler-Guarded _ _ _ exe s₁ λ output s₂.
                        Returns-Guarded (abc_end-Returns profile source exe long output s₂)
                          λ _ _ _. tt)
                | inr not_abc ↦ rw not_abc (elim (Bool-cases (text_eq name mingw_cpp)) [
                  | inl mingw ↦ rw mingw (
                      Guarded-bind parsed
                        λ command s₁ _. run_compiler-Guarded _ _ _ exe s₁ λ output s₂. gives tt)
                  | inr unknown ↦
                      rw unknown
                        (Guarded-bind (assert-Guarded S false builder_cpp 208 s) λ _ s₁ _. gives tt)
                ])
              ])
            ])
          ]
