-- ===== src/Judge/Report.antt =====
-- What the verdict of `check` says of the tests.
use checker_olimp.Base.{
  ℕ, ◌≤◌, ◌≡◌, ◌⊎◌, inl, inr, refl, List, [], ◌∷◌, ◌∙◌, ◌++◌, Bool, true, false, none, some,
  Bool-cases,
}
use checker_olimp.Base.Int.{pos}
use checker_olimp.Text.{Text, lit}
use checker_olimp.Effect.{ok, value_of}
use checker_olimp.Effect.Laws.{
  Post, returned, Post-step, Post-bind, Post-both, Post-equation, Post-weaken,
}
use checker_olimp.System.{System}
use checker_olimp.Json.{Json}
use checker_olimp.Words.{max_word}
use checker_olimp.Paths.{restore_path}
use checker_olimp.Builder.{build_from_source}
use checker_olimp.Executor.{RequestType, Request, correct, tle, mle, Executor, set_config}
use checker_olimp.Executor.Verdict.{Accounts, execute-IsAccount}
use checker_olimp.Executor.Keeps.{execute-Keeps}
use checker_olimp.Config.{TestPath, MainConfig, new_problem_store, read_main_config}
use checker_olimp.TestReader.{TestElement}
use checker_olimp.Judge.{
  ReportElem, Verdict, failed_verdict, answers_match, report_of, run_tests, judge, check,
}

-- The value that is there.
first_answer :
    {W : Type 0} {path : Text} (s s' : W) (paths : List Text)
    → value_of (elim paths [ [] ↦ none | path ∷ _ ↦ some path ]) s ≡ (ok path, s')
    → (more : List Text) × (paths ≡ path ∷ more)
first_answer s s' [] e = cc
first_answer s s' (x ∷ xs) e = (xs, cc)

module _ (S : System) (fuel : ℕ) (profile source : Text) where
  -- The external checker, run on the test's input, the first answer and the program's output, has
  -- decided so.
  abbrev pub Decides : Text → TestPath → Bool → Type 0
  Decides output t accepted =
      (answer : Text) × (more : List Text) × (t.answer_path_list ≡ answer ∷ more)
      × (s : S.State) × (s' : S.State) × (answers_match S fuel t.quest_file answer
            (restore_path profile output)
            (restore_path profile (source ++ lit "testlib_checker.report")) s
          ≡ (ok accepted, s'))

  module _ (output : Text) (time_limit memory_limit : ℕ) where
    -- The report of a test names it. Either the test is passed, with its full score, a time and a
    -- memory within the limits, and an output that the external checker has accepted; or the score is
    -- 0, and the result is one of the four others, of which `bad` is for an output that the external
    -- checker has refused. A result `tle` or `crash` has no time, and `mle` or `crash` no memory.
    abbrev pub IsPass : TestPath → ReportElem → Type 0
    IsPass t r =
        (r.result ≡ lit "ok")
        × (r.score ≡ t.scores)
        × (r.time ≤ time_limit)
        × (r.memory ≤ memory_limit)
        × Decides output t true

    abbrev pub IsFailure : TestPath → ReportElem → Type 0
    IsFailure t r =
        (r.score ≡ pos 0)
        × ((r.result ≡ lit "bad")
              × (r.time ≤ time_limit)
              × (r.memory ≤ memory_limit)
              × Decides output t false
            ⊎ (r.result ≡ lit "tle") × (r.time ≡ max_word) × (r.memory ≤ memory_limit)
            ⊎ (r.result ≡ lit "mle") × (r.time ≤ time_limit) × (r.memory ≡ max_word)
            ⊎ (r.result ≡ lit "crash") × (r.time ≡ max_word) × (r.memory ≡ max_word))

    abbrev pub IsReportOf : TestPath → ReportElem → Type 0
    IsReportOf t r = (r.id ≡ t.id) × (IsPass t r ⊎ IsFailure t r)

    -- One report for each test, in their order.
    abbrev pub Reports : List TestPath → List ReportElem → Type 0
    Reports [] [] = Unit
    Reports (t ∷ ts) (r ∷ rs) = IsReportOf t r × Reports ts rs
    Reports _ _ = ⊥

    report_of-IsReportOf :
        (t : TestPath) (e : Executor S) (quest : Text) (v : RequestType) (request : Request)
        (s₀ s s' : S.State)
        → e.time_limit ≡ time_limit
        → e.memory_limit ≡ memory_limit
        → Accounts S e quest s₀ v request.time_out request.memory request.report_program s'
        → Post (λ r _. IsReportOf t r) (report_of S fuel profile output source t v request s)
    unfolding report_of
    report_of-IsReportOf t e quest correct request s₀ s s' et em h =
        Post-equation _ λ answer s₁ found.
          let (more, listed) = first_answer s s₁ t.answer_path_list found in
          Post-equation _ λ matched s₂ decided. elim (Bool-cases matched) [
            | inl accepted ↦
                let why : Decides output t true =
                  (answer, more, listed, s₁, s₂, rw accepted at decided) in
                rw accepted (returned (refl, inl (refl, refl, rw (← et) h.0, rw (← em) h.1, why)))
            | inr refused ↦
                let why : Decides output t false =
                  (answer, more, listed, s₁, s₂, rw refused at decided) in
                rw refused
                  (returned (refl, inr (refl, inl (refl, rw (← et) h.0, rw (← em) h.1, why))))
          ]
    report_of-IsReportOf t e quest tle request s₀ s s' et em h =
        returned (refl, inr (refl, inr (inl (refl, refl, rw (← em) h.1))))
    report_of-IsReportOf t e quest mle request s₀ s s' et em h =
        returned (refl, inr (refl, inr (inr (inl (refl, rw (← et) h.0, refl)))))
    report_of-IsReportOf t e quest _ request s₀ s s' et em h =
        returned (refl, inr (refl, inr (inr (inr (refl, refl, refl)))))

    run_tests-Reports :
        (ts : List TestPath) (test : TestElement) (e : Executor S) (s : S.State)
        → e.time_limit ≡ time_limit
        → e.memory_limit ≡ memory_limit
        → Post (λ rs _. Reports ts rs) (run_tests S fuel profile output source ts test e s)
    unfolding run_tests
    run_tests-Reports [] test e s et em = returned tt
    run_tests-Reports (t ∷ ts) test e s et em = Post-step _ λ test' s₁.
        Post-bind
          (Post-both (execute-IsAccount S e test'.quest s₁ fuel)
            (execute-Keeps S e fuel test'.quest s₁))
          λ e' s₂ h.
            Post-bind
              (report_of-IsReportOf t e test'.quest e'.request_report.verdict e'.request_report s₁
                s₂ s₂ et em h.0)
              λ r s₃ hr.
                Post-bind
                  (run_tests-Reports ts test' e' s₃ (h.1.same_time ∙ et) (h.1.same_memory ∙ em))
                  λ rs s₄ hrs. returned (hr, hrs)

  -- The build has ended so.
  abbrev pub Builds : MainConfig → Bool → Type 0
  Builds config succeeded =
      (exe : Text) × (s : S.State) × (s' : S.State) × (build_from_source S fuel profile source
          config.compiler_name config.compiler_command_template [] s
        ≡ (ok (succeeded, exe), s'))

  -- A verdict of a configuration: the build has failed and nothing is reported, or it has succeeded
  -- and every test of the problem is reported.
  abbrev pub IsVerdict : MainConfig → Verdict → Type 0
  IsVerdict config v =
      (v ≡ failed_verdict) × Builds config false
      ⊎ (v.status ≡ lit "ok")
        × (v.error_msg ≡ [])
        × Builds config true
        × Reports config.problem.output_file_name config.problem.time_limit
            config.problem.memory_limit config.problem.test_path_list v.report

  pub judge-IsVerdict :
      (config : MainConfig) (s : S.State)
      → Post (λ v _. IsVerdict config v) (judge S fuel profile source config s)
  unfolding judge set_config
  judge-IsVerdict config s = Post-equation _ λ built s₁ e. elim (Bool-cases built.0) [
    | inr failed ↦
        let ended : Builds config false = (built.1, s, s₁, rw failed at e) in
        rw failed (returned (inl (refl, ended)))
    | inl ready ↦
        let ended : Builds config true = (built.1, s, s₁, rw ready at e) in
        rw ready (
          Post-bind (run_tests-Reports _ _ _ config.problem.test_path_list _ _ s₁ refl refl)
            λ rs s₂ h. returned (inr (refl, refl, ended, h)))
  ]

  -- If `check` returns a verdict, it is one of the configuration that was read. Either the build
  -- has failed and nothing is reported, or the build has succeeded and each test has one report, in
  -- the order of the configuration: it has the result ok, with the full score, for a run with a
  -- time and a memory within the limits and an output that the external checker has accepted, run
  -- with the first answer of the test; or it has the score 0 and one of the results bad, tle, mle
  -- and crash, with the figures that go with it, where bad is for an output that the external
  -- checker has refused.
  pub check-IsVerdict :
      (J : Json) (path : Text) (s : S.State)
      → Post
          (λ v _.
            (config : MainConfig) × (s₁ : S.State) × (read_main_config S J path new_problem_store s
              ≡ (ok config, s₁))
            × IsVerdict config v)
          (check S J fuel path profile source s)
  unfolding check
  check-IsVerdict J path s =
      Post-equation _
        λ config s₁ e. Post-weaken (judge-IsVerdict config s₁) λ v s₂ h. (config, s₁, e, h)
