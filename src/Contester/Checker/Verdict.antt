-- ===== src/Contester/Checker/Verdict.antt =====
-- The two programs together: a solution that the contester runs has the verdict of checker_rc as its
-- result.
use checker_olimp.Base.{
  ℕ, ◌≤◌, ◌<◌, ◌≡◌, ◌⊎◌, inl, inr, refl, ◌∙◌, true, some, List, [], ◌∷◌, ◌++◌, length, map, All,
}
use checker_olimp.Text.{Text, lit, c_str}
use checker_olimp.Effect.{ok, halted, exit, resume, pure, ◌>>◌}
use checker_olimp.Effect.Laws.{Returns, returns, Returns-weaken, Returns-both}
use checker_olimp.Effect.Laws.{Guarded-result}
use checker_olimp.Paths.Laws.{Names}
use checker_olimp.Paths.Progress.{WritesNames}
use checker_olimp.System.{System, Shell}
use checker_olimp.Words.{word}
use checker_olimp.Json.{Json}
use checker_olimp.Json.Document.{ReadsBack}
use checker_olimp.Executor.Clock.{IsTimed, InRange, enough}
use checker_olimp.Config.{MainConfig, new_problem_store, read_main_config}
use checker_olimp.Config.File.{ConfigTest, test_path, config_doc, config_of}
use checker_olimp.Config.Reading.{read_main_config-Represents}
use checker_olimp.Judge.{Verdict}
use checker_olimp.Judge.Report.{IsVerdict}
use checker_olimp.Judge.Progress.{Behaves, HasAnswer, IsUsable}
use checker_olimp.Main.{serizlize, main}
use checker_olimp.Main.Progress.{Delivers, delivers, main-Delivers}
use checker_olimp.Contester.Data.{ChTest, ChGroup}
use checker_olimp.Contester.Database.{MySql, exec}
use checker_olimp.Contester.Solution.{
  Solution, Settings, cfg_events, create_src, create_cfg_json, save_result_to_db,
}
use checker_olimp.Contester.Solution.Reading.{
  tests_of, add_tests, config_file, cfg_events-config_doc, Stores,
}
use checker_olimp.Contester.Checker.{Checker, command, run, content_or_empty}
use checker_olimp.Contester.Checker.Laws.{IsSaved, run-IsSaved}

-- What is relied on of the command and of the files. The command runs checker_rc with its four
-- arguments: where that returns, the result file is as it leaves it; files can be written and are
-- read as they were written; the full path of the configuration names the same file; and removing
-- the source or the configuration leaves the result.
pub record Launches (S : System) (H : Shell S.State) (J : Json) (fuel : ℕ) (settings : Settings)
    (ch : Checker) : Type 0 where
  pub launched :
      (s : S.State) (code : ℕ) (s₁ : S.State)
      → main S J fuel (ch.cfg ∷ lit "." ∷ ch.src ∷ ch.res ∷ []) s ≡ (ok code, s₁)
      → S.read_file ch.res (H.run_command (c_str (command settings ch)) s) ≡ S.read_file ch.res s₁
  pub stores : Stores S J
  pub config_written : (content : Text) (s : S.State) → (S.write_file ch.cfg content s).0 ≡ true
  pub result_written : (content : Text) (s : S.State) → (S.write_file ch.res content s).0 ≡ true
  pub config_opened :
      (s : S.State) (full : Text)
      → Names S ch.cfg s full
      → S.read_file full s ≡ S.read_file ch.cfg s
  pub source_apart :
      (s : S.State) → S.read_file ch.res (S.remove_file (c_str ch.src) s) ≡ S.read_file ch.res s
  pub config_apart :
      (s : S.State) → S.read_file ch.res (S.remove_file (c_str ch.cfg) s) ≡ S.read_file ch.res s
  pub result_plain : c_str ch.res ≡ ch.res

-- Every test that the contester writes has an answer.
answered_tests :
    (dir : Text) (ts : List ChTest) (rest : List ConfigTest)
    → All HasAnswer (map (test_path dir) rest)
    → All HasAnswer (map (test_path dir) (add_tests ts rest))
answered_tests dir [] rest h = h
answered_tests dir (t ∷ ts) rest h = (λ e. cc, answered_tests dir ts rest h)

answered_groups :
    (dir : Text) (gs : List ChGroup) → All HasAnswer (map (test_path dir) (tests_of gs))
answered_groups dir [] = tt
answered_groups dir (g ∷ gs) = answered_tests dir g.chts (tests_of gs) (answered_groups dir gs)

-- The configuration that checker_rc takes from the one that is written.
abbrev pub judged_config : Settings → Checker → MainConfig
judged_config settings ch = config_of (config_file settings ch.sol) new_problem_store

module _ (S : System) (J : Json) (fuel : ℕ) (settings : Settings) (ch : Checker) where
  -- The state in which the command is run: the source and the configuration are written.
  abbrev pub prepared : S.State → S.State
  prepared s =
      (S.write_file ch.cfg (c_str (J.render (cfg_events settings ch.sol)))
        (S.write_file ch.src (c_str ch.sol.code) s).1).1

  -- The result is a verdict, as `serizlize` prints it and a newline.
  abbrev pub HasVerdict : Solution → Type 0
  HasVerdict sol =
      (v : Verdict) × (directory : Text) × IsVerdict S fuel directory (c_str ch.src)
        (judged_config settings ch) v
      × (sol.result ≡ serizlize S J v ++ (10 ∷ []))

  -- The result is a verdict, or this run of checker_rc was ended by an assertion.
  abbrev pub IsJudged : S.State → Solution → Type 0
  IsJudged s sol =
      HasVerdict sol
      ⊎ ((n : ℕ) × ((main S J fuel (ch.cfg ∷ lit "." ∷ ch.src ∷ ch.res ∷ []) (prepared s)).0
            ≡ halted (exit n)))

module _ (S : System) (H : Shell S.State) (D : MySql S.State) (J : Json) (fuel : ℕ)
    (settings : Settings) (ch : Checker) (L : Launches S H J fuel settings ch) where
  abbrev config : MainConfig
  config = judged_config settings ch

  abbrev ready : S.State → S.State
  ready = prepared S J fuel settings ch

  abbrev arguments : List Text
  arguments = ch.cfg ∷ lit "." ∷ ch.src ∷ ch.res ∷ []

  delivered :
      {code : ℕ} {s₁ : S.State}
      → Delivers S J fuel config ch.src ch.res code s₁
      → (v : Verdict) × (directory : Text) × IsVerdict S fuel directory (c_str ch.src) config v
        × (S.read_file ch.res s₁ ≡ some (serizlize S J v ++ (10 ∷ [])))
  delivered (delivers directory v s h) =
      (v, directory, h, rw L.result_plain (L.stores ch.res _ s (L.result_written _ s)))

  -- The content of the result file once the two other files are removed.
  abbrev left_result : S.State → Text
  left_result s = content_or_empty (
      S.read_file ch.res (
        S.remove_file (c_str ch.cfg)
          (S.remove_file (c_str ch.src) (H.run_command (c_str (command settings ch)) (ready s)))))

  -- What a run of checker_rc that delivers leaves in the result file.
  pub delivered-HasVerdict :
      (s : S.State) (code : ℕ) (s₁ : S.State)
      → main S J fuel arguments (ready s) ≡ (ok code, s₁)
      → Delivers S J fuel config ch.src ch.res code s₁
      → HasVerdict S J fuel settings ch (record (ch.sol) { result = left_result s })
  delivered-HasVerdict s code s₁ ended d =
      let (v, directory, h, r) = delivered d in
      (
        v,
        directory,
        h,
        rw (L.config_apart, L.source_apart, L.launched (ready s) code s₁ ended, r) refl,
      )

  module _ (T : IsTimed S) (B : Behaves S T fuel)
      (read_back : ReadsBack J (config_doc (config_file settings ch.sol)))
      (short : ch.sol.pt.time_limit < word) (small : ch.sol.pt.memory_limit < word)
      (fits : InRange S T ch.sol.pt.time_limit) (rounds : enough S T ch.sol.pt.time_limit ≤ fuel)
      (long : 5 ≤ length (c_str ch.src)) where
    usable : IsUsable S T fuel config
    usable = record {
      in_range = fits;
      rounds = rounds;
      answered = answered_groups _ ch.sol.pt.chgs;
    }

    -- checker_rc reads the configuration that was written.
    pub readable :
        (s : S.State) (full : Text)
        → Names S ch.cfg (ready s) full
        → read_main_config S J full new_problem_store (ready s) ≡ (ok config, ready s)
    readable s full named =
        read_main_config-Represents S J (ready s) _ _ (config_file settings ch.sol)
          new_problem_store
          (L.config_opened (ready s) full named ∙ L.stores ch.cfg _ _ (L.config_written _ _))
          (rw (cfg_events-config_doc settings ch.sol) read_back) short small

    pub judged :
        WritesNames S
        → (s : S.State)
        → IsJudged S J fuel settings ch s (record (ch.sol) { result = left_result s })
    judged W s =
        elim (Guarded-result (
          main-Delivers S J T fuel B W config ch.cfg (lit ".") ch.src ch.res (ready s) (readable s)
            usable long)) [
              | inl (code, s₁, ended, d) ↦ inl (delivered-HasVerdict s code s₁ ended d)
              | inr aborted ↦ inr aborted
            ]

    saved :
        (sol : Solution) (s : S.State)
        → ((sql : Text) (s₁ : S.State) → (D.query sql s₁).0 ≡ true)
        → Returns (λ a _. a ≡ sol) ((save_result_to_db D sol >> pure sol) s)
    unfolding save_result_to_db exec resume
    saved sol s accepts = rw (accepts _ s) (returns refl)

    run-Returns :
        WritesNames S
        → (s : S.State) → ((sql : Text) (s₁ : S.State) → (D.query sql s₁).0 ≡ true)
        → Returns (λ sol _. IsJudged S J fuel settings ch s sol) (run S H D J settings ch s)
    unfolding run create_src create_cfg_json resume
    run-Returns W s accepts = Returns-weaken (saved _ _ accepts) λ sol _ e. rw e (judged W s)

    -- A run of the contester's checker returns, on a database that takes every statement: the result
    -- is saved, and it is a verdict or checker_rc was ended by an assertion.
    pub run-IsJudged :
        WritesNames S
        → (s : S.State) → ((sql : Text) (s₁ : S.State) → (D.query sql s₁).0 ≡ true)
        → Returns
            (λ sol s'. IsSaved S D ch sol s' × IsJudged S J fuel settings ch s sol)
            (run S H D J settings ch s)
    run-IsJudged W s accepts =
        Returns-both (run-Returns W s accepts) (run-IsSaved S D H J settings ch s)
