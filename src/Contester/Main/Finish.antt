-- ===== src/Contester/Main/Finish.antt =====
-- The inner loop over solutions that wait, with the results that they get.
use checker_olimp.Base.{◌≡◌, refl, true, inl, inr, Any, All, List, [], ◌∷◌}
use checker_olimp.Base.Int.{ℤ}
use checker_olimp.Text.{Text, lit, c_str}
use checker_olimp.Effect.{pure, resume, ◌>>◌}
use checker_olimp.Effect.Laws.{Returns, returns, Returns-bind, Returns-weaken}
use checker_olimp.System.{System, Shell}
use checker_olimp.Json.{Json}
use checker_olimp.Contester.Database.{MySql, exec}
use checker_olimp.Contester.Solution.{
  Solution, Settings, cfg_events, create_src, create_cfg_json, get_src_ext, save_result_to_db,
}
use checker_olimp.Contester.Solution.Stored.{HoldsSolution, new_solution-HoldsSolution}
use checker_olimp.Contester.Checker.{run, command, content_or_empty}
use checker_olimp.Contester.Queue.{key, waits, Distinct, IsWaiting, finish, All-IsWaiting}
use checker_olimp.Contester.Queue.Turn.{IsFor, Finishes}
use checker_olimp.Contester.Tables.{TableView, AllHeld, IsPlain, Same, Same-trans}
use checker_olimp.Contester.Main.{Config, check_solution, check_solutions}
use checker_olimp.Contester.Main.Verdict.{checker_of, handle-Returns}

module _ (S : System) (H : Shell S.State) (J : Json) (settings : Settings) where
  -- The state in which the result of a solution is read.
  abbrev pub ready : Solution → S.State → S.State
  ready x s =
      let ch = checker_of settings x in
      let written =
        (S.write_file ch.cfg (c_str (J.render (cfg_events settings x)))
          (S.write_file ch.src (c_str x.code) s).1).1 in
      S.remove_file (c_str ch.cfg)
        (S.remove_file (c_str ch.src) (H.run_command (c_str (command settings ch)) written))

  -- What stands there.
  abbrev pub result_of : Solution → S.State → Text
  result_of x s = content_or_empty (S.read_file (lit "result.json") (ready x s))

-- The results that are read for the solutions that wait are results for them.
abbrev pub GivesResults :
    (S : System) (H : Shell S.State) (D : MySql S.State)
    → Json
    → Settings
    → TableView S H D
    → (Solution → Text → Type 0)
    → Type 0
GivesResults S H D J settings V R =
    (x : Solution) (s : S.State)
    → V.IsUp s
    → Any (λ y. y ≡ x) (V.view s)
    → waits x ≡ true
    → R x (result_of S H J settings x s)

module _ (S : System) (H : Shell S.State) (D : MySql S.State) (J : Json) (V : TableView S H D)
    (config : Config) (R : Solution → Text → Type 0)
    (good : GivesResults S H D J config.settings V R) where
  open V use {IsUp, view}

  -- The tables hold the solution with the id.
  abbrev pub IsHeld : ℤ → S.State → Type 0
  IsHeld id s = (x : Solution) → key x ≡ id → Any (λ y. y ≡ x) (view s) → HoldsSolution D s x

  abbrev settings : Settings
  settings = config.settings

  saved :
      (sol : Solution) (s : S.State)
      → IsUp s
      → IsPlain sol.result
      → IsWaiting (key sol) (view s)
      → Returns
          (λ _ s'. IsUp s' × (view s' ≡ finish (key sol) sol.result (view s)))
          ((save_result_to_db D sol >> pure sol) s)
  unfolding save_result_to_db exec resume
  saved sol s up plain w =
      let (s₁, done, still_up, changed) = V.updated s (key sol) sol.result up plain w in
      rw done (returns (still_up, changed))

  abbrev last : Solution → S.State → S.State
  last x s = S.remove_file (c_str (checker_of settings x).res) (ready S H J settings x s)

  ready_keeps : (x : Solution) (s : S.State) → IsUp s → Same IsUp view s (ready S H J settings x s)
  ready_keeps x s up =
      Same-trans
        (Same-trans
          (Same-trans
            (Same-trans (V.write_keeps (get_src_ext settings x) _ s up)
              (V.write_keeps (lit ".json") _ _))
            (V.command_keeps _ _))
          (V.remove_keeps _ _))
        (V.remove_keeps _ _)

  -- A run of the checker finishes the solution.
  run-finish :
      (x : Solution) (s : S.State)
      → IsUp s
      → IsWaiting (key x) (view s)
      → Returns
          (λ _ s'. IsUp s' × (view s' ≡ finish (key x) (result_of S H J settings x s) (view s)))
          (run S H D J settings (checker_of settings x) s)
  unfolding run create_src create_cfg_json resume
  run-finish x s up w =
      let before = ready_keeps x s up in
      let after = Same-trans before (V.remove_keeps _ _) in
      Returns-weaken
        (saved _ (last x s) after.up (V.plain_result (ready S H J settings x s) before.up)
          (rw (after.kept) w))
        λ _ _ h. (h.0, rw (after.kept) at (h.1))

  -- The row of a solution that waits.
  row :
      (id : ℤ) (xs : List Solution)
      → IsWaiting id xs
      → (x : Solution) × (key x ≡ id) × (waits x ≡ true) × Any (λ y. y ≡ x) xs
  row id [] w = absurd w
  row id (x ∷ xs) (inl (e, w)) = (x, e, w, inl refl)
  row id (x ∷ xs) (inr later) = let (y, e, w, there) = row id xs later in (y, e, w, inr there)

  given :
      (x : Solution) (result : Text) (xs : List Solution)
      → Any (λ y. y ≡ x) xs
      → waits x ≡ true
      → R x result
      → IsFor R (key x) result xs
  given x result [] there w r = absurd there
  given x result (y ∷ xs) (inl e) w r = inl (rw e (refl, w, r))
  given x result (y ∷ xs) (inr later) w r = inr (given x result xs later w r)

  pub check_solution-finish :
      (id : ℤ) (s : S.State)
      → IsHeld id s
      → IsUp s
      → IsWaiting id (view s)
      → Returns
          (λ _ s'.
            (result : Text) × IsFor R id result (view s)
            × IsUp s'
            × (view s' ≡ finish id result (view s)))
          (check_solution S H D J settings id s)
  unfolding check_solution resume
  check_solution-finish id s held up w =
      let (x, e, open_row, there) = row id (view s) w in
      let here =
        given x (result_of S H J settings x s) (view s) there open_row
          (good x s up there open_row) in
      rw (← e) (
        rw (new_solution-HoldsSolution D s x (held x e there)) (
          Returns-weaken (handle-Returns _ (run-finish x s up (rw e w)))
            λ _ _ h. (_, here, h.1.0, h.1.1)))

  pub check_solutions-Finishes :
      AllHeld D V.IsUp V.view
      → (ids : List ℤ) (s : S.State) → IsUp s
      → Distinct ids
      → All (λ id. IsWaiting id (view s)) ids
      → Returns
          (λ _ s'. IsUp s' × Finishes R ids (view s) (view s'))
          (check_solutions S H D J settings ids s)
  unfolding check_solutions
  check_solutions-Finishes held [] s up d w = returns (up, refl)
  check_solutions-Finishes held (id ∷ ids) s up d w =
      Returns-bind (check_solution-finish id s (λ x _ there. held s x up there) up w.0)
        λ _ s₁ (result, here, up₁, e).
          Returns-weaken
            (check_solutions-Finishes held ids s₁ up₁ d.1
              (rw e (All-IsWaiting id result ids (view s) d.0 w.1)))
            λ _ s' h. (h.0, (result, here, rw e at (h.1)))
