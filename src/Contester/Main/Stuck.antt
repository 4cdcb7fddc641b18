-- ===== src/Contester/Main/Stuck.antt =====
-- The loop of contester.cpp, when every solution that is selected throws.
use checker_olimp.Base.{ℕ, ◌+◌, ◌≡◌, ◌∙◌, All, List, [], ◌∷◌}
use checker_olimp.Base.Int.{ℤ}
use checker_olimp.Text.{Text}
use checker_olimp.Effect.{thrown, resume, handle}
use checker_olimp.Effect.Laws.{Returns, returns, Returns-bind, Returns-weaken}
use checker_olimp.System.{System, Shell}
use checker_olimp.Json.{Json}
use checker_olimp.Contester.Database.{MySql}
use checker_olimp.Contester.Data.Stored.{ids_of-Lists}
use checker_olimp.Contester.Solution.{Solution, get_not_checked_ids}
use checker_olimp.Contester.Tables.{TableView, Same}
use checker_olimp.Contester.Main.{
  Config, report_failure, check_solution, check_solutions, turn, loop,
}
use checker_olimp.Contester.Main.Steps.{attempt}
use checker_olimp.Contester.Main.Turns.{pause_keeps, loop-Returns}

module _ (S : System) (H : Shell S.State) (D : MySql S.State) (J : Json) (V : TableView S H D)
    (config : Config) (rows : List Solution) where
  open V use {IsUp, view}

  -- The server answers, and the tables have these rows.
  abbrev pub Stays : S.State → Type 0
  Stays s = IsUp s × (view s ≡ rows)

  -- While the tables have these rows, the solution cannot be run, and they keep them.
  abbrev pub IsBroken : ℤ → Type 0
  IsBroken id =
      (s : S.State)
      → Stays s
      → (message : Text) × (s₁ : S.State) × (attempt S H D J config.settings id s
          ≡ (thrown message, s₁))
        × Stays s₁

  stays : {s s' : S.State} → Same IsUp view s s' → view s ≡ rows → Stays s'
  stays h e = (h.up, h.kept ∙ e)

  broken_solutions :
      (ids : List ℤ) (s : S.State)
      → All IsBroken ids
      → Stays s
      → Returns (λ _ s'. Stays s') (check_solutions S H D J config.settings ids s)
  unfolding check_solutions check_solution report_failure handle resume
  broken_solutions [] s h e = returns e
  broken_solutions (id ∷ ids) s h e =
      let (message, s₁, failed, kept) = h.0 s e in
      rw failed (broken_solutions ids _ h.1 (stays (V.print_keeps _ s₁ kept.0) kept.1))

  turn_lem :
      ((s : S.State) → Stays s → All IsBroken (V.chosen s))
      → (s : S.State) → Stays s
      → Returns (λ _ s'. Stays s') (turn S H D J config s)
  unfolding turn get_not_checked_ids resume
  turn_lem broken s (up, e) =
      let s₁ = (H.clock s).1 in
      let e₁ = stays (V.clock_keeps s up) e in
      rw (ids_of-Lists D s₁ (V.chosen s₁) (V.listed s₁ e₁.0)) (
        Returns-bind (broken_solutions (V.chosen s₁) s₁ (broken s₁ e₁) e₁) λ _ s₂ e₂.
          Returns-weaken (pause_keeps S H D V config.delay (H.clock s).0 s₂ e₂.0)
            λ _ s' k. stays k e₂.1)

  -- If, while the tables have the given rows, each of the solutions that are selected fails with an
  -- exception and leaves the rows as they are (IsBroken), then after any number of turns the rows
  -- are still the same: no solution is ever checked. Condition: the tables are as TableView says.
  pub loop-IsBroken :
      ((s : S.State) → Stays s → All IsBroken (V.chosen s))
      → (n : ℕ) (s : S.State) → Stays s
      → (s' : S.State) × ((fuel : ℕ)
          → loop S H D J (n + fuel) config s ≡ loop S H D J fuel config s')
        × Stays s'
  loop-IsBroken broken n s h =
      loop-Returns S H D J config (λ _ t. Stays t) (λ _ t h. turn_lem broken t h) n s h
