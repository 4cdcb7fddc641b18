-- ===== src/Contester/Main/Turns.antt =====
-- The turns of the contester's endless loop.
use checker_olimp.Base.{ℕ, zero, suc, ◌+◌, ◌≡◌, refl, inl, inr, arith, Bool-cases}
use checker_olimp.Base.Int.{ℤ}
use checker_olimp.Effect.{resume}
use checker_olimp.Effect.Laws.{Returns, returns, Returns-result}
use checker_olimp.System.{System, Shell}
use checker_olimp.Json.{Json}
use checker_olimp.Contester.Database.{MySql}
use checker_olimp.Contester.Tables.{TableView, Same, Same-trans}
use checker_olimp.Contester.Main.{Config, turn, loop, is_early, pause}

module _ (S : System) (H : Shell S.State) (D : MySql S.State) where
  module _ (V : TableView S H D) where
    -- The pause leaves the tables alone.
    pub pause_keeps :
        (delay : ℤ) (start_time : ℕ) (s : S.State)
        → V.IsUp s
        → Returns (λ _ s'. Same V.IsUp V.view s s') (pause S H delay start_time s)
    unfolding pause resume
    pause_keeps delay start_time s up =
        elim (Bool-cases (is_early delay start_time (H.clock s).0)) [
          | inl early ↦ rw early (
              returns (
                Same-trans (Same-trans (V.clock_keeps s up) (V.clock_keeps _)) (V.sleep_keeps _ _)))
          | inr late ↦ rw late (returns (V.clock_keeps s up))
        ]

  module _ (J : Json) (config : Config) where
    -- The loop is in a state from which it goes on as from the start, but for the rounds made.
    abbrev pub Goes : ℕ → S.State → S.State → Type 0
    Goes n s s' = (fuel : ℕ) → loop S H D J (n + fuel) config s ≡ loop S H D J fuel config s'

    -- What each turn takes one step further, the loop takes as many steps further as it has turns.
    pub loop-Returns :
        (I : ℕ → S.State → Type 0)
        → ((n : ℕ) (s : S.State) → I (suc n) s → Returns (λ _ s'. I n s') (turn S H D J config s))
        → (n : ℕ) (s : S.State) → I n s
        → (s' : S.State) × Goes n s s' × I 0 s'
    unfolding loop resume
    loop-Returns I step zero s h =
        (s, λ fuel. let e : 0 + fuel ≡ fuel = omega arith in rw e refl, h)
    loop-Returns I step (suc n) s h =
        let (_, s₁, turned, h₁) = Returns-result (step n s h) in
        let (s', on, h') = loop-Returns I step n s₁ h₁ in
        (
          s',
          λ fuel. let e : suc n + fuel ≡ suc (n + fuel) = omega arith in rw e (rw turned (on fuel)),
          h',
        )
