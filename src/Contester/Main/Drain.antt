-- ===== src/Contester/Main/Drain.antt =====
-- The turns over the solutions that wait.
use checker_olimp.Base.{ℕ, ◌+◌, ◌-◌, ◌*◌, ◌≡◌, refl, arith}
use checker_olimp.Text.{Text}
use checker_olimp.Effect.{resume}
use checker_olimp.Effect.Laws.{Returns, Returns-bind, Returns-weaken}
use checker_olimp.System.{System, Shell}
use checker_olimp.Json.{Json}
use checker_olimp.Contester.Database.{MySql}
use checker_olimp.Contester.Data.Stored.{ids_of-Lists}
use checker_olimp.Contester.Solution.{Solution, get_not_checked_ids}
use checker_olimp.Contester.Queue.{waiting_count}
use checker_olimp.Contester.Queue.Turn.{
  IsTurn, AllNext, AllNext-refl, AllNext-trans, IsTurn-AllNext, IsTurn-waiting_count,
}
use checker_olimp.Contester.Tables.{TableView, AllHeld}
use checker_olimp.Contester.Main.{Config, turn, loop}
use checker_olimp.Contester.Main.Turns.{pause_keeps, loop-Returns}
use checker_olimp.Contester.Main.Finish.{GivesResults, check_solutions-Finishes}

module _ (S : System) (H : Shell S.State) (D : MySql S.State) (J : Json) (V : TableView S H D)
    (held : AllHeld D V.IsUp V.view) (config : Config) (R : Solution → Text → Type 0)
    (good : GivesResults S H D J config.settings V R) where
  open V use {IsUp, view}

  pub turn_lem :
      (s : S.State)
      → IsUp s
      → Returns (λ _ s'. IsUp s' × IsTurn R (view s) (view s')) (turn S H D J config s)
  unfolding turn get_not_checked_ids resume
  turn_lem s up =
      let s₁ = (H.clock s).1 in
      let clock = V.clock_keeps s up in
      let up₁ = clock.up in
      let same = clock.kept in
      rw (ids_of-Lists D s₁ (V.chosen s₁) (V.listed s₁ up₁)) (
        Returns-bind
          (check_solutions-Finishes S H D J V config R good held (V.chosen s₁) s₁ up₁
            (V.chosen_distinct s₁ up₁) (V.chosen_waiting s₁ up₁))
          λ _ s₂ h.
            Returns-weaken (pause_keeps S H D V config.delay (H.clock s).0 s₂ h.0) λ _ s' pause. (
              pause.up,
              record {
                ids = V.chosen s₁;
                different = V.chosen_distinct s₁ up₁;
                all_wait = rw same at (V.chosen_waiting s₁ up₁);
                as_many = rw same at (V.chosen_count s₁ up₁);
                finishes = rw (pause.kept, ← same) (h.1);
              },
            ))

  -- After so many turns: how many wait, and what has become of the rows.
  abbrev pub IsAfter : ℕ → S.State → S.State → Type 0
  IsAfter n s s' =
      IsUp s'
      × (waiting_count (view s') ≡ waiting_count (view s) - 10 * n)
      × AllNext R (view s) (view s')

  pub loop_lem :
      (n : ℕ) (s : S.State)
      → IsUp s
      → (s' : S.State) × ((fuel : ℕ)
          → loop S H D J (n + fuel) config s ≡ loop S H D J fuel config s')
        × IsAfter n s s'
  loop_lem n s up =
      let left = waiting_count (view s) - 10 * n in
      let (s', on, over) =
        loop-Returns S H D J config
          (λ k t. IsUp t × (waiting_count (view t) - 10 * k ≡ left) × AllNext R (view s) (view t))
          (λ k t h. Returns-weaken (turn_lem t h.0) λ _ t' turned.
            let fewer = IsTurn-waiting_count R (view t) (view t') (V.distinct t h.0) turned.1 in
            let left_now = h.1 in
            (
              turned.0,
              omega (arith, fewer, left_now),
              AllNext-trans R (view s) (view t) (view t') h.2
                  (IsTurn-AllNext R (view t) (view t') (V.distinct t h.0) turned.1),
            ))
          n s (up, refl, AllNext-refl R (view s)) in
      let count_left = over.1 in (s', on, (over.0, omega (arith, count_left), over.2))
