-- ===== src/Contester/Main/Laws.antt =====
-- Failures of the contester's loops.
use checker_olimp.Base.{◌≢◌, refl, List, [], ◌∷◌}
use checker_olimp.Base.Int.{ℤ}
use checker_olimp.Text.{Text}
use checker_olimp.Effect.{Outcome, ok, thrown, halted, resume, handle}
use checker_olimp.System.{System, Shell}
use checker_olimp.Json.{Json}
use checker_olimp.Contester.Database.{MySql}
use checker_olimp.Contester.Solution.{Settings}
use checker_olimp.Contester.Main.{report_failure, check_solution, check_solutions}

module _ (S : System) (H : Shell S.State) (D : MySql S.State) (J : Json) (settings : Settings) where
  -- The call does not throw.
  abbrev pub Caught : {A : Type 0} → Outcome A × S.State → Type 0
  Caught r = (message : Text) → r.0 ≢ thrown message

  handled :
      (id : ℤ) (r : Outcome (Unit {0}) × S.State) → Caught (handle (report_failure S H D J id) r)
  unfolding handle report_failure
  handled id (ok a, s) message e = cc
  handled id (thrown t, s) message e = cc
  handled id (halted h, s) message e = cc

  check_solution-Caught : (id : ℤ) (s : S.State) → Caught (check_solution S H D J settings id s)
  unfolding check_solution
  check_solution-Caught id s = handled id _

  after :
      (k : Unit {0} → S.State → Outcome (Unit {0}) × S.State) (r : Outcome (Unit {0}) × S.State)
      → Caught r
      → ((s : S.State) → Caught (k tt s))
      → Caught (resume k r)
  unfolding resume
  after k (ok a, s) h next message e = next s message e
  after k (thrown t, s) h next message e = h t refl
  after k (halted t, s) h next message e = cc

  -- The loop over the unchecked solutions never ends in an exception of the type that the program
  -- throws, whatever fails for the solutions.
  pub check_solutions-Caught :
      (ids : List ℤ) (s : S.State) → Caught (check_solutions S H D J settings ids s)
  unfolding check_solutions
  check_solutions-Caught [] s message e = cc
  check_solutions-Caught (id ∷ ids) s message e =
      after _ (check_solution S H D J settings id s) (check_solution-Caught id s)
        (λ s₁. check_solutions-Caught ids s₁) message e
