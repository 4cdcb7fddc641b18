-- ===== src/Assert.antt =====
-- checker_rc/checker_assert.h and checker_assert.cpp.
use checker_olimp.Base.{ℕ, ◌≡◌, refl, Bool, true, false, ◌++◌}
use checker_olimp.Text.{Text, lit}
use checker_olimp.Effect.{ok, halted, Action, resume, pure, effect, halt, exit, ◌>>◌}
use checker_olimp.Effect.Laws.{Post, returned, ended}
use checker_olimp.System.{System}

-- The text printed. `__LINE__` stands in the function, so the line is that of the `cout` statement,
-- whatever line the failed assertion is on.
unfoldable pub assertion_message : Text → ℕ → Text
assertion_message file line =
    lit "Assertion failed: false, file " ++ (file ++ (lit ", line 6" ++ lit "\n"))

module _ (S : System) where
  unfoldable pub checker_assert : Bool → Text → ℕ → Action S.State (Unit {0})
  checker_assert true file line = pure tt
  checker_assert false file line = do effect (S.print (assertion_message file line)); halt (exit 1)

  -- An assertion that holds changes nothing; one that fails prints and ends the process.
  pub assert_true :
      (b : Bool) (file : Text) (line : ℕ) (s : S.State)
      → b ≡ true
      → checker_assert b file line s ≡ (ok tt, s)
  unfolding checker_assert resume
  assert_true b file line s e = rw e

  pub assert_false :
      (b : Bool) (file : Text) (line : ℕ) (s : S.State)
      → b ≡ false
      → checker_assert b file line s ≡ (halted (exit 1), S.print (assertion_message file line) s)
  unfolding checker_assert resume
  assert_false b file line s e = rw e

  pub assert_holds :
      (b : Bool) (file : Text) (line : ℕ) (s : S.State)
      → Post (λ _ s'. (b ≡ true) × (s' ≡ s)) (checker_assert b file line s)
  assert_holds true file line s = rw (assert_true true file line s refl) (returned (refl, refl))
  assert_holds false file line s = rw (assert_false false file line s refl) ended
