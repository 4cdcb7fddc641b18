-- ===== src/TestReader/Progress.antt =====
-- The reader of a test gives an element, or ends the process by an assertion.
use checker_olimp.Base.{inl, inr, refl, false, List, [], ◌∷◌, ℕ, Option-cases}
use checker_olimp.Text.{Text}
use checker_olimp.Effect.{resume}
use checker_olimp.Effect.Laws.{Guarded, gives, exits, Guarded-bind}
use checker_olimp.System.{System}
use checker_olimp.Assert.{assert_false}
use checker_olimp.Config.Safety.{AnyValue}
use checker_olimp.Paths.{reader_cpp}
use checker_olimp.TestReader.{TestElement, read_onto, read_answers, read}

module _ (S : System) where
  read_onto-Guarded :
      (path text : Text) (line : ℕ) (s : S.State) → Guarded AnyValue (read_onto S path text line s)
  unfolding read_onto resume
  read_onto-Guarded path text line s = elim (Option-cases (S.read_file path s)) [
    | inl missing ↦ rw missing (rw (assert_false S false reader_cpp line s refl) exits)
    | inr (bytes, found) ↦ rw found (gives tt)
  ]

  read_answers-Guarded :
      (paths : List Text) (test : TestElement) (s : S.State)
      → Guarded AnyValue (read_answers S paths test s)
  unfolding read_answers
  read_answers-Guarded [] test s = gives tt
  read_answers-Guarded (path ∷ paths) test s =
      Guarded-bind (read_onto-Guarded path [] 97 s) λ answer s₁ _. read_answers-Guarded paths _ s₁

  pub read-Guarded :
      (quest_file : Text) (paths : List Text) (test : TestElement) (s : S.State)
      → Guarded AnyValue (read S quest_file paths test s)
  unfolding read
  read-Guarded quest_file paths test s =
      Guarded-bind (read_onto-Guarded quest_file [] 84 s)
        λ quest s₁ _. read_answers-Guarded paths _ s₁
