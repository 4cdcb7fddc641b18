-- ===== src/TestReader/Complete.antt =====
-- The reader of a test, where its files are there.
use checker_olimp.Base.{List, [], ◌∷◌, inl, inr, All, Option-cases}
use checker_olimp.Text.{Text}
use checker_olimp.Effect.Laws.{Returns, returns}
use checker_olimp.System.{System}
use checker_olimp.Config.Safety.{AnyValue}
use checker_olimp.Paths.Complete.{IsThere}
use checker_olimp.TestReader.{TestElement, read}
use checker_olimp.TestReader.Laws.{Contents, read-Contents}

module _ (S : System) where
  Contents-there :
      (paths : List Text) (s : S.State)
      → All (IsThere S) paths
      → (texts : List Text) × Contents S s paths texts
  Contents-there [] s h = ([], tt)
  Contents-there (p ∷ ps) s h = elim (Option-cases (S.read_file p s)) [
    | inl missing ↦ absurd (h.0 s missing)
    | inr (text, found) ↦ let (texts, c) = Contents-there ps s h.1 in (text ∷ texts, (found, c))
  ]

  pub read-IsThere :
      (quest_file : Text) (paths : List Text) (test : TestElement) (s : S.State)
      → IsThere S quest_file
      → All (IsThere S) paths
      → Returns AnyValue (read S quest_file paths test s)
  read-IsThere quest_file paths test s there h = elim (Option-cases (S.read_file quest_file s)) [
    | inl missing ↦ absurd (there s missing)
    | inr (quest, found) ↦
        let (texts, c) = Contents-there paths s h in
        rw (read-Contents S s quest_file paths test quest texts found c) (returns tt)
  ]
