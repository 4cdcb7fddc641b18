-- ===== src/TestReader/Laws.antt =====
-- What `test_reader::read` returns.
use checker_olimp.Base.{
  ◌≡◌, ◌↔◌, refl, ◌∙◌, ap, subst, none, some, List, [], ◌∷◌, ◌++◌, inl, inr, Option-cases, false,
  append_assoc, append-nil, ◌⊎◌, ℕ,
}
use checker_olimp.Text.{Text}
use checker_olimp.Effect.{ok, halted, exit, resume}
use checker_olimp.Effect.Laws.{resume-halted}
use checker_olimp.System.{System}
use checker_olimp.Assert.{assert_false}
use checker_olimp.Paths.{reader_cpp}
use checker_olimp.TestReader.{TestElement, read_onto, read_answers, read}

module _ (S : System) (s : S.State) where
  -- Each path is that of a file with the content at its place.
  abbrev pub Contents : List Text → List Text → Type 0
  Contents [] [] = Unit
  Contents (p ∷ ps) (t ∷ ts) = (S.read_file p s ≡ some t) × Contents ps ts
  Contents _ _ = ⊥

  read_onto-found :
      (path text bytes : Text) (line : ℕ)
      → S.read_file path s ≡ some bytes
      → read_onto S path text line s ≡ (ok (text ++ bytes), s)
  unfolding read_onto resume
  read_onto-found path text bytes line e = rw e

  read_onto-missing :
      (path text : Text) (line : ℕ)
      → S.read_file path s ≡ none
      → (read_onto S path text line s).0 ≡ halted (exit 1)
  unfolding read_onto resume
  read_onto-missing path text line e = rw e (rw (assert_false S false reader_cpp line s refl))

  read_answers-Contents :
      (paths texts : List Text) (test : TestElement)
      → Contents paths texts
      → read_answers S paths test s
        ≡ (ok (record test { answer_list = test.answer_list ++ texts }), s)
  unfolding read_answers resume
  read_answers-Contents [] [] test h = rw append-nil
  read_answers-Contents [] (t ∷ ts) test h = absurd h
  read_answers-Contents (p ∷ ps) [] test h = absurd h
  read_answers-Contents (p ∷ ps) (t ∷ ts) test h = rw (read_onto-found p [] t 97 h.0) (
      read_answers-Contents ps ts _ h.1
      ∙ ap (λ l. (ok (record test { answer_list = l }), s))
          (append_assoc test.answer_list (t ∷ []) ts))

  -- The answer files are there with some contents, or the process exits.
  read_answers-cases :
      (paths : List Text) (test : TestElement)
      → ((texts : List Text) × Contents paths texts)
        ⊎ ((read_answers S paths test s).0 ≡ halted (exit 1))
  unfolding read_answers resume
  read_answers-cases [] test = inl ([], tt)
  read_answers-cases (p ∷ ps) test = elim (Option-cases (S.read_file p s)) [
    | inl missing ↦
        inr (resume-halted _ (read_onto S p [] 97 s) (read_onto-missing p [] 97 missing))
    | inr (t, found) ↦
        elim (read_answers-cases ps (record test { answer_list = test.answer_list ++ (t ∷ []) })) [
          | inl (ts, h) ↦ inl (t ∷ ts, (found, h))
          | inr e ↦ inr (rw (read_onto-found p [] t 97 found) e)
        ]
  ]

  module _ (quest_file : Text) (paths : List Text) (old : TestElement) where
    pub read-Contents :
        (quest : Text) (texts : List Text)
        → S.read_file quest_file s ≡ some quest
        → Contents paths texts
        → read S quest_file paths old s ≡ (ok (record { quest = quest; answer_list = texts }), s)
    unfolding read resume
    read-Contents quest texts e h =
        rw (read_onto-found quest_file [] quest 84 e) (read_answers-Contents paths texts _ h)

    read-cases :
        ((quest : Text) × (texts : List Text) × (S.read_file quest_file s ≡ some quest)
          × Contents paths texts)
        ⊎ ((read S quest_file paths old s).0 ≡ halted (exit 1))
    unfolding read resume
    read-cases = elim (Option-cases (S.read_file quest_file s)) [
      | inl missing ↦ inr (
          resume-halted _ (read_onto S quest_file [] 84 s)
            (read_onto-missing quest_file [] 84 missing))
      | inr (quest, found) ↦
          elim (read_answers-cases paths (record { quest = quest; answer_list = [] })) [
            | inl (texts, h) ↦ inl (quest, texts, found, h)
            | inr e ↦ inr (rw (read_onto-found quest_file [] quest 84 found) e)
          ]
    ]

    -- `test_reader::read` returns an element, and leaves the system as it was, exactly when the
    -- input file and every answer file can be read, with their contents in the order of the paths,
    -- whatever was read before.
    pub read_iff :
        (t : TestElement)
        → (read S quest_file paths old s ≡ (ok t, s))
          ↔ ((S.read_file quest_file s ≡ some t.quest) × Contents paths t.answer_list)
    read_iff t = (
      λ h. elim read-cases [
        | inl (quest, texts, e, c) ↦
            subst
              (λ (t : TestElement).
                (S.read_file quest_file s ≡ some t.quest) × Contents paths t.answer_list)
              (cc (read-Contents quest texts e c)) (e, c)
        | inr e ↦ cc
      ],
      λ h. read-Contents t.quest t.answer_list h.0 h.1,
    )
