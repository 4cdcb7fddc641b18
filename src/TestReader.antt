-- ===== src/TestReader.antt =====
-- checker_rc/reader.cpp: `test_reader::read`, which reads the input and the answers of one test.
pub mod Laws
pub mod Progress
pub mod Complete
use checker_olimp.Base.{
  ℕ, ◌≡◌, ◌≢◌, ◌↔◌, refl, ◌∙◌, ap, Bool, true, false, Option, none, some, List, [], ◌∷◌, ◌++◌, inl,
  inr, Option-cases, append_assoc, append-nil, arith,
}
use checker_olimp.Text.{Text}
use checker_olimp.Effect.{ok, halted, exit, Action, pure, query, resume, ◌>>=◌, ◌>>◌}
use checker_olimp.System.{System}
use checker_olimp.Assert.{checker_assert, assert_true, assert_false}
use checker_olimp.Paths.{reader_cpp}
use checker_olimp.Config.{read_file}

-- `struct test_element`
pub record TestElement : Type 0 where
  pub quest : Text
  pub answer_list : List Text

abbrev pub new_test_element : TestElement
new_test_element = record { quest = []; answer_list = [] }

module _ (S : System) where
  -- `checker_assert(file)` at the line, and the bytes of the file added to a text.
  unfoldable pub read_onto : Text → Text → ℕ → Action S.State Text
  read_onto path text line = do
    content ← query (S.read_file path)
    elim content [
      | none ↦ do checker_assert S false reader_cpp line; pure text
      | some bytes ↦ pure (text ++ bytes)
    ]

  -- The loop over the answer files. `answer` is cleared before each.
  unfoldable pub read_answers : List Text → TestElement → Action S.State TestElement
  unfolding read_onto
  read_answers [] test = pure test
  read_answers (path ∷ paths) test = do
    answer ← read_onto path [] 97
    read_answers paths (record test { answer_list = test.answer_list ++ (answer ∷ []) })

  -- The element that the reader keeps is given and the new one returned.
  unfoldable pub read : Text → List Text → TestElement → Action S.State TestElement
  unfolding read_answers
  read quest_file answer_file_list test = do
    quest ← read_onto quest_file [] 84
    read_answers answer_file_list (record { quest = quest; answer_list = [] })
