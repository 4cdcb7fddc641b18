-- ===== src/Config/Guards.antt =====
-- `read_main_config` reads no value as what it is not, where the document and the elements of its
-- `tests` are objects.
use checker_olimp.Base.{
  ℕ, zero, suc, ◌+◌, ◌≤◌, ◌≡◌, refl, true, false, some, List, [], inl, inr, Option-cases, arith,
}
use checker_olimp.Text.{Text, lit, c_str}
use checker_olimp.Effect.{resume}
use checker_olimp.Effect.Laws.{Guarded, gives, exits, Guarded-bind}
use checker_olimp.System.{System}
use checker_olimp.Json.{Json, IsChecked}
use checker_olimp.Assert.{assert_false}
use checker_olimp.Paths.{reader_cpp}
use checker_olimp.Config.{
  ProblemStore, TestPath, read_file, read_outputs, read_test, read_tests, read_problem,
  read_main_config,
}
use checker_olimp.Config.Safety.{
  AnyValue, assert-Guarded, value_of-Guarded, string_member-Guarded, uint_member-Guarded,
  uint64_member-Guarded, int_member-Guarded, object_member-Guarded, array_member-Guarded,
}

module _ (S : System) (J : Json) (C : IsChecked J) where
  module _ (v : J.Value) (n : ℕ) (a : J.is_array v ≡ true) (z : J.size v ≡ some n) where
    read_outputs-Guarded :
        (left j : ℕ) (dir : Text) (paths : List Text) (s : S.State)
        → j + left ≤ n
        → Guarded AnyValue (read_outputs S J left v j dir paths s)
    unfolding read_outputs
    read_outputs-Guarded zero j dir paths s h = gives tt
    read_outputs-Guarded (suc left) j dir paths s h =
        Guarded-bind (value_of-Guarded S _ s (C.element_array v n j a z (omega arith))) λ ov s₁ _.
          Guarded-bind (assert-Guarded S (J.is_string ov) reader_cpp 210 s₁) λ _ s₂ p.
            Guarded-bind (value_of-Guarded S _ s₂ (C.get_string_string ov p))
              λ output s₃ _. read_outputs-Guarded left (j + 1) dir _ s₃ (omega arith)

  read_test-Guarded :
      (tv : J.Value) (dir : Text) (s : S.State)
      → J.is_object tv ≡ true
      → Guarded AnyValue (read_test S J tv dir s)
  unfolding read_test
  read_test-Guarded tv dir s o = Guarded-bind (uint64_member-Guarded S J C tv _ _ s o) λ _ s₁ _.
      Guarded-bind (int_member-Guarded S J C tv _ _ s₁ o) λ _ s₂ _.
        Guarded-bind (string_member-Guarded S J C tv _ _ s₂ o) λ _ s₃ _.
          Guarded-bind (array_member-Guarded S J C tv _ _ s₃ o) λ outsv s₄ h.
            Guarded-bind (value_of-Guarded S _ s₄ (C.size_array outsv h.1)) λ n s₅ z.
              Guarded-bind (read_outputs-Guarded outsv n h.1 z n 0 dir [] s₅ (omega arith))
                λ _ s₆ _. gives tt

  read_tests-Guarded :
      (v : J.Value) (n left i : ℕ) (dir : Text) (tests : List TestPath) (s : S.State)
      → J.is_array v ≡ true
      → J.size v ≡ some n
      → ((k : ℕ) (e : J.Value) → J.element v k ≡ some e → J.is_object e ≡ true)
      → i + left ≤ n
      → Guarded AnyValue (read_tests S J left v i dir tests s)
  unfolding read_tests
  read_tests-Guarded v n zero i dir tests s a z os h = gives tt
  read_tests-Guarded v n (suc left) i dir tests s a z os h =
      Guarded-bind (value_of-Guarded S _ s (C.element_array v n i a z (omega arith))) λ tv s₁ e.
        Guarded-bind (read_test-Guarded tv dir s₁ (os i tv e))
          λ _ s₂ _. read_tests-Guarded v n left (i + 1) dir _ s₂ a z os (omega arith)

  -- The elements of `problem.config.tests` are objects.
  abbrev pub ObjectTests : J.Value → Type 0
  ObjectTests document =
      (pv cv tv e : J.Value) (k : ℕ)
      → J.member document (lit "problem") ≡ some pv
      → J.member pv (lit "config") ≡ some cv
      → J.member cv (lit "tests") ≡ some tv
      → J.element tv k ≡ some e
      → J.is_object e ≡ true

  read_problem-Guarded :
      (document : J.Value) (problem : ProblemStore) (s : S.State)
      → J.is_object document ≡ true
      → ObjectTests document
      → Guarded AnyValue (read_problem S J document problem s)
  unfolding read_problem
  read_problem-Guarded d problem s o os =
      Guarded-bind (object_member-Guarded S J C d _ _ s o) λ pv s₁ hp.
        Guarded-bind (string_member-Guarded S J C pv _ _ s₁ hp.1) λ _ s₂ _.
          Guarded-bind (object_member-Guarded S J C pv _ _ s₂ hp.1) λ cv s₃ hc.
            Guarded-bind (uint_member-Guarded S J C cv _ _ s₃ hc.1) λ _ s₄ _.
              Guarded-bind (uint_member-Guarded S J C cv _ _ s₄ hc.1) λ _ s₅ _.
                Guarded-bind (string_member-Guarded S J C cv _ _ s₅ hc.1) λ _ s₆ _.
                  Guarded-bind (string_member-Guarded S J C cv _ _ s₆ hc.1) λ _ s₇ _.
                    Guarded-bind (string_member-Guarded S J C cv _ _ s₇ hc.1) λ _ s₈ _.
                      Guarded-bind (string_member-Guarded S J C cv _ _ s₈ hc.1) λ _ s₉ _.
                        Guarded-bind (array_member-Guarded S J C cv _ _ s₉ hc.1) λ tv t₁ ht.
                          Guarded-bind (value_of-Guarded S _ t₁ (C.size_array tv ht.1)) λ n t₂ z.
                            Guarded-bind
                              (read_tests-Guarded tv n n 0 _ _ t₂ ht.1 z
                                (λ k e. os pv cv tv e k hp.0 hc.0 ht.0) (omega arith))
                              λ _ t₃ _. gives tt

  read_file-Guarded :
      (path : Text) (s : S.State)
      → Guarded (λ text _. S.read_file path s ≡ some text) (read_file S J path s)
  unfolding read_file resume
  read_file-Guarded path s = elim (Option-cases (S.read_file path s)) [
    | inl e ↦ rw e (rw (assert_false S false reader_cpp 129 s refl) exits)
    | inr (text, e) ↦ rw e (gives refl)
  ]

  -- Reading the configuration does nothing undefined, throws nothing and ends: it gives a
  -- configuration or exits by an assertion. Conditions: readings of rapidjson succeed on values of
  -- their kind (IsChecked), and if the file can be read, its text parses to an object in which each
  -- element of the tests is an object.
  pub read_main_config-Guarded :
      (path : Text) (problem : ProblemStore) (s : S.State)
      → ((text : Text)
          → S.read_file path s ≡ some text
          → let document = J.parse (c_str text) in
            (J.is_object document ≡ true) × ObjectTests document)
      → Guarded AnyValue (read_main_config S J path problem s)
  unfolding read_main_config
  read_main_config-Guarded path problem s shaped =
      Guarded-bind (read_file-Guarded path s) λ text s₁ e.
        let d = J.parse (c_str text) in
        let h = shaped text e in
        Guarded-bind (read_problem-Guarded d problem s₁ h.0 h.1) λ _ s₂ _.
          Guarded-bind (object_member-Guarded S J C d _ _ s₂ h.0) λ lv s₃ hl.
            Guarded-bind (string_member-Guarded S J C lv _ _ s₃ hl.1)
              λ _ s₄ _. Guarded-bind (string_member-Guarded S J C lv _ _ s₄ hl.1) λ _ s₅ _. gives tt
