-- ===== src/Config/Reading.antt =====
-- A configuration file with all its members is read as what it says.
use checker_olimp.Config.File.{
  ConfigTest, ConfigFile, text_items, test_doc, test_items, config_fields, problem_fields,
  language_fields, config_doc, answer_paths, test_path, problem_of, config_of,
}
use checker_olimp.Base.{
  ℕ, ◌+◌, ◌≡◌, ◌≤◌, ◌<◌, ◌⊎◌, inl, inr, ◌∙◌, some, List, [], ◌∷◌, ◌++◌, map, append_assoc,
  append-nil,
}
use checker_olimp.Text.{Text, lit, c_str}
use checker_olimp.Effect.{ok, halted, exit, resume}
use checker_olimp.Effect.Laws.{resume-halted}
use checker_olimp.System.{System}
use checker_olimp.Words.{word}
use checker_olimp.Json.{Json}
use checker_olimp.Json.Document.{object, count, Represents, HasField, HasItems}
use checker_olimp.Assert.{assert_true}
use checker_olimp.Paths.{reader_cpp, restore_path}
use checker_olimp.Config.{
  TestPath, ProblemStore, read_file, read_outputs, read_test, read_tests, read_problem,
  read_main_config,
}
use checker_olimp.Config.Members.{
  string_member-HasField, uint_member-HasField, uint_member-large, uint64_member-HasField,
  int_member-HasField, object_member-HasField, array_member-HasField,
}

module _ (S : System) (J : Json) (s : S.State) where
  read_outputs-HasItems :
      (v : J.Value) (dir : Text) (ts : List Text) (j : ℕ) (paths : List Text)
      → HasItems J v j (text_items ts)
      → read_outputs S J (count (text_items ts)) v j dir paths s
        ≡ (ok (paths ++ answer_paths dir ts), s)
  unfolding read_outputs resume Represents
  read_outputs-HasItems v dir [] j paths h = rw append-nil
  read_outputs-HasItems v dir (t ∷ ts) j paths h = rw h.0.1 (
      rw (assert_true S _ reader_cpp 210 s h.0.2.0) (
        rw h.0.2.1 (
          read_outputs-HasItems v dir ts (j + 1) (paths ++ (restore_path dir (c_str t) ∷ [])) h.1
          ∙ rw append_assoc)))

  read_test-Represents :
      (v : J.Value) (dir : Text) (t : ConfigTest)
      → Represents J v (test_doc t)
      → read_test S J v dir s ≡ (ok (test_path dir t), s)
  unfolding read_test resume Represents
  read_test-Represents v dir t h =
      let (outs, _) = h.1.1.1.1 in
      rw (uint64_member-HasField S J v _ 192 s t.id h.1.0) (
        rw (int_member-HasField S J v _ 196 s t.scores h.1.1.0) (
          rw (string_member-HasField S J v _ 200 s t.input h.1.1.1.0) (
            rw (array_member-HasField S J v _ 204 s (text_items t.outputs) outs)
              (rw outs.3.1 (rw (read_outputs-HasItems outs.1 dir t.outputs 0 [] outs.3.2))))))

  read_tests-HasItems :
      (v : J.Value) (dir : Text) (ts : List ConfigTest) (i : ℕ) (tests : List TestPath)
      → HasItems J v i (test_items ts)
      → read_tests S J (count (test_items ts)) v i dir tests s
        ≡ (ok (tests ++ map (test_path dir) ts), s)
  unfolding read_tests resume Represents
  read_tests-HasItems v dir [] i tests h = rw append-nil
  read_tests-HasItems v dir (t ∷ ts) i tests h = rw h.0.1 (
      rw (read_test-Represents h.0.0 dir t h.0.2) (
        read_tests-HasItems v dir ts (i + 1) (tests ++ (test_path dir t ∷ [])) h.1
        ∙ rw append_assoc))

  module _ (document : J.Value) (c : ConfigFile) (problem : ProblemStore)
      (r : Represents J document (config_doc c)) where
    abbrev problem_field : HasField J document (lit "problem") (object (problem_fields c))
    unfolding Represents
    problem_field = r.1.0

    abbrev config_field : HasField J problem_field.1 (lit "config") (object (config_fields c))
    unfolding Represents
    config_field = problem_field.3.1.1.0

    read_problem-Represents :
        c.time_limit < word
        → c.memory_limit < word
        → read_problem S J document problem s ≡ (ok (problem_of c problem.test_path_list), s)
    unfolding read_problem resume Represents problem_field config_field
    read_problem-Represents short small =
        let fs = config_field.3.1 in
        rw (object_member-HasField S J document _ 148 s (problem_fields c) problem_field) (
          rw (string_member-HasField S J _ _ 152 s c.name problem_field.3.1.0) (
            rw (object_member-HasField S J _ _ 156 s (config_fields c) config_field) (
              rw (uint_member-HasField S J _ _ 160 s c.time_limit fs.0 short) (
                rw (uint_member-HasField S J _ _ 164 s c.memory_limit fs.1.0 small) (
                  rw (string_member-HasField S J _ _ 168 s c.input fs.1.1.0) (
                    rw (string_member-HasField S J _ _ 172 s c.output fs.1.1.1.0) (
                      rw (string_member-HasField S J _ _ 176 s c.test_dir fs.1.1.1.1.0) (
                        rw (string_member-HasField S J _ _ 180 s c.checker fs.1.1.1.1.1.0) (
                          rw
                            (array_member-HasField S J _ _ 184 s (test_items c.tests)
                              fs.1.1.1.1.1.1.0)
                            (rw fs.1.1.1.1.1.1.0.3.1 (
                              rw (
                                read_tests-HasItems _ (c_str c.test_dir) c.tests 0
                                  problem.test_path_list fs.1.1.1.1.1.1.0.3.2))))))))))))

    -- A limit of more than 32 bits is refused.
    read_problem-large :
        (word ≤ c.time_limit) ⊎ ((c.time_limit < word) × (word ≤ c.memory_limit))
        → (read_problem S J document problem s).0 ≡ halted (exit 1)
    unfolding read_problem resume Represents problem_field config_field
    read_problem-large large =
        let fs = config_field.3.1 in
        rw (object_member-HasField S J document _ 148 s (problem_fields c) problem_field) (
          rw (string_member-HasField S J _ _ 152 s c.name problem_field.3.1.0) (
            rw (object_member-HasField S J _ _ 156 s (config_fields c) config_field) (elim large [
              | inl long ↦
                  resume-halted _ _ (uint_member-large S J _ _ 160 s c.time_limit fs.0 long)
              | inr (short, big) ↦
                  rw (uint_member-HasField S J _ _ 160 s c.time_limit fs.0 short)
                    (resume-halted _ _ (uint_member-large S J _ _ 164 s c.memory_limit fs.1.0 big))
            ])))

    language_field : HasField J document (lit "language") (object (language_fields c))
    unfolding Represents
    language_field = r.1.1.0

  -- A configuration file that can be read, whose parsed text stands for the document of a
  -- configuration with limits below 2^32, is read as that configuration.
  pub read_main_config-Represents :
      (path content : Text) (c : ConfigFile) (problem : ProblemStore)
      → S.read_file path s ≡ some content
      → Represents J (J.parse (c_str content)) (config_doc c)
      → c.time_limit < word
      → c.memory_limit < word
      → read_main_config S J path problem s ≡ (ok (config_of c problem), s)
  unfolding read_main_config read_file resume Represents language_field
  read_main_config-Represents path content c problem e r short small =
      let document = J.parse (c_str content) in
      let lf = language_field document c problem r in
      rw e (
        rw (read_problem-Represents document c problem r short small) (
          rw (object_member-HasField S J document _ 218 s (language_fields c) lf) (
            rw (string_member-HasField S J _ _ 222 s c.language lf.3.1.0)
              (rw (string_member-HasField S J _ _ 226 s c.template lf.3.1.1.0)))))

  -- A configuration that says a time limit of 2^32 or more, or a memory limit of 2^32 or more with
  -- a time limit below it, ends the process with status 1. Conditions: the file can be read and its
  -- parsed text stands for the document of the configuration (Represents).
  pub read_main_config-large :
      (path content : Text) (c : ConfigFile) (problem : ProblemStore)
      → S.read_file path s ≡ some content
      → Represents J (J.parse (c_str content)) (config_doc c)
      → (word ≤ c.time_limit) ⊎ ((c.time_limit < word) × (word ≤ c.memory_limit))
      → (read_main_config S J path problem s).0 ≡ halted (exit 1)
  unfolding read_main_config read_file resume
  read_main_config-large path content c problem e r large =
      rw e (resume-halted _ _ (read_problem-large _ c problem r large))
