-- ===== src/Config.antt =====
-- checker_rc/reader.h and reader.cpp: `config_reader::read_main_config`, which reads the problem and
-- the language from the main configuration file, and `test_reader::read`.

pub mod Safety
pub mod Guards
pub mod Members
pub mod File
pub mod Reading
pub mod Space
use checker_olimp.Base.{
  ℕ, zero, suc, ◌+◌, ◌%◌, Bool, true, false, ◌&&◌, Option, none, some, List, [], ◌∷◌, ◌++◌, ◌==◌,
  ltb, leb, if◌then◌else◌,
}
use checker_olimp.Base.Int.{ℤ, pos}
use checker_olimp.Text.{Text, lit, c_str}
use checker_olimp.Effect.{value_of, Action, pure, query, ◌>>=◌, ◌>>◌}
use checker_olimp.System.{System}
use checker_olimp.Json.{Json}
use checker_olimp.Words.{word, max_word}
use checker_olimp.Assert.{checker_assert}
use checker_olimp.Paths.{restore_path, reader_cpp}

-- `struct test_path_nballs_element`
pub record TestPath : Type 0 where
  pub id : ℕ
  pub scores : ℤ
  pub quest_file : Text
  pub answer_path_list : List Text

abbrev pub new_test_path : TestPath
new_test_path = record { id = max_word; scores = pos 0; quest_file = []; answer_path_list = [] }

-- `struct problem_store`
pub record ProblemStore : Type 0 where
  pub time_limit : ℕ
  pub memory_limit : ℕ
  pub input_file_name : Text
  pub output_file_name : Text
  pub checker_file_path : Text
  pub test_path_list : List TestPath

abbrev pub new_problem_store : ProblemStore
new_problem_store = record {
  time_limit = 0;
  memory_limit = 0;
  input_file_name = [];
  output_file_name = [];
  checker_file_path = [];
  test_path_list = [];
}

-- `problem_store::empty`
unfoldable pub is_empty : ProblemStore → Bool
is_empty p =
    (elim (p.test_path_list) [ [] ↦ true | _ ∷ _ ↦ false ])
    && p.time_limit == 0
    && p.memory_limit == 0

-- The language of the configuration and the problem.
pub record MainConfig : Type 0 where
  pub compiler_command_template : Text
  pub compiler_name : Text
  pub problem : ProblemStore

module _ (S : System) (J : Json) where
  unfoldable pub read_file : Text → Action S.State Text
  read_file file_path = do
    content ← query (S.read_file file_path)
    elim content [
      | none ↦ do checker_assert S false reader_cpp 129; pure []
      | some text ↦ pure text
    ]

  -- `checker_assert(v.HasMember(key))` at the line, and `v[key]`.
  unfoldable pub required : J.Value → Text → ℕ → Action S.State J.Value
  required v key line = do
    present ← value_of (J.has_member v key)
    checker_assert S present reader_cpp line
    value_of (J.member v key)

  -- A member whose kind is asserted on the next line.
  unfoldable pub string_member : J.Value → Text → ℕ → Action S.State Text
  unfolding required
  string_member v key line = do
    m ← required v key line
    checker_assert S (J.is_string m) reader_cpp (line + 1)
    text ← value_of (J.get_string m)
    pure (c_str text)

  unfoldable pub uint_member : J.Value → Text → ℕ → Action S.State ℕ
  unfolding required
  uint_member v key line = do
    m ← required v key line
    checker_assert S (J.is_uint m) reader_cpp (line + 1)
    value_of (J.get_uint m)

  unfoldable pub uint64_member : J.Value → Text → ℕ → Action S.State ℕ
  unfolding required
  uint64_member v key line = do
    m ← required v key line
    checker_assert S (J.is_uint64 m) reader_cpp (line + 1)
    value_of (J.get_uint64 m)

  unfoldable pub int_member : J.Value → Text → ℕ → Action S.State ℤ
  unfolding required
  int_member v key line = do
    m ← required v key line
    checker_assert S (J.is_int m) reader_cpp (line + 1)
    value_of (J.get_int m)

  -- An object or an array is asserted two lines below.
  unfoldable pub object_member : J.Value → Text → ℕ → Action S.State J.Value
  unfolding required
  object_member v key line = do
    m ← required v key line
    checker_assert S (J.is_object m) reader_cpp (line + 2)
    pure m

  unfoldable pub array_member : J.Value → Text → ℕ → Action S.State J.Value
  unfolding required
  array_member v key line = do
    m ← required v key line
    checker_assert S (J.is_array m) reader_cpp (line + 2)
    pure m

  -- The loop over `outputs`, from an index on, for a number of elements that are left.
  unfoldable pub read_outputs : ℕ → J.Value → ℕ → Text → List Text → Action S.State (List Text)
  read_outputs zero outsv j test_dir paths = pure paths
  read_outputs (suc left) outsv j test_dir paths = do
    ov ← value_of (J.element outsv j)
    checker_assert S (J.is_string ov) reader_cpp 210
    output ← value_of (J.get_string ov)
    read_outputs left outsv (j + 1) test_dir (paths ++ (restore_path test_dir (c_str output) ∷ []))

  -- One element of `tests`. The 64-bit id is kept in a `size_t`.
  unfoldable pub read_test : J.Value → Text → Action S.State TestPath
  unfolding uint64_member int_member string_member array_member read_outputs
  read_test tv test_dir = do
    id ← uint64_member tv (lit "id") 192
    scores ← int_member tv (lit "scores") 196
    input ← string_member tv (lit "input") 200
    outsv ← array_member tv (lit "outputs") 204
    outsv_size ← value_of (J.size outsv)
    paths ← read_outputs outsv_size outsv 0 test_dir []
    pure (record {
      id = id % word;
      scores = scores;
      quest_file = restore_path test_dir input;
      answer_path_list = paths;
    })

  unfoldable pub read_tests :
      ℕ → J.Value → ℕ → Text → List TestPath → Action S.State (List TestPath)
  unfolding read_test
  read_tests zero testsv i test_dir tests = pure tests
  read_tests (suc left) testsv i test_dir tests = do
    tv ← value_of (J.element testsv i)
    e ← read_test tv test_dir
    read_tests left testsv (i + 1) test_dir (tests ++ (e ∷ []))

  -- The members of `problem`, with the problem that the caller gives, whose tests are kept.
  unfoldable pub read_problem : J.Value → ProblemStore → Action S.State ProblemStore
  unfolding object_member string_member uint_member array_member read_tests
  read_problem document problem = do
    pv ← object_member document (lit "problem") 148
    problem_name ← string_member pv (lit "name") 152
    cv ← object_member pv (lit "config") 156
    time_limit ← uint_member cv (lit "time_limit") 160
    memory_limit ← uint_member cv (lit "memory_limit") 164
    input ← string_member cv (lit "input") 168
    output ← string_member cv (lit "output") 172
    test_dir ← string_member cv (lit "test_dir") 176
    checker ← string_member cv (lit "checker") 180
    testsv ← array_member cv (lit "tests") 184
    testsv_size ← value_of (J.size testsv)
    tests ← read_tests testsv_size testsv 0 test_dir problem.test_path_list
    pure (record {
      time_limit = time_limit;
      memory_limit = memory_limit;
      input_file_name = input;
      output_file_name = output;
      checker_file_path = restore_path test_dir checker;
      test_path_list = tests;
    })

  -- It returns `true`, or does not return.
  unfoldable pub read_main_config : Text → ProblemStore → Action S.State MainConfig
  unfolding read_file read_problem
  read_main_config main_config_file_path problem = do
    main_config ← read_file main_config_file_path
    let document = J.parse (c_str main_config)
    problem' ← read_problem document problem
    lv ← object_member document (lit "language") 218
    name ← string_member lv (lit "name") 222
    template ← string_member lv (lit "template") 226
    pure (record { compiler_command_template = template; compiler_name = name; problem = problem' })
