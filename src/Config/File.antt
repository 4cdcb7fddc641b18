-- ===== src/Config/File.antt =====
-- A configuration file: what it says, its document, and the configuration that the checker takes from
-- it.
use checker_olimp.Base.{ℕ, ◌%◌, List, [], ◌∷◌, ◌++◌, map}
use checker_olimp.Base.Int.{ℤ}
use checker_olimp.Text.{Text, lit, c_str}
use checker_olimp.Words.{word}
use checker_olimp.Json.Document.{
  Doc, Fields, Items, text, natural, integer, object, array, no_fields, field, no_items, item,
}
use checker_olimp.Paths.{restore_path}
use checker_olimp.Config.{TestPath, ProblemStore, MainConfig}

-- What a configuration file says.
pub record ConfigTest : Type 0 where
  pub id : ℕ
  pub scores : ℤ
  pub input : Text
  pub outputs : List Text

pub record ConfigFile : Type 0 where
  pub name : Text
  pub time_limit : ℕ
  pub memory_limit : ℕ
  pub input : Text
  pub output : Text
  pub test_dir : Text
  pub checker : Text
  pub tests : List ConfigTest
  pub language : Text
  pub template : Text

-- The document, with its members in the order of the example in checker_rc/checker.cpp.
abbrev pub text_items : List Text → Items
text_items [] = no_items
text_items (t ∷ ts) = item (text t) (text_items ts)

abbrev pub test_doc : ConfigTest → Doc
test_doc t = object (
    field (lit "id") (natural t.id) (
      field (lit "scores") (integer t.scores) (
        field (lit "input") (text t.input)
          (field (lit "outputs") (array (text_items t.outputs)) no_fields))))

abbrev pub test_items : List ConfigTest → Items
test_items [] = no_items
test_items (t ∷ ts) = item (test_doc t) (test_items ts)

abbrev pub config_fields : ConfigFile → Fields
config_fields c = field (lit "time_limit") (natural c.time_limit) (
    field (lit "memory_limit") (natural c.memory_limit) (
      field (lit "input") (text c.input) (
        field (lit "output") (text c.output) (
          field (lit "test_dir") (text c.test_dir) (
            field (lit "checker") (text c.checker)
              (field (lit "tests") (array (test_items c.tests)) no_fields))))))

abbrev pub problem_fields : ConfigFile → Fields
problem_fields c =
    field (lit "name") (text c.name) (field (lit "config") (object (config_fields c)) no_fields)

abbrev pub language_fields : ConfigFile → Fields
language_fields c =
    field (lit "name") (text c.language) (field (lit "template") (text c.template) no_fields)

abbrev pub config_doc : ConfigFile → Doc
config_doc c = object (
    field (lit "problem") (object (problem_fields c))
      (field (lit "language") (object (language_fields c)) no_fields))

-- The configuration that the checker takes from it.
abbrev pub answer_paths : Text → List Text → List Text
answer_paths dir = map (λ t. restore_path dir (c_str t))

abbrev pub test_path : Text → ConfigTest → TestPath
test_path dir t = record {
  id = t.id % word;
  scores = t.scores;
  quest_file = restore_path dir (c_str t.input);
  answer_path_list = answer_paths dir t.outputs;
}

abbrev pub problem_of : ConfigFile → List TestPath → ProblemStore
problem_of c tests = record {
  time_limit = c.time_limit;
  memory_limit = c.memory_limit;
  input_file_name = c_str c.input;
  output_file_name = c_str c.output;
  checker_file_path = restore_path (c_str c.test_dir) (c_str c.checker);
  test_path_list = tests ++ map (test_path (c_str c.test_dir)) c.tests;
}

abbrev pub config_of : ConfigFile → ProblemStore → MainConfig
config_of c problem = record {
  compiler_command_template = c_str c.template;
  compiler_name = c_str c.language;
  problem = problem_of c problem.test_path_list;
}
