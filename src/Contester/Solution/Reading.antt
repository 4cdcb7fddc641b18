-- ===== src/Contester/Solution/Reading.antt =====
-- The configuration that `create_cfg_json` writes is the one that the checker reads.
use checker_olimp.Base.{◌≡◌, ◌<◌, refl, true, some, List, [], ◌∷◌, ◌++◌, append_assoc}
use checker_olimp.Text.{Text, c_str}
use checker_olimp.Effect.{ok, resume, ◌>>=◌}
use checker_olimp.System.{System}
use checker_olimp.Words.{word}
use checker_olimp.Json.{Json, Event}
use checker_olimp.Json.Document.{events, item_events, ReadsBack}
use checker_olimp.Config.{new_problem_store, read_main_config}
use checker_olimp.Config.File.{ConfigTest, ConfigFile, test_items, config_doc, config_of}
use checker_olimp.Config.Reading.{read_main_config-Represents}
use checker_olimp.Contester.Numbers.{to_unsigned}
use checker_olimp.Contester.Data.{ChTest, ChGroup}
use checker_olimp.Contester.Solution.{
  Solution, Settings, clng_at, get_tests_dir, ch_test_events, ch_tests_events, ch_groups_events,
  cfg_events, create_cfg_json,
}

-- The tests of a task, with one output each: those of all its groups, in the order of the groups.
abbrev pub config_test : ChTest → ConfigTest
config_test t = record {
  id = to_unsigned t.id;
  scores = t.scores;
  input = c_str t.input;
  outputs = c_str t.output ∷ [];
}

abbrev pub add_tests : List ChTest → List ConfigTest → List ConfigTest
add_tests [] rest = rest
add_tests (t ∷ ts) rest = config_test t ∷ add_tests ts rest

abbrev pub tests_of : List ChGroup → List ConfigTest
tests_of [] = []
tests_of (g ∷ gs) = add_tests g.chts (tests_of gs)

abbrev pub config_file : Settings → Solution → ConfigFile
config_file settings s = record {
  name = c_str s.pt.title;
  time_limit = s.pt.time_limit;
  memory_limit = s.pt.memory_limit;
  input = c_str s.pt.input;
  output = c_str s.pt.output;
  test_dir = c_str (get_tests_dir settings s);
  checker = c_str s.pt.checker;
  tests = tests_of s.pt.chgs;
  language = c_str s.pl.identifier;
  template = c_str (clng_at settings.clngs s.pl.identifier).cmd;
}

ch_tests_events-add_tests :
    (ts : List ChTest) (rest : List ConfigTest) (es : List Event)
    → ch_tests_events ts ++ item_events (test_items rest) es
      ≡ item_events (test_items (add_tests ts rest)) es
unfolding ch_tests_events ch_test_events events
ch_tests_events-add_tests [] rest es = refl
ch_tests_events-add_tests (t ∷ ts) rest es = rw (ch_tests_events-add_tests ts rest es)

ch_groups_events-tests_of :
    (gs : List ChGroup) (es : List Event)
    → ch_groups_events gs ++ es ≡ item_events (test_items (tests_of gs)) es
unfolding ch_groups_events events
ch_groups_events-tests_of [] es = refl
ch_groups_events-tests_of (g ∷ gs) es =
    rw append_assoc
      (rw (ch_groups_events-tests_of gs es) (ch_tests_events-add_tests g.chts (tests_of gs) es))

-- The calls of the writer for the configuration of a solution are those that write one document:
-- the document of the configuration of the task, with the tests of all groups in the order of the
-- groups, and of the language.
pub cfg_events-config_doc :
    (settings : Settings) (s : Solution)
    → cfg_events settings s ≡ events (config_doc (config_file settings s)) []
unfolding cfg_events events
cfg_events-config_doc settings s = rw (ch_groups_events-tests_of s.pt.chgs)

module _ (S : System) (J : Json) where
  -- A file that was written has the text in it.
  abbrev pub Stores : Type 0
  Stores =
      (path content : Text) (s : S.State)
      → (S.write_file path content s).0 ≡ true
      → S.read_file path (S.write_file path content s).1 ≡ some content

  -- The configuration that the contester writes for a solution is read by checker_rc as the one it
  -- was made from: the limits, names, paths, tests and language are those of the solution's task
  -- and language, and no file is changed by the reading. Conditions: the file is written and files
  -- are read as they were written (Stores); what is written as JSON is read back (ReadsBack); and
  -- both limits are below 2^32.
  pub read_main_config-create_cfg_json :
      (settings : Settings) (solution : Solution) (name : Text) (s : S.State)
      → let c = config_file settings solution in
        let written = S.write_file name (c_str (J.render (cfg_events settings solution))) s in
        Stores
        → ReadsBack J (config_doc c)
        → written.0 ≡ true
        → c.time_limit < word
        → c.memory_limit < word
        → (create_cfg_json S J settings solution name >>= λ path.
              read_main_config S J path new_problem_store)
            s
          ≡ (ok (config_of c new_problem_store), written.1)
  unfolding create_cfg_json resume
  read_main_config-create_cfg_json settings solution name s stores r w short small =
      read_main_config-Represents S J _ name _ (config_file settings solution) new_problem_store
        (stores name _ s w) (rw (cfg_events-config_doc settings solution) r) short small
