-- ===== src/Contester/Solution/Laws.antt =====
-- What the configuration written by `create_cfg_json` says.
use checker_olimp.Base.{ℕ, ◌≡◌, refl, Option, none, some, List, [], ◌∷◌, ◌++◌, append_assoc}
use mathlib.Core.Option
use checker_olimp.Base.Int.{ℤ}
use checker_olimp.Text.{Text, c_str}
use checker_olimp.Json.{
  Event, start_object, end_object, start_array, end_array, string, uint64, int,
}
use checker_olimp.Contester.Numbers.{to_unsigned}
use checker_olimp.Contester.Data.{ChTest, ChGroup}
use checker_olimp.Contester.Solution.{
  Solution, Settings, clng_at, get_tests_dir, ch_test_events, ch_tests_events, ch_groups_events,
  cfg_events,
}

-- The contents of a configuration, with one output for each test.
pub record CfgTest : Type 0 where
  pub id : ℕ
  pub scores : ℤ
  pub input : Text
  pub output : Text

pub record CfgLanguage : Type 0 where
  pub name : Text
  pub template : Text

pub record Cfg : Type 0 where
  pub name : Text
  pub time_limit : ℕ
  pub memory_limit : ℕ
  pub input : Text
  pub output : Text
  pub test_dir : Text
  pub checker : Text
  pub tests : List CfgTest
  pub language : CfgLanguage

-- A reader of the calls, by the kinds of the values: the tests, and the language.
pub read_tests : List Event → Option (List CfgTest × CfgLanguage)
read_tests
      (start_object
        ∷ string _
        ∷ uint64 id
        ∷ string _
        ∷ int scores
        ∷ string _
        ∷ string input
        ∷ string _
        ∷ start_array
        ∷ string output
        ∷ end_array
        ∷ end_object
        ∷ es) =
    Option.map
      (λ r. (record { id = id; scores = scores; input = input; output = output } ∷ r.0, r.1))
      (read_tests es)
read_tests
      (end_array
        ∷ end_object
        ∷ end_object
        ∷ string _
        ∷ start_object
        ∷ string _
        ∷ string language
        ∷ string _
        ∷ string template
        ∷ end_object
        ∷ end_object
        ∷ []) =
    some ([], record { name = language; template = template })
read_tests _ = none

pub read_cfg : List Event → Option Cfg
read_cfg
      (start_object
        ∷ string _
        ∷ start_object
        ∷ string _
        ∷ string name
        ∷ string _
        ∷ start_object
        ∷ string _
        ∷ uint64 time_limit
        ∷ string _
        ∷ uint64 memory_limit
        ∷ string _
        ∷ string input
        ∷ string _
        ∷ string output
        ∷ string _
        ∷ string test_dir
        ∷ string _
        ∷ string checker
        ∷ string _
        ∷ start_array
        ∷ es) =
    Option.map
      (λ r. record {
        name = name;
        time_limit = time_limit;
        memory_limit = memory_limit;
        input = input;
        output = output;
        test_dir = test_dir;
        checker = checker;
        tests = r.0;
        language = r.1;
      })
      (read_tests es)
read_cfg _ = none

-- The tests of a task: those of all its groups, in the order of the groups.
abbrev pub cfg_test : ChTest → CfgTest
cfg_test t = record {
  id = to_unsigned t.id;
  scores = t.scores;
  input = c_str t.input;
  output = c_str t.output;
}

abbrev pub cfg_tests : List ChTest → List CfgTest → List CfgTest
cfg_tests [] rest = rest
cfg_tests (t ∷ ts) rest = cfg_test t ∷ cfg_tests ts rest

abbrev pub tests_of : List ChGroup → List CfgTest
tests_of [] = []
tests_of (g ∷ gs) = cfg_tests g.chts (tests_of gs)

abbrev pub cfg_of : Settings → Solution → Cfg
cfg_of settings s = record {
  name = c_str s.pt.title;
  time_limit = s.pt.time_limit;
  memory_limit = s.pt.memory_limit;
  input = c_str s.pt.input;
  output = c_str s.pt.output;
  test_dir = c_str (get_tests_dir settings s);
  checker = c_str s.pt.checker;
  tests = tests_of s.pt.chgs;
  language = record {
    name = c_str s.pl.identifier;
    template = c_str (clng_at settings.clngs s.pl.identifier).cmd;
  };
}

read_tests-ch_tests :
    (ts : List ChTest) (es : List Event) (rest : List CfgTest) (language : CfgLanguage)
    → read_tests es ≡ some (rest, language)
    → read_tests (ch_tests_events ts ++ es) ≡ some (cfg_tests ts rest, language)
unfolding ch_tests_events ch_test_events read_tests
read_tests-ch_tests [] es rest language h = h
read_tests-ch_tests (t ∷ ts) es rest language h = rw (read_tests-ch_tests ts es rest language h)

read_tests-ch_groups :
    (gs : List ChGroup) (es : List Event) (language : CfgLanguage)
    → read_tests es ≡ some ([], language)
    → read_tests (ch_groups_events gs ++ es) ≡ some (tests_of gs, language)
unfolding ch_groups_events
read_tests-ch_groups [] es language h = h
read_tests-ch_groups (g ∷ gs) es language h = rw append_assoc (
    read_tests-ch_tests g.chts (ch_groups_events gs ++ es) _ language
      (read_tests-ch_groups gs es language h))

-- A reader that goes by the kinds of the values gets the whole configuration back from the calls
-- that write it: the problem, the limits, the names, the language with its template, and the tests
-- of all groups in the order of the groups, with each text up to its first NUL.
pub read_cfg-cfg_events :
    (settings : Settings) (s : Solution)
    → read_cfg (cfg_events settings s) ≡ some (cfg_of settings s)
unfolding cfg_events read_cfg read_tests
read_cfg-cfg_events settings s =
    rw (read_tests-ch_groups s.pt.chgs _ (cfg_of settings s).language refl)
