-- ===== src/Tests/Settings.antt =====
-- The configuration of a solution, written and read back.
use checker_olimp.Base.{ℕ, ◌≡◌, ◌<◌, inr, refl, true, some, [], arith, zero, suc}
use checker_olimp.Text.{Text, lit, text_eq, c_str}
use checker_olimp.Text.Find.{text_eq_refl}
use checker_olimp.Effect.{ok, halted, exit, ◌>>=◌}
use checker_olimp.Words.{long_word}
use checker_olimp.Json.{Json, IsChecked}
use checker_olimp.Json.Document.{
  Doc, natural, object, array, Represents, HasItems, ReadsBack, events,
}
use checker_olimp.Config.{new_problem_store, read_main_config}
use checker_olimp.Config.File.{
  ConfigFile, test_items, test_doc, config_fields, problem_fields, language_fields, config_doc,
  config_of,
}
use checker_olimp.Config.Reading.{read_main_config-large}
use checker_olimp.Contester.Numbers.{to_unsigned}
use checker_olimp.Contester.Solution.{cfg_events, create_cfg_json}
use checker_olimp.Contester.Solution.Reading.{
  config_test, config_file, cfg_events-config_doc, Stores, read_main_config-create_cfg_json,
}
use checker_olimp.Simulation.{machine_system}
use checker_olimp.Simulation.Values.{is_object, doc_json, docs_json, doc_json-IsChecked}
use checker_olimp.System.{System}
use checker_olimp.Config.Guards.{ObjectTests}
use checker_olimp.Tests.{machine}
use checker_olimp.Tests.Contest.{settings, first_test, sent}

-- The configuration with another limit of the memory.
abbrev pub file : ℕ → ConfigFile
file memory_limit = record (config_file settings sent) { memory_limit = memory_limit }

-- The parts of the document stand for themselves.
module _ (parse : Text → Doc) where
  abbrev json : Json
  json = docs_json parse

  natural_represented : (n : ℕ) → n < long_word → Represents json (natural n) (natural n)
  unfolding Represents
  natural_represented n h = (ground arith, ground arith, refl, λ l. ground arith)

  test_represented : let d = test_doc (config_test first_test) in Represents json d d
  unfolding text_eq c_str Represents to_unsigned
  test_represented = (
    refl,
    (
      (refl, _, refl, natural_represented 5 (omega arith)),
      (
        (refl, _, refl, (refl, refl)),
        (
          (refl, _, refl, (refl, refl)),
          ((refl, _, refl, (refl, refl, ((_, refl, (refl, refl)), tt))), tt),
        ),
      ),
    ),
  )

  module _ (memory_limit : ℕ) (h : memory_limit < long_word) where
    config_represented : let d = object (config_fields (file memory_limit)) in Represents json d d
    unfolding text_eq c_str Represents
    config_represented =
        let tests : HasItems json (array (test_items (file memory_limit).tests)) 0
            (test_items (file memory_limit).tests) =
          ((_, refl, test_represented), tt) in
        (
          refl,
          (
            (refl, _, refl, natural_represented 1000 (omega arith)),
            (
              (refl, _, refl, natural_represented memory_limit h),
              (
                (refl, _, refl, (refl, refl)),
                (
                  (refl, _, refl, (refl, refl)),
                  (
                    (refl, _, refl, (refl, refl)),
                    ((refl, _, refl, (refl, refl)), ((refl, _, refl, (refl, refl, tests)), tt)),
                  ),
                ),
              ),
            ),
          ),
        )

    problem_represented : let d = object (problem_fields (file memory_limit)) in Represents json d d
    unfolding text_eq c_str Represents
    problem_represented =
        (refl, ((refl, _, refl, (refl, refl)), ((refl, _, refl, config_represented), tt)))

    language_represented :
        let d = object (language_fields (file memory_limit)) in Represents json d d
    unfolding text_eq c_str Represents
    language_represented =
        (refl, ((refl, _, refl, (refl, refl)), ((refl, _, refl, (refl, refl)), tt)))

    pub document_represented : let d = config_doc (file memory_limit) in Represents json d d
    unfolding text_eq Represents
    document_represented =
        (refl, ((refl, _, refl, problem_represented), ((refl, _, refl, language_represented), tt)))

pub represented :
    (memory_limit : ℕ)
    → memory_limit < long_word
    → let document = config_doc (file memory_limit) in
      Represents (doc_json document) document document
represented memory_limit h = document_represented _ memory_limit h

-- The document is the one that was parsed.
pub written_back :
    ReadsBack
      (doc_json (config_doc (config_file settings sent)))
      (config_doc (config_file settings sent))
written_back = represented 67108864 (omega arith)

machine_stores : Stores machine_system (doc_json (config_doc (config_file settings sent)))
machine_stores path content m h = rw text_eq_refl

read_main_config-create_cfg_json_example :
    (create_cfg_json machine_system
          (doc_json (config_doc (config_file settings sent)))
          settings
          sent
          (lit "solution.json")
        >>= λ path.
            read_main_config machine_system
              (doc_json (config_doc (config_file settings sent)))
              path
              new_problem_store)
      machine
    ≡ (
      ok (config_of (config_file settings sent) new_problem_store),
      (machine_system.write_file (lit "solution.json") (lit "document") machine).1,
    )
unfolding c_str
read_main_config-create_cfg_json_example =
    read_main_config-create_cfg_json machine_system
      (doc_json (config_doc (config_file settings sent))) settings sent (lit "solution.json")
      machine machine_stores written_back refl (omega arith) (omega arith)

abbrev pub small : ConfigFile
small = file 1024

abbrev pub small_json : Json
small_json = doc_json (config_doc small)

pub small_json-IsChecked : IsChecked small_json
small_json-IsChecked = doc_json-IsChecked (config_doc small)

only_element :
    (e : Doc) (k : ℕ)
    → small_json.element (array (test_items small.tests)) k ≡ some e
    → is_object e ≡ true
only_element e zero h = let first : e ≡ test_doc (config_test first_test) = cc in rw first
only_element e (suc k) h = cc

-- The array of the document's tests is the only one that can be reached, and it has one element.
pub small-ObjectTests :
    (S : System) → ObjectTests S small_json small_json-IsChecked (config_doc small)
unfolding text_eq
small-ObjectTests S pv cv tv e k p c t h =
    let in_document : pv ≡ object (problem_fields small) = cc in
    let in_problem : cv ≡ object (config_fields small) = cc (rw in_document at c) in
    let in_config : tv ≡ array (test_items small.tests) = cc (rw in_problem at t) in
    only_element e k (rw in_config at h)

-- Four gigabytes.
abbrev large : ConfigFile
large = file 4294967296

read_main_config-large_example :
    (read_main_config machine_system
      (doc_json (config_doc large))
      (lit "config")
      new_problem_store
      machine).0
    ≡ halted (exit 1)
unfolding text_eq
read_main_config-large_example =
    read_main_config-large machine_system (doc_json (config_doc large)) machine (lit "config")
      (lit "json") large new_problem_store refl (represented 4294967296 (omega arith))
      (inr (omega arith, omega arith))

cfg_events-config_doc_example :
    cfg_events settings sent ≡ events (config_doc (config_file settings sent)) []
cfg_events-config_doc_example = cfg_events-config_doc settings sent
