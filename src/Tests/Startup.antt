-- ===== src/Tests/Startup.antt =====
-- The settings of the contester, and how it ends.
use checker_olimp.Base.{◌≡◌, refl, false, [], ◌∷◌}
use checker_olimp.Base.Int.{pos}
use checker_olimp.Text.{Text, lit, text_eq, c_str}
use checker_olimp.Effect.{ok}
use checker_olimp.Json.{Json}
use checker_olimp.Json.Document.{Doc, Represents, HasItems, object, array}
use checker_olimp.Contester.Solution.{no_clng, clng_at}
use checker_olimp.Contester.Main.{Config, read_config, main}
use checker_olimp.Contester.Main.Reading.{
  LangFile, SettingsFile, lang_fields, lang_items, settings_doc, last_clng, read_config-Represents,
}
use checker_olimp.Simulation.{Machine, machine_system, machine_shell}
use checker_olimp.Simulation.Values.{doc_json, docs_json}
use checker_olimp.Tests.{machine}
use checker_olimp.Tests.Contest.{empty_mysql}
use checker_olimp.Effect.Laws.{Post, Throws}
use checker_olimp.Contester.Database.{MySql}
use checker_olimp.Contester.Main.Ends.{Refused, ListFailed, main-ListFailed}

abbrev pub starting : Machine
starting = record machine { files = (lit "contester.cfg", lit "json") ∷ [] }

abbrev pub gcc : LangFile
gcc = record { compiler = lit "g++ $1 -o $2"; ext = lit ".cpp"; id = lit "mingw_cpp" }

abbrev pub cl : LangFile
cl = record { compiler = lit "cl $1 /out:$2"; ext = lit ".cpp"; id = lit "msv_cpp" }

-- The second entry of the language takes the place of the first.
abbrev pub settings_file : SettingsFile
settings_file = record {
  delay = pos 1000;
  checker = lit "checker_rc.exe";
  tests_dir = lit "tests\\";
  langs = gcc ∷ record gcc { ext = lit ".cc" } ∷ cl ∷ [];
}

abbrev pub settings_json : Json
settings_json = doc_json (settings_doc settings_file)

pub lang_represented :
    (parse : Text → Doc) (l : LangFile)
    → Represents (docs_json parse) (object (lang_fields l)) (object (lang_fields l))
unfolding text_eq Represents
lang_represented parse l = (
  refl,
  (
    (refl, _, refl, (refl, refl)),
    ((refl, _, refl, (refl, refl)), ((refl, _, refl, (refl, refl)), tt)),
  ),
)

pub settings_represented :
    (parse : Text → Doc)
    → Represents (docs_json parse) (settings_doc settings_file) (settings_doc settings_file)
unfolding text_eq Represents
settings_represented parse =
    let langs : HasItems (docs_json parse) (array (lang_items settings_file.langs)) 0
        (lang_items settings_file.langs) =
      (
        (_, refl, lang_represented parse _),
        ((_, refl, lang_represented parse _), ((_, refl, lang_represented parse _), tt)),
      ) in
    (
      refl,
      (
        (refl, _, refl, (refl, refl)),
        (
          (refl, _, refl, (refl, refl)),
          ((refl, _, refl, (refl, refl)), ((refl, _, refl, (refl, refl, langs)), tt)),
        ),
      ),
    )

read_config-Represents_example :
    (config : Config) × (read_config machine_system settings_json starting ≡ (ok config, starting))
    × (config.delay ≡ pos 1000)
    × (config.settings.ch_bin ≡ c_str (lit "checker_rc.exe"))
    × (config.settings.tests_dir ≡ c_str (lit "tests\\"))
    × ((name : Text)
        → clng_at config.settings.clngs name ≡ last_clng settings_file.langs name no_clng)
unfolding text_eq
read_config-Represents_example =
    read_config-Represents machine_system settings_json starting (lit "json") settings_file refl
      (settings_represented _)

-- A server that takes no statement.
abbrev failing_mysql : MySql Machine
failing_mysql = record empty_mysql { query = λ sql m. (false, m) }

main-ListFailed_example :
    Post
      (λ code _. (code ≡ 1) × Refused machine_system machine_shell failing_mysql settings_json)
      (main machine_system machine_shell failing_mysql settings_json 3 starting)
    × Throws
        (ListFailed machine_system machine_shell failing_mysql settings_json)
        (main machine_system machine_shell failing_mysql settings_json 3 starting)
main-ListFailed_example =
    main-ListFailed machine_system machine_shell failing_mysql settings_json 3 starting
