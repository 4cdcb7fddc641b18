-- ===== src/Contester/Main/Reading.antt =====
-- The contester's settings are read from its file as what the file says.
use checker_olimp.Base.{ℕ, ◌+◌, ◌≡◌, refl, some, List, [], ◌∷◌, if◌then◌else◌}
use checker_olimp.Base.Int.{ℤ}
use checker_olimp.Text.{Text, lit, text_eq, c_str}
use checker_olimp.Effect.{ok, resume}
use checker_olimp.System.{System}
use checker_olimp.Json.{Json}
use checker_olimp.Json.Document.{
  Doc, Fields, Items, text, integer, object, array, no_fields, field, no_items, item, count,
  Represents, HasField, HasItems,
}
use checker_olimp.Contester.Solution.{Clng, no_clng, clng_at}
use checker_olimp.Contester.Main.{Config, string_at, read_langs, read_config}

-- What the file says.
pub record LangFile : Type 0 where
  pub compiler : Text
  pub ext : Text
  pub id : Text

pub record SettingsFile : Type 0 where
  pub delay : ℤ
  pub checker : Text
  pub tests_dir : Text
  pub langs : List LangFile

abbrev pub lang_fields : LangFile → Fields
lang_fields l =
    field (lit "compiler") (text l.compiler)
      (field (lit "ext") (text l.ext) (field (lit "id") (text l.id) no_fields))

abbrev pub lang_items : List LangFile → Items
lang_items [] = no_items
lang_items (l ∷ ls) = item (object (lang_fields l)) (lang_items ls)

abbrev pub settings_doc : SettingsFile → Doc
settings_doc c = object (
    field (lit "delay") (integer c.delay) (
      field (lit "checker") (text c.checker) (
        field (lit "tests_dir") (text c.tests_dir)
          (field (lit "langs") (array (lang_items c.langs)) no_fields))))

abbrev pub clng_of : LangFile → Clng
clng_of l = record { ext = c_str l.ext; cmd = c_str l.compiler }

-- The last language with the name, or else the given one.
abbrev pub last_clng : List LangFile → Text → Clng → Clng
last_clng [] name found = found
last_clng (l ∷ ls) name found =
    last_clng ls name (if text_eq (c_str l.id) name then clng_of l else found)

abbrev pub push : List LangFile → List (Text × Clng) → List (Text × Clng)
push [] clngs = clngs
push (l ∷ ls) clngs = push ls ((c_str l.id, clng_of l) ∷ clngs)

clng_at-push :
    (ls : List LangFile) (clngs : List (Text × Clng)) (name : Text)
    → clng_at (push ls clngs) name ≡ last_clng ls name (clng_at clngs name)
unfolding clng_at
clng_at-push [] clngs name = refl
clng_at-push (l ∷ ls) clngs name = clng_at-push ls ((c_str l.id, clng_of l) ∷ clngs) name

-- The settings as they are read.
abbrev pub config_of : SettingsFile → Config
config_of c = record {
  delay = c.delay;
  settings = record {
    ch_bin = c_str c.checker;
    tests_dir = c_str c.tests_dir;
    clngs = push c.langs [];
  };
}

module _ (S : System) (J : Json) (s : S.State) where
  string_at-HasField :
      (v : J.Value) (key t : Text)
      → HasField J v key (text t)
      → string_at S J v key s ≡ (ok (c_str t), s)
  unfolding string_at resume Represents
  string_at-HasField v key t h = rw h.2 (rw h.3.1)

  read_langs-HasItems :
      (v : J.Value) (ls : List LangFile) (i : ℕ) (clngs : List (Text × Clng))
      → HasItems J v i (lang_items ls)
      → read_langs S J (count (lang_items ls)) v i clngs s ≡ (ok (push ls clngs), s)
  unfolding read_langs resume Represents
  read_langs-HasItems v [] i clngs h = refl
  read_langs-HasItems v (l ∷ ls) i clngs h =
      let fs = h.0.2.1 in
      rw h.0.1 (
        rw (string_at-HasField h.0.0 _ l.compiler fs.0) (
          rw (string_at-HasField h.0.0 _ l.ext fs.1.0) (
            rw (string_at-HasField h.0.0 _ l.id fs.1.1.0)
              (read_langs-HasItems v ls (i + 1) ((c_str l.id, clng_of l) ∷ clngs) h.1))))

  pub reads :
      (content : Text) (c : SettingsFile)
      → S.read_file (lit "contester.cfg") s ≡ some content
      → Represents J (J.parse (c_str content)) (settings_doc c)
      → read_config S J s ≡ (ok (config_of c), s)
  unfolding read_config resume Represents
  reads content c e r =
      let fs = r.1 in
      let langs = fs.1.1.1.0 in
      rw e (
        rw fs.0.2 (
          rw fs.0.3.1 (
            rw (string_at-HasField _ _ c.checker fs.1.0) (
              rw (string_at-HasField _ _ c.tests_dir fs.1.1.0) (
                rw langs.2 (
                  rw langs.3.0
                    (rw langs.3.1 (rw (read_langs-HasItems langs.1 c.langs 0 [] langs.3.2)))))))))

  -- The contester's settings are read as what its file says, and the system is left as it was: the
  -- delay, the path of the checker, the directory of the tests, and for each name the last language
  -- of the file with that name, or the empty one. Conditions: the file can be read, and its parsed
  -- text stands for the document of the settings (Represents).
  pub read_config-Represents :
      (content : Text) (c : SettingsFile)
      → S.read_file (lit "contester.cfg") s ≡ some content
      → Represents J (J.parse (c_str content)) (settings_doc c)
      → (config : Config) × (read_config S J s ≡ (ok config, s))
        × (config.delay ≡ c.delay)
        × (config.settings.ch_bin ≡ c_str c.checker)
        × (config.settings.tests_dir ≡ c_str c.tests_dir)
        × ((name : Text) → clng_at config.settings.clngs name ≡ last_clng c.langs name no_clng)
  unfolding clng_at
  read_config-Represents content c e r =
      (config_of c, reads content c e r, refl, refl, refl, λ name. clng_at-push c.langs [] name)
