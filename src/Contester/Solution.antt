-- ===== src/Contester/Solution.antt =====
-- contester/src/data.cpp: `solution`, its files and its result.
pub mod Laws
pub mod Reading
pub mod Stored
use checker_olimp.Base.{List, [], ◌∷◌, ◌++◌, if◌then◌else◌}
use checker_olimp.Base.Int.{ℤ, pos}
use checker_olimp.Text.{Text, lit, text_eq, c_str}
use checker_olimp.Text.Decimal.{of_int}
use checker_olimp.Effect.{Action, pure, call, ◌>>=◌}
use checker_olimp.System.{System}
use checker_olimp.Json.{
  Json, Event, start_object, end_object, start_array, end_array, string, uint64, int,
}
use checker_olimp.Contester.Numbers.{to_unsigned}
use checker_olimp.Contester.Database.{MySql, exec}
use checker_olimp.Contester.Data.{
  Lang, Test, ChTest, ChGroup, Task, map_action, text_field, int_field, load, ids_of, new_lang,
  new_test, test_ids, new_task,
}

pub record Solution : Type 0 where
  pub pt : Task
  pub pl : Lang
  pub tsts : List Test
  pub id : ℤ
  pub uid : ℤ
  pub tid : ℤ
  pub lid : ℤ
  pub created_at : ℤ
  pub status : ℤ
  pub score : ℤ
  pub code : Text
  pub file : Text
  pub hash : Text
  pub result : Text

-- The values of the column `status`.
abbrev pub status_not_checked : ℤ
status_not_checked = pos 0

abbrev pub status_checked : ℤ
status_checked = pos 1

-- `struct clng`, and the static members of `checker`. The map `clngs` is an association list with the
-- last assignment first; `operator[]` gives an empty element for a key that is missing.
pub record Clng : Type 0 where
  pub ext : Text
  pub cmd : Text

pub record Settings : Type 0 where
  pub ch_bin : Text
  pub tests_dir : Text
  pub clngs : List (Text × Clng)

abbrev pub no_clng : Clng
no_clng = record { ext = []; cmd = [] }

unfoldable pub clng_at : List (Text × Clng) → Text → Clng
clng_at [] key = no_clng
clng_at (c ∷ clngs) key = let rest = clng_at clngs key in if text_eq c.0 key then c.1 else rest

unfoldable pub get_src_ext : Settings → Solution → Text
unfolding clng_at
get_src_ext settings s = (clng_at settings.clngs s.pl.identifier).ext

unfoldable pub get_tests_dir : Settings → Solution → Text
get_tests_dir settings s = settings.tests_dir ++ (of_int s.pt.cid ++ (92 ∷ of_int s.tid))

-- The calls of the writer in `create_cfg_json`.
unfoldable pub ch_test_events : ChTest → List Event
ch_test_events t =
    start_object
    ∷ string (lit "id")
    ∷ uint64 (to_unsigned t.id)
    ∷ string (lit "scores")
    ∷ int t.scores
    ∷ string (lit "input")
    ∷ string (c_str t.input)
    ∷ string (lit "outputs")
    ∷ start_array
    ∷ string (c_str t.output)
    ∷ end_array
    ∷ end_object
    ∷ []

unfoldable pub ch_tests_events : List ChTest → List Event
unfolding ch_test_events
ch_tests_events [] = []
ch_tests_events (t ∷ ts) = ch_test_events t ++ ch_tests_events ts

unfoldable pub ch_groups_events : List ChGroup → List Event
unfolding ch_tests_events
ch_groups_events [] = []
ch_groups_events (g ∷ gs) = ch_tests_events g.chts ++ ch_groups_events gs

unfoldable pub cfg_events : Settings → Solution → List Event
unfolding ch_groups_events
cfg_events settings s =
    start_object
    ∷ string (lit "problem")
    ∷ start_object
    ∷ string (lit "name")
    ∷ string (c_str s.pt.title)
    ∷ string (lit "config")
    ∷ start_object
    ∷ string (lit "time_limit")
    ∷ uint64 s.pt.time_limit
    ∷ string (lit "memory_limit")
    ∷ uint64 s.pt.memory_limit
    ∷ string (lit "input")
    ∷ string (c_str s.pt.input)
    ∷ string (lit "output")
    ∷ string (c_str s.pt.output)
    ∷ string (lit "test_dir")
    ∷ string (c_str (get_tests_dir settings s))
    ∷ string (lit "checker")
    ∷ string (c_str s.pt.checker)
    ∷ string (lit "tests")
    ∷ start_array
    ∷ (ch_groups_events s.pt.chgs
        ++ (end_array
            ∷ end_object
            ∷ end_object
            ∷ string (lit "language")
            ∷ start_object
            ∷ string (lit "name")
            ∷ string (c_str s.pl.identifier)
            ∷ string (lit "template")
            ∷ string (c_str (clng_at settings.clngs s.pl.identifier).cmd)
            ∷ end_object
            ∷ end_object
            ∷ []))

module _ {W : Type 0} (D : MySql W) where
  unfoldable pub new_solution : ℤ → Action W Solution
  unfolding load
  new_solution solution_id =
      load D
        (lit
          "SELECT id, uid, tid, lid, created_at, status, score, code, file, hash, result FROM solutions WHERE id = ")
        (lit "solution #") solution_id
        λ r. do
          id ← int_field r 0
          uid ← int_field r 1
          tid ← int_field r 2
          lid ← int_field r 3
          created_at ← int_field r 4
          status ← int_field r 5
          score ← int_field r 6
          code ← text_field r 7
          file ← text_field r 8
          hash ← text_field r 9
          result ← text_field r 10
          pt ← new_task D tid
          pl ← new_lang D lid
          tis ← test_ids D solution_id
          tsts ← map_action (new_test D) tis
          pure (record {
            pt = pt;
            pl = pl;
            tsts = tsts;
            id = id;
            uid = uid;
            tid = tid;
            lid = lid;
            created_at = created_at;
            status = status;
            score = score;
            code = code;
            file = file;
            hash = hash;
            result = result;
          })

  unfoldable pub get_not_checked_ids : Action W (List ℤ)
  unfolding ids_of
  get_not_checked_ids = ids_of D (
      lit "select id from solutions where status = "
      ++ (of_int status_not_checked ++ lit " limit 10"))

  unfoldable pub save_result_to_db : Solution → Action W (Unit {0})
  save_result_to_db s = exec D (
      lit "UPDATE solutions SET result = '"
      ++ (s.result ++ (lit "', status = 1 WHERE id = " ++ of_int s.id)))

module _ (S : System) (J : Json) where
  -- A file that cannot be opened goes unnoticed.
  unfoldable pub create_src : Solution → Text → Action S.State Text
  create_src s name = do written ← call (S.write_file name (c_str s.code)); pure name

  unfoldable pub create_cfg_json : Settings → Solution → Text → Action S.State Text
  unfolding cfg_events
  create_cfg_json settings s name = do
    written ← call (S.write_file name (c_str (J.render (cfg_events settings s))))
    pure name
