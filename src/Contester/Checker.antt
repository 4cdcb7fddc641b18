-- ===== src/Contester/Checker.antt =====
-- contester/src/data.cpp: `checker`, a run of checker_rc on one solution.
pub mod Laws
pub mod Verdict
pub mod Complete
use checker_olimp.Base.{Option, none, some, [], ◌∷◌, ◌++◌}
use checker_olimp.Text.{Text, lit, c_str}
use checker_olimp.Effect.{Action, pure, query, effect, ◌>>=◌, ◌>>◌}
use checker_olimp.System.{System, Shell}
use checker_olimp.Json.{Json}
use checker_olimp.Contester.Database.{MySql}
use checker_olimp.Contester.Solution.{
  Solution, Settings, get_src_ext, create_src, create_cfg_json, save_result_to_db,
}

pub record Checker : Type 0 where
  pub sol : Solution
  pub src : Text
  pub cfg : Text
  pub res : Text

abbrev pub new_checker : Settings → Solution → Text → Text → Text → Checker
new_checker settings sol src_name cfg_name res_name = record {
  sol = sol;
  src = src_name ++ get_src_ext settings sol;
  cfg = cfg_name;
  res = res_name;
}

-- What is read from a file that may not be there.
abbrev pub content_or_empty : Option Text → Text
content_or_empty none = []
content_or_empty (some text) = text

abbrev pub command : Settings → Checker → Text
command settings ch =
    settings.ch_bin ++ (lit " " ++ (ch.cfg ++ (lit " . " ++ (ch.src ++ (lit " " ++ ch.res)))))

module _ (S : System) (H : Shell S.State) (D : MySql S.State) (J : Json) where
  -- The solution with its result, which is then in the database.
  unfoldable pub run : Settings → Checker → Action S.State Solution
  run settings ch = do
    src_name ← create_src S J ch.sol ch.src
    cfg_name ← create_cfg_json S J settings ch.sol ch.cfg
    effect (H.run_command (c_str (command settings ch)))
    effect (S.remove_file (c_str src_name))
    effect (S.remove_file (c_str cfg_name))
    content ← query (S.read_file ch.res)
    let sol = record (ch.sol) { result = content_or_empty content }
    effect (S.remove_file (c_str ch.res))
    save_result_to_db D sol
    pure sol
