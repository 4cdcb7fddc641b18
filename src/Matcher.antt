-- ===== src/Matcher.antt =====
-- checker_rc/matcher.cpp, the parts that only compare texts: `strings_match`, the `answers_match`
-- over a list of answers, and `parse_testlib_checker_report`. (The `answers_match` that runs the
-- external checker is in `Judge`.)
pub mod Laws
mod Tests
use checker_olimp.Base.{
  ℕ, ◌≡◌, Bool, true, false, Option, none, some, List, [], ◌∷◌, ◌==◌, if◌then◌else◌,
}
use checker_olimp.Text.{Text, lit, text_eq, find}

-- `enum checking_map`
pub data CheckingMap : Type 0 where
  all wnl : CheckingMap

-- `if (!str.empty()) if (str[str.length()-1] == '\n') str.resize(str.length()-1)`
unfoldable pub strip_newline : Text → Text
strip_newline [] = []
strip_newline (c ∷ []) = if c == 10 then [] else c ∷ []
strip_newline (c ∷ d ∷ s) = c ∷ strip_newline (d ∷ s)

pub strings_match : Text → Text → CheckingMap → Bool
unfolding strip_newline
strings_match str1 str2 CheckingMap.all = text_eq str2 str1
strings_match [] str2 CheckingMap.wnl = false
strings_match (c ∷ s) str2 CheckingMap.wnl = text_eq (strip_newline str2) (strip_newline (c ∷ s))

pub answers_match : Text → List Text → CheckingMap → Bool
answers_match report_program [] check_mode = false
answers_match report_program (answer ∷ answers) check_mode =
    if strings_match report_program answer check_mode
    then true
    else answers_match report_program answers check_mode

abbrev pub true_report : Text
true_report = lit ".Testlib Result Number = 0"

pub parse_testlib_checker_report : Text → Bool
parse_testlib_checker_report testlib_checker_report =
    elim (find true_report testlib_checker_report) [ none ↦ false | some _ ↦ true ]
