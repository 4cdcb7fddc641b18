-- ===== src/Matcher/Tests.antt =====
-- Runs of the comparisons.
use checker_olimp.Base.{◌≡◌, refl, true, [], ◌∷◌}
use checker_olimp.Text.{lit, text_eq, find}
use checker_olimp.Matcher.{wnl, strings_match, parse_testlib_checker_report}

newline_ignored : strings_match (lit "42") (52 ∷ 50 ∷ 10 ∷ []) wnl ≡ true
unfolding strings_match text_eq
newline_ignored = refl

accepted_report : parse_testlib_checker_report (lit "ok.Testlib Result Number = 0") ≡ true
unfolding parse_testlib_checker_report find
accepted_report = refl
