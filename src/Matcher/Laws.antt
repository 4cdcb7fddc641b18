-- ===== src/Matcher/Laws.antt =====
-- What the comparisons of checker_rc/matcher.cpp decide.
use checker_olimp.Base.{
  ◌≡◌, ◌≢◌, ◌↔◌, ◌⊎◌, ℕ, ◌++◌, ap, ◌∙◌, ◌==◌, refl, sym, arith, true, inl, inr, List, [], ◌∷◌, Any,
  Bool-cases, Option-cases,
}
use checker_olimp.Text.{Text, find}
use checker_olimp.Text.Find.{
  text_eq→eq, text_eq_refl, text_eq_iff, Occurs, Occurs→find, find→Occurs,
}
use checker_olimp.Matcher.{
  CheckingMap, all, wnl, strip_newline, strings_match, answers_match, true_report,
  parse_testlib_checker_report,
}

-- The second text is the first without its last byte, where that is a newline, and else the first.
abbrev pub Drops : Text → Text → Type 0
Drops s u = (s ≡ u ++ (10 ∷ [])) ⊎ ((s ≡ u) × ((v : Text) → s ≢ v ++ (10 ∷ [])))

-- When the program's output and an answer agree, by the mode.
abbrev pub Agrees : CheckingMap → Text → Text → Type 0
Agrees all s t = s ≡ t
Agrees wnl s t = (s ≢ []) × (u : Text) × Drops s u × Drops t u

one_end : (c : ℕ) → c ≢ 10 → (v : Text) → (c ∷ []) ≢ v ++ (10 ∷ [])
one_end c h [] e = h (cc e)
one_end c h (b ∷ []) e = cc
one_end c h (b ∷ b' ∷ v) e = cc

strip_newline-Drops : (s : Text) → Drops s (strip_newline s)
unfolding strip_newline
strip_newline-Drops [] = inr (refl, elim [ [] ↦ λ e. cc | b ∷ v ↦ λ e. cc ])
strip_newline-Drops (c ∷ []) = elim (Bool-cases (c == 10)) [
  | inl h ↦ rw h (inl (ground arith))
  | inr h ↦ rw h (inr (refl, one_end c (ground arith)))
]
strip_newline-Drops (c ∷ d ∷ s) = elim (strip_newline-Drops (d ∷ s)) [
  | inl e ↦ inl (ap (◌∷◌ c) e)
  | inr (e, h) ↦ inr (ap (◌∷◌ c) e, elim [ [] ↦ λ e. cc | b ∷ v ↦ λ e. h v (cc e) ])
]

strip_newline_append : (u : Text) → strip_newline (u ++ (10 ∷ [])) ≡ u
unfolding strip_newline
strip_newline_append [] = refl
strip_newline_append (c ∷ []) = refl
strip_newline_append (c ∷ d ∷ u) = ap (◌∷◌ c) (strip_newline_append (d ∷ u))

-- There is one such text.
Drops-strip_newline : (s u : Text) → Drops s u → strip_newline s ≡ u
Drops-strip_newline s u (inl e) = rw e (strip_newline_append u)
Drops-strip_newline s u (inr (e, h)) = elim (strip_newline-Drops s) [
  | inl e' ↦ absurd (h _ e')
  | inr (e', _) ↦ sym e' ∙ e
]

SameLines_iff :
    (s t : Text) → (strip_newline s ≡ strip_newline t) ↔ ((u : Text) × Drops s u × Drops t u)
SameLines_iff s t = (
  λ e. (strip_newline s, strip_newline-Drops s, rw e (strip_newline-Drops t)),
  λ (u, hs, ht). Drops-strip_newline s u hs ∙ sym (Drops-strip_newline t u ht),
)

-- Two texts match exactly when they are equal in the mode ALL; and in the mode WNL when the first
-- is not empty and dropping one newline at the end of each, where there is one, leaves one text.
pub strings_match_iff :
    (str1 str2 : Text) (mode : CheckingMap)
    → (strings_match str1 str2 mode ≡ true) ↔ Agrees mode str1 str2
unfolding strings_match
strings_match_iff str1 str2 all = (λ h. sym (text_eq→eq str2 str1 h), λ e. rw e (text_eq_refl str2))
strings_match_iff [] str2 wnl = (λ h. cc, λ h. absurd (h.0 refl))
strings_match_iff (c ∷ s) str2 wnl = (
  λ h. let (u, hs, ht) = (SameLines_iff (c ∷ s) str2).0 (sym (text_eq→eq _ _ h)) in (cc, u, hs, ht),
  λ (_, u, hs, ht). (text_eq_iff _ _).1 (sym ((SameLines_iff (c ∷ s) str2).1 (u, hs, ht))),
)

-- The comparison with a list of answers succeeds exactly when some answer agrees with the program's
-- output: in the mode ALL when it is equal to it, and in the mode WNL when the output is not empty
-- and dropping one newline at the end of each, where there is one, leaves the same text.
pub answers_match_iff :
    (report : Text) (answers : List Text) (mode : CheckingMap)
    → (answers_match report answers mode ≡ true) ↔ Any (Agrees mode report) answers
unfolding answers_match
answers_match_iff report [] mode = (λ h. cc, λ h. absurd h)
answers_match_iff report (a ∷ answers) mode = elim (Bool-cases (strings_match report a mode)) [
  | inl matched ↦ (λ _. inl ((strings_match_iff report a mode).0 matched), λ _. rw matched)
  | inr other ↦ rw other (
    λ h. inr ((answers_match_iff report answers mode).0 h),
    elim [
      | inl agrees ↦ cc ((strings_match_iff report a mode).1 agrees)
      | inr later ↦ (answers_match_iff report answers mode).1 later
    ],
  )
]

-- A report of the external checker accepts exactly when the line of an accepted answer occurs in
-- it.
pub parse_testlib_checker_report_iff :
    (report : Text) → (parse_testlib_checker_report report ≡ true) ↔ Occurs true_report report
unfolding parse_testlib_checker_report
parse_testlib_checker_report_iff report = elim (Option-cases (find true_report report)) [
  | inl missing ↦
      rw (missing, parse_testlib_checker_report)
        (λ h. cc, λ o. absurd (Occurs→find true_report report o missing))
  | inr (i, found) ↦
      rw (found, parse_testlib_checker_report)
        (λ _. find→Occurs true_report report i found, λ _. refl)
]
