-- ===== src/Judge/Testlib.antt =====
-- What an accepting answer of the external checker rests on.
use checker_olimp.Base.{
  ℕ, ◌≡◌, ◌↔◌, ◌++◌, [], ◌∷◌, inl, inr, refl, Bool, true, false, some, Bool-cases, Option-cases,
}
use checker_olimp.Base.Int.{ℤ}
use checker_olimp.Text.{Text, lit, c_str}
use checker_olimp.Text.Find.{Occurs, text_eq→eq}
use checker_olimp.Effect.{ok, resume, pure, ◌>>◌}
use checker_olimp.Effect.Laws.{Post, returned, ended, Post-step, Post-bind, Post-refl, Post-kept}
use checker_olimp.System.{System}
use checker_olimp.Assert.{checker_assert, assert_false, assert_holds}
use checker_olimp.Paths.{is_file_exist}
use checker_olimp.Paths.Laws.{
  Names, SplitsAs, get_full_path_name-Names, get_directory_and_file-SplitsAs,
}
use checker_olimp.Tool
use checker_olimp.Matcher.{true_report}
use checker_olimp.Matcher.Laws.{parse_testlib_checker_report_iff}
use checker_olimp.Judge.{is_tool_code, matcher_cpp, take_report, answers_match}

module _ (S : System) (fuel : ℕ) (quest answer report testlib : Text) (s : S.State) where
  -- The directory and the name that the path is taken apart into.
  abbrev pub Splits : Text → Text → Text → Type 0
  Splits path directory name = (full : Text) × Names S path s full × SplitsAs full directory name

  -- The answer is that of a run of `check.exe` in the directory of the two files. The run is given
  -- the full names of the four files, and ends with a code of the checker. The report is what the
  -- run left in the last of the four files, which has then been removed.
  pub record IsAnswer (accepted : Bool) (s' : S.State) : Type 0 where
    pub quest_full : Text
    pub answer_full : Text
    pub report_full : Text
    pub testlib_full : Text
    pub quest_named : Names S quest s quest_full
    pub answer_named : Names S answer s answer_full
    pub report_named : Names S report s report_full
    pub testlib_named : Names S testlib s testlib_full
    pub directory : Text
    pub quest_split : (name : Text) × Splits quest_full directory name
    pub answer_split : (name : Text) × Splits answer_full directory name
    pub code : ℤ
    pub after : S.State
    pub runs :
        Tool.execute S fuel
          (directory ++ (92 ∷ lit "check.exe"))
          (quest_full ∷ report_full ∷ answer_full ∷ testlib_full ∷ [])
          s
        ≡ (ok code, after)
    pub known : is_tool_code code ≡ true
    pub content : Text
    pub found : S.read_file testlib_full after ≡ some content
    pub removed : s' ≡ S.remove_file (c_str testlib_full) after
    pub decides : (accepted ≡ true) ↔ Occurs true_report content

module _ (S : System) where
  -- What is left to do with a report that the checker has written.
  take_report-Post :
      (P : Bool → S.State → Type 0) (path : Text) (s : S.State)
      → ((accepted : Bool) (content : Text)
          → S.read_file path s ≡ some content
          → ((accepted ≡ true) ↔ Occurs true_report content)
          → P accepted (S.remove_file (c_str path) s))
      → Post P (take_report S path s)
  unfolding take_report resume
  take_report-Post P path s next = elim (Option-cases (S.read_file path s)) [
    | inl missing ↦ rw (missing, assert_false S false matcher_cpp 93 s refl) ended
    | inr (content, found) ↦
        rw found (returned (next _ content found (parse_testlib_checker_report_iff content)))
  ]

  refused :
      {P : Bool → S.State → Type 0} (line : ℕ) (s : S.State)
      → Post P ((checker_assert S false matcher_cpp line >> pure false) s)
  unfolding resume
  refused line s = rw (assert_false S false matcher_cpp line s refl) ended

  looked : (path : Text) (s : S.State) → Post (λ _ s'. Unit {0} × (s' ≡ s)) (is_file_exist S path s)
  unfolding is_file_exist
  looked path s = returned (tt, refl)

  -- If the external checker's `answers_match` returns, the four paths have full names, the input
  -- and the answer are files of one directory, `check.exe` of that directory was run with the names
  -- of the input, the report, the answer and the checker's report, in this order, and ended with a
  -- code of the checker; the checker's report is what is read from the last of the four files after
  -- the run, that file is then removed, as the last thing done, and the answer is "yes" exactly if
  -- the line of an accepted answer occurs in the report.
  pub answers_match-IsAnswer :
      (fuel : ℕ) (quest answer report testlib : Text) (s : S.State)
      → Post
          (IsAnswer S fuel quest answer report testlib s)
          (answers_match S fuel quest answer report testlib s)
  unfolding answers_match
  answers_match-IsAnswer fuel quest answer report testlib s =
      Post-kept _ (get_full_path_name-Names S quest s) λ q hq.
        Post-kept _ (get_full_path_name-Names S answer s) λ a ha.
          Post-kept _ (get_full_path_name-Names S report s) λ r hr.
            Post-kept _ (get_full_path_name-Names S testlib s) λ t ht.
              Post-kept _ (looked q s) λ _ _. Post-kept _ (assert_holds S _ matcher_cpp 67 s) λ _ _.
                Post-kept _ (looked a s) λ _ _.
                  Post-kept _ (assert_holds S _ matcher_cpp 68 s) λ _ _.
                    Post-kept _ (get_directory_and_file-SplitsAs S q s) λ d hd.
                      Post-kept _ (get_directory_and_file-SplitsAs S a s) λ d' hd'.
                        Post-kept _ (assert_holds S _ matcher_cpp 74 s) λ _ same.
                          Post-bind (Post-refl (Tool.execute S fuel _ _ s)) λ code s₂ runs.
                            let one : d.0 ≡ d'.0 = text_eq→eq _ _ same in
                            elim (Bool-cases (is_tool_code code)) [
                              | inr other ↦ rw other (Post-step _ λ _ s₃. refused 85 s₃)
                              | inl known ↦ rw known (
                                  take_report-Post _ t s₂ λ accepted content found decides. record {
                                    quest_full = q;
                                    answer_full = a;
                                    report_full = r;
                                    testlib_full = t;
                                    quest_named = hq;
                                    answer_named = ha;
                                    report_named = hr;
                                    testlib_named = ht;
                                    directory = d.0;
                                    quest_split = (d.1, hd);
                                    answer_split = (d'.1, rw one hd');
                                    code = code;
                                    after = s₂;
                                    runs = runs;
                                    known = known;
                                    content = content;
                                    found = found;
                                    removed = refl;
                                    decides = decides;
                                  })
                            ]
