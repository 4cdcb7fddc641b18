-- ===== src/Paths/Laws.antt =====
-- How `get_directory_and_file` takes a path apart: at its last backslash.
use checker_olimp.Base.{
  ℕ, zero, suc, ◌+◌, ◌≡◌, ◌≢◌, ◌↔◌, ◌⊎◌, inl, inr, refl, ap, ◌∙◌, true, false, ◌&&◌, not, none,
  some, [], ◌∷◌, ◌++◌, length, length-append, drop, take-append, All, arith, ◌==◌, Bool-cases,
  Option, Option-cases,
}
use checker_olimp.Text.{Text, c_str}
use checker_olimp.Effect.{Outcome, ok, halted, exit, pure, resume, ◌>>◌}
use checker_olimp.Effect.Laws.{Post, returned, ended, Post-bind, Post-ok, Post-refl, Post-weaken}
use checker_olimp.System.{System}
use checker_olimp.Assert.{assert_true, assert_false, checker_assert}
use checker_olimp.Paths.{
  reader_cpp, backslash_at, scan_back, splits_at, cut_at, get_full_path_name,
  get_directory_and_file,
}

-- No backslash stands in the text.
abbrev pub NoBackslash : Text → Type 0
NoBackslash = All (λ c. c ≢ 92)

-- The path is the directory, a backslash and the name; neither part is empty, and the name has no
-- backslash in it.
pub record SplitsAs (full directory name : Text) : Type 0 where
  pub parts : full ≡ directory ++ (92 ∷ name)
  pub plain : NoBackslash name
  pub has_directory : directory ≢ []
  pub has_name : name ≢ []

-- Every text has no backslash, or a last one.
last_backslash :
    (s : Text) → NoBackslash s ⊎ ((d : Text) × (f : Text) × (s ≡ d ++ (92 ∷ f)) × NoBackslash f)
last_backslash [] = inl tt
last_backslash (c ∷ s) = elim (last_backslash s) [
  | inr (d, f, e, plain) ↦ inr (c ∷ d, f, ap (◌∷◌ c) e, plain)
  | inl plain ↦ elim (Bool-cases (c == 92)) [
    | inl here ↦ inr ([], s, ground arith, plain)
    | inr other ↦ inl (ground arith, plain)
  ]
]

List-cases : (s : Text) → (s ≡ []) ⊎ (s ≢ [])
List-cases [] = inl refl
List-cases (c ∷ s) = inr (cc)

backslash_at_append : (d s : Text) (k : ℕ) → backslash_at (d ++ s) (length d + k) ≡ backslash_at s k
backslash_at_append [] s k = let e : 0 + k ≡ k = omega arith in rw e
backslash_at_append (c ∷ d) s k =
    let e : suc (length d) + k ≡ suc (length d + k) = omega arith in
    rw e (backslash_at_append d s k)

backslash_at_plain : (s : Text) (k : ℕ) → NoBackslash s → backslash_at s k ≡ false
backslash_at_plain [] k h = refl
backslash_at_plain (c ∷ s) zero h = ground arith
backslash_at_plain (c ∷ s) (suc k) h = backslash_at_plain s k h.1

scan_back_plain : (s : Text) (n : ℕ) → NoBackslash s → scan_back s n ≡ none
unfolding scan_back
scan_back_plain s zero h = refl
scan_back_plain s (suc n) h = rw (backslash_at_plain s n h) (scan_back_plain s n h)

scan_back_last :
    (d f : Text) (k : ℕ)
    → NoBackslash f
    → scan_back (d ++ (92 ∷ f)) (suc (length d + k)) ≡ some (length d)
unfolding scan_back
scan_back_last d f zero h =
    let e : length d + 0 ≡ length d = omega arith in rw (backslash_at_append d (92 ∷ f) 0, e)
scan_back_last d f (suc k) h =
    let e : length d + suc k ≡ suc (length d + k) = omega arith in
    rw (backslash_at_append d (92 ∷ f) (suc k), backslash_at_plain f k h, e)
      (scan_back_last d f k h)

splits_at_last :
    (d f : Text)
    → splits_at (d ++ (92 ∷ f)) (some (length d)) ≡ not (length d == 0) && not (length f == 0)
unfolding splits_at
splits_at_last d f = ground (arith, length-append d (92 ∷ f))

drop-append_suc : (d f : Text) → drop (length d + 1) (d ++ (92 ∷ f)) ≡ f
drop-append_suc [] f = refl
drop-append_suc (c ∷ d) f =
    let e : suc (length d) + 1 ≡ suc (length d + 1) = omega arith in rw e (drop-append_suc d f)

cut_at_last : (d f : Text) → cut_at (d ++ (92 ∷ f)) (some (length d)) ≡ (d, f)
unfolding cut_at
cut_at_last d f = rw (take-append d (92 ∷ f), drop-append_suc d f)

module _ (S : System) (path : Text) (s : S.State) where
  abbrev answer : ℕ × Option Text
  answer = S.full_path_name (c_str path) s

  -- The full name can be had.
  abbrev pub Names : Text → Type 0
  Names full = (answer.0 ≢ 0) × (buff : Text) × (answer.1 ≡ some buff) × (full ≡ c_str buff)

  pub named_lem : (full : Text) → Names full → get_full_path_name S (c_str path) s ≡ (ok full, s)
  unfolding get_full_path_name resume
  named_lem full (h, buff, e, same) =
      rw (e, same, assert_true S (not (answer.0 == 0)) reader_cpp 17 s (ground arith))

  -- Where it gives a name, that is the full name, and the system is as it was.
  pub get_full_path_name-Names :
      Post (λ full s'. Names full × (s' ≡ s)) (get_full_path_name S (c_str path) s)
  unfolding get_full_path_name resume
  get_full_path_name-Names = elim (Option-cases answer.1) [
    | inl unwritten ↦ rw unwritten ended
    | inr (buff, e) ↦ rw e (elim (Bool-cases (not (answer.0 == 0))) [
      | inl h ↦
          rw (assert_true S (not (answer.0 == 0)) reader_cpp 17 s h)
            (returned ((ground arith, buff, refl, refl), refl))
      | inr h ↦ rw (assert_false S (not (answer.0 == 0)) reader_cpp 17 s h) ended
    ])
  ]

  -- What follows once the full path name is known.
  finish : Text → Outcome (Text × Text) × S.State
  finish whole =
      (do
        checker_assert S (splits_at whole (scan_back whole (length whole))) reader_cpp 30
        pure (cut_at whole (scan_back whole (length whole))))
        s

  finish_lem : (full : Text) → Names full → get_directory_and_file S path s ≡ finish full
  unfolding get_directory_and_file finish resume
  finish_lem full h = rw (named_lem full h)

  finish-plain : (whole : Text) → NoBackslash whole → (finish whole).0 ≡ halted (exit 1)
  unfolding finish resume
  finish-plain whole plain =
      rw (scan_back_plain whole (length whole) plain)
        (rw (assert_false S (splits_at whole none) reader_cpp 30 s (unfold splits_at in refl)))

  module _ (d f : Text) (plain : NoBackslash f) where
    whole_scan : scan_back (d ++ (92 ∷ f)) (length (d ++ (92 ∷ f))) ≡ some (length d)
    whole_scan =
        let e : length (d ++ (92 ∷ f)) ≡ suc (length d + length f) =
          omega (arith, length-append d (92 ∷ f)) in
        rw e (scan_back_last d f (length f) plain)

    finish-split : d ≢ [] → f ≢ [] → finish (d ++ (92 ∷ f)) ≡ (ok (d, f), s)
    unfolding finish resume
    finish-split hd hf =
        let fits : splits_at (d ++ (92 ∷ f)) (some (length d)) ≡ true =
          rw splits_at_last (ground arith) in
        rw (whole_scan, assert_true S _ reader_cpp 30 s fits, cut_at_last d f)

    finish-misfit : (d ≡ []) ⊎ (f ≡ []) → (finish (d ++ (92 ∷ f))).0 ≡ halted (exit 1)
    unfolding finish resume
    finish-misfit h =
        let fails : splits_at (d ++ (92 ∷ f)) (some (length d)) ≡ false =
          rw splits_at_last (ground arith) in
        rw (whole_scan, assert_false S _ reader_cpp 30 s fails)

  -- Every full path name is split, or the process exits.
  finish-cases :
      (whole : Text)
      → ((d : Text) × (f : Text) × SplitsAs whole d f × (finish whole ≡ (ok (d, f), s)))
        ⊎ ((finish whole).0 ≡ halted (exit 1))
  finish-cases whole = elim (last_backslash whole) [
    | inl plain ↦ inr (finish-plain whole plain)
    | inr (d, f, e, plain) ↦ elim (List-cases d) [
      | inl empty ↦ inr (rw e (finish-misfit d f plain (inl empty)))
      | inr hd ↦ elim (List-cases f) [
        | inl empty ↦ inr (rw e (finish-misfit d f plain (inr empty)))
        | inr hf ↦ inl (
          d,
          f,
          record { parts = e; plain = plain; has_directory = hd; has_name = hf },
          rw e (finish-split d f plain hd hf),
        )
      ]
    ]
  ]

  -- Where it returns, the full name is known.
  named_first :
      Post
        (λ parts s'. (full : Text) × Names full × (finish full ≡ (ok parts, s')))
        (get_directory_and_file S path s)
  unfolding get_directory_and_file finish
  named_first =
      Post-bind get_full_path_name-Names
        λ full s₁ h. rw h.1 (Post-weaken (Post-refl (finish full)) λ parts s' e. (full, h.0, e))

  -- Where it returns, the full name is split, and the system is as it was.
  pub get_directory_and_file-SplitsAs :
      Post
        (λ parts s'. ((full : Text) × Names full × SplitsAs full parts.0 parts.1) × (s' ≡ s))
        (get_directory_and_file S path s)
  get_directory_and_file-SplitsAs = Post-weaken named_first λ parts s' (full, named, e).
      elim (finish-cases full) [
        | inl (d, f, split, e') ↦
            let same : parts ≡ (d, f) = cc in
            let kept : s' ≡ s = cc in rw (same, kept) ((full, named, split), refl)
        | inr e' ↦ cc
      ]

  -- `get_directory_and_file` gives a directory and a name, and leaves the system as it was, exactly
  -- when the full path name can be had and is the directory, a backslash and the name, both of them
  -- nonempty and the name without a backslash.
  pub get_directory_and_file_iff :
      (d f : Text)
      → (get_directory_and_file S path s ≡ (ok (d, f), s))
        ↔ ((full : Text) × Names full × SplitsAs full d f)
  get_directory_and_file_iff d f = (
    λ h.
        let (full, named, e) = Post-ok (rw h at named_first) in
        elim (finish-cases full) [
          | inl (d', f', split, e') ↦
              let same_directory : d' ≡ d = cc in
              let same_name : f' ≡ f = cc in
              (full, named, rw same_directory at (rw same_name at split))
          | inr e' ↦ cc
        ],
    λ (full, named, h).
        finish_lem full named ∙ rw h.parts (finish-split d f h.plain h.has_directory h.has_name),
  )
