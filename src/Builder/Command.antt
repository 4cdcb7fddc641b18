-- ===== src/Builder/Command.antt =====
-- The command line that `parse_compiler_config` makes of a template.
use checker_olimp.Base.{
  ℕ, suc, ◌+◌, ◌≡◌, ◌≢◌, ◌⊎◌, inl, inr, refl, sym, ap, ◌∙◌, false, some, [], ◌∷◌, ◌++◌, length,
  take, drop, take-append, append_assoc, All, arith,
}
use checker_olimp.Text.{Text, text_eq, find}
use checker_olimp.Text.Find.{find_first, find_absent}
use checker_olimp.Effect.{Action, ok, halted, exit, resume}
use checker_olimp.Effect.Laws.{resume-pure, resume-halted}
use checker_olimp.System.{System}
use checker_olimp.Assert.{assert_false}
use checker_olimp.Paths.{restore_path}
use checker_olimp.Builder.{
  builder_cpp, msv_cpp, mingw_cpp, fp_pas, abc_pas, d1_str, d2_str, exe_str, substitute,
  cpp_command, pas_command, parse_compiler_config,
}

-- No dollar sign stands in the text.
abbrev pub Plain : Text → Type 0
Plain = All (λ c. c ≢ 36)

pub Plain-append : (s t : Text) → Plain s → Plain t → Plain (s ++ t)
Plain-append [] t h k = k
Plain-append (c ∷ s) t (p, h) k = (p, Plain-append s t h k)

drop_mark : (a b : Text) (c d : ℕ) → drop (length a + 2) (a ++ (c ∷ d ∷ b)) ≡ b
drop_mark [] b c d = refl
drop_mark (x ∷ a) b c d =
    let e : suc (length a) + 2 ≡ suc (length a + 2) = omega arith in rw e (drop_mark a b c d)

-- The search for `$1` passes over a `$2`.
find_past_d2 :
    (a b c : Text)
    → Plain a
    → Plain b
    → find d1_str (a ++ (36 ∷ 50 ∷ (b ++ (36 ∷ 49 ∷ c)))) ≡ some (length a + (length b + 2))
unfolding find
find_past_d2 [] b c h k = rw (find_first 36 (49 ∷ []) b c k) (ground arith)
find_past_d2 (x ∷ a) b c h k = rw (find_past_d2 a b c h.1 k) (ground arith)

-- The mark `$1` behind a `$2` is cut out.
take_past_d2 :
    (a b c : Text)
    → take (length a + (length b + 2)) (a ++ (36 ∷ 50 ∷ (b ++ (36 ∷ 49 ∷ c)))) ≡ a ++ (36 ∷ 50 ∷ b)
take_past_d2 [] b c =
    let e : 0 + (length b + 2) ≡ suc (suc (length b)) = omega arith in
    rw e (rw (take-append b (36 ∷ 49 ∷ c)))
take_past_d2 (x ∷ a) b c =
    let e : suc (length a) + (length b + 2) ≡ suc (length a + (length b + 2)) = omega arith in
    rw e (rw (take_past_d2 a b c))

drop_past_d2 :
    (a b c : Text)
    → drop (length a + (length b + 2) + 2) (a ++ (36 ∷ 50 ∷ (b ++ (36 ∷ 49 ∷ c)))) ≡ c
drop_past_d2 [] b c =
    let e : 0 + (length b + 2) + 2 ≡ suc (suc (length b + 2)) = omega arith in
    rw e (drop_mark b c 36 49)
drop_past_d2 (x ∷ a) b c =
    let e : suc (length a) + (length b + 2) + 2 ≡ suc (length a + (length b + 2) + 2) =
      omega arith in
    rw e (drop_past_d2 a b c)

module _ (S : System) (s : S.State) where
  -- The first mark, with no dollar sign before it, is replaced by the value.
  substitute-mark :
      (d : ℕ) (value a b : Text) (line : ℕ)
      → Plain a
      → substitute S (36 ∷ d ∷ []) value line (a ++ (36 ∷ d ∷ b)) s ≡ (ok (a ++ (value ++ b)), s)
  unfolding substitute
  substitute-mark d value a b line h =
      rw (find_first 36 (d ∷ []) a b h, substitute)
        (rw (take-append a (36 ∷ d ∷ b), drop_mark a b 36 d))

  substitute-missing :
      (d : ℕ) (value a : Text) (line : ℕ)
      → Plain a
      → (substitute S (36 ∷ d ∷ []) value line a s).0 ≡ halted (exit 1)
  unfolding substitute resume
  substitute-missing d value a line h =
      rw (find_absent 36 (d ∷ []) a h, substitute)
        (rw (assert_false S false builder_cpp line s refl))

-- The names of the compilers, by the way their commands are made.
abbrev pub IsCpp : Text → Type 0
IsCpp name = (name ≡ msv_cpp) ⊎ (name ≡ mingw_cpp)

abbrev pub IsPas : Text → Type 0
IsPas name = (name ≡ fp_pas) ⊎ (name ≡ abc_pas)

regroup : (a p b x : Text) → a ++ (p ++ (b ++ x)) ≡ (a ++ (p ++ b)) ++ x
regroup a p b x = simp append_assoc

module _ (S : System) (profile source : Text) (s : S.State) where
  abbrev pub source_path : Text
  source_path = restore_path profile source

  abbrev pub executable_path : Text
  executable_path = restore_path profile (source ++ exe_str)

  parse-cpp :
      (name config : Text)
      → IsCpp name
      → parse_compiler_config S profile source name config s ≡ cpp_command S profile source config s
  unfolding parse_compiler_config resume text_eq
  parse-cpp name config (inl e) = rw e (resume-pure (cpp_command S profile source config s))
  parse-cpp name config (inr e) = rw e (resume-pure (cpp_command S profile source config s))

  parse-pas :
      (name config : Text)
      → IsPas name
      → parse_compiler_config S profile source name config s ≡ pas_command S profile source config s
  unfolding parse_compiler_config resume text_eq
  parse-pas name config (inl e) = rw e
  parse-pas name config (inr e) = rw e

  -- The second step of a C++ command.
  abbrev second : Text → Action S.State Text
  second = substitute S d2_str executable_path 30

  -- For a C++ compiler and a template with `$1` before `$2`, and no dollar sign before them or in
  -- the path of the source, the command is the template with the path of the source and that of the
  -- executable in their places, and the system is left as it was.
  pub parse_compiler_config-source_first :
      (name a b c : Text)
      → IsCpp name
      → Plain a
      → Plain b
      → Plain source_path
      → parse_compiler_config S profile source name (a ++ (d1_str ++ (b ++ (d2_str ++ c)))) s
        ≡ (ok (a ++ (source_path ++ (b ++ (executable_path ++ c)))), s)
  unfolding cpp_command substitute resume
  parse_compiler_config-source_first name a b c h pa pb pp =
      parse-cpp name _ h
      ∙ ap (resume second) (substitute-mark S s 49 source_path a (b ++ (d2_str ++ c)) 26 pa)
      ∙ ap (λ t. second t s) (regroup a source_path b (d2_str ++ c))
      ∙ substitute-mark S s 50 executable_path (a ++ (source_path ++ b)) c 30
          (Plain-append a _ pa (Plain-append source_path b pp pb))
      ∙ ap (λ t. (ok t, s)) (sym (regroup a source_path b (executable_path ++ c)))

  -- For a C++ compiler and a template with `$2` before `$1`, and no dollar sign before them, the
  -- command is the template with the path of the executable and that of the source in their places,
  -- and the system is left as it was.
  pub parse_compiler_config-executable_first :
      (name a b c : Text)
      → IsCpp name
      → Plain a
      → Plain b
      → parse_compiler_config S profile source name (a ++ (d2_str ++ (b ++ (d1_str ++ c)))) s
        ≡ (ok (a ++ (executable_path ++ (b ++ (source_path ++ c)))), s)
  unfolding cpp_command substitute resume
  parse_compiler_config-executable_first name a b c h pa pb =
      parse-cpp name _ h
      ∙ ap (resume second) first
      ∙ ap (λ t. second t s) (append_assoc a (d2_str ++ b) (source_path ++ c))
      ∙ substitute-mark S s 50 executable_path a (b ++ (source_path ++ c)) 30 pa
    where
      first :
          substitute S d1_str source_path 26 (a ++ (d2_str ++ (b ++ (d1_str ++ c)))) s
          ≡ (ok ((a ++ (d2_str ++ b)) ++ (source_path ++ c)), s)
      first =
          rw (find_past_d2 a b c pa pb, substitute) (rw (take_past_d2 a b c, drop_past_d2 a b c))

  -- For a Pascal compiler and a template with no dollar sign before its `$1`, the command is the
  -- template with the path of the source in that place, and the system is left as it was.
  pub parse_compiler_config-pas :
      (name a b : Text)
      → IsPas name
      → Plain a
      → parse_compiler_config S profile source name (a ++ (d1_str ++ b)) s
        ≡ (ok (a ++ (source_path ++ b)), s)
  unfolding pas_command
  parse_compiler_config-pas name a b h pa =
      parse-pas name _ h ∙ substitute-mark S s 49 source_path a b 39 pa

  -- For each of the four compilers a template without a dollar sign ends the process with status 1.
  pub parse_compiler_config-unmarked :
      (name config : Text)
      → IsCpp name ⊎ IsPas name
      → Plain config
      → (parse_compiler_config S profile source name config s).0 ≡ halted (exit 1)
  unfolding cpp_command pas_command resume
  parse_compiler_config-unmarked name config (inl h) plain =
      ap (λ r. r.0) (parse-cpp name config h)
      ∙ resume-halted second _ (substitute-missing S s 49 source_path config 26 plain)
  parse_compiler_config-unmarked name config (inr h) plain =
      ap (λ r. r.0) (parse-pas name config h)
      ∙ substitute-missing S s 49 source_path config 39 plain
