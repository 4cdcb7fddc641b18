-- ===== src/Builder/Output.antt =====
-- What a build's result says of the compiler's output, and of the name of the source.
use checker_olimp.Base.{
  ℕ, zero, suc, ◌+◌, ◌-◌, ◌≤◌, ◌≡◌, ◌≢◌, ◌↔◌, inl, inr, refl, ap, ◌∙◌, true, false, none, some, [],
  ◌∷◌, ◌++◌, length, length-append, drop, take-append, append-nil, append_assoc, All, arith, ltb,
  Option-cases,
}
use checker_olimp.Text.{Text, lit, find, c_str}
use checker_olimp.Text.Find.{Occurs, find→Occurs, Occurs→find, find-none_iff}
use checker_olimp.Effect.{ok, resume}
use checker_olimp.System.{System}
use checker_olimp.Paths.{restore_path}
use checker_olimp.Builder.{
  exe_str, until_newline, printed_path, msv_result, rejects_name, pas_executable, read_pipe,
}

-- The compiler's output as `fgets` gives it: the chunks from one state of the system to another.
pub data Prints (S : System) (pipe : S.Pipe) : S.State → Text → S.State → Type 0 where
  done : {s s' : S.State} → S.get_line 512 pipe s ≡ (none, s') → Prints S pipe s [] s'
  chunk :
      {s s₁ s' : S.State} {buffer rest : Text}
      → S.get_line 512 pipe s ≡ (some buffer, s₁)
      → Prints S pipe s₁ rest s'
      → Prints S pipe s (c_str buffer ++ rest) s'

module _ (S : System) (pipe : S.Pipe) where
  -- The number of calls of `fgets`.
  unfoldable pub calls : {s s' : S.State} {output : Text} → Prints S pipe s output s' → ℕ
  calls (done e) = 1
  calls (chunk e p) = suc (calls p)

  -- The loop that reads the compiler's pipe adds all that is printed, chunk by chunk, to the text
  -- it starts from, and returns, given a round for each call of `fgets`.
  pub read_pipe-Prints :
      {s s' : S.State} {output : Text} (p : Prints S pipe s output s') (fuel : ℕ) (acc : Text)
      → calls p ≤ fuel
      → read_pipe S fuel pipe acc s ≡ (ok (acc ++ output), s')
  unfolding read_pipe resume calls
  read_pipe-Prints (done e) zero acc h = absurd (omega arith)
  read_pipe-Prints (chunk e p) zero acc h = absurd (omega arith)
  read_pipe-Prints (done e) (suc fuel) acc h = rw e (rw append-nil)
  read_pipe-Prints (chunk {buffer = buffer} e p) (suc fuel) acc h =
      rw e (read_pipe-Prints p fuel (acc ++ c_str buffer) (omega arith) ∙ rw append_assoc)

-- A Microsoft build succeeds exactly when `/out:` occurs in the output and `fatal error` does not.
pub msv_result_iff :
    (exe output : Text)
    → ((msv_result exe output).0 ≡ true)
      ↔ (Occurs (lit "/out:") output × ¬ (Occurs (lit "fatal error") output))
unfolding msv_result
msv_result_iff exe output = elim (Option-cases (find (lit "fatal error") output)) [
  | inr (i, fatal) ↦
      rw (fatal, msv_result) (λ h. cc, λ h. absurd (h.1 (find→Occurs _ output i fatal)))
  | inl clean ↦
      rw (clean, msv_result)
        (elim (Option-cases (find (lit "/out:") output)) [
          | inl missing ↦ rw missing (λ h. cc, λ h. absurd (Occurs→find _ output h.0 missing))
          | inr (i, found) ↦
              rw found
                (λ _. (find→Occurs _ output i found, (find-none_iff _ output).0 clean), λ _. refl)
        ])
]

until_newline-append :
    (path after : Text) → All (λ c. c ≢ 10) path → until_newline (path ++ (10 ∷ after)) ≡ path
unfolding until_newline
until_newline-append [] after h = refl
until_newline-append (c ∷ path) after h = ground (arith, until_newline-append path after h.1)

drop-length_add : (a s : Text) (n : ℕ) → drop (length a + n) (a ++ s) ≡ drop n s
drop-length_add [] s n = let e : 0 + n ≡ n = omega arith in rw e
drop-length_add (c ∷ a) s n =
    let e : suc (length a) + n ≡ suc (length a + n) = omega arith in rw e (drop-length_add a s n)

printed_path-append :
    (before path after exe : Text)
    → All (λ c. c ≢ 10) path
    → printed_path (before ++ (lit "/out:" ++ (path ++ (10 ∷ after)))) (length before) exe ≡ path
unfolding printed_path
printed_path-append before path after exe k =
    let output = before ++ (lit "/out:" ++ (path ++ (10 ∷ after))) in
    let shorter : ltb (length before + 5) (length output) ≡ true = ground (
      arith,
      length-append before (lit "/out:" ++ (path ++ (10 ∷ after))),
      length-append path (10 ∷ after),
    ) in
    rw shorter (
      rw (drop-length_add before (lit "/out:" ++ (path ++ (10 ∷ after))) 5)
        (until_newline-append path after k))

-- Where the output has no fatal error, the executable of a Microsoft build is what stands between
-- the first `/out:` and the end of its line, if a newline ends that line.
pub msv_result-path :
    (exe before path after : Text)
    → ¬ (Occurs (lit "fatal error") (before ++ (lit "/out:" ++ (path ++ (10 ∷ after)))))
    → find (lit "/out:") (before ++ (lit "/out:" ++ (path ++ (10 ∷ after)))) ≡ some (length before)
    → All (λ c. c ≢ 10) path
    → msv_result exe (before ++ (lit "/out:" ++ (path ++ (10 ∷ after)))) ≡ (true, path)
unfolding msv_result
msv_result-path exe before path after clean h k =
    let output = before ++ (lit "/out:" ++ (path ++ (10 ∷ after))) in
    rw ((find-none_iff (lit "fatal error") output).1 clean, msv_result)
      (rw h (ap (λ p. (true, p)) (printed_path-append before path after exe k)))

-- A Pascal source with its suffix: the executable has the same name, with the other suffix.
pub pas_executable-suffix :
    (profile base : Text)
    → pas_executable profile (base ++ lit ".pas") ≡ restore_path profile (base ++ exe_str)
pas_executable-suffix profile base =
    let e : length (base ++ lit ".pas") - 4 ≡ length base =
      omega (arith, length-append base (lit ".pas")) in
    rw e (rw (take-append base (lit ".pas")))

-- A name of five bytes or more is accepted as that of a Pascal source, whatever it ends in.
pub rejects_name_long : (source : Text) → 5 ≤ length source → rejects_name source ≡ some false
unfolding rejects_name
rejects_name_long source h = ground arith
