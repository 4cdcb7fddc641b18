-- ===== src/Contester/Main/Ends.antt =====
-- How the contester ends.
use checker_olimp.Base.{
  ℕ, zero, suc, ◌+◌, ◌≡◌, ◌≢◌, Bool, Option, none, some, List, refl, true, false, [], ◌++◌,
  if◌then◌else◌, inl, inr, Bool-cases,
}
use checker_olimp.Text.{Text, lit, c_str}
use checker_olimp.Effect.{
  Outcome, Action, ok, thrown, halted, value_of, resume, handle, try_catch, effect, pure, ◌>>=◌,
  ◌>>◌,
}
use checker_olimp.Effect.Laws.{
  Post, Throws, gave, stopped, Throws-bind, Throws-refl, returned, ended, Post-step, Post-weaken,
}
use checker_olimp.System.{System, Shell}
use checker_olimp.Json.{Json}
use checker_olimp.Contester.Database.{MySql, init, connect}
use checker_olimp.Base.Int.{ℤ}
use checker_olimp.Contester.Solution.{Clng, get_not_checked_ids}
use checker_olimp.Contester.Main.{
  Config, string_at, read_langs, is_early, pause, turn, loop, main, print_version, read_config,
}
use checker_olimp.Contester.Main.Laws.{check_solutions-Caught}

module _ (S : System) (H : Shell S.State) (D : MySql S.State) (J : Json) where
  -- The loop does not return.
  loop_lem :
      (fuel : ℕ) (config : Config) (s : S.State) → Post (λ _ _. ⊥) (loop S H D J fuel config s)
  unfolding loop
  loop_lem zero config s = ended
  loop_lem (suc fuel) config s = Post-step (turn S H D J config s) λ _ s₁. loop_lem fuel config s₁

  -- The server has refused the connection.
  abbrev pub Refused : Type 0
  Refused =
      (s : S.State) × ((D.connect (c_str (lit "localhost")) (c_str (lit "root")) (c_str [])
          (c_str (lit "projects_contest")) 3306 s).0
        ≡ false)

  connecting :
      (fuel : ℕ) (config : Config) (s : S.State)
      → Post
          (λ code _. (code ≡ 1) × Refused)
          ((do
            connected ←
                try_catch
                  (do
                    connect D (init (lit "localhost") (lit "root") [] (lit "projects_contest") 3306)
                    pure true)
                  (λ message. do
                    effect (S.print_error (lit "DB connection error: " ++ (message ++ lit "\n")))
                    pure false)
            if connected then loop S H D J fuel config else pure 1)
            s)
  unfolding connect resume handle
  connecting fuel config s =
      elim (Bool-cases
        (D.connect (c_str (lit "localhost")) (c_str (lit "root")) (c_str [])
          (c_str (lit "projects_contest")) 3306 s).0) [
            | inl joined ↦ rw joined (Post-weaken (loop_lem fuel config _) λ _ _ h. absurd h)
            | inr refused ↦ rw refused (returned (refl, (s, refused)))
          ]

  -- The loop of the contester never returns: if `main` returns, its status is 1, and the server has
  -- refused the connection.
  pub main-Refused :
      (fuel : ℕ) (s : S.State) → Post (λ code _. (code ≡ 1) × Refused) (main S H D J fuel s)
  unfolding main
  main-Refused fuel s =
      Post-step (print_version S J s)
        λ _ s₁. Post-step (read_config S J s₁) λ config s₂. connecting fuel config s₂

-- A value that may be missing is no exception.
value_of-Throws :
    {W A : Type 0} {P : Text → Type 0} (o : Option A) (w : W) → Throws P (value_of o w)
value_of-Throws none w = stopped
value_of-Throws (some a) w = gave

branch-Throws :
    {W A : Type 0} {P : Text → Type 0} (m n : Action W A) (w : W) (b : Bool)
    → Throws P (m w)
    → Throws P (n w)
    → Throws P ((if b then m else n) w)
branch-Throws m n w true first second = first
branch-Throws m n w false first second = second

module _ (S : System) (J : Json) (P : Text → Type 0) where
  string_at-Throws : (v : J.Value) (key : Text) (s : S.State) → Throws P (string_at S J v key s)
  unfolding string_at
  string_at-Throws v key s =
      Throws-bind (value_of-Throws _ s) λ m s₁. Throws-bind (value_of-Throws _ s₁) λ text s₂. gave

  read_langs-Throws :
      (left : ℕ) (v : J.Value) (i : ℕ) (clngs : List (Text × Clng)) (s : S.State)
      → Throws P (read_langs S J left v i clngs s)
  unfolding read_langs
  read_langs-Throws zero v i clngs s = gave
  read_langs-Throws (suc left) v i clngs s = Throws-bind (value_of-Throws _ s) λ li s₁.
      Throws-bind (string_at-Throws li _ s₁) λ cmd s₂.
        Throws-bind (string_at-Throws li _ s₂) λ ext s₃.
          Throws-bind (string_at-Throws li _ s₃) λ id s₄. read_langs-Throws left v (i + 1) _ s₄

  read_config-Throws : (s : S.State) → Throws P (read_config S J s)
  unfolding read_config
  read_config-Throws s = Throws-bind gave λ content s₀. Throws-bind (value_of-Throws _ s₀) λ dv s₁.
      Throws-bind (value_of-Throws _ s₁) λ delay s₂.
        Throws-bind (string_at-Throws _ _ s₂) λ ch_bin s₃.
          Throws-bind (string_at-Throws _ _ s₃) λ tests_dir s₄.
            Throws-bind (value_of-Throws _ s₄) λ lv s₅.
              branch-Throws _ _ s₅ (J.is_array lv)
                (Throws-bind (value_of-Throws _ s₅)
                  λ size s₆. Throws-bind (read_langs-Throws size lv 0 [] s₆) λ clngs s₇. gave)
                gave

module _ (S : System) (H : Shell S.State) (D : MySql S.State) (J : Json) where
  -- The query for the ids of the unchecked solutions has failed with the message.
  abbrev pub ListFailed : Text → Type 0
  ListFailed message =
      (s₁ : S.State) × (s₂ : S.State) × (get_not_checked_ids D s₁ ≡ (thrown message, s₂))

  caught :
      {A : Type 0} (r : Outcome A × S.State) → ((t : Text) → r.0 ≢ thrown t) → Throws ListFailed r
  caught (ok a, s) h = gave
  caught (thrown t, s) h = absurd (h t refl)
  caught (halted e, s) h = stopped

  pause-Throws :
      (delay : ℤ) (start_time : ℕ) (s : S.State) → Throws ListFailed (pause S H delay start_time s)
  unfolding pause resume
  pause-Throws delay start_time s = elim (Bool-cases (is_early delay start_time (H.clock s).0)) [
    | inl early ↦ rw early gave
    | inr late ↦ rw late gave
  ]

  loop-Throws :
      (fuel : ℕ) (config : Config) (s : S.State) → Throws ListFailed (loop S H D J fuel config s)
  unfolding loop turn
  loop-Throws zero config s = stopped
  loop-Throws (suc fuel) config s =
      Throws-bind
        (Throws-bind gave λ start_time s₁.
          Throws-bind (Throws-refl (get_not_checked_ids D) s₁) λ ids s₂.
            Throws-bind (caught _ (check_solutions-Caught S H D J config.settings ids s₂))
              λ _ s₃. pause-Throws config.delay start_time s₃)
        λ _ s₁. loop-Throws fuel config s₁

  connecting-Throws :
      (fuel : ℕ) (config : Config) (s : S.State)
      → Throws ListFailed (
          (do
            connected ←
                try_catch
                  (do
                    connect D (init (lit "localhost") (lit "root") [] (lit "projects_contest") 3306)
                    pure true)
                  (λ message. do
                    effect (S.print_error (lit "DB connection error: " ++ (message ++ lit "\n")))
                    pure false)
            if connected then loop S H D J fuel config else pure 1)
            s)
  unfolding connect resume handle
  connecting-Throws fuel config s =
      elim (Bool-cases
        (D.connect (c_str (lit "localhost")) (c_str (lit "root")) (c_str [])
          (c_str (lit "projects_contest")) 3306 s).0) [
            | inl joined ↦ rw joined (loop-Throws fuel config _)
            | inr refused ↦ rw refused gave
          ]

  -- The contester never ends well. If `main` returns, its status is 1, and the server has refused
  -- the connection; and if it ends in an exception of the type that the program throws, then the
  -- query for the ids of the unchecked solutions has failed, with that message.
  pub main-ListFailed :
      (fuel : ℕ) (s : S.State)
      → Post (λ code _. (code ≡ 1) × Refused S H D J) (main S H D J fuel s)
        × Throws ListFailed (main S H D J fuel s)
  unfolding main print_version resume
  main-ListFailed fuel s = (
    main-Refused S H D J fuel s,
    Throws-bind (read_config-Throws S J ListFailed _) λ config s₁. connecting-Throws fuel config s₁,
  )
