-- ===== src/Contester/Main/Start.antt =====
-- The contester from its start: the settings, the connection, and then its turns.
use checker_olimp.Base.{ℕ, ◌+◌, ◌-◌, ◌*◌, ◌≡◌, refl, true, some, []}
use checker_olimp.Text.{Text, lit, c_str}
use checker_olimp.Effect.{resume, handle}
use checker_olimp.System.{System, Shell}
use checker_olimp.Json.{Json}
use checker_olimp.Json.Document.{Represents}
use checker_olimp.Contester.Database.{MySql, connect}
use checker_olimp.Contester.Queue.{waiting_count}
use checker_olimp.Contester.Tables.{TableView, AllHeld}
use checker_olimp.Contester.Main.{print_version, loop, main}
use checker_olimp.Contester.Main.Reading.{SettingsFile, settings_doc, reads, config_of}
use checker_olimp.Contester.Main.Waiting.{loop-waiting_count}

module _ (S : System) (H : Shell S.State) (D : MySql S.State) (J : Json) (s : S.State) where
  -- The state in which the banner is printed.
  abbrev pub greeted : S.State
  greeted = S.print (lit "Version 0.0.1dev\n\n") (
      S.print (lit "(C) V. Salnikov and R.Zhalnin (Mordovian State University, Russia)\n")
        (S.print (lit "Contester for programming olimpiads\n") s))

  -- The server gives a connection in that state.
  abbrev pub Accepts : S.State → Type 0
  Accepts s₁ =
      D.connect (c_str (lit "localhost")) (c_str (lit "root")) (c_str [])
        (c_str (lit "projects_contest")) 3306 greeted
      ≡ (true, s₁)

  pub main_lem :
      (content : Text) (c : SettingsFile) (s₁ : S.State) (fuel : ℕ)
      → S.read_file (lit "contester.cfg") greeted ≡ some content
      → Represents J (J.parse (c_str content)) (settings_doc c)
      → Accepts s₁
      → main S H D J fuel s ≡ loop S H D J fuel (config_of c) s₁
  unfolding main print_version connect resume handle
  main_lem content c s₁ fuel e r accepted = rw (reads S J greeted content c e r) (rw accepted refl)

  -- `main` of the contester gets through its work, whatever the command leaves as results: after n
  -- turns it goes on as its loop does, in a state in which ten solutions fewer wait for each turn,
  -- or none. Conditions: the settings can be read and stand for their document; the server accepts
  -- the connection; the statements change the tables as SQL says and nothing else changes them, and
  -- the results hold no quote, backslash or NUL (TableView); and the tables hold all that belongs
  -- to a solution (AllHeld).
  pub main-waiting_count :
      (V : TableView S H D)
      → AllHeld D V.IsUp V.view
      → (content : Text) (c : SettingsFile) (s₁ : S.State)
      → S.read_file (lit "contester.cfg") greeted ≡ some content
      → Represents J (J.parse (c_str content)) (settings_doc c)
      → Accepts s₁
      → V.IsUp s₁
      → (n : ℕ)
      → (s' : S.State) × ((fuel : ℕ)
          → main S H D J (n + fuel) s ≡ loop S H D J fuel (config_of c) s')
        × V.IsUp s'
        × (waiting_count (V.view s') ≡ waiting_count (V.view s₁) - 10 * n)
  main-waiting_count V held content c s₁ e r accepted up n =
      let config = config_of c in
      let (s', on, still_up, left_over) = loop-waiting_count S H D J V held config n s₁ up in
      (
        s',
        λ fuel. rw (main_lem content c s₁ (n + fuel) e r accepted) (on fuel),
        still_up,
        left_over,
      )
