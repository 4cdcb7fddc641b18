-- ===== src/Contester/Main/Since.antt =====
-- The states of a run of the contester, by the calls of the system that lead to them.
use checker_olimp.Base.{ℕ, ◌≡◌, true, ◌++◌}
use checker_olimp.Base.Int.{ℤ}
use checker_olimp.Text.{Text, lit, c_str}
use checker_olimp.System.{System, Shell}
use checker_olimp.Contester.Database.{MySql}
use checker_olimp.Contester.Tables.{TableView, Same, update_sql}

module _ (S : System) (H : Shell S.State) (D : MySql S.State) (began : S.State) where
  -- The contester's calls, from the state on.
  pub data Since : S.State → Type 0 where
    start : Since began
    wrote : {s : S.State} (path text : Text) → Since s → Since (S.write_file path text s).1
    removed : {s : S.State} (path : Text) → Since s → Since (S.remove_file path s)
    ran : {s : S.State} (command : Text) → Since s → Since (H.run_command command s)
    clocked : {s : S.State} → Since s → Since (H.clock s).1
    printed : {s : S.State} (text : Text) → Since s → Since (S.print_error text s)
    slept : {s : S.State} (time : ℕ) → Since s → Since (S.sleep time s)
    saved :
        {s s' : S.State} (id : ℤ) (result : Text)
        → D.query (c_str (update_sql result id)) s ≡ (true, s')
        → Since s
        → Since s'

  module _ (V : TableView S H D) where
    abbrev pub Stands : S.State → Type 0
    Stands s = V.IsUp s × Since s

    pub keeps : {s s' : S.State} → Same V.IsUp V.view s s' → Since s' → Same Stands V.view s s'
    keeps h next = record { up = (h.up, next); kept = h.kept }

    -- The view of the tables in the states that come since.
    abbrev pub view_since : TableView S H D
    view_since = record {
      IsUp = Stands;
      plain_result = λ s h. V.plain_result s h.0;
      view = V.view;
      distinct = λ s h. V.distinct s h.0;
      chosen = V.chosen;
      listed = λ s h. V.listed s h.0;
      chosen_distinct = λ s h. V.chosen_distinct s h.0;
      chosen_waiting = λ s h. V.chosen_waiting s h.0;
      chosen_count = λ s h. V.chosen_count s h.0;
      updated = λ s id result h plain w.
          let (s', done, up, changed) = V.updated s id result h.0 plain w in
          (s', done, (up, saved id result done h.1), changed);
      write_keeps = λ ending text s h.
          keeps (V.write_keeps ending text s h.0) (wrote (lit "solution" ++ ending) text h.1);
      remove_keeps = λ path s h. keeps (V.remove_keeps path s h.0) (removed path h.1);
      command_keeps = λ command s h. keeps (V.command_keeps command s h.0) (ran command h.1);
      clock_keeps = λ s h. keeps (V.clock_keeps s h.0) (clocked h.1);
      print_keeps = λ text s h. keeps (V.print_keeps text s h.0) (printed text h.1);
      sleep_keeps = λ time s h. keeps (V.sleep_keeps time s h.0) (slept time h.1);
    }
