-- ===== src/Contester/Data/Stored.antt =====
-- When the tables hold an object, and that its constructor then gives it.
use checker_olimp.Base.{◌≡◌, ◌<◌, refl, true, Option, some, List, [], ◌∷◌, ◌++◌, map, All}
use checker_olimp.Base.Int.{ℤ}
use checker_olimp.Text.{Text, lit, c_str}
use checker_olimp.Text.Decimal.{of_nat, of_int}
use checker_olimp.Effect.{Action, ok, thrown, resume}
use checker_olimp.Contester.Numbers.Laws.{IsInt}
use checker_olimp.Contester.Database.{MySql, Row, field_text, exec, q}
use checker_olimp.Contester.Data.{
  Lang, Test, ChTest, ChGroup, Task, map_action, text_field, int_field, load, ids_of, new_lang,
  new_test, new_ch_test, ch_test_ids, new_ch_group, ch_group_ids, new_task,
}
use checker_olimp.Contester.Data.Fields.{int_field-of_int, unsigned_field-of_nat}

-- The columns of a row, in the order of the queries.
abbrev pub lang_row : Lang → Row
lang_row l = of_int l.id ∷ l.name ∷ l.compiler ∷ l.extension ∷ l.identifier ∷ []

abbrev pub test_row : Test → Row
test_row t = of_int t.id ∷ of_int t.sid ∷ of_int t.num ∷ of_int t.res ∷ of_int t.cid ∷ []

abbrev pub ch_test_row : ChTest → Row
ch_test_row t = of_int t.id ∷ of_int t.gid ∷ of_int t.scores ∷ t.input ∷ t.output ∷ []

abbrev pub ch_group_row : ChGroup → Row
ch_group_row g = of_int g.id ∷ of_int g.tid ∷ of_int g.method ∷ of_int g.scores ∷ g.name ∷ []

abbrev pub task_row : Task → Row
task_row t =
    of_int t.id
    ∷ of_int t.cid
    ∷ of_nat t.time_limit
    ∷ of_nat t.memory_limit
    ∷ t.title
    ∷ t.content
    ∷ t.input
    ∷ t.output
    ∷ t.checker
    ∷ []

abbrev pub id_row : ℤ → Row
id_row id = of_int id ∷ []

abbrev pub id_rows : List ℤ → List Row
id_rows = map id_row

-- The texts before the ids of a test and a task.
abbrev pub test_sql : Text
test_sql = lit "SELECT id, sid, num, res, cid FROM tests WHERE id = "

abbrev pub task_sql : Text
task_sql =
    lit
      "SELECT id, cid, time_limit, memory_limit, title, content, input, output, checker FROM tasks WHERE id = "

module _ {W : Type 0} (D : MySql W) (s : W) where
  -- The query gives the rows, and once they are fetched the system is as it was.
  pub record Selects (sql : Text) (rows : List Row) : Type 0 where
    pub asked : W
    pub result : List (List (Option Text))
    pub accepted : D.query (c_str sql) s ≡ (true, asked)
    pub fetched : D.store_result asked ≡ (some result, s)
    pub texts : map (map field_text) result ≡ rows

  pub q-Selects : {sql : Text} {rows : List Row} → Selects sql rows → q D sql s ≡ (ok rows, s)
  unfolding q exec resume
  q-Selects h = rw h.accepted (rw h.fetched (rw h.texts))

  -- The first row.
  abbrev pub Finds : Text → ℤ → Row → Type 0
  Finds sql id row = (more : List Row) × Selects (sql ++ of_int id) (row ∷ more)

  pub load-Finds :
      {A : Type 0} {row : Row} (sql : Text) (id : ℤ) (what : Text) (read : Row → Action W A)
      → Finds sql id row
      → load D sql what id read s ≡ read row s
  unfolding load resume
  load-Finds sql id what read h = rw (q-Selects h.1)

  pub load-missing :
      {A : Type 0} (sql : Text) (id : ℤ) (what : Text) (read : Row → Action W A)
      → Selects (sql ++ of_int id) []
      → load D sql what id read s ≡ (thrown (what ++ (of_int id ++ lit " not exist")), s)
  unfolding load resume
  load-missing sql id what read h = rw (q-Selects h)

  pub map_action-map :
      {A B : Type 0} (f : A → Action W B) (key : B → A) (ys : List B)
      → All (λ y. f (key y) s ≡ (ok y, s)) ys
      → map_action f (map key ys) s ≡ (ok ys, s)
  unfolding map_action resume
  map_action-map f key [] h = refl
  map_action-map f key (y ∷ ys) h = rw h.0 (rw (map_action-map f key ys h.1))

  id_fields :
      (ids : List ℤ)
      → All IsInt ids
      → map_action (λ row. int_field row 0) (id_rows ids) s ≡ (ok ids, s)
  unfolding map_action resume
  id_fields [] h = refl
  id_fields (id ∷ ids) h =
      rw (int_field-of_int (id_row id) 0 id s refl h.0) (rw (id_fields ids h.1))

  abbrev pub Lists : Text → List ℤ → Type 0
  Lists sql ids = Selects sql (id_rows ids) × All IsInt ids

  pub ids_of-Lists : {sql : Text} (ids : List ℤ) → Lists sql ids → ids_of D sql s ≡ (ok ids, s)
  unfolding ids_of resume
  ids_of-Lists ids h = rw (q-Selects h.0) (id_fields ids h.1)

  -- The tables hold an object: its row is found by its id, with numbers of the type `int`.
  abbrev pub HoldsLang : Lang → Type 0
  HoldsLang l =
      Finds (lit "SELECT id, name, compiler, extension, identifier FROM langs WHERE id = ") l.id
        (lang_row l)
      × IsInt l.id

  pub new_lang-Holds : (l : Lang) → HoldsLang l → new_lang D l.id s ≡ (ok l, s)
  unfolding new_lang resume text_field
  new_lang-Holds l h =
      rw (load-Finds _ l.id (lit "lang #") _ h.0)
        (rw (int_field-of_int (lang_row l) 0 l.id s refl h.1))

  abbrev pub HoldsTest : Test → Type 0
  HoldsTest t =
      Finds test_sql t.id (test_row t)
      × IsInt t.id
      × IsInt t.sid
      × IsInt t.num
      × IsInt t.res
      × IsInt t.cid

  pub new_test-Holds : (t : Test) → HoldsTest t → new_test D t.id s ≡ (ok t, s)
  unfolding new_test resume
  new_test-Holds t h =
      let row = test_row t in
      rw (load-Finds _ t.id (lit "test #") _ h.0) (
        rw (int_field-of_int row 0 t.id s refl h.1) (
          rw (int_field-of_int row 1 t.sid s refl h.2) (
            rw (int_field-of_int row 2 t.num s refl h.3) (
              rw (int_field-of_int row 3 t.res s refl h.4)
                (rw (int_field-of_int row 4 t.cid s refl h.5))))))

  abbrev pub HoldsChTest : ChTest → Type 0
  HoldsChTest t =
      Finds (lit "SELECT id, gid, scores, input, output FROM checkertests WHERE id = ") t.id
        (ch_test_row t)
      × IsInt t.id
      × IsInt t.gid
      × IsInt t.scores

  pub new_ch_test-Holds : (t : ChTest) → HoldsChTest t → new_ch_test D t.id s ≡ (ok t, s)
  unfolding new_ch_test resume text_field
  new_ch_test-Holds t h =
      let row = ch_test_row t in
      rw (load-Finds _ t.id (lit "checker group #") _ h.0) (
        rw (int_field-of_int row 0 t.id s refl h.1) (
          rw (int_field-of_int row 1 t.gid s refl h.2)
            (rw (int_field-of_int row 2 t.scores s refl h.3))))

  new_ch_test-All :
      (ts : List ChTest) → All HoldsChTest ts → All (λ t. new_ch_test D t.id s ≡ (ok t, s)) ts
  new_ch_test-All [] h = tt
  new_ch_test-All (t ∷ ts) h = (new_ch_test-Holds t h.0, new_ch_test-All ts h.1)

  abbrev pub ch_test_key : ChTest → ℤ
  ch_test_key t = t.id

  -- A group with its tests, which the ids of the group's tests list in their order.
  abbrev pub HoldsChGroup : ChGroup → Type 0
  HoldsChGroup g =
      Finds (lit "SELECT id, tid, method, scores, name FROM checkergroups WHERE id = ") g.id
        (ch_group_row g)
      × IsInt g.id
      × IsInt g.tid
      × IsInt g.method
      × IsInt g.scores
      × Lists (lit "select id from checkertests where gid = " ++ of_int g.id)
          (map ch_test_key g.chts)
      × All HoldsChTest g.chts

  pub new_ch_group-Holds : (g : ChGroup) → HoldsChGroup g → new_ch_group D g.id s ≡ (ok g, s)
  unfolding new_ch_group ch_test_ids resume text_field
  new_ch_group-Holds g h =
      let row = ch_group_row g in
      rw (load-Finds _ g.id (lit "checker group #") _ h.0) (
        rw (int_field-of_int row 0 g.id s refl h.1) (
          rw (int_field-of_int row 1 g.tid s refl h.2) (
            rw (int_field-of_int row 2 g.method s refl h.3) (
              rw (int_field-of_int row 3 g.scores s refl h.4) (
                rw (ids_of-Lists (map ch_test_key g.chts) h.5) (
                  rw (
                    map_action-map (new_ch_test D) ch_test_key g.chts
                      (new_ch_test-All g.chts h.6))))))))

  new_ch_group-All :
      (gs : List ChGroup) → All HoldsChGroup gs → All (λ g. new_ch_group D g.id s ≡ (ok g, s)) gs
  new_ch_group-All [] h = tt
  new_ch_group-All (g ∷ gs) h = (new_ch_group-Holds g h.0, new_ch_group-All gs h.1)

  abbrev pub ch_group_key : ChGroup → ℤ
  ch_group_key g = g.id

  -- A task with its groups. Its limits fit a `long long`.
  abbrev pub HoldsTask : Task → Type 0
  HoldsTask t =
      Finds task_sql t.id (task_row t)
      × IsInt t.id
      × IsInt t.cid
      × (t.time_limit < 9223372036854775808)
      × (t.memory_limit < 9223372036854775808)
      × Lists (lit "select id from checkergroups where tid = " ++ of_int t.id)
          (map ch_group_key t.chgs)
      × All HoldsChGroup t.chgs

  pub new_task-Holds : (t : Task) → HoldsTask t → new_task D t.id s ≡ (ok t, s)
  unfolding new_task ch_group_ids resume text_field
  new_task-Holds t h =
      let row = task_row t in
      rw (load-Finds _ t.id (lit "task #") _ h.0) (
        rw (int_field-of_int row 0 t.id s refl h.1) (
          rw (int_field-of_int row 1 t.cid s refl h.2) (
            rw (unsigned_field-of_nat row 2 t.time_limit s refl h.3) (
              rw (unsigned_field-of_nat row 3 t.memory_limit s refl h.4) (
                rw (ids_of-Lists (map ch_group_key t.chgs) h.5) (
                  rw (
                    map_action-map (new_ch_group D) ch_group_key t.chgs
                      (new_ch_group-All t.chgs h.6))))))))

  pub new_task-missing :
      (id : ℤ)
      → Selects (task_sql ++ of_int id) []
      → new_task D id s ≡ (thrown (lit "task #" ++ (of_int id ++ lit " not exist")), s)
  unfolding new_task
  new_task-missing id h = load-missing task_sql id (lit "task #") _ h

  pub new_test-missing :
      (id : ℤ)
      → Selects (test_sql ++ of_int id) []
      → new_test D id s ≡ (thrown (lit "test #" ++ (of_int id ++ lit " not exist")), s)
  unfolding new_test
  new_test-missing id h = load-missing test_sql id (lit "test #") _ h
