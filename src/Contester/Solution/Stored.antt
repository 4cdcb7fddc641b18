-- ===== src/Contester/Solution/Stored.antt =====
-- When the tables hold a solution with all that belongs to it, and that its constructor gives it.
use checker_olimp.Base.{◌≡◌, refl, List, [], ◌∷◌, ◌++◌, map, All}
use checker_olimp.Base.Int.{ℤ}
use checker_olimp.Text.{Text, lit}
use checker_olimp.Text.Decimal.{of_int}
use checker_olimp.Effect.{Action, ok, thrown, pure, resume, ◌>>=◌}
use checker_olimp.Contester.Numbers.Laws.{IsInt}
use checker_olimp.Contester.Database.{MySql, Row}
use checker_olimp.Contester.Data.{
  Test, map_action, text_field, new_test, test_ids, new_task, new_lang,
}
use checker_olimp.Contester.Data.Fields.{int_field-of_int}
use checker_olimp.Contester.Data.Stored.{
  Selects, Finds, Lists, load-Finds, load-missing, ids_of-Lists, map_action-map, HoldsTest,
  HoldsTask, task_sql, test_sql, new_test-missing, HoldsLang, new_task-missing, new_test-Holds,
  new_task-Holds, new_lang-Holds,
}
use checker_olimp.Contester.Solution.{Solution, new_solution}

abbrev pub solution_row : Solution → Row
solution_row x =
    of_int x.id
    ∷ of_int x.uid
    ∷ of_int x.tid
    ∷ of_int x.lid
    ∷ of_int x.created_at
    ∷ of_int x.status
    ∷ of_int x.score
    ∷ x.code
    ∷ x.file
    ∷ x.hash
    ∷ x.result
    ∷ []

abbrev pub solution_sql : Text
solution_sql =
    lit
      "SELECT id, uid, tid, lid, created_at, status, score, code, file, hash, result FROM solutions WHERE id = "

abbrev pub test_key : Test → ℤ
test_key t = t.id

-- The columns with numbers hold numbers of the type `int`.
abbrev pub Numbers : Solution → Type 0
Numbers x = All IsInt (x.id ∷ x.uid ∷ x.tid ∷ x.lid ∷ x.created_at ∷ x.status ∷ x.score ∷ [])

module _ {W : Type 0} (D : MySql W) (s : W) where
  -- The row of the solution is found by its id; its task and its language are those that the row
  -- names; and the ids of its tests are listed in their order.
  pub record HoldsSolution (x : Solution) : Type 0 where
    pub row : Finds D s solution_sql x.id (solution_row x)
    pub numbers : Numbers x
    pub its_task : x.pt.id ≡ x.tid
    pub task_held : HoldsTask D s x.pt
    pub its_lang : x.pl.id ≡ x.lid
    pub lang_held : HoldsLang D s x.pl
    pub listed :
        Lists D s (lit "select id from tests where sid = " ++ of_int x.id) (map test_key x.tsts)
    pub tests_held : All (HoldsTest D s) x.tsts

  new_test-All :
      (ts : List Test) → All (HoldsTest D s) ts → All (λ t. new_test D t.id s ≡ (ok t, s)) ts
  new_test-All [] h = tt
  new_test-All (t ∷ ts) h = (new_test-Holds D s t h.0, new_test-All ts h.1)

  task_of : (x : Solution) → HoldsSolution x → new_task D x.tid s ≡ (ok x.pt, s)
  task_of x h = rw (← h.its_task) (new_task-Holds D s x.pt h.task_held)

  lang_of : (x : Solution) → HoldsSolution x → new_lang D x.lid s ≡ (ok x.pl, s)
  lang_of x h = rw (← h.its_lang) (new_lang-Holds D s x.pl h.lang_held)

  -- What is loaded once the columns of the row are read.
  abbrev pub the_rest : Solution → Action W Solution
  the_rest x = do
    pt ← new_task D x.tid
    pl ← new_lang D x.lid
    tis ← test_ids D x.id
    tsts ← map_action (new_test D) tis
    pure (record x { pt = pt; pl = pl; tsts = tsts })

  new_solution-columns :
      (x : Solution)
      → Finds D s solution_sql x.id (solution_row x)
      → Numbers x
      → new_solution D x.id s ≡ the_rest x s
  unfolding new_solution resume text_field
  new_solution-columns x found n =
      let row = solution_row x in
      rw (load-Finds D s solution_sql x.id (lit "solution #") _ found) (
        rw (int_field-of_int row 0 x.id s refl n.0) (
          rw (int_field-of_int row 1 x.uid s refl n.1.0) (
            rw (int_field-of_int row 2 x.tid s refl n.1.1.0) (
              rw (int_field-of_int row 3 x.lid s refl n.1.1.1.0) (
                rw (int_field-of_int row 4 x.created_at s refl n.1.1.1.1.0) (
                  rw (int_field-of_int row 5 x.status s refl n.1.1.1.1.1.0)
                    (rw (int_field-of_int row 6 x.score s refl n.1.1.1.1.1.1.0))))))))

  -- Where the tables hold a solution, with the task and the language that its row names, the groups
  -- of the task and their tests, and the tests that the solution has passed, each listed by its
  -- ids, the constructor loads exactly that solution and leaves the system as it was.
  pub new_solution-HoldsSolution :
      (x : Solution) → HoldsSolution x → new_solution D x.id s ≡ (ok x, s)
  unfolding test_ids resume
  new_solution-HoldsSolution x h = rw (new_solution-columns x h.row h.numbers) (
      rw (task_of x h) (
        rw (lang_of x h) (
          rw (ids_of-Lists D s (map test_key x.tsts) h.listed) (
            rw (
              map_action-map D s (new_test D) test_key x.tsts
                (new_test-All x.tsts h.tests_held))))))

  -- Where the row of a solution is found, and its task has no row, an exception with the task's id
  -- is thrown.
  pub new_solution-no_task :
      (x : Solution)
      → Finds D s solution_sql x.id (solution_row x)
      → Numbers x
      → Selects D s (task_sql ++ of_int x.tid) []
      → new_solution D x.id s ≡ (thrown (lit "task #" ++ (of_int x.tid ++ lit " not exist")), s)
  unfolding resume
  new_solution-no_task x found n missing =
      rw (new_solution-columns x found n) (rw (new_task-missing D s x.tid missing))

  -- Where the row of a solution is found, with its task and language, and the first test that it
  -- has passed has no row, an exception with the test's id is thrown.
  pub new_solution-no_test :
      (x : Solution) (id : ℤ) (ids : List ℤ)
      → Finds D s solution_sql x.id (solution_row x)
      → Numbers x
      → new_task D x.tid s ≡ (ok x.pt, s)
      → new_lang D x.lid s ≡ (ok x.pl, s)
      → Lists D s (lit "select id from tests where sid = " ++ of_int x.id) (id ∷ ids)
      → Selects D s (test_sql ++ of_int id) []
      → new_solution D x.id s ≡ (thrown (lit "test #" ++ (of_int id ++ lit " not exist")), s)
  unfolding test_ids map_action resume
  new_solution-no_test x id ids found n task lang listed missing =
      rw (new_solution-columns x found n) (
        rw task (
          rw lang (rw (ids_of-Lists D s (id ∷ ids) listed) (rw (new_test-missing D s id missing)))))

  -- Where no row of a solution has the id, an exception with the id is thrown.
  pub new_solution-missing :
      (id : ℤ)
      → Selects D s (solution_sql ++ of_int id) []
      → new_solution D id s ≡ (thrown (lit "solution #" ++ (of_int id ++ lit " not exist")), s)
  unfolding new_solution
  new_solution-missing id h = load-missing D s solution_sql id (lit "solution #") _ h
