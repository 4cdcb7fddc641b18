-- ===== src/Contester/Data.antt =====
-- contester/src/data.h and data.cpp: the rows of the tables as records, and their constructors, which
-- read them from the database.
pub mod Fields
pub mod Stored
use checker_olimp.Base.{ℕ, zero, suc, Option, none, some, List, [], ◌∷◌, ◌++◌, get_elem?}
use checker_olimp.Base.Int.{ℤ}
use checker_olimp.Text.{Text, lit}
use checker_olimp.Text.Decimal.{of_int}
use checker_olimp.Effect.{Action, pure, throw, value_of, ◌>>=◌, ◌>>◌}
use checker_olimp.Contester.Numbers.{stoi, to_int, to_unsigned}
use checker_olimp.Contester.Database.{MySql, Row, q}

pub record Lang : Type 0 where
  pub id : ℤ
  pub name : Text
  pub compiler : Text
  pub extension : Text
  pub identifier : Text

-- `struct test`, a test that a solution has passed through.
pub record Test : Type 0 where
  pub id : ℤ
  pub sid : ℤ
  pub num : ℤ
  pub res : ℤ
  pub cid : ℤ

pub record ChTest : Type 0 where
  pub id : ℤ
  pub gid : ℤ
  pub scores : ℤ
  pub input : Text
  pub output : Text

pub record ChGroup : Type 0 where
  pub chts : List ChTest
  pub id : ℤ
  pub tid : ℤ
  pub method : ℤ
  pub scores : ℤ
  pub name : Text

pub record Task : Type 0 where
  pub chgs : List ChGroup
  pub id : ℤ
  pub cid : ℤ
  pub time_limit : ℕ
  pub memory_limit : ℕ
  pub title : Text
  pub content : Text
  pub input : Text
  pub output : Text
  pub checker : Text

-- A call for each element, and the list of what they give.
unfoldable pub map_action : {W A B : Type 0} → (A → Action W B) → List A → Action W (List B)
map_action f [] = pure []
map_action f (x ∷ xs) = do y ← f x; ys ← map_action f xs; pure (y ∷ ys)

module _ {W : Type 0} where
  -- A field of a row, as it is, as an `int` and as an `unsigned long long`. A missing one is an index
  -- out of range.
  unfoldable pub text_field : Row → ℕ → Action W Text
  text_field row i = value_of (get_elem? row i)

  unfoldable pub int_field : Row → ℕ → Action W ℤ
  unfolding text_field
  int_field row i = do text ← text_field row i; z ← stoi text; pure (to_int z)

  unfoldable pub unsigned_field : Row → ℕ → Action W ℕ
  unfolding text_field
  unsigned_field row i = do text ← text_field row i; z ← stoi text; pure (to_unsigned z)

module _ {W : Type 0} (D : MySql W) where
  -- What the constructors do alike: the first row is taken, and without one an exception is thrown.
  unfoldable pub load : {A : Type 0} → Text → Text → ℤ → (Row → Action W A) → Action W A
  load sql what id read = do
    rows ← q D (sql ++ of_int id)
    elim rows [ [] ↦ throw (what ++ (of_int id ++ lit " not exist")) | row ∷ _ ↦ read row ]

  -- `get_ids` of the tables, and `solution::get_not_checked_ids`.
  unfoldable pub ids_of : Text → Action W (List ℤ)
  unfolding int_field
  ids_of sql = do rows ← q D sql; map_action (λ row. int_field row 0) rows

  unfoldable pub new_lang : ℤ → Action W Lang
  unfolding load
  new_lang id =
      load (lit "SELECT id, name, compiler, extension, identifier FROM langs WHERE id = ")
        (lit "lang #") id
        λ r. do
          id ← int_field r 0
          name ← text_field r 1
          compiler ← text_field r 2
          extension ← text_field r 3
          identifier ← text_field r 4
          pure (record {
            id = id;
            name = name;
            compiler = compiler;
            extension = extension;
            identifier = identifier;
          })

  unfoldable pub new_test : ℤ → Action W Test
  unfolding load
  new_test id =
      load (lit "SELECT id, sid, num, res, cid FROM tests WHERE id = ") (lit "test #") id λ r. do
        id ← int_field r 0
        sid ← int_field r 1
        num ← int_field r 2
        res ← int_field r 3
        cid ← int_field r 4
        pure (record { id = id; sid = sid; num = num; res = res; cid = cid })

  unfoldable pub test_ids : ℤ → Action W (List ℤ)
  unfolding ids_of
  test_ids sid = ids_of (lit "select id from tests where sid = " ++ of_int sid)

  unfoldable pub new_ch_test : ℤ → Action W ChTest
  unfolding load
  new_ch_test id =
      load (lit "SELECT id, gid, scores, input, output FROM checkertests WHERE id = ")
        (lit "checker group #") id
        λ r. do
          id ← int_field r 0
          gid ← int_field r 1
          scores ← int_field r 2
          input ← text_field r 3
          output ← text_field r 4
          pure (record { id = id; gid = gid; scores = scores; input = input; output = output })

  unfoldable pub ch_test_ids : ℤ → Action W (List ℤ)
  unfolding ids_of
  ch_test_ids gid = ids_of (lit "select id from checkertests where gid = " ++ of_int gid)

  unfoldable pub new_ch_group : ℤ → Action W ChGroup
  unfolding load
  new_ch_group group_id =
      load (lit "SELECT id, tid, method, scores, name FROM checkergroups WHERE id = ")
        (lit "checker group #") group_id
        λ r. do
          id ← int_field r 0
          tid ← int_field r 1
          method ← int_field r 2
          scores ← int_field r 3
          name ← text_field r 4
          inds ← ch_test_ids group_id
          chts ← map_action new_ch_test inds
          pure (record {
            chts = chts;
            id = id;
            tid = tid;
            method = method;
            scores = scores;
            name = name;
          })

  unfoldable pub ch_group_ids : ℤ → Action W (List ℤ)
  unfolding ids_of
  ch_group_ids sid = ids_of (lit "select id from checkergroups where tid = " ++ of_int sid)

  unfoldable pub new_task : ℤ → Action W Task
  unfolding load
  new_task task_id =
      load
        (lit
          "SELECT id, cid, time_limit, memory_limit, title, content, input, output, checker FROM tasks WHERE id = ")
        (lit "task #") task_id
        λ r. do
          id ← int_field r 0
          cid ← int_field r 1
          time_limit ← unsigned_field r 2
          memory_limit ← unsigned_field r 3
          title ← text_field r 4
          content ← text_field r 5
          input ← text_field r 6
          output ← text_field r 7
          checker ← text_field r 8
          inds ← ch_group_ids task_id
          chgs ← map_action new_ch_group inds
          pure (record {
            chgs = chgs;
            id = id;
            cid = cid;
            time_limit = time_limit;
            memory_limit = memory_limit;
            title = title;
            content = content;
            input = input;
            output = output;
            checker = checker;
          })
