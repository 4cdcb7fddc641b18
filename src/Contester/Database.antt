-- ===== src/Contester/Database.antt =====
-- contester/src/data.h and data.cpp: `db`, over the calls of the MySQL library.
use checker_olimp.Base.{ℕ, Bool, Option, none, some, List, [], map, if◌then◌else◌}
use checker_olimp.Text.{Text, c_str}
use checker_olimp.Effect.{Action, pure, throw, query, call, effect, value_of, ◌>>=◌, ◌>>◌}

-- The calls of the MySQL library, which is no code of the repository.
pub record MySql (W : Type 0) : Type 0 where
  -- `mysql_init` and `mysql_real_connect`, with the host, the user, the password, the database and
  -- the port: whether it gives a connection.
  pub connect : Text → Text → Text → Text → ℕ → W → Bool × W
  -- `mysql_query`: whether it gives 0.
  pub query : Text → W → Bool × W
  -- `mysql_error`
  pub error : W → Text
  -- `mysql_store_result` and all its rows by `mysql_fetch_row`, each with the fields that
  -- `mysql_num_fields` says, where `none` is a null value; `none` for a null result.
  pub store_result : W → Option (List (List (Option Text))) × W
  -- `mysql_close`
  pub close : W → W

-- The static members.
pub record Db : Type 0 where
  pub host : Text
  pub user : Text
  pub passwd : Text
  pub dbname : Text
  pub port : ℕ

abbrev pub init : Text → Text → Text → Text → ℕ → Db
init host user passwd dbname port = record {
  host = host;
  user = user;
  passwd = passwd;
  dbname = dbname;
  port = port;
}

abbrev pub Row : Type 0
Row = List Text

-- A null value is read as the empty text.
abbrev pub field_text : Option Text → Text
field_text none = []
field_text (some text) = c_str text

module _ {W : Type 0} (D : MySql W) where
  unfoldable pub connect : Db → Action W (Unit {0})
  connect db = do
    connected ←
        call (D.connect (c_str db.host) (c_str db.user) (c_str db.passwd) (c_str db.dbname) db.port)
    if connected then pure tt else (do message ← query D.error; throw (c_str message))

  unfoldable pub close : Action W (Unit {0})
  close = effect D.close

  unfoldable pub exec : Text → Action W (Unit {0})
  exec sql = do
    done ← call (D.query (c_str sql))
    if done then pure tt else (do message ← query D.error; throw (c_str message))

  unfoldable pub q : Text → Action W (List Row)
  unfolding exec
  q sql = do
    exec sql
    result ← call D.store_result
    rows ← value_of result
    pure (map (map field_text) rows)
