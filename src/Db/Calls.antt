-- ===== src/Db/Calls.antt =====
-- src/server/db/db.cc: `MySQL::update` and `MySQL::query`, and the shape in which the model classes
-- call them: compose the text in `char sql[1024]`, take a connection, send.
pub mod Effects
pub mod Brackets
use chat_server_c.Base.{
  ℕ, List, Option, none, some, [], map, Bool, false, not, ltb, length, if◌then◌else◌,
}
use chat_server_c.Base.Bytes.{Bytes}
use chat_server_c.Base.Outcome.{Outcome, done, overflow, Action, pure, raise, ◌>>=◌, ◌>>◌}
use chat_server_c.Db.Statement.{sql_size}
use chat_server_c.Db.Backend.{Backend}
use chat_server_c.Db.Tables.{Row}

-- `sprintf` into a buffer of `size` bytes: the text and its NUL have to fit.
unfoldable pub sprintf : {S : Type 0} → ℕ → Bytes → Action S Bytes
sprintf size text = if ltb (length text) size then pure text else raise overflow

module _ ⦃B : Backend⦄ where
  open B use {State, acquire, release, mysql_query, mysql_use_result}

  -- `bool MySQL::update(string sql)`
  pub update : Bytes → Action State Bool
  update sql st = let (failed, st') = mysql_query sql st in (done (not failed), st')

  -- `MYSQL_RES *MySQL::query(string sql)`; the rows are those that `mysql_fetch_row` then gives.
  pub query : Bytes → Action State (Option (List Row))
  query sql st =
      let (failed, st') = mysql_query sql st in
      (done (if failed then none else mysql_use_result st'), st')

  release_after : {A : Type 0} → Outcome A × State → Outcome A × State
  release_after (o, st) = (o, release st)

  -- `auto mysql = …getConnection(); if (mysql) { body } return otherwise;` The connection goes back
  -- when `mysql` goes out of scope.
  pub with_connection : {A : Type 0} → A → Action State A → Action State A
  unfolding release_after
  with_connection otherwise body st =
      let (connected, st') = acquire st in
      if connected then release_after (body st') else (done otherwise, st')

  -- An update of which only the success is asked.
  unfoldable pub run_update : Bytes → Action State Bool
  run_update text = do sql ← sprintf sql_size text; with_connection false (update sql)

  -- An update whose success nobody asks: `if (mysql->update(sql)) { }`.
  unfoldable pub send_update : Bytes → Action State (Unit {0})
  unfolding run_update
  send_update text = do run_update text; pure tt

  -- `if (res != nullptr) while ((row = mysql_fetch_row(res)) != nullptr) vec.push_back(f(row));`
  pub read_rows : {A : Type 0} → (Row → A) → Option (List Row) → Action State (List A)
  read_rows f none = pure []
  read_rows f (some rows) = pure (map f rows)

  -- A query whose rows become the entries of a vector, which is empty where there is no connection.
  unfoldable pub query_rows : {A : Type 0} → (Row → A) → Bytes → Action State (List A)
  unfolding read_rows
  query_rows f text = do
    sql ← sprintf sql_size text
    with_connection [] do res ← query sql; read_rows f res
