-- ===== src/Db/Backend.antt =====
-- The connection pool and the MySQL server as the model classes see them, and what MySQL documents
-- of them. A call may fail at any time: the pool's wait may time out, a statement may be refused.
use chat_server_c.Base.{ℕ, ◌≡◌, ◌≢◌, List, Perm, Option, none, some, Bool, true, false}
use chat_server_c.Base.Bytes.{Bytes}
use chat_server_c.Db.Statement.{Statement, render, IsClean}
use chat_server_c.Db.Tables.{Tables, Row, apply, select, new_key, is_query}

pub record Backend : Type 1 where
  pub State : Type 0
  pub tables : State → Tables
  -- `CommonConnectionPool::getConnection`, `false` for a null pointer, and the pointer's deleter
  pub acquire : State → Bool × State
  pub release : State → State
  -- `mysql_query`, `true` where it fails, and the calls that ask about the last statement
  pub mysql_query : Bytes → State → Bool × State
  pub mysql_use_result : State → Option (List Row)
  pub mysql_insert_id : State → ℕ
  pub tables-acquire : (st : State) → tables (acquire st).1 ≡ tables st
  pub tables-release : (st : State) → tables (release st) ≡ tables st
  pub query_succeeds :
      (s : Statement) (st : State)
      → IsClean s
      → (mysql_query (render s) st).0 ≡ false
      → tables (mysql_query (render s) st).1 ≡ apply s (tables st)
  pub query_fails :
      (s : Statement) (st : State)
      → IsClean s
      → (mysql_query (render s) st).0 ≡ true
      → tables (mysql_query (render s) st).1 ≡ tables st
  -- The rows come in no particular order.
  pub result_rows :
      (s : Statement) (st : State) (rows : List Row)
      → IsClean s
      → mysql_use_result (mysql_query (render s) st).1 ≡ some rows
      → Perm rows (select s (tables st))
  pub insert_id_new :
      (s : Statement) (st : State) (n : ℕ)
      → IsClean s
      → (mysql_query (render s) st).0 ≡ false
      → new_key s (tables st) ≡ some n
      → mysql_insert_id (mysql_query (render s) st).1 ≡ n

-- Nothing fails: every wait ends with a connection, and no clean statement is refused.
pub record IsHealthy (B : Backend) : Type 0 where
  pub connects : (st : B.State) → (B.acquire st).0 ≡ true
  pub accepts : (s : Statement) (st : B.State) → IsClean s → (B.mysql_query (render s) st).0 ≡ false
  pub answers :
      (s : Statement) (st : B.State)
      → IsClean s
      → is_query s ≡ true
      → B.mysql_use_result (B.mysql_query (render s) st).1 ≢ none
