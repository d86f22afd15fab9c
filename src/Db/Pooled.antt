-- ===== src/Db/Pooled.antt =====
-- The pool and the MySQL server together, as the model classes find them: `getConnection`, the
-- deleter of its pointer, and the calls on the connection.
pub mod Balance
use chat_server_c.Base.Outcome.{done}
use chat_server_c.Db.Pool.{
  scan_connections, produce_connection, give_back, get_connection, Pool, Config,
}
use chat_server_c.Db.Backend.{Backend}
use chat_server_c.Base.{refl, ◌≡◌, List, Bool, ℕ, Option, [], ◌∷◌, none, some, true, false}

abbrev is_given : Option ℕ → Bool
is_given none = false
is_given (some c) = true

-- The last connection that was taken goes back: a method of the model classes takes one at a time.
abbrev give_last : ℕ → List ℕ → Pool → Pool
give_last now [] p = p
give_last now (c ∷ _) p = give_back c now p

module _ (B : Backend) (others : B.State → Pool → Pool) (now : B.State → ℕ) where
  pub record Shared : Type 0 where
    pub pool : Pool
    pub server : B.State

  -- `others` is what the pool has become behind the wait, `now` the time at which a connection goes
  -- back.
  abbrev pub pooled : Backend
  pooled = record {
    State = Shared;
    tables = λ st. B.tables st.server;
    acquire = λ st.
        let (c, p) = get_connection (others st.server st.pool) in
        (is_given c, record { pool = p; server = st.server });
    release =
        λ st. record { pool = give_last (now st.server) st.pool.lent st.pool; server = st.server };
    mysql_query = λ text st.
        let (failed, server) = B.mysql_query text st.server in
        (failed, record { pool = st.pool; server = server });
    mysql_use_result = λ st. B.mysql_use_result st.server;
    mysql_insert_id = λ st. B.mysql_insert_id st.server;
    tables-acquire = λ st. refl;
    tables-release = λ st. refl;
    query_succeeds = λ s st clean ok. B.query_succeeds s st.server clean ok;
    query_fails = λ s st clean failed. B.query_fails s st.server clean failed;
    result_rows = λ s st rows clean e. B.result_rows s st.server rows clean e;
    insert_id_new = λ s st n clean ok e. B.insert_id_new s st.server n clean ok e;
  }
