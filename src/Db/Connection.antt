-- ===== src/Db/Connection.antt =====
-- db.cc and db.h: a connection to MySQL, and how the constructor of the pool in dbpool.cc makes them.
-- The client library of MySQL is a parameter.
use chat_server_c.Base.{
  ap, append-nil, append_assoc, if◌then◌else◌, map, sym, zero, suc, Bool, List, Option, none, some,
  true, false, ℕ, [], ◌++◌, ◌-◌, ◌≡◌, ◌∙◌, ◌∷◌,
}
use chat_server_c.Base.Bytes.{Bytes, c_str, codes}
use chat_server_c.Db.Pool.{Pool, add_connection, fill}
use mathlib.Core.List.{map-append}

-- What `mysql_real_connect` is called with.
pub record Address : Type 0 where
  pub ip : Bytes
  pub port : ℕ
  pub user : Bytes
  pub password : Bytes
  pub dbname : Bytes

-- The server may answer anything at any time.
pub record MysqlClient : Type 1 where
  pub Handle : Type 0
  pub State : Type 0
  -- `none` for a null pointer
  pub mysql_init : State → Option Handle × State
  -- whether the result is not null
  pub mysql_real_connect : Option Handle → Address → State → Bool × State
  -- whether the result is not 0
  pub mysql_query : Option Handle → Bytes → State → Bool × State
  pub mysql_close : Handle → State → State

module _ ⦃C : MysqlClient⦄ where
  open C use {Handle, State, mysql_init, mysql_real_connect, mysql_query, mysql_close}

  pub record Mysql : Type 0 where
    pub conn : Option Handle
    pub alivetime : ℕ

  -- `MySQL()`; `_alivetime` has no value before `refreshAliveTime`.
  abbrev pub new_mysql : ℕ → State → Mysql × State
  new_mysql junk st =
      let (conn, st') = mysql_init st in (record { conn = conn; alivetime = junk }, st')

  -- `~MySQL()`
  pub delete_mysql : Mysql → State → State
  delete_mysql p st = close p.conn
    where
      close : Option Handle → State
      close none = st
      close (some h) = mysql_close h st

  -- Whether the character set is taken is not asked.
  pub connect : Mysql → Address → State → Bool × State
  connect p a st =
      let (there, st1) =
        mysql_real_connect p.conn
          (record {
            ip = c_str a.ip;
            port = a.port;
            user = c_str a.user;
            password = c_str a.password;
            dbname = c_str a.dbname;
          })
          st in
      if there then (true, (mysql_query p.conn (codes "set names gbk") st1).1) else (false, st1)

  -- `_alivetime = clock()`
  abbrev pub refresh_alive_time : ℕ → Mysql → Mysql
  refresh_alive_time now p = record p { alivetime = now }

  -- `clock() - _alivetime`, where the clock has not gone back
  abbrev pub get_alive_time : ℕ → Mysql → ℕ
  get_alive_time now p = now - p.alivetime

  -- The `for` of the constructor of the pool: what is pushed, in order. The flag of `connect` is only
  -- logged.
  pub open_connections : ℕ → ℕ → ℕ → Address → State → List Mysql × State
  open_connections zero now junk a st = ([], st)
  open_connections (suc n) now junk a st =
      let (p, st1) = new_mysql junk st in
      let (_, st2) = connect p a st1 in
      let (ps, st3) = open_connections n now junk a st2 in (refresh_alive_time now p ∷ ps, st3)

  -- Whatever the server answers, the queue of the pool gets an object for each round, with the time.
  pub fill-open_connections :
      (n now junk : ℕ) (a : Address) (st : State) (p : Pool)
      → map (λ c. c.since) (fill n now p).queue
        ≡ map (λ c. c.since) p.queue ++ map (λ m. m.alivetime) (open_connections n now junk a st).0
  unfolding open_connections
  fill-open_connections zero now junk a st p = sym (append-nil (map (λ c. c.since) p.queue))
  fill-open_connections (suc n) now junk a st p =
      let (m, st1) = new_mysql junk st in
      let st2 = (connect m a st1).1 in
      let ps = (open_connections n now junk a st2).0 in
      fill-open_connections n now junk a st2 (add_connection now p)
      ∙ ap (λ l. l ++ map (λ m. m.alivetime) ps)
          (map-append (λ c. c.since) p.queue (record { conn = p.made; since = now } ∷ []))
      ∙ append_assoc (map (λ c. c.since) p.queue) (now ∷ []) (map (λ m. m.alivetime) ps)
