-- ===== src/Service/Effects.antt =====
-- The state of `ChatService` behind a handler: connections, tables, and what went out.
use chat_server_c.Base.{List, ◌++◌, ◌≡◌}
use chat_server_c.Base.Assoc.{Assoc}
use chat_server_c.Db.Tables.{Tables}
use chat_server_c.Db.Backend.{Backend}
use chat_server_c.Service.World.{Conn, Event, World}

module _ ⦃B : Backend⦄ where
  open B use {State, tables}

  pub record Became (conns : Assoc Conn) (t : Tables) (out : List Event) (w' : World State)
      : Type 0 where
    pub conns_now : w'.conns ≡ conns
    pub tables_now : tables w'.store ≡ t
    pub out_now : w'.out ≡ out

  -- The tables are `t`, the events `es` went out, and the connections are as they were.
  abbrev pub After : World State → Tables → List Event → World State → Type 0
  After w t es w' = Became w.conns t (w.out ++ es) w'
