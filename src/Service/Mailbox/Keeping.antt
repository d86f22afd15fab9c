-- ===== src/Service/Mailbox/Keeping.antt =====
-- A user whose account the server keeps, and one act of his.
use chat_server_c.Service.Mailbox.Frame.{Frame}
use chat_server_c.Service.Effects.{Became}
use chat_server_c.Db.Tables.{Tables}
use chat_server_c.Base.Assoc.{Assoc}
use chat_server_c.Service.World.{Event, World, Conn}
use chat_server_c.Service.Mailbox.{after, Shows, Refines, Act, Account}
use chat_server_c.Base.Bytes.{Bytes}
use chat_server_c.Base.Int.{ℤ}
use chat_server_c.Db.Backend.{Backend}
use chat_server_c.Json.{JsonLib}
use chat_server_c.Base.{sym, subst, List}

module _ ⦃J : JsonLib⦄ ⦃B : Backend⦄ (owner : Conn → ℤ) (id : ℤ) (pwd : Bytes) where
  open J use {Json, get, dump}
  open B use {State, tables}

  abbrev pub KeepsTo : Account → World State → Type 0
  KeepsTo a w = Refines id pwd a w.conns (tables w.store)

  pub Became-Refines :
      (a : Account) (conns : Assoc Conn) (t : Tables) (out : List Event) (w' : World State)
      → Refines id pwd a conns t
      → Became conns t out w'
      → KeepsTo a w'
  Became-Refines a conns t out w' r b =
      subst (λ c. Refines id pwd a c (tables w'.store)) (sym b.conns_now)
        (subst (λ s. Refines id pwd a conns s) (sym b.tables_now) r)

  pub Became-Frame :
      (w : World State) (conns : Assoc Conn) (t : Tables) (out : List Event) (w' : World State)
      → Frame id w.conns (tables w.store) conns t
      → Became conns t out w'
      → Frame id w.conns (tables w.store) w'.conns (tables w'.store)
  Became-Frame w conns t out w' f b =
      subst (λ c. Frame id w.conns (tables w.store) c (tables w'.store)) (sym b.conns_now)
        (subst (λ s. Frame id w.conns (tables w.store) conns s) (sym b.tables_now) f)

  -- The account is as it should be, what went out too, and nobody else is concerned.
  abbrev pub Done : Act J → Account → World State → World State → Type 0
  Done act a w w' =
      KeepsTo (after act a) w'
      × Shows id act a w w'
      × Frame id w.conns (tables w.store) w'.conns (tables w'.store)
