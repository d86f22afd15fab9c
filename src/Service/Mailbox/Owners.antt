-- ===== src/Service/Mailbox/Owners.antt =====
-- The connections of a user's entries stay his own.
use chat_server_c.Service.Mailbox.Frame.{Frame}
use chat_server_c.Service.Mailbox.{drops, dropped}
use chat_server_c.Service.Mailbox.Apart.{IsApart, find-owner}
use chat_server_c.Protocol.{User}
use chat_server_c.Base.Assoc.{find}
use chat_server_c.Base.{◌==◌, some}
use chat_server_c.Db.Tables.{Tables}
use chat_server_c.Service.World.{Conn, World}
use chat_server_c.Base.Assoc.{Assoc}
use chat_server_c.Base.Bytes.{Bytes}
use chat_server_c.Service.Mailbox.{
  leaves, enters, is_out, FitsPlace, chats, after, is_in, Refines, IsAbout, Account, Act,
}
use chat_server_c.Db.Backend.{Backend}
use chat_server_c.Base.Int.{ℤ}
use chat_server_c.Json.{JsonLib}
use chat_server_c.Base.{subst, ◌∙◌, sym, Bool, true, false, ◌≡◌}

module _ ⦃J : JsonLib⦄ ⦃B : Backend⦄ where
  open B use {State, tables}

  module _ (owner : Conn → ℤ) (id : ℤ) (pwd : Bytes) where
    -- The entry, if there is one, has a connection of the user.
    abbrev IsOwned : Account → Type 0
    IsOwned (is_in peer) = owner peer ≡ id
    IsOwned (is_out ms) = Unit {0}

    dropped-IsOwned : (b : Bool) (peer : Conn) → owner peer ≡ id → IsOwned (dropped b peer)
    dropped-IsOwned true peer h = tt
    dropped-IsOwned false peer h = h

    after-IsOwned :
        (act : Act J) (a : Account) → IsAbout owner id pwd act → IsOwned a → IsOwned (after act a)
    after-IsOwned (chats conn js) (is_in peer) h own = own
    after-IsOwned (chats conn js) (is_out ms) h own = tt
    after-IsOwned (enters conn js) (is_in peer) h own = own
    after-IsOwned (enters conn js) (is_out ms) h own = h.2
    after-IsOwned (leaves conn js) (is_in peer) h own = tt
    after-IsOwned (leaves conn js) (is_out ms) h own = tt
    after-IsOwned (drops conn) (is_in peer) h own = dropped-IsOwned (peer == conn) peer own
    after-IsOwned (drops conn) (is_out ms) h own = tt

    place-IsOwned :
        (a : Account) (u : User) (conns : Assoc Conn) (t : Tables)
        → FitsPlace id a u conns t
        → IsApart owner conns
        → IsOwned a
    place-IsOwned (is_in peer) u conns t h apart = find-owner owner id peer conns apart.0 h.0
    place-IsOwned (is_out ms) u conns t h apart = tt

    IsOwned-found :
        (a : Account) (u : User) (conns : Assoc Conn) (t : Tables) (c : Conn)
        → FitsPlace id a u conns t
        → IsOwned a
        → find id conns ≡ some c
        → owner c ≡ id
    IsOwned-found (is_in peer) u conns t c h own e =
        let same : some peer ≡ some c = sym h.0 ∙ e in subst (λ x. owner x ≡ id) (cc same) own
    IsOwned-found (is_out ms) u conns t c h own e = cc (h.0, e)

    pub Frame-IsApart :
        (act : Act J) (a : Account) (w w' : World State)
        → IsAbout owner id pwd act
        → Refines id pwd a w.conns (tables w.store)
        → Refines id pwd (after act a) w'.conns (tables w'.store)
        → Frame id w.conns (tables w.store) w'.conns (tables w'.store)
        → IsApart owner w.conns
        → IsApart owner w'.conns
    Frame-IsApart act a w w' about r r' f apart =
        f.still_apart owner
          (λ c. IsOwned-found (after act a) r'.user w'.conns (tables w'.store) c r'.place (
            after-IsOwned act a about
              (place-IsOwned a r.user w.conns (tables w.store) r.place apart)))
          apart
