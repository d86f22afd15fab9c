-- ===== src/Service/Mailbox.antt =====
-- What the server promises a user: who is in gets each message at once, and who is out finds all of
-- them at the next login. The account is what is promised; `Refines` says when a server keeps it.
pub mod Apart
pub mod Frame
pub mod Owners
pub mod Keeping
pub mod Departures
pub mod Simulation
pub mod Traces
pub mod Sequences
use chat_server_c.Model.OfflineMsgModel.Effects.{waiting}
use chat_server_c.Service.Session.Welcome.{GroupsFit}
use chat_server_c.Service.Session.Login.{twice}
use chat_server_c.Model.UserModel.Effects.{users_with}
use chat_server_c.Service.Chat.Routing.{offline_reply}
use chat_server_c.Db.Tables.{Tables}
use chat_server_c.Db.Statement.{IsPlain}
use chat_server_c.Service.Chat.{one_chat}
use chat_server_c.Base.Assoc.{find, Assoc}
use chat_server_c.Service.Session.{
  logout_json, login_json, loginout, login, client_close_exception, Run,
}
use chat_server_c.Protocol.{Group, online, User}
use chat_server_c.Base.Bytes.{codes, Bytes}
use chat_server_c.Db.Backend.{Backend}
use chat_server_c.Base.Int.{minus_one, pos, ℤ}
use chat_server_c.Service.World.{unsubscribed, subscribed, sent, World, Conn}
use chat_server_c.Json.{str, int, JsonLib}
use chat_server_c.Base.{
  true, false, Bool, ◌==◌, if◌then◌else◌, ◌≢◌, Perm, ◌≤◌, length, ◌++◌, List, [], ◌∷◌, ◌≡◌, none,
  some,
}

-- In, with a connection, or out, with the messages that wait.
pub data Account : Type 0 where
  is_in : Conn → Account
  is_out : List Bytes → Account

-- What may happen to the user: a message to him, a login or a logout, each on a connection, or the
-- loss of one of his connections.
pub data Act (J : JsonLib) : Type 0 where
  chats enters leaves : Conn → J.Json → Act J
  drops : Conn → Act J

module _ ⦃J : JsonLib⦄ where
  open J use {Json, get, dump}

  -- The connection that is lost is his entry's or another.
  abbrev pub dropped : Bool → Conn → Account
  dropped true peer = is_out []
  dropped false peer = is_in peer

  abbrev pub after : Act J → Account → Account
  after (chats conn js) (is_in peer) = is_in peer
  after (chats conn js) (is_out ms) = is_out (ms ++ dump js ∷ [])
  after (enters conn js) (is_in peer) = is_in peer
  after (enters conn js) (is_out ms) = is_in conn
  after (leaves conn js) (is_in peer) = is_out []
  after (leaves conn js) (is_out ms) = is_out ms
  after (drops conn) (is_in peer) = dropped (peer == conn) peer
  after (drops conn) (is_out ms) = is_out ms

  -- The messages that are for him.
  abbrev pub addressed : Act J → List Bytes
  addressed (chats conn js) = dump js ∷ []
  addressed _ = []

  abbrev pub kept : Account → List Bytes
  kept (is_in peer) = []
  kept (is_out ms) = ms

  -- The requests are about the user with this id and password, his messages need no escaping and
  -- fit the statement that stores them, and the connections that he logs in on, and loses, are his.
  abbrev pub IsAbout : (Conn → ℤ) → ℤ → Bytes → Act J → Type 0
  IsAbout owner id pwd (chats conn js) =
      (get js "toid" ≡ some (int id)) × IsPlain (dump js) × (length (dump js) ≤ 973)
  IsAbout owner id pwd (enters conn js) =
      (get js "id" ≡ some (int id)) × (get js "password" ≡ some (str pwd)) × (owner conn ≡ id)
  IsAbout owner id pwd (leaves conn js) = get js "id" ≡ some (int id)
  IsAbout owner id pwd (drops conn) = (owner conn ≡ id) × (id ≢ minus_one)

  module _ ⦃B : Backend⦄ where
    open B use {State, tables}

    abbrev pub perform : Act J → Run
    perform (chats conn js) = one_chat conn js
    perform (enters conn js) = login conn js
    perform (leaves conn js) = loginout conn js
    perform (drops conn) = client_close_exception conn

    -- By where the user is: his entry in `_userConnMap`, the state in his row, and what is stored
    -- for him.
    abbrev pub FitsPlace : ℤ → Account → User → Assoc Conn → Tables → Type 0
    FitsPlace id (is_in peer) u conns t =
        (find id conns ≡ some peer) × (u.state ≡ online) × (waiting id t ≡ [])
    FitsPlace id (is_out ms) u conns t =
        (find id conns ≡ none) × (u.state ≢ online) × Perm (waiting id t) ms

    -- The user has one row, with the password, and groups whose ids fit the statements.
    pub record Refines (id : ℤ) (pwd : Bytes) (a : Account) (conns : Assoc Conn) (t : Tables)
        : Type 0 where
      pub user : User
      pub row : users_with id t ≡ user ∷ []
      pub same_password : user.password ≡ pwd
      pub place : FitsPlace id a user conns t
      pub fit : GroupsFit id t

    -- What goes out.
    abbrev pub Shows : ℤ → Act J → Account → World State → World State → Type 0
    Shows id (chats conn js) (is_in peer) w w' = w'.out ≡ w.out ++ sent peer (dump js) ∷ []
    Shows id (chats conn js) (is_out ms) w w' =
        w'.out ≡ w.out ++ sent conn (dump (offline_reply js id)) ∷ []
    Shows id (enters conn js) (is_in peer) w w' =
        w'.out ≡ w.out ++ sent conn (dump twice) ∷ sent conn (codes "\n") ∷ []
    Shows id (enters conn js) (is_out ms) w w' =
        (u : User) × (ms' : List Bytes) × (fs : List User) × (gs : List Group) × Perm ms' ms
        × (w'.out ≡ w.out ++ subscribed id ∷ sent conn (dump (login_json u ms' fs gs)) ∷ [])
    Shows id (leaves conn js) (is_in peer) w w' =
        w'.out
        ≡ w.out
          ++ unsubscribed id
            ∷ sent conn (dump (logout_json js "offline success! welcome next time." (pos 0)))
            ∷ []
    Shows id (leaves conn js) (is_out ms) w w' =
        w'.out
        ≡ w.out ++ sent conn (dump (logout_json js "offline fail! please retry." (pos 1))) ∷ []
    Shows id (drops conn) (is_in peer) w w' =
        w'.out ≡ w.out ++ unsubscribed (if peer == conn then id else minus_one) ∷ []
    Shows id (drops conn) (is_out ms) w w' = w'.out ≡ w.out ++ unsubscribed minus_one ∷ []
