-- ===== src/Service/Session.antt =====
-- chatservice.cc: registration, login, logout, a lost connection, and the reset on SIGINT.
pub mod Login
pub mod Welcome
pub mod Leaving
pub mod Register
pub mod Delivery
pub mod Racing
pub mod Restart
use chat_server_c.Base.{
  String, List, [], ◌∷◌, map, Option, none, some, Bool, true, false, not, ◌&&◌, ◌==◌, if◌then◌else◌,
}
use chat_server_c.Base.Int.{ℤ, pos, minus_one, int_eq}
use chat_server_c.Base.Bytes.{Bytes, codes, bytes_eq}
use chat_server_c.Base.Assoc.{Assoc, find, insert, erase}
use chat_server_c.Base.Outcome.{Action, json_error, pure, or_raise, gets, modify, ◌>>=◌, ◌>>◌}
use chat_server_c.Protocol.{
  User, GroupUser, Group, default_user, online, offline, msg_code, login_msg_ack, reg_msg_ack,
  loginout_msg,
}
use chat_server_c.Json.{JsonLib, Value, int, str, strs, get_int, get_str}
use chat_server_c.Db.Backend.{Backend}
use chat_server_c.Model.UserModel
use chat_server_c.Model.FriendModel
use chat_server_c.Model.OfflineMsgModel
use chat_server_c.Model.GroupModel
use chat_server_c.Service.World.{Conn, Event, World, sent, subscribed, unsubscribed, emit, on_store}

abbrev pub is_empty : {A : Type 0} → List A → Bool
is_empty [] = true
is_empty (x ∷ xs) = false

-- the first entry of `_userConnMap` with this connection
unfoldable pub user_of_conn : Conn → Assoc Conn → Option ℤ
user_of_conn conn [] = none
user_of_conn conn ((id, c) ∷ m) = if c == conn then some id else user_of_conn conn m

module _ ⦃J : JsonLib⦄ where
  open J use {Json, empty, put, dump}

  abbrev pub ack : ℤ → ℤ → Json
  ack msgid errno = put (put empty "msgid" (int msgid)) "errno" (int errno)

  abbrev pub user_json : User → Json
  user_json u = put (put (put empty "id" (int u.id)) "name" (str u.name)) "state" (str u.state)

  abbrev pub member_json : GroupUser → Json
  member_json m = put (user_json m.user) "role" (str m.role)

  abbrev pub group_json : Group → Json
  group_json g =
      put (put (put (put empty "id" (int g.id)) "groupname" (str g.name)) "groupdesc" (str g.desc))
        "users" (strs (map (λ m. dump (member_json m)) g.users))

  -- `if (!vec.empty()) response[key] = vec;`
  abbrev pub put_list : Json → String → List Bytes → Json
  put_list j key [] = j
  put_list j key (x ∷ xs) = put j key (strs (x ∷ xs))

  abbrev pub login_json : User → List Bytes → List User → List Group → Json
  login_json user messages friends groups =
      put_list
        (put_list
          (put_list
            (put
              (put (put (put empty "msgid" (int (msg_code login_msg_ack))) "id" (int user.id))
                "errno" (int (pos 0)))
              "name" (str user.name))
            "offlinemsg" messages)
          "friends" (map (λ u. dump (user_json u)) friends))
        "groups" (map (λ g. dump (group_json g)) groups)

  abbrev pub logout_json : Json → String → ℤ → Json
  logout_json js msg errno =
      put (put (put js "msgid" (int (msg_code loginout_msg))) "msg" (str (codes msg))) "errno"
        (int errno)

  module _ ⦃B : Backend⦄ where
    open B use {State}

    -- A handler's result: the new state, and no value.
    abbrev pub Run : Type 0
    Run = Action (World State) (Unit {0})

    -- `js[k].get<int>()` and `string s = js[k]`, which throw
    abbrev pub need_int : Json → String → Action (World State) ℤ
    need_int js key = or_raise (get_int js key) json_error

    abbrev pub need_str : Json → String → Action (World State) Bytes
    need_str js key = or_raise (get_str js key) json_error

    abbrev pub send : Conn → Json → Run
    send conn js = emit (sent conn (dump js))

    -- The answer where the user is online already.
    unfoldable pub already_online : Conn → Run
    already_online conn = do
      send conn
          (put (ack (msg_code login_msg_ack) (pos 2)) "errmsg" (str (codes "the user is online!")))
      emit (sent conn (codes "\n"))

    -- The answer where there is no such user, or another password.
    unfoldable pub refuse : Conn → Run
    refuse conn = send conn (
        put (ack (msg_code login_msg_ack) (pos 1)) "errmsg"
          (str (codes "Invalide userid or password!")))

    -- The messages that wait are read, and if there are any removed.
    unfoldable pub take_messages : ℤ → Action (World State) (List Bytes)
    take_messages id = do
      messages ← on_store (OfflineMsgModel.query id)
      if is_empty messages then pure [] else do on_store (OfflineMsgModel.remove id); pure messages

    unfoldable pub welcome : Conn → ℤ → User → Run
    welcome conn id user = do
      modify (λ w. record w { conns = insert id conn w.conns })
      emit (subscribed id)
      on_store (UserModel.update (record user { state = online }))
      messages ← take_messages id
      friends ← on_store (FriendModel.query id)
      groups ← on_store (GroupModel.query_group id)
      send conn (login_json user messages friends groups)

    unfoldable pub answer_login : Conn → ℤ → Bytes → User → Run
    answer_login conn id pwd user =
        if int_eq user.id id && bytes_eq user.password pwd
        then (if bytes_eq user.state online then already_online conn else welcome conn id user)
        else refuse conn

    unfoldable pub login : Conn → Json → Run
    login conn js = do
      id ← need_int js "id"
      pwd ← need_str js "password"
      user ← on_store (UserModel.query id)
      answer_login conn id pwd user

    unfoldable pub reg : Conn → Json → Run
    reg conn js = do
      name ← need_str js "name"
      pwd ← need_str js "password"
      r ← on_store (UserModel.insert (record default_user { name = name; password = pwd }))
      send conn (
          if r.0
          then put (put (put empty "msgid" (int (msg_code reg_msg_ack))) "id" (int r.1.id)) "errno"
              (int (pos 0))
          else ack (msg_code reg_msg_ack) (pos 1))

    -- `loginout` by whether the user is in `_userConnMap`
    unfoldable pub end_session : Conn → Json → ℤ → Option Conn → Run
    end_session conn js id (some _) = do
      on_store (UserModel.update (record default_user { id = id }))
      modify (λ w. record w { conns = erase id w.conns })
      emit (unsubscribed id)
      send conn (logout_json js "offline success! welcome next time." (pos 0))
    end_session conn js id none = send conn (logout_json js "offline fail! please retry." (pos 1))

    unfoldable pub loginout : Conn → Json → Run
    loginout conn js = do
      id ← need_int js "id"
      found ← gets (λ w. find id w.conns)
      end_session conn js id found

    abbrev pub or_minus_one : Option ℤ → ℤ
    or_minus_one none = minus_one
    or_minus_one (some id) = id

    -- `_userConnMap.erase(it)`, if the loop found an entry
    unfoldable pub erase_found : Option ℤ → Assoc Conn → Assoc Conn
    erase_found none conns = conns
    erase_found (some id) conns = erase id conns

    unfoldable pub client_close_exception : Conn → Run
    client_close_exception conn = do
      found ← gets (λ w. user_of_conn conn w.conns)
      modify (λ w. record w { conns = erase_found found w.conns })
      emit (unsubscribed (or_minus_one found))
      if int_eq (or_minus_one found) minus_one then pure tt else do
        on_store
            (UserModel.update (record default_user { id = or_minus_one found; state = offline }))
        pure tt

    -- on SIGINT, before `exit(0)`
    unfoldable pub reset : Run
    reset = on_store UserModel.reset_states
