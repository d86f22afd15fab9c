-- ===== src/Service/Chat.antt =====
-- chatservice.cc: messages to one user and to a group, and those that come in through Redis.
pub mod Routing
pub mod Faults
pub mod Places
pub mod Group
pub mod Receiving
pub mod Overtaken
use chat_server_c.Base.{
  ℕ, String, List, [], ◌∷◌, ◌++◌, Option, none, some, Bool, not, ◌&&◌, if◌then◌else◌,
}
use chat_server_c.Base.Int.{ℤ, minus_one, int_eq}
use chat_server_c.Base.Bytes.{Bytes, codes, bytes_eq}
use chat_server_c.Base.Decimal.{show_int}
use chat_server_c.Base.Assoc.{find}
use chat_server_c.Base.Outcome.{Action, pure, gets, for_each, ◌>>=◌, ◌>>◌}
use chat_server_c.Protocol.{User, online, msg_code, user_offline}
use chat_server_c.Json.{JsonLib, int, str}
use chat_server_c.Db.Backend.{Backend}
use chat_server_c.Db.Calls.{sprintf}
use chat_server_c.Model.UserModel
use chat_server_c.Model.OfflineMsgModel
use chat_server_c.Model.GroupModel
use chat_server_c.Service.World.{Conn, Event, World, sent, published, emit, on_store}
use chat_server_c.Service.Session.{Run, need_int, send}

-- `user.getId() != -1 && user.getState() == "online"`
abbrev pub is_online : User → Bool
is_online user = not (int_eq user.id minus_one) && bytes_eq user.state online

-- `char tmp[50]`
abbrev pub notice_size : ℕ
notice_size = 50

-- `sprintf(tmp, "userid : %d do not online, message has chached!", toId)`, of any length
pub notice : ℤ → Bytes
notice toid = codes "userid : " ++ (show_int toid ++ codes " do not online, message has chached!")

module _ ⦃J : JsonLib⦄ ⦃B : Backend⦄ where
  open J use {Json, put, dump}
  open B use {State}

  -- The message is kept for the user, and the sender is told.
  unfoldable pub keep_and_tell : Conn → Json → ℤ → Run
  keep_and_tell conn js toid = do
    on_store (OfflineMsgModel.insert toid (dump js))
    text ← sprintf notice_size (notice toid)
    send conn (put (put js "errno" (int (msg_code user_offline))) "offlineresponse" (str text))

  -- `oneChat` behind `_userModel.query(toId)`
  abbrev pub forward : Conn → Json → ℤ → User → Run
  forward conn js toid user =
      if is_online user then emit (published toid (dump js)) else keep_and_tell conn js toid

  -- `oneChat` behind the look into `_userConnMap`
  unfoldable pub route : Conn → Json → ℤ → Option Conn → Run
  route conn js toid (some peer) = send peer js
  route conn js toid none = do user ← on_store (UserModel.query toid); forward conn js toid user

  unfoldable pub one_chat : Conn → Json → Run
  one_chat conn js = do
    toid ← need_int js "toid"
    found ← gets (λ w. find toid w.conns)
    route conn js toid found

  -- A round of the loop in `groupChat`
  unfoldable pub route_member : Json → ℤ → Option Conn → Run
  route_member js id (some peer) = send peer js
  route_member js id none = do
    user ← on_store (UserModel.query id)
    if is_online user
        then emit (published user.id (dump js))
        else on_store (OfflineMsgModel.insert id (dump js))

  unfoldable pub deliver : Json → ℤ → Run
  deliver js id = do found ← gets (λ w. find id w.conns); route_member js id found

  unfoldable pub group_chat : Conn → Json → Run
  group_chat conn js = do
    userid ← need_int js "id"
    groupid ← need_int js "groupid"
    ids ← on_store (GroupModel.query_group_users userid groupid)
    for_each ids (deliver js)

  unfoldable pub receive : ℤ → Bytes → Option Conn → Run
  receive userid msg (some peer) = emit (sent peer msg)
  receive userid msg none = on_store (OfflineMsgModel.insert userid msg)

  unfoldable pub handle_redis_subscribe_message : ℤ → Bytes → Run
  handle_redis_subscribe_message userid msg = do
    found ← gets (λ w. find userid w.conns)
    receive userid msg found
