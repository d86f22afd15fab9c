-- ===== src/Service/Dispatch.antt =====
-- chatservice.cc (the constructor, `getHandler`) and chatserver.cc (`onConnection`, `onMessage`).
pub mod Routes
use chat_server_c.Base.{[], ◌∷◌, Option, none, some, Bool, if◌then◌else◌}
use chat_server_c.Base.Int.{ℤ}
use chat_server_c.Base.Bytes.{Bytes}
use chat_server_c.Base.Assoc.{Assoc, find, insert}
use chat_server_c.Base.Outcome.{json_error, pure, or_raise, ◌>>=◌}
use chat_server_c.Protocol.{
  msg_code, login_msg, reg_msg, one_chat_msg, add_friend_msg, loginout_msg, create_group_msg,
  add_group_msg, group_chat_msg,
}
use chat_server_c.Json.{JsonLib}
use chat_server_c.Db.Backend.{Backend}
use chat_server_c.Service.World.{Conn, no_handler, emit}
use chat_server_c.Service.Session.{Run, need_int, login, reg, loginout, client_close_exception}
use chat_server_c.Service.Chat.{one_chat, group_chat}
use chat_server_c.Service.Social.{add_friend, create_group, add_group}

module _ ⦃J : JsonLib⦄ ⦃B : Backend⦄ where
  open J use {Json, parse}

  -- `using MsgHandler = std::function<void(…)>`
  abbrev pub MsgHandler : Type 0
  MsgHandler = Conn → Json → Run

  -- `_msgHandlerMap`, as the constructor fills it
  unfoldable pub handlers : Assoc MsgHandler
  handlers = insert (msg_code group_chat_msg) group_chat (
      insert (msg_code add_group_msg) add_group (
        insert (msg_code create_group_msg) create_group (
          insert (msg_code loginout_msg) loginout (
            insert (msg_code add_friend_msg) add_friend (
              insert (msg_code one_chat_msg) one_chat
                (insert (msg_code reg_msg) reg (insert (msg_code login_msg) login [])))))))

  abbrev pub or_default : ℤ → Option MsgHandler → MsgHandler
  or_default msgid (some handler) = handler
  or_default msgid none = λ conn js. emit (no_handler msgid)

  unfoldable pub get_handler : ℤ → MsgHandler
  get_handler msgid = or_default msgid (find msgid handlers)

  unfoldable pub on_message : Conn → Bytes → Run
  on_message conn buf = do
    js ← or_raise (parse buf) json_error
    msgid ← need_int js "msgid"
    get_handler msgid conn js

  -- `conn->connected()`; the rest of `onConnection` prints, and shuts the connection down.
  unfoldable pub on_connection : Conn → Bool → Run
  on_connection conn connected = if connected then pure tt else client_close_exception conn
