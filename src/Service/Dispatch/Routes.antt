-- ===== src/Service/Dispatch/Routes.antt =====
-- Which handler a message gets.
use chat_server_c.Service.Chat.{group_chat, one_chat}
use chat_server_c.Service.Session.{loginout, reg, login}
use chat_server_c.Base.Bytes.{Bytes}
use chat_server_c.Service.World.{World, Conn}
use chat_server_c.Protocol.{
  group_chat_msg, add_group_msg, create_group_msg, loginout_msg, add_friend_msg, one_chat_msg,
  reg_msg, login_msg, msg_code,
}
use chat_server_c.Base.Assoc.{insert, find}
use chat_server_c.Service.Dispatch.{on_message, handlers, get_handler}
use chat_server_c.Db.Backend.{Backend}
use chat_server_c.Json.{get_int_lem, int, JsonLib}
use chat_server_c.Base.Int.{ℤ}
use chat_server_c.Base.{◌≡◌, refl, some}
use chat_server_c.Service.Social.{add_friend, create_group, add_group}

module _ ⦃J : JsonLib⦄ ⦃B : Backend⦄ where
  open J use {Json, get, parse, dump}
  open B use {State}

  -- `getHandler` gives each of the eight request codes its own handler.
  pub get_handler-Table :
      (get_handler (msg_code login_msg) ≡ login)
      × (get_handler (msg_code reg_msg) ≡ reg)
      × (get_handler (msg_code one_chat_msg) ≡ one_chat)
      × (get_handler (msg_code add_friend_msg) ≡ add_friend)
      × (get_handler (msg_code loginout_msg) ≡ loginout)
      × (get_handler (msg_code create_group_msg) ≡ create_group)
      × (get_handler (msg_code add_group_msg) ≡ add_group)
      × (get_handler (msg_code group_chat_msg) ≡ group_chat)
  unfolding get_handler handlers find insert
  get_handler-Table = (refl, refl, refl, refl, refl, refl, refl, refl)

  -- A message that can be read goes to the handler of its code.
  pub on_message_parsed :
      (conn : Conn) (buf : Bytes) (js : Json) (msgid : ℤ) (w : World State)
      → parse buf ≡ some js
      → get js "msgid" ≡ some (int msgid)
      → on_message conn buf w ≡ get_handler msgid conn js w
  unfolding on_message
  on_message_parsed conn buf js msgid w parsed has =
      rw (parsed, get_int_lem js "msgid" msgid has) refl

  pub on_message_handled :
      (conn : Conn) (js : Json) (msgid : ℤ) (w : World State)
      → get js "msgid" ≡ some (int msgid)
      → on_message conn (dump js) w ≡ get_handler msgid conn js w
  on_message_handled conn js msgid w has =
      on_message_parsed conn (dump js) js msgid w
        (J.parse-dump js (J.get-IsObject js "msgid" (int msgid) has)) has
