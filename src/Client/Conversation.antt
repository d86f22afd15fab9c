-- ===== src/Client/Conversation.antt =====
-- A line typed at one client, the server, and the screen of another client.
use chat_server_c.Service.Chat.Routing.{one_chat_here}
use chat_server_c.Json.Fields.{shown-build, contains-build, get-build, build-IsObject}
use chat_server_c.Service.Dispatch.{on_message}
use chat_server_c.Base.Decimal.{atoi}
use chat_server_c.Base.Assoc.{find}
use chat_server_c.Client.Commands.{on_message-chat_json, main_menu-chat, chat_fields, HasNoColon}
use chat_server_c.Base.Outcome.{done}
use chat_server_c.Client.Reading.{parse-buffer}
use chat_server_c.Client.{sends, main_menu, chat_json}
use chat_server_c.Service.World.{sent, World, Conn}
use chat_server_c.Base.Int.{ℤ}
use chat_server_c.Base.Bytes.{codes, Bytes}
use chat_server_c.Protocol.{one_chat_msg, msg_code, User}
use chat_server_c.Db.Backend.{Backend}
use chat_server_c.Client.State.{wire, said, buffer, Line, Client}
use chat_server_c.Client.Receiver.{goes_on, receive_chat, receive_round, receive_json}
use chat_server_c.Json.{get_str_lem, get_int_lem, Value, int, JsonLib}
use chat_server_c.Base.{
  ap, sym, ◌∙◌, String, List, ◌++◌, ◌<◌, length, ◌≢◌, [], ◌∷◌, ◌≡◌, refl, none, some,
}

module _ ⦃J : JsonLib⦄ where
  open J use {Json, get, dump, parse, contains, shown}

  receive_round-parse :
      (s : Bytes) (j : Json) (c : Client)
      → s ≢ []
      → parse (buffer s) ≡ some j
      → receive_round (some s) c ≡ receive_json j c
  unfolding receive_round
  receive_round-parse [] j c h e = absurd (h refl)
  receive_round-parse (b ∷ s) j c h e = rw e refl

  dump_nonempty : (j : Json) → J.IsObject j → dump j ≢ []
  dump_nonempty j o e =
      let none_some : none ≡ some j = sym J.parse_empty ∙ ap parse (sym e) ∙ J.parse-dump j o in cc

  pub receive_round-dump :
      (j : Json) (c : Client)
      → J.IsObject j
      → length (dump j) < 1024
      → receive_round (some (dump j)) c ≡ receive_json j c
  receive_round-dump j c o short =
      receive_round-parse (dump j) j c (dump_nonempty j o) (parse-buffer j o short)

  -- The line that a message of `me` makes.
  abbrev pub said_by : User → Bytes → Bytes → Line
  said_by me time msg = said time (J.text (int me.id)) me.name msg

  pub receive_round-chat_json :
      (me : User) (time msg : Bytes) (to : ℤ) (c : Client)
      → length (dump (chat_json me time to msg)) < 1024
      → receive_round (some (dump (chat_json me time to msg))) c
        ≡ (done goes_on, record c { screen = c.screen ++ said_by me time msg ∷ [] })
  unfolding receive_json receive_chat
  receive_round-chat_json me time msg to c short =
      receive_round-dump js c o short
      ∙ rw
          (
            get_int_lem js "msgid" (msg_code one_chat_msg) (get-build fields "msgid"),
            contains-build fields "errno",
            J.is_object-IsObject js o,
            get_str_lem js "time" time (get-build fields "time"),
            get_str_lem js "name" me.name (get-build fields "name"),
            get_str_lem js "msg" msg (get-build fields "msg"),
            shown-build fields "id",
          )
          refl
    where
      fields : List (String × Value)
      fields = chat_fields me time to msg

      js : Json
      js = chat_json me time to msg

      o : J.IsObject js
      o = build-IsObject fields

module _ ⦃J : JsonLib⦄ ⦃B : Backend⦄ where
  open J use {Json, get, dump}
  open B use {State}

  -- The line `chat:`, a text without a colon, a colon and a message makes the client send a
  -- request; if the number that the text begins with has a connection at the server and the
  -- request is shorter than the buffer, the server sends the request to that connection and does
  -- nothing else, and the client there prints the time, the sender's id and name, and the
  -- message, and goes on.
  pub main_menu-receive_round :
      (me : User) (time to msg : Bytes) (conn peer : Conn) (w : World State) (c : Client)
      → HasNoColon to
      → find (atoi to) w.conns ≡ some peer
      → length (dump (chat_json me time (atoi to) msg)) < 1024
      → (js : Json) × (main_menu me time (codes "chat:" ++ (to ++ b':' ∷ msg)) ≡ sends js)
        × (on_message conn (wire (dump js)) w
            ≡ (done tt, record w { out = w.out ++ sent peer (dump js) ∷ [] }))
        × (receive_round (some (dump js)) c
            ≡ (done goes_on, record c { screen = c.screen ++ said_by me time msg ∷ [] }))
  main_menu-receive_round me time to msg conn peer w c no_colon here short = (
    chat_json me time (atoi to) msg,
    main_menu-chat me time to msg no_colon,
    on_message-chat_json me time msg (atoi to) conn w
        ∙ one_chat_here conn (chat_json me time (atoi to) msg) (atoi to) peer w
            (get-build (chat_fields me time (atoi to) msg) "toid") here,
    receive_round-chat_json me time msg (atoi to) c short,
  )
