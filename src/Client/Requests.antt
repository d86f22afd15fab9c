-- ===== src/Client/Requests.antt =====
-- What the server does with the requests of the main menu.
use chat_server_c.Service.Dispatch.Routes.{get_handler-Table, on_message_parsed}
use chat_server_c.Client.Commands.{parse-wire, on_message-chat_json}
use chat_server_c.Client.State.{wire}
use chat_server_c.Json.Fields.{get-build, build-IsObject, build}
use chat_server_c.Base.Decimal.{atoi}
use chat_server_c.Service.World.{World, Conn}
use chat_server_c.Service.Chat.{group_chat, one_chat}
use chat_server_c.Base.Outcome.{pure}
use chat_server_c.Base.Bytes.{Bytes}
use chat_server_c.Service.Dispatch.{on_message, get_handler, MsgHandler}
use chat_server_c.Protocol.{
  loginout_msg, group_chat_msg, add_group_msg, create_group_msg, add_friend_msg, msg_code, MsgType,
  User,
}
use chat_server_c.Client.{
  group_chat_json, sends_and_leaves, split_at_colon, with_two, chat_json, sends, run_command, Typed,
  Command,
}
use chat_server_c.Db.Backend.{Backend}
use chat_server_c.Json.{str, int, Value, JsonLib}
use chat_server_c.Base.{ap, ◌∙◌, ◌++◌, Option, [], ◌∷◌, ◌≡◌, none, some, String, List}
use chat_server_c.Service.Social.{add_friend, create_group, add_group}
use chat_server_c.Service.Session
use chat_server_c.Client.{
  help, chat, addfriend, creategroup, addgroup, groupchat, loginout, invalid_input, invalid_command,
  shows_help, sends, sends_and_leaves,
}

module _ ⦃J : JsonLib⦄ ⦃B : Backend⦄ where
  open J use {Json, get, dump}
  open B use {State}

  -- The server's handler for a command that has a request.
  abbrev pub handler_of : Command → MsgHandler
  handler_of help = λ conn js. pure tt
  handler_of chat = one_chat
  handler_of addfriend = add_friend
  handler_of creategroup = create_group
  handler_of addgroup = add_group
  handler_of groupchat = group_chat
  handler_of loginout = Session.loginout

  -- The server hands what is sent to `h`, and nothing else.
  abbrev pub Reaches : MsgHandler → Typed → Type 0
  Reaches h (sends js) =
      (conn : Conn) (w : World State) → on_message conn (wire (dump js)) w ≡ h conn js w
  Reaches h (sends_and_leaves js) =
      (conn : Conn) (w : World State) → on_message conn (wire (dump js)) w ≡ h conn js w
  Reaches h invalid_input = Unit {0}
  Reaches h invalid_command = Unit {0}
  Reaches h shows_help = Unit {0}

  on_message-build :
      (fs : List (String × Value)) (m : MsgType) (conn : Conn) (w : World State)
      → get (build fs) "msgid" ≡ some (int (msg_code m))
      → on_message conn (wire (dump (build fs))) w ≡ get_handler (msg_code m) conn (build fs) w
  on_message-build fs m conn w has =
      on_message_parsed conn (wire (dump (build fs))) (build fs) (msg_code m) w
        (parse-wire (build fs) (build-IsObject fs)) has

  -- A request begins with the code and the user's id.
  abbrev fields_of : User → MsgType → List (String × Value) → List (String × Value)
  fields_of me m fs = fs ++ ("id", int me.id) ∷ ("msgid", int (msg_code m)) ∷ []

  request-Reaches :
      (h : MsgHandler) (me : User) (m : MsgType) (fs : List (String × Value))
      → get_handler (msg_code m) ≡ h
      → get (build (fields_of me m fs)) "msgid" ≡ some (int (msg_code m))
      → Reaches h (sends (build (fields_of me m fs)))
  request-Reaches h me m fs e has conn w =
      on_message-build (fields_of me m fs) m conn w has
      ∙ ap (λ f. f conn (build (fields_of me m fs)) w) e

  with_two-Reaches :
      (h : MsgHandler) (f : Bytes → Bytes → Json) (o : Option (Bytes × Bytes))
      → ((a b : Bytes) → Reaches h (sends (f a b)))
      → Reaches h (with_two f o)
  with_two-Reaches h f none k = tt
  with_two-Reaches h f (some (a, b)) k = k a b

  -- For each command and any argument: if the command sends a request, the server does with its
  -- bytes what the handler of that command does with the request.
  pub run_command-Reaches :
      (me : User) (time : Bytes) (command : Command) (arg : Bytes)
      → Reaches (handler_of command) (run_command me time (some command) arg)
  run_command-Reaches me time help arg = tt
  run_command-Reaches me time chat arg =
      with_two-Reaches one_chat (λ a b. chat_json me time (atoi a) b) (split_at_colon arg)
        (λ a b conn w. on_message-chat_json me time b (atoi a) conn w)
  run_command-Reaches me time addfriend arg =
      let fs = ("friendid", int (atoi arg)) ∷ [] in
      request-Reaches add_friend me add_friend_msg fs get_handler-Table.3
        (get-build (fields_of me add_friend_msg fs) "msgid")
  run_command-Reaches me time creategroup arg =
      with_two-Reaches create_group
        (λ a b.
          build (fields_of me create_group_msg (("groupdesc", str b) ∷ ("groupname", str a) ∷ [])))
        (split_at_colon arg)
        (λ a b.
          let fs = ("groupdesc", str b) ∷ ("groupname", str a) ∷ [] in
          request-Reaches create_group me create_group_msg fs get_handler-Table.5
            (get-build (fields_of me create_group_msg fs) "msgid"))
  run_command-Reaches me time addgroup arg =
      let fs = ("groupid", int (atoi arg)) ∷ [] in
      request-Reaches add_group me add_group_msg fs get_handler-Table.6
        (get-build (fields_of me add_group_msg fs) "msgid")
  run_command-Reaches me time groupchat arg =
      with_two-Reaches group_chat (λ a b. group_chat_json me time (atoi a) b) (split_at_colon arg)
        (λ a b.
          let fs =
            ("time", str time)
            ∷ ("msg", str b)
            ∷ ("name", str me.name)
            ∷ ("groupid", int (atoi a))
            ∷ [] in
          request-Reaches group_chat me group_chat_msg fs get_handler-Table.7
            (get-build (fields_of me group_chat_msg fs) "msgid"))
  run_command-Reaches me time loginout arg =
      request-Reaches Session.loginout me loginout_msg [] get_handler-Table.4
        (get-build (fields_of me loginout_msg []) "msgid")
