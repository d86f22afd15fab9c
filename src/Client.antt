-- ===== src/Client.antt =====
-- src/client/main.cc, the main menu: what a typed line sends to the server. The texts that are only
-- printed, and the socket, are left out.
pub mod State
pub mod Dialogs
pub mod Keyboard
pub mod Receiver
pub mod Reading
pub mod Answer
pub mod Entering
pub mod Conversation
pub mod Requests
pub mod Departure
pub mod Registration
pub mod Commands
use chat_server_c.Base.{
  String, List, [], ◌∷◌, Option, none, some, Bool, true, false, if◌then◌else◌, ℕ, ◌==◌,
}
use chat_server_c.Base.Int.{ℤ}
use chat_server_c.Base.Bytes.{Bytes, codes, bytes_eq}
use chat_server_c.Base.Decimal.{atoi}
use chat_server_c.Protocol.{
  User, msg_code, add_friend_msg, one_chat_msg, create_group_msg, add_group_msg, group_chat_msg,
  loginout_msg,
}
use chat_server_c.Json.{JsonLib, int, str}

-- `str.substr(0, idx)` and `str.substr(idx + 1)` for the first `:`, or `none` without one
abbrev pub split_at_colon : Bytes → Option (Bytes × Bytes)
split_at_colon [] = none
split_at_colon (c ∷ s) =
    let rest = split_at_colon s in if c == b':' then some ([], s) else in_front c rest
  where
    in_front : ℕ → Option (Bytes × Bytes) → Option (Bytes × Bytes)
    in_front c none = none
    in_front c (some (a, b)) = some (c ∷ a, b)

-- The command and its argument; without a `:` the argument is the whole line, since `idx + 1` is 0.
abbrev pub command_of : Bytes → Option (Bytes × Bytes) → Bytes × Bytes
command_of line none = (line, line)
command_of line (some split) = split

-- The names in `commandHandlerMap`
pub data Command : Type 0 where
  help chat addfriend creategroup addgroup groupchat loginout : Command

pub find_command : Bytes → Option Command
find_command s =
    if bytes_eq s (codes "help")
    then some help
    else if bytes_eq s (codes "chat")
    then some chat
    else if bytes_eq s (codes "addfriend")
    then some addfriend
    else if bytes_eq s (codes "creategroup")
    then some creategroup
    else if bytes_eq s (codes "addgroup")
    then some addgroup
    else if bytes_eq s (codes "groupchat")
    then some groupchat
    else if bytes_eq s (codes "loginout")
    then some loginout
    else none

module _ ⦃J : JsonLib⦄ where
  open J use {Json, empty, put}

  -- What a line does: a message on the screen, or a request, behind which the menu may end.
  pub data Typed : Type 0 where
    invalid_input : Typed
    invalid_command : Typed
    shows_help : Typed
    sends : Json → Typed
    sends_and_leaves : Json → Typed

  abbrev pub request : User → ℤ → Json
  request me msgid = put (put empty "msgid" (int msgid)) "id" (int me.id)

  abbrev pub chat_json : User → Bytes → ℤ → Bytes → Json
  chat_json me time toid msg =
      put
        (put (put (put (request me (msg_code one_chat_msg)) "name" (str me.name)) "toid" (int toid))
          "msg" (str msg))
        "time" (str time)

  abbrev pub group_chat_json : User → Bytes → ℤ → Bytes → Json
  group_chat_json me time groupid msg =
      put
        (put
          (put (put (request me (msg_code group_chat_msg)) "groupid" (int groupid)) "name"
            (str me.name))
          "msg" (str msg))
        "time" (str time)

  -- The two commands with two arguments need a second `:`.
  abbrev pub with_two : (Bytes → Bytes → Json) → Option (Bytes × Bytes) → Typed
  with_two f none = invalid_command
  with_two f (some (a, b)) = sends (f a b)

  abbrev pub run_command : User → Bytes → Option Command → Bytes → Typed
  run_command me time none arg = invalid_input
  run_command me time (some help) arg = shows_help
  run_command me time (some chat) arg =
      with_two (λ a b. chat_json me time (atoi a) b) (split_at_colon arg)
  run_command me time (some addfriend) arg =
      sends (put (request me (msg_code add_friend_msg)) "friendid" (int (atoi arg)))
  run_command me time (some creategroup) arg =
      with_two
        (λ a b.
          put (put (request me (msg_code create_group_msg)) "groupname" (str a)) "groupdesc"
            (str b))
        (split_at_colon arg)
  run_command me time (some addgroup) arg =
      sends (put (request me (msg_code add_group_msg)) "groupid" (int (atoi arg)))
  run_command me time (some groupchat) arg =
      with_two (λ a b. group_chat_json me time (atoi a) b) (split_at_colon arg)
  run_command me time (some loginout) arg = sends_and_leaves (request me (msg_code loginout_msg))

  abbrev pub run_split : User → Bytes → Bytes × Bytes → Typed
  run_split me time (command, arg) = run_command me time (find_command command) arg

  -- A round of the loop of `mainMenu`.
  pub main_menu : User → Bytes → Bytes → Typed
  main_menu me time line = run_split me time (command_of line (split_at_colon line))
