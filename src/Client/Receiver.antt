-- ===== src/Client/Receiver.antt =====
-- src/client/main.cc, `readTaskHandler`: the thread that prints what the server sends.
use chat_server_c.Client.Dialogs.{field_int, field_str, printed, print_offline, parsed}
use chat_server_c.Client.State.{said, peer_offline, loginout_failed, buffer, print, Client}
use chat_server_c.Base.{List, [], ◌∷◌, Option, none, some, Bool, false, if◌then◌else◌}
use chat_server_c.Base.Int.{pos, int_eq}
use chat_server_c.Base.Bytes.{Bytes}
use chat_server_c.Base.Outcome.{Action, pure, modify, ◌>>=◌, ◌>>◌}
use chat_server_c.Protocol.{
  default_user, msg_code, one_chat_msg, loginout_msg, group_chat_msg, user_offline,
}
use chat_server_c.Json.{JsonLib}

-- How a round of the loop ends: with another, with the thread, or with the process.
pub data Round : Type 0 where
  goes_on leaves exits : Round

module _ ⦃J : JsonLib⦄ where
  open J use {Json, contains}

  -- `js.contains("errno") && USER_OFFLINE == js["errno"].get<int>()`
  abbrev pub is_notice : Json → Action Client Bool
  is_notice js =
      if contains js "errno"
      then (do errno ← field_int js "errno"; pure (int_eq (msg_code user_offline) errno))
      else pure false

  abbrev pub print_chat : Json → Bool → Action Client (Unit {0})
  print_chat js notice =
      if notice then (do m ← printed js "offlineresponse"; print (peer_offline m)) else (do
        time ← field_str js "time"
        id ← printed js "id"
        name ← field_str js "name"
        msg ← field_str js "msg"
        print (said time id name msg))

  unfoldable pub receive_chat : Json → Action Client Round
  receive_chat js = do notice ← is_notice js; print_chat js notice; pure goes_on

  unfoldable pub receive_group_chat : Json → Action Client Round
  receive_group_chat js = do print_offline js false; pure goes_on

  -- `g_currentUser = User();` and the two lists
  abbrev pub forget : Client → Client
  forget c = record c { me = default_user; friends = []; groups = [] }

  unfoldable pub receive_loginout : Json → Action Client Round
  receive_loginout js = do
    errno ← field_int js "errno"
    if int_eq (pos 0) errno
        then (do modify forget; pure leaves)
        else (do m ← printed js "msg"; print (loginout_failed m); pure goes_on)

  unfoldable pub receive_json : Json → Action Client Round
  receive_json js = do
    msgid ← field_int js "msgid"
    if int_eq (msg_code one_chat_msg) msgid
        then receive_chat js
        else if int_eq (msg_code loginout_msg) msgid
        then receive_loginout js
        else if int_eq (msg_code group_chat_msg) msgid
        then receive_group_chat js
        else pure goes_on

  -- A round of the loop; `none` is a `recv` that gives -1, and no bytes one that gives 0.
  unfoldable pub receive_round : Option Bytes → Action Client Round
  receive_round none = pure exits
  receive_round (some []) = pure exits
  receive_round (some (b ∷ s)) = do js ← parsed (buffer (b ∷ s)); receive_json js

  -- The rounds for what `recv` gives, one after the other; a thread that goes on waits.
  unfoldable pub read_task : List (Option Bytes) → Action Client Round
  read_task [] = pure goes_on
  read_task (r ∷ rs) = receive_round r >>= then_on (read_task rs)
    where
      then_on : Action Client Round → Round → Action Client Round
      then_on rest goes_on = rest
      then_on rest leaves = pure leaves
      then_on rest exits = pure exits
