-- ===== src/Client/Dialogs.antt =====
-- src/client/main.cc, the login and the registration of `main`, and `showCurrentUserData`.
use chat_server_c.Client.State.{
  register_failed, login_failed, registered, answer, said_in_group, buffer, send_failed, said,
  recv_failed, member_line, request_sent, print, group_line, friend_line, current_user, Line,
  Client,
}
use chat_server_c.Base.{
  String, List, [], ◌∷◌, ◌++◌, map, Option, none, some, Bool, true, false, if◌then◌else◌,
}
use chat_server_c.Base.Int.{ℤ, pos, int_eq}
use chat_server_c.Base.Bytes.{Bytes, c_str}
use chat_server_c.Base.Outcome.{
  done, Action, json_error, pure, raise, or_raise, modify, for_each, ◌>>=◌, ◌>>◌,
}
use chat_server_c.Protocol.{
  User, Group, default_user, new_group, push_user, msg_code, login_msg, reg_msg, one_chat_msg,
}
use chat_server_c.Json.{JsonLib, int, str, get_int, get_str, get_strs}

abbrev pub friend_lines : List User → List Line
friend_lines us = map (λ u. friend_line u.id u.name u.state) us

abbrev pub group_lines : List Group → List Line
group_lines [] = []
group_lines (g ∷ gs) =
    group_line g.id g.name g.desc ∷ map (λ m. member_line m.id m.name m.state m.role) g.users
    ++ group_lines gs

abbrev pub user_lines : Client → List Line
user_lines c = current_user c.me.id c.me.name ∷ friend_lines c.friends ++ group_lines c.groups

abbrev pub show_current_user_data : Action Client (Unit {0})
show_current_user_data c = (done tt, record c { screen = c.screen ++ user_lines c })

module _ ⦃J : JsonLib⦄ where
  open J use {Json, empty, put, dump, parse, contains, is_object, shown}

  -- `json::parse(s)`, `js[k].get<int>()`, and the conversions of `js[k]`, which throw
  abbrev pub parsed : Bytes → Action Client Json
  parsed s = or_raise (parse s) json_error

  abbrev pub field_int : Json → String → Action Client ℤ
  field_int js k = or_raise (get_int js k) json_error

  abbrev pub field_str : Json → String → Action Client Bytes
  field_str js k = or_raise (get_str js k) json_error

  abbrev pub field_strs : Json → String → Action Client (List Bytes)
  field_strs js k = or_raise (get_strs js k) json_error

  -- what `cout << js[k]` prints
  abbrev pub printed : Json → String → Action Client Bytes
  printed js k = if is_object js then pure (shown js k) else raise json_error

  -- `if (js.contains(k)) { vector<string> vec = js[k]; for (string &s : vec) body(s); }`
  unfoldable pub for_list :
      Json → String → (Bytes → Action Client (Unit {0})) → Action Client (Unit {0})
  for_list js k body =
      if contains js k then (do ss ← field_strs js k; for_each ss body) else pure tt

  unfoldable pub keep_friend : Bytes → Action Client (Unit {0})
  keep_friend s = do
    js ← parsed s
    id ← field_int js "id"
    name ← field_str js "name"
    state ← field_str js "state"
    modify (λ c. record c {
      friends = c.friends ++ record default_user { id = id; name = name; state = state } ∷ [];
    })

  -- A round of the loop over `gpjs["users"]`.
  unfoldable pub keep_member : Group → Bytes → Action Client Group
  keep_member group s = do
    js ← parsed s
    id ← field_int js "id"
    name ← field_str js "name"
    state ← field_str js "state"
    role ← field_str js "role"
    pure (
        push_user group (record {
          user = record default_user { id = id; name = name; state = state };
          role = role;
        }))

  unfoldable pub keep_members : List Bytes → Group → Action Client Group
  keep_members [] group = pure group
  keep_members (s ∷ ss) group = keep_member group s >>= keep_members ss

  unfoldable pub keep_group : Bytes → Action Client (Unit {0})
  keep_group s = do
    gpjs ← parsed s
    id ← field_int gpjs "id"
    name ← field_str gpjs "groupname"
    desc ← field_str gpjs "groupdesc"
    users ← field_strs gpjs "users"
    group ← keep_members users (new_group id name desc)
    modify (λ c. record c { groups = c.groups ++ group ∷ [] })

  -- `responsejs.contains("msgid") && ONE_CHAT_MSG == js["msgid"].get<int>()`
  abbrev pub is_one_chat : Json → Json → Action Client Bool
  is_one_chat response js =
      if contains response "msgid"
      then (do msgid ← field_int js "msgid"; pure (int_eq (msg_code one_chat_msg) msgid))
      else pure false

  unfoldable pub print_offline : Json → Bool → Action Client (Unit {0})
  print_offline js one =
      if one
      then (do
        time ← printed js "time"
        id ← printed js "id"
        name ← printed js "name"
        msg ← printed js "msg"
        print (said time id name msg))
      else (do
        groupid ← printed js "groupid"
        time ← printed js "time"
        id ← printed js "id"
        msg ← printed js "msg"
        print (said_in_group groupid time id msg))

  unfoldable pub show_offline : Json → Bytes → Action Client (Unit {0})
  show_offline response s = do js ← parsed s; one ← is_one_chat response js; print_offline js one

  -- The login answer of a user who is let in. Behind it the receiving thread and the menu begin.
  unfoldable pub keep_session : Json → Action Client (Unit {0})
  keep_session js = do
    id ← field_int js "id"
    modify (λ c. record c { me = record c.me { id = id } })
    name ← field_str js "name"
    modify (λ c. record c { me = record c.me { name = name } })
    for_list js "friends" keep_friend
    for_list js "groups" keep_group
    show_current_user_data
    for_list js "offlinemsg" (show_offline js)

  -- Whether the user is in. `none` is a `recv` that gives -1.
  unfoldable pub login_answer : Option Bytes → Action Client Bool
  login_answer none = do print recv_failed; pure false
  login_answer (some s) = do
    js ← parsed (buffer s)
    print (answer (c_str (buffer s)))
    errno ← field_int js "errno"
    if int_eq (pos 0) errno
        then (do keep_session js; pure true)
        else (do m ← printed js "errmsg"; print (login_failed m); pure false)

  abbrev pub login_request : ℤ → Bytes → Json
  login_request id pwd =
      put (put (put empty "msgid" (int (msg_code login_msg))) "id" (int id)) "password" (str pwd)

  -- `case 1` of `main` behind the input: whether `send` succeeds, and what `recv` gives.
  unfoldable pub login_dialog : ℤ → Bytes → Bool → Option Bytes → Action Client Bool
  login_dialog id pwd ok received = do
    request_sent (dump (login_request id pwd))
    if ok then login_answer received else (do print send_failed; pure false)

  unfoldable pub register_answer : Bytes → Option Bytes → Action Client (Unit {0})
  register_answer name none = print recv_failed
  register_answer name (some s) = do
    js ← parsed (buffer s)
    errno ← field_int js "errno"
    if int_eq (pos 0) errno
        then (do id ← printed js "id"; print (registered name id))
        else print register_failed

  abbrev pub register_request : Bytes → Bytes → Json
  register_request name pwd =
      put (put (put empty "msgid" (int (msg_code reg_msg))) "name" (str name)) "password" (str pwd)

  -- `case 2` of `main` behind the input.
  unfoldable pub register_dialog : Bytes → Bytes → Bool → Option Bytes → Action Client (Unit {0})
  register_dialog name pwd ok received = do
    request_sent (dump (register_request name pwd))
    if ok then register_answer name received else print send_failed
