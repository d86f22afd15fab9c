-- ===== src/Client/Entering.antt =====
-- A login as both ends see it: what the client has behind the server's answer.
use chat_server_c.Base.Int.{pos}
use chat_server_c.Base.Outcome.{done}
use chat_server_c.Service.Session.{user_json, group_json, put_list, login_json}
use chat_server_c.Json.Fields.{get-build, contains-build, build-IsObject, build}
use chat_server_c.Client.Reading.{
  c_str-buffer, parse-buffer, for_each-map, for_list-Lists, get-put_list, Lists-here, Lists-behind,
  put_list-IsObject, contains-put_list, Lists,
}
use chat_server_c.Client.Dialogs.{
  friend_lines, group_lines, show_offline, user_lines, keep_session, keep_group, keep_friend,
  login_answer, for_list,
}
use chat_server_c.Client.State.{
  answer, Client, Line, current_user, friend_line, group_line, member_line,
}
use chat_server_c.Client.Answer.{
  keep_each_group, keep_each_friend, show_each, show_offline-waiting_line, keep_group-group_json,
  keep_friend-user_json, without_members, waiting_line, known, IsCoded, Coded,
}
use chat_server_c.Protocol.{login_msg_ack, msg_code, Group, User}
use chat_server_c.Base.Bytes.{Bytes}
use chat_server_c.Json.{get_str_lem, get_int_lem, int, str, Value, JsonLib}
use text.Mathlib.Text.{◌==◌ as str_eq}
use chat_server_c.Base.{
  All-trivial, ap, ◌<◌, length, ◌∙◌, ◌++◌, map, String, All, List, [], ◌∷◌, ◌≡◌, refl, some, false,
  true,
}

abbrev pub flat : {A B : Type 0} → (A → List B) → List A → List B
flat f [] = []
flat f (a ∷ rest) = f a ++ flat f rest

module _ ⦃J : JsonLib⦄ where
  open J use {Json, empty, get, put, dump, contains}

  -- The client behind the answer `text`: user, friends and groups, then the lines on the screen.
  abbrev pub informed : Bytes → User → List User → List Group → Client → Client
  informed text u fs gs c = record {
    me = record c.me { id = u.id; name = u.name };
    friends = c.friends ++ map known fs;
    groups = c.groups ++ map without_members gs;
    screen = c.screen ++ answer text ∷ [];
    requests = c.requests;
  }

  -- The user; a line for each friend; and for each group a line with one for each member behind it.
  abbrev pub listed : Client → List Line
  listed c =
      current_user c.me.id c.me.name ∷ map (λ u. friend_line u.id u.name u.state) c.friends
      ++ flat
          (λ g.
            group_line g.id g.name g.desc
            ∷ map (λ m. member_line m.id m.name m.state m.role) g.users)
          c.groups

  group_lines_lem :
      (gs : List Group)
      → group_lines gs
        ≡ flat
            (λ g.
              group_line g.id g.name g.desc
              ∷ map (λ m. member_line m.id m.name m.state m.role) g.users)
            gs
  group_lines_lem [] = refl
  group_lines_lem (g ∷ gs) =
      ap
        (λ ls.
          (group_line g.id g.name g.desc
            ∷ map (λ m. member_line m.id m.name m.state m.role) g.users)
          ++ ls)
        (group_lines_lem gs)

  user_lines-listed : (c : Client) → user_lines c ≡ listed c
  user_lines-listed c =
      λ i. current_user c.me.id c.me.name ∷ friend_lines c.friends ++ group_lines_lem c.groups i

  abbrev pub showing : List Coded → Client → Client
  showing ms c = record c { screen = (c.screen ++ listed c) ++ map (λ m. waiting_line m.0 m.1) ms }

  module _ (u : User) (ms : List Coded) (fs : List User) (gs : List Group) where
    abbrev head_fields : List (String × Value)
    head_fields =
        ("name", str u.name)
        ∷ ("errno", int (pos 0))
        ∷ ("id", int u.id)
        ∷ ("msgid", int (msg_code login_msg_ack))
        ∷ []

    abbrev messages : List Bytes
    messages = map (λ m. dump m.0) ms

    abbrev friend_texts : List Bytes
    friend_texts = map (λ f. dump (user_json f)) fs

    abbrev group_texts : List Bytes
    group_texts = map (λ g. dump (group_json g)) gs

    abbrev with_messages : Json
    with_messages = put_list (build head_fields) "offlinemsg" messages

    abbrev with_friends : Json
    with_friends = put_list with_messages "friends" friend_texts

    abbrev pub whole : Json
    whole = login_json u messages fs gs

    o1 : J.IsObject (build head_fields)
    o1 = build-IsObject head_fields

    o2 : J.IsObject with_messages
    o2 = put_list-IsObject _ "offlinemsg" messages o1

    o3 : J.IsObject with_friends
    o3 = put_list-IsObject _ "friends" friend_texts o2

    whole-IsObject : J.IsObject whole
    whole-IsObject = put_list-IsObject _ "groups" group_texts o3

    get-whole :
        (l : String)
        → str_eq "offlinemsg" l ≡ false
        → str_eq "friends" l ≡ false
        → str_eq "groups" l ≡ false
        → get whole l ≡ get (build head_fields) l
    get-whole l m f g =
        get-put_list with_friends "groups" l group_texts o3 g
        ∙ get-put_list with_messages "friends" l friend_texts o2 f
        ∙ get-put_list (build head_fields) "offlinemsg" l messages o1 m

    contains-whole : contains whole "msgid" ≡ true
    contains-whole =
        contains-put_list with_friends "groups" "msgid" group_texts o3 refl
        ∙ contains-put_list with_messages "friends" "msgid" friend_texts o2 refl
        ∙ contains-put_list (build head_fields) "offlinemsg" "msgid" messages o1 refl
        ∙ contains-build head_fields "msgid"

    whole-messages : Lists whole "offlinemsg" messages
    whole-messages = Lists-behind with_friends "groups" "offlinemsg" group_texts messages o3 refl (
        Lists-behind with_messages "friends" "offlinemsg" friend_texts messages o2 refl (
          Lists-here (build head_fields) "offlinemsg" messages o1 refl
            (contains-build head_fields "offlinemsg")))

    whole-friends : Lists whole "friends" friend_texts
    whole-friends = Lists-behind with_friends "groups" "friends" group_texts friend_texts o3 refl (
        Lists-here with_messages "friends" friend_texts o2 refl (
          contains-put_list (build head_fields) "offlinemsg" "friends" messages o1 refl
          ∙ contains-build head_fields "friends"))

    whole-groups : Lists whole "groups" group_texts
    whole-groups = Lists-here with_friends "groups" group_texts o3 refl (
        contains-put_list with_messages "friends" "groups" friend_texts o2 refl
        ∙ contains-put_list (build head_fields) "offlinemsg" "groups" messages o1 refl
        ∙ contains-build head_fields "groups")

    read_friends :
        (c : Client)
        → for_list whole "friends" keep_friend c
          ≡ (done tt, record c { friends = c.friends ++ map known fs })
    read_friends c =
        for_list-Lists whole "friends" friend_texts keep_friend c whole-friends
        ∙ for_each-map (λ f. dump (user_json f)) keep_friend _ (λ _. Unit {0})
            (λ f s _. keep_friend-user_json f s) fs c (All-trivial fs)
        ∙ ap (λ s. (done tt, s)) (keep_each_friend fs c)

    read_groups :
        (c : Client)
        → for_list whole "groups" keep_group c
          ≡ (done tt, record c { groups = c.groups ++ map without_members gs })
    read_groups c =
        for_list-Lists whole "groups" group_texts keep_group c whole-groups
        ∙ for_each-map (λ g. dump (group_json g)) keep_group _ (λ _. Unit {0})
            (λ g s _. keep_group-group_json g s) gs c (All-trivial gs)
        ∙ ap (λ s. (done tt, s)) (keep_each_group gs c)

    read_messages :
        (c : Client)
        → All IsCoded ms
        → for_list whole "offlinemsg" (show_offline whole) c
          ≡ (done tt, record c { screen = c.screen ++ map (λ m. waiting_line m.0 m.1) ms })
    read_messages c coded =
        for_list-Lists whole "offlinemsg" messages (show_offline whole) c whole-messages
        ∙ for_each-map (λ m. dump m.0) (show_offline whole) _ IsCoded
            (λ m s h. show_offline-waiting_line whole m s contains-whole h) ms c coded
        ∙ ap (λ s. (done tt, s)) (show_each ms c)

    -- For an answer that is shorter than the buffer and whose waiting messages have a code each:
    -- of the server's answer to a login the client keeps the id and name, the friends without
    -- passwords behind those that it had, and the groups without members; it prints the answer,
    -- the user, the friends and the groups, and then a line for each message by its code; and the
    -- user is in.
    pub login_answer-login_json :
        (c : Client)
        → All IsCoded ms
        → length (dump whole) < 1024
        → login_answer (some (dump whole)) c
          ≡ (done true, showing ms (informed (dump whole) u fs gs c))
    unfolding login_answer keep_session
    login_answer-login_json c coded short =
        rw
          (
            parse-buffer whole whole-IsObject short,
            c_str-buffer whole whole-IsObject short,
            get_int_lem whole "errno" (pos 0)
                (get-whole "errno" refl refl refl ∙ get-build head_fields "errno"),
            get_int_lem whole "id" u.id
                (get-whole "id" refl refl refl ∙ get-build head_fields "id"),
            get_str_lem whole "name" u.name
                (get-whole "name" refl refl refl ∙ get-build head_fields "name"),
          )
          (rw (read_friends _) (rw (read_groups _) (rw (read_messages _ coded) refl)))
        ∙ ap
            (λ ls. (
              done true,
              record (informed (dump whole) u fs gs c) {
                screen =
                    ((informed (dump whole) u fs gs c).screen ++ ls)
                    ++ map (λ m. waiting_line m.0 m.1) ms;
              },
            ))
            (user_lines-listed (informed (dump whole) u fs gs c))
