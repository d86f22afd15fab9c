-- ===== src/Client/Answer.antt =====
-- What the client makes of the server's answer to a login.
use chat_server_c.Client.Reading.{steps}
use chat_server_c.Base.Int.{int_eq, ℤ}
use chat_server_c.Json.Fields.{get-build, build-IsObject}
use chat_server_c.Base.Bytes.{Bytes}
use chat_server_c.Base.Outcome.{done}
use chat_server_c.Service.Session.{member_json, user_json, group_json}
use chat_server_c.Client.State.{said_in_group, said, Line, Client}
use chat_server_c.Client.Dialogs.{
  show_offline, print_offline, keep_group, keep_friend, keep_members, keep_member,
}
use chat_server_c.Protocol.{
  one_chat_msg, msg_code, new_group, GroupUser, push_user, Group, default_user, User,
}
use chat_server_c.Json.{get_strs_lem, get_str_lem, get_int_lem, int, strs, str, Value, JsonLib}
use chat_server_c.Base.{
  append_assoc, ◌∙◌, sym, ap, inr, inl, Bool-cases, if◌then◌else◌, true, append-nil, ◌++◌, String,
  map, List, [], ◌∷◌, ◌≡◌, refl, some,
}

-- What the client knows of a friend.
abbrev pub known : User → User
known u = record default_user { id = u.id; name = u.name; state = u.state }

-- What it knows of a group: the members go to a copy of the list.
abbrev pub without_members : Group → Group
without_members g = new_group g.id g.name g.desc

module _ ⦃J : JsonLib⦄ where
  open J use {Json, empty, get, put, dump, shown, contains}

  pub keep_friend-user_json :
      (u : User) (c : Client)
      → keep_friend (dump (user_json u)) c
        ≡ (done tt, record c { friends = c.friends ++ known u ∷ [] })
  unfolding keep_friend
  keep_friend-user_json u c =
      rw
        (
          J.parse-dump (user_json u) (build-IsObject fields),
          get_int_lem (user_json u) "id" u.id (get-build fields "id"),
          get_str_lem (user_json u) "name" u.name (get-build fields "name"),
          get_str_lem (user_json u) "state" u.state (get-build fields "state"),
        )
        refl
    where
      fields : List (String × Value)
      fields = ("state", str u.state) ∷ ("name", str u.name) ∷ ("id", int u.id) ∷ []

  keep_member-member_json :
      (m : GroupUser) (g : Group) (c : Client)
      → keep_member g (dump (member_json m)) c ≡ (done g, c)
  unfolding keep_member push_user
  keep_member-member_json m g c =
      rw
        (
          J.parse-dump (member_json m) (build-IsObject fields),
          get_int_lem (member_json m) "id" m.id (get-build fields "id"),
          get_str_lem (member_json m) "name" m.name (get-build fields "name"),
          get_str_lem (member_json m) "state" m.state (get-build fields "state"),
          get_str_lem (member_json m) "role" m.role (get-build fields "role"),
        )
        refl
    where
      fields : List (String × Value)
      fields =
          ("role", str m.role)
          ∷ ("state", str m.state)
          ∷ ("name", str m.name)
          ∷ ("id", int m.id)
          ∷ []

  keep_members-member_json :
      (ms : List GroupUser) (g : Group) (c : Client)
      → keep_members (map (λ m. dump (member_json m)) ms) g c ≡ (done g, c)
  unfolding keep_members
  keep_members-member_json [] g c = refl
  keep_members-member_json (m ∷ ms) g c =
      rw (keep_member-member_json m g c) (keep_members-member_json ms g c)

  pub keep_group-group_json :
      (g : Group) (c : Client)
      → keep_group (dump (group_json g)) c
        ≡ (done tt, record c { groups = c.groups ++ without_members g ∷ [] })
  unfolding keep_group
  keep_group-group_json g c =
      rw
        (
          J.parse-dump (group_json g) (build-IsObject fields),
          get_int_lem (group_json g) "id" g.id (get-build fields "id"),
          get_str_lem (group_json g) "groupname" g.name (get-build fields "groupname"),
          get_str_lem (group_json g) "groupdesc" g.desc (get-build fields "groupdesc"),
          get_strs_lem (group_json g) "users" texts (get-build fields "users"),
        )
        (rw (keep_members-member_json g.users (new_group g.id g.name g.desc) c) refl)
    where
      texts : List Bytes
      texts = map (λ m. dump (member_json m)) g.users

      fields : List (String × Value)
      fields =
          ("users", strs texts)
          ∷ ("groupdesc", str g.desc)
          ∷ ("groupname", str g.name)
          ∷ ("id", int g.id)
          ∷ []

  -- The line for a message that waited, by its code.
  abbrev pub waiting_line : Json → ℤ → Line
  waiting_line j msgid =
      if int_eq (msg_code one_chat_msg) msgid
      then said (shown j "time") (shown j "id") (shown j "name") (shown j "msg")
      else said_in_group (shown j "groupid") (shown j "time") (shown j "id") (shown j "msg")

  abbrev pub Coded : Type 0
  Coded = Json × ℤ

  -- The message has the code.
  abbrev pub IsCoded : Coded → Type 0
  IsCoded (j, msgid) = get j "msgid" ≡ some (int msgid)

  print_offline-waiting_line :
      (j : Json) (msgid : ℤ) (c : Client)
      → J.IsObject j
      → print_offline j (int_eq (msg_code one_chat_msg) msgid) c
        ≡ (done tt, record c { screen = c.screen ++ waiting_line j msgid ∷ [] })
  unfolding print_offline
  print_offline-waiting_line j msgid c o =
      elim (Bool-cases (int_eq (msg_code one_chat_msg) msgid)) [
        | inl one ↦ rw one (rw (J.is_object-IsObject j o) refl)
        | inr group ↦ rw group (rw (J.is_object-IsObject j o) refl)
      ]

  pub show_offline-waiting_line :
      (response : Json) (m : Coded) (c : Client)
      → contains response "msgid" ≡ true
      → IsCoded m
      → show_offline response (dump m.0) c
        ≡ (done tt, record c { screen = c.screen ++ waiting_line m.0 m.1 ∷ [] })
  unfolding show_offline
  show_offline-waiting_line response (j, msgid) c has code =
      let o = J.get-IsObject j "msgid" (int msgid) code in
      rw (J.parse-dump j o, has, get_int_lem j "msgid" msgid code)
        (print_offline-waiting_line j msgid c o)

  pub show_each :
      (ms : List Coded) (c : Client)
      → steps (λ m c'. record c' { screen = c'.screen ++ waiting_line m.0 m.1 ∷ [] }) ms c
        ≡ record c { screen = c.screen ++ map (λ m. waiting_line m.0 m.1) ms }
  show_each [] c = ap (λ s. record c { screen = s }) (sym (append-nil c.screen))
  show_each (m ∷ ms) c =
      show_each ms (record c { screen = c.screen ++ waiting_line m.0 m.1 ∷ [] }) ∙ λ i. record c {
        screen =
            append_assoc c.screen (waiting_line m.0 m.1 ∷ []) (map (λ m. waiting_line m.0 m.1) ms)
              i;
      }

  pub keep_each_friend :
      (us : List User) (c : Client)
      → steps (λ u c'. record c' { friends = c'.friends ++ known u ∷ [] }) us c
        ≡ record c { friends = c.friends ++ map known us }
  keep_each_friend [] c = ap (λ s. record c { friends = s }) (sym (append-nil c.friends))
  keep_each_friend (u ∷ us) c =
      keep_each_friend us (record c { friends = c.friends ++ known u ∷ [] }) ∙ λ i. record c {
        friends = append_assoc c.friends (known u ∷ []) (map known us) i;
      }

  pub keep_each_group :
      (gs : List Group) (c : Client)
      → steps (λ g c'. record c' { groups = c'.groups ++ without_members g ∷ [] }) gs c
        ≡ record c { groups = c.groups ++ map without_members gs }
  keep_each_group [] c = ap (λ s. record c { groups = s }) (sym (append-nil c.groups))
  keep_each_group (g ∷ gs) c =
      keep_each_group gs (record c { groups = c.groups ++ without_members g ∷ [] }) ∙ λ i.
      record c {
        groups = append_assoc c.groups (without_members g ∷ []) (map without_members gs) i;
      }
