-- ===== src/Db/Tables.antt =====
-- What the statements mean: the tables, and each statement's effect or answer. The tables are those
-- that the statements name; `user.id` and `allgroup.id` are counted up by the server.
use chat_server_c.Base.{
  ℕ, suc, List, [], ◌∷◌, ◌++◌, map, Option, none, some, Bool, true, false, not, ◌&&◌,
}
use chat_server_c.Base.Int.{ℤ, pos, int_eq}
use chat_server_c.Base.Bytes.{Bytes, bytes_eq}
use chat_server_c.Base.Decimal.{show_int}
use chat_server_c.Base.Filter.{keep, update_where}
use chat_server_c.Protocol.{User, online, offline}
use chat_server_c.Db.Statement.{
  Statement, insert_user, select_user, update_state, reset_state, insert_friend, select_friends,
  insert_offline, delete_offline, select_offline, insert_group, insert_member, select_groups,
  select_members, select_member_ids,
}

pub record GroupRow : Type 0 where
  pub id : ℤ
  pub name : Bytes
  pub desc : Bytes

pub record Member : Type 0 where
  pub groupid : ℤ
  pub userid : ℤ
  pub role : Bytes

pub record Tables : Type 0 where
  pub users : List User
  pub friends : List (ℤ × ℤ)
  pub groups : List GroupRow
  pub members : List Member
  pub messages : List (ℤ × Bytes)
  pub next_user : ℕ
  pub next_group : ℕ

abbrev pub user_id_is : ℤ → User → Bool
user_id_is id u = int_eq u.id id

abbrev pub set_state : Bytes → User → User
set_state s u = record u { state = s }

abbrev pub message_for : ℤ → ℤ × Bytes → Bool
message_for id m = int_eq m.0 id

-- The effect of a statement that succeeds.
abbrev pub apply : Statement → Tables → Tables
apply (insert_user name password state) t = record t {
  users =
      t.users
      ++ record { id = pos t.next_user; name = name; password = password; state = state } ∷ [];
  next_user = suc t.next_user;
}
apply (update_state state id) t = record t {
  users = update_where (user_id_is id) (set_state state) t.users;
}
apply reset_state t = record t {
  users = update_where (λ u. bytes_eq u.state online) (set_state offline) t.users;
}
apply (insert_friend userid friendid) t = record t {
  friends = t.friends ++ (userid, friendid) ∷ [];
}
apply (insert_offline userid msg) t = record t { messages = t.messages ++ (userid, msg) ∷ [] }
apply (delete_offline userid) t = record t {
  messages = keep (λ m. not (message_for userid m)) t.messages;
}
apply (insert_group name desc) t = record t {
  groups = t.groups ++ record { id = pos t.next_group; name = name; desc = desc } ∷ [];
  next_group = suc t.next_group;
}
apply (insert_member groupid userid role) t = record t {
  members = t.members ++ record { groupid = groupid; userid = userid; role = role } ∷ [];
}
apply _ t = t

abbrev pub is_query : Statement → Bool
is_query (select_user _) = true
is_query (select_friends _) = true
is_query (select_offline _) = true
is_query (select_groups _) = true
is_query (select_members _) = true
is_query (select_member_ids _ _) = true
is_query _ = false

-- The key that the server makes for a new row.
abbrev pub new_key : Statement → Tables → Option ℕ
new_key (insert_user _ _ _) t = some t.next_user
new_key (insert_group _ _) t = some t.next_group
new_key _ t = none

-- A row of an answer: its columns as text.
abbrev pub Row : Type 0
Row = List Bytes

abbrev pub user_row : User → Row
user_row u = show_int u.id ∷ u.name ∷ u.password ∷ u.state ∷ []

abbrev pub friend_row : User → Row
friend_row u = show_int u.id ∷ u.name ∷ u.state ∷ []

abbrev pub group_row : GroupRow → Row
group_row g = show_int g.id ∷ g.name ∷ g.desc ∷ []

abbrev pub member_row : User × Member → Row
member_row (u, m) = show_int u.id ∷ u.name ∷ u.state ∷ m.role ∷ []

-- `xs inner join ys on p`
abbrev pub join : {A B : Type 0} → (A → B → Bool) → List A → List B → List (A × B)
join p [] ys = []
join p (x ∷ xs) ys = map (λ y. (x, y)) (keep (p x) ys) ++ join p xs ys

abbrev pub friends_of : ℤ → Tables → List User
friends_of userid t =
    map (λ r. r.0)
      (keep (λ r. int_eq r.1.0 userid) (join (λ u f. int_eq f.1 u.id) t.users t.friends))

abbrev pub groups_of : ℤ → Tables → List GroupRow
groups_of userid t =
    map (λ r. r.0)
      (keep (λ r. int_eq r.1.userid userid)
        (join (λ g m. int_eq g.id m.groupid) t.groups t.members))

abbrev pub members_of : ℤ → Tables → List (User × Member)
members_of groupid t =
    keep (λ r. int_eq r.1.groupid groupid) (join (λ u m. int_eq m.userid u.id) t.users t.members)

abbrev pub others_in : ℤ → ℤ → Tables → List ℤ
others_in groupid userid t =
    map (λ m. m.userid)
      (keep (λ m. int_eq m.groupid groupid && not (int_eq m.userid userid)) t.members)

-- The answer to a query, in some order.
abbrev pub select : Statement → Tables → List Row
select (select_user id) t = map user_row (keep (user_id_is id) t.users)
select (select_friends userid) t = map friend_row (friends_of userid t)
select (select_offline userid) t = map (λ m. m.1 ∷ []) (keep (message_for userid) t.messages)
select (select_groups userid) t = map group_row (groups_of userid t)
select (select_members groupid) t = map member_row (members_of groupid t)
select (select_member_ids groupid userid) t =
    map (λ i. show_int i ∷ []) (others_in groupid userid t)
select _ t = []
