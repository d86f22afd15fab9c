-- ===== src/Model/GroupModel.antt =====
-- src/server/model/groupmodel.cc
pub mod Effects
use chat_server_c.Base.{Option, none, some, Bool, true, false, List, [], ◌∷◌, map, if◌then◌else◌}
use chat_server_c.Base.Int.{ℤ, to_int}
use chat_server_c.Base.Bytes.{Bytes}
use chat_server_c.Base.Decimal.{atoi}
use chat_server_c.Base.Outcome.{Action, pure, gets, ◌>>=◌, ◌>>◌}
use chat_server_c.Protocol.{User, GroupUser, Group, default_user, new_group, push_user}
use chat_server_c.Db.Statement.{
  insert_group, insert_member, select_groups, select_members, select_member_ids, render, sql_size,
}
use chat_server_c.Db.Tables.{Row}
use chat_server_c.Db.Backend.{Backend}
use chat_server_c.Db.Calls
use chat_server_c.Db.Calls.{sprintf, with_connection, send_update, query_rows, read_rows}

pub group_of_row : Row → Group
group_of_row (id ∷ name ∷ desc ∷ _) = new_group (atoi id) name desc
group_of_row _ = new_group (atoi []) [] []

pub member_of_row : Row → GroupUser
member_of_row (id ∷ name ∷ state ∷ role ∷ _) = record {
  user = record default_user { id = atoi id; name = name; state = state };
  role = role;
}
member_of_row _ = record { user = default_user; role = [] }

-- `while ((row = mysql_fetch_row(res)) != nullptr) { …; group.getUsers().push_back(user); }`
pub push_rows : List Row → Group → Group
push_rows [] group = group
push_rows (row ∷ rows) group = push_rows rows (push_user group (member_of_row row))

pub id_of_row : Row → ℤ
id_of_row (id ∷ _) = atoi id
id_of_row [] = atoi []

module _ ⦃B : Backend⦄ where
  open B use {State, mysql_insert_id}

  -- The group comes back with the id that the server made.
  unfoldable pub create_group : Group → Action State (Bool × Group)
  create_group group = do
    sql ← sprintf sql_size (render (insert_group group.name group.desc))
    with_connection (false, group)
        do
          inserted ← Calls.update sql
          id ← gets mysql_insert_id
          pure (if inserted then (true, record group { id = to_int id }) else (false, group))

  unfoldable pub add_group : ℤ → ℤ → Bytes → Action State (Unit {0})
  add_group userid groupid role = send_update (render (insert_member groupid userid role))

  unfoldable pub push_answer : Option (List Row) → Group → Action State Group
  push_answer none group = pure group
  push_answer (some rows) group = pure (push_rows rows group)

  -- The second query of `queryGroup`, for one group.
  unfoldable pub query_members : Group → Action State Group
  query_members group = do
    sql ← sprintf sql_size (render (select_members group.id))
    res ← Calls.query sql
    push_answer res group

  -- `for (Group &group : groupVec)`
  unfoldable pub fill_members : List Group → Action State (List Group)
  fill_members [] = pure []
  fill_members (group ∷ groups) = do
    group' ← query_members group
    groups' ← fill_members groups
    pure (group' ∷ groups')

  -- Without a connection `groupVec` stays empty, and the second loop makes no round.
  unfoldable pub query_group : ℤ → Action State (List Group)
  query_group userid = do
    sql ← sprintf sql_size (render (select_groups userid))
    with_connection []
        do res ← Calls.query sql; groups ← read_rows group_of_row res; fill_members groups

  unfoldable pub query_group_users : ℤ → ℤ → Action State (List ℤ)
  query_group_users userid groupid =
      query_rows id_of_row (render (select_member_ids groupid userid))
