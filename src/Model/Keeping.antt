-- ===== src/Model/Keeping.antt =====
-- What holds between the calls of the model classes is kept by each of their methods.
use chat_server_c.Model.OfflineMsgModel.{message_of_row}
use chat_server_c.Model.FriendModel.{friend_of_row}
use chat_server_c.Db.Calls.{read_rows, with_connection, sprintf}
use chat_server_c.Db.Tables.{Row}
use chat_server_c.Db.Statement.{
  select_members, sql_size, select_offline, select_member_ids, select_friends, reset_state,
  update_state, select_user, select_groups, insert_user, insert_offline, insert_member,
  insert_group, insert_friend, delete_offline, render,
}
use chat_server_c.Base.Outcome.{◌>>=◌, Action}
use chat_server_c.Protocol.{default_user, User, Group}
use chat_server_c.Model.UserModel.{reset_states, read_user, first_user}
use chat_server_c.Model.GroupModel.{
  group_of_row, id_of_row, query_members, push_answer, fill_members,
}
use chat_server_c.Base.Int.{ℤ}
use chat_server_c.Base.Bytes.{Bytes}
use chat_server_c.Db.Calls.Brackets.{
  sprintf-Holds, with_connection-Holds, update-Holds, send_update-Holds, run_update-Holds,
  query_rows-Holds, query-Holds, bind-Holds, Holds, Brackets,
}
use chat_server_c.Db.Backend.{Backend}
use chat_server_c.Db.Calls.Brackets.{read_rows-Holds}
use chat_server_c.Base.{Option, List, [], ◌∷◌, none, some, false}
use chat_server_c.Model.UserModel
use chat_server_c.Model.FriendModel
use chat_server_c.Model.OfflineMsgModel
use chat_server_c.Model.GroupModel
use chat_server_c.Db.Calls

module _ ⦃B : Backend⦄ (Out Inside : B.State → Type 0) (brackets : Brackets B Out Inside) where
  open B use {State}

  first_user-Holds : (rows : List Row) → Holds Inside (first_user rows)
  unfolding first_user
  first_user-Holds [] st q = q
  first_user-Holds ((id ∷ name ∷ password ∷ state ∷ _) ∷ _) st q = q
  first_user-Holds _ st q = q

  read_user-Holds : (res : Option (List Row)) → Holds Inside (read_user res)
  unfolding read_user
  read_user-Holds none st q = q
  read_user-Holds (some rows) st q = first_user-Holds rows st q

  -- A text is composed, a connection asked for, and the text sent in a query or an update.
  asking :
      {A R : Type 0} (text : Bytes) (otherwise : A) (send : Bytes → Action State R)
      (f : R → Action State A)
      → ((sql : Bytes) → Holds Inside (send sql))
      → ((r : R) → Holds Inside (f r))
      → Holds Out (sprintf sql_size text >>= λ sql. with_connection otherwise (send sql >>= f))
  asking text otherwise send f h k =
      bind-Holds Out (sprintf sql_size text) _ (sprintf-Holds Out sql_size text) (λ sql.
        with_connection-Holds Out Inside brackets otherwise (send sql >>= f)
          (bind-Holds Inside (send sql) f (h sql) k))

  updates : (sql : Bytes) → Holds Inside (Calls.update sql)
  updates = update-Holds Out Inside brackets

  queries : (sql : Bytes) → Holds Inside (Calls.query sql)
  queries = query-Holds Out Inside brackets

  pub insert_user-Holds : (u : User) → Holds Out (UserModel.insert u)
  unfolding chat_server_c.Model.UserModel.insert
  insert_user-Holds u =
      asking (render (insert_user u.name u.password u.state)) (false, u) Calls.update _ updates
        (λ inserted st q. q)

  pub query_user-Holds : (id : ℤ) → Holds Out (UserModel.query id)
  unfolding chat_server_c.Model.UserModel.query
  query_user-Holds id =
      asking (render (select_user id)) default_user Calls.query _ queries read_user-Holds

  pub update_user-Holds : (u : User) → Holds Out (UserModel.update u)
  unfolding chat_server_c.Model.UserModel.update
  update_user-Holds u = run_update-Holds Out Inside brackets (render (update_state u.state u.id))

  pub reset_users-Holds : Holds Out UserModel.reset_states
  unfolding reset_states
  reset_users-Holds =
      bind-Holds Out (with_connection false (Calls.update (render reset_state))) _
        (with_connection-Holds Out Inside brackets false (Calls.update (render reset_state))
          (updates (render reset_state)))
        (λ success st q. q)

  pub insert_friend-Holds : (id k : ℤ) → Holds Out (FriendModel.insert id k)
  unfolding chat_server_c.Model.FriendModel.insert
  insert_friend-Holds id k = send_update-Holds Out Inside brackets (render (insert_friend id k))

  pub query_friends-Holds : (id : ℤ) → Holds Out (FriendModel.query id)
  unfolding chat_server_c.Model.FriendModel.query
  query_friends-Holds id =
      query_rows-Holds Out Inside brackets friend_of_row (render (select_friends id))

  pub insert_message-Holds : (id : ℤ) (msg : Bytes) → Holds Out (OfflineMsgModel.insert id msg)
  unfolding chat_server_c.Model.OfflineMsgModel.insert
  insert_message-Holds id msg =
      send_update-Holds Out Inside brackets (render (insert_offline id msg))

  pub remove_messages-Holds : (id : ℤ) → Holds Out (OfflineMsgModel.remove id)
  unfolding chat_server_c.Model.OfflineMsgModel.remove
  remove_messages-Holds id = send_update-Holds Out Inside brackets (render (delete_offline id))

  pub query_messages-Holds : (id : ℤ) → Holds Out (OfflineMsgModel.query id)
  unfolding chat_server_c.Model.OfflineMsgModel.query
  query_messages-Holds id =
      query_rows-Holds Out Inside brackets message_of_row (render (select_offline id))

  pub create_group-Holds : (g : Group) → Holds Out (GroupModel.create_group g)
  unfolding chat_server_c.Model.GroupModel.create_group
  create_group-Holds g =
      asking (render (insert_group g.name g.desc)) (false, g) Calls.update _ updates
        (λ inserted st q. q)

  pub add_member-Holds : (id k : ℤ) (role : Bytes) → Holds Out (GroupModel.add_group id k role)
  unfolding chat_server_c.Model.GroupModel.add_group
  add_member-Holds id k role =
      send_update-Holds Out Inside brackets (render (insert_member k id role))

  push_answer-Holds : (res : Option (List Row)) (g : Group) → Holds Inside (push_answer res g)
  unfolding push_answer
  push_answer-Holds none g st q = q
  push_answer-Holds (some rows) g st q = q

  -- The queries of the members go over the connection that is taken already.
  query_members-Holds : (g : Group) → Holds Inside (query_members g)
  unfolding query_members
  query_members-Holds g =
      bind-Holds Inside (sprintf sql_size (render (select_members g.id))) _
        (sprintf-Holds Inside sql_size (render (select_members g.id)))
        (λ sql.
          bind-Holds Inside (Calls.query sql) _ (queries sql) (λ res. push_answer-Holds res g))

  fill_members-Holds : (gs : List Group) → Holds Inside (fill_members gs)
  unfolding fill_members
  fill_members-Holds [] = λ st q. q
  fill_members-Holds (g ∷ gs) =
      bind-Holds Inside (query_members g) _ (query_members-Holds g)
        (λ g'. bind-Holds Inside (fill_members gs) _ (fill_members-Holds gs) (λ gs' st q. q))

  pub query_groups-Holds : (id : ℤ) → Holds Out (GroupModel.query_group id)
  unfolding chat_server_c.Model.GroupModel.query_group
  query_groups-Holds id = asking (render (select_groups id)) [] Calls.query _ queries (λ res.
      bind-Holds Inside (read_rows group_of_row res) _
        (read_rows-Holds Out Inside brackets group_of_row res) fill_members-Holds)

  pub query_member_ids-Holds : (id k : ℤ) → Holds Out (GroupModel.query_group_users id k)
  unfolding chat_server_c.Model.GroupModel.query_group_users
  query_member_ids-Holds id k =
      query_rows-Holds Out Inside brackets id_of_row (render (select_member_ids k id))
