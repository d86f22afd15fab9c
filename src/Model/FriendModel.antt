-- ===== src/Model/FriendModel.antt =====
-- src/server/model/friendmodel.cc
pub mod Effects
use chat_server_c.Base.{Option, none, some, List, [], ◌∷◌, map}
use chat_server_c.Base.Int.{ℤ}
use chat_server_c.Base.Decimal.{atoi}
use chat_server_c.Base.Outcome.{Action, pure, ◌>>=◌, ◌>>◌}
use chat_server_c.Protocol.{User, default_user}
use chat_server_c.Db.Statement.{insert_friend, select_friends, render}
use chat_server_c.Db.Tables.{Row}
use chat_server_c.Db.Backend.{Backend}
use chat_server_c.Db.Calls.{send_update, query_rows}

-- `user.setId(atoi(row[0])); user.setName(row[1]); user.setState(row[2]);`
pub friend_of_row : Row → User
friend_of_row (id ∷ name ∷ state ∷ _) = record default_user {
  id = atoi id;
  name = name;
  state = state;
}
friend_of_row _ = default_user

module _ ⦃B : Backend⦄ where
  open B use {State}

  unfoldable pub insert : ℤ → ℤ → Action State (Unit {0})
  insert userid friendid = send_update (render (insert_friend userid friendid))

  unfoldable pub query : ℤ → Action State (List User)
  query userid = query_rows friend_of_row (render (select_friends userid))
