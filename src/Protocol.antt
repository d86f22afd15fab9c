-- ===== src/Protocol.antt =====
-- include/public.hpp: the message ids that server and client share, and
-- include/server/model: the classes `User`, `GroupUser` and `Group` that both pass around.
use chat_server_c.Base.{◌≢◌, List, []}
use chat_server_c.Base.Int.{ℤ, pos, minus_one}
use chat_server_c.Base.Bytes.{Bytes, codes}

-- `enum EnMsgType`
pub data MsgType : Type 0 where
  login_msg login_msg_ack reg_msg reg_msg_ack one_chat_msg add_friend_msg user_offline : MsgType
  loginout_msg create_group_msg add_group_msg group_chat_msg : MsgType

-- An unscoped enum counts up from `LOGIN_MSG = 1`.
abbrev pub msg_code : MsgType → ℤ
msg_code login_msg = pos 1
msg_code login_msg_ack = pos 2
msg_code reg_msg = pos 3
msg_code reg_msg_ack = pos 4
msg_code one_chat_msg = pos 5
msg_code add_friend_msg = pos 6
msg_code user_offline = pos 7
msg_code loginout_msg = pos 8
msg_code create_group_msg = pos 9
msg_code add_group_msg = pos 10
msg_code group_chat_msg = pos 11

abbrev pub online : Bytes
online = codes "online"

abbrev pub offline : Bytes
offline = codes "offline"

-- `class User`; the setters are record updates.
pub record User : Type 0 where
  pub id : ℤ
  pub name : Bytes
  pub password : Bytes
  pub state : Bytes

-- `User()`
abbrev pub default_user : User
default_user = record { id = minus_one; name = []; password = []; state = offline }

-- `class GroupUser : public User`
pub record GroupUser : Type 0 where
  pub user : User
  pub open user use *
  pub role : Bytes

-- `class Group`
pub record Group : Type 0 where
  pub id : ℤ
  pub name : Bytes
  pub desc : Bytes
  pub users : List GroupUser

-- `Group(id, name, desc)`
abbrev pub new_group : ℤ → Bytes → Bytes → Group
new_group id name desc = record { id = id; name = name; desc = desc; users = [] }

-- `group.getUsers().push_back(user)`: `getUsers` returns a copy of the vector, and the copy is what
-- the user is added to, so the group stays as it is.
unfoldable pub push_user : Group → GroupUser → Group
push_user group user = let copy = group.users in group

pub offline≢online : offline ≢ online
offline≢online e = cc
