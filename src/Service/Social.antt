-- ===== src/Service/Social.antt =====
-- chatservice.cc: friends and groups.
pub mod Groups
use chat_server_c.Base.{[], if◌then◌else◌}
use chat_server_c.Base.Int.{minus_one}
use chat_server_c.Base.Bytes.{codes}
use chat_server_c.Base.Outcome.{pure, ◌>>=◌}
use chat_server_c.Protocol.{new_group}
use chat_server_c.Json.{JsonLib}
use chat_server_c.Db.Backend.{Backend}
use chat_server_c.Model.FriendModel
use chat_server_c.Model.GroupModel
use chat_server_c.Service.World.{Conn, on_store}
use chat_server_c.Service.Session.{Run, need_int, need_str}

module _ ⦃J : JsonLib⦄ ⦃B : Backend⦄ where
  open J use {Json}

  unfoldable pub add_friend : Conn → Json → Run
  add_friend conn js = do
    userid ← need_int js "id"
    friendid ← need_int js "friendid"
    on_store (FriendModel.insert userid friendid)

  -- A new group begins with its creator as a member.
  unfoldable pub create_group : Conn → Json → Run
  create_group conn js = do
    userid ← need_int js "id"
    name ← need_str js "groupname"
    desc ← need_str js "groupdesc"
    r ← on_store (GroupModel.create_group (new_group minus_one name desc))
    if r.0 then on_store (GroupModel.add_group userid r.1.id (codes "creator")) else pure tt

  unfoldable pub add_group : Conn → Json → Run
  add_group conn js = do
    userid ← need_int js "id"
    groupid ← need_int js "groupid"
    on_store (GroupModel.add_group userid groupid (codes "normal"))
