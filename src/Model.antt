-- ===== src/Model.antt =====
-- src/server/model: the classes that turn calls of the service into SQL and rows into objects.
pub mod UserModel
pub mod FriendModel
pub mod OfflineMsgModel
pub mod GroupModel
pub mod Keeping
