-- ===== src/Model/OfflineMsgModel.antt =====
-- src/server/model/offlinemessagemodel.cc
pub mod Effects
use chat_server_c.Base.{Option, none, some, List, [], ◌∷◌, map}
use chat_server_c.Base.Int.{ℤ}
use chat_server_c.Base.Bytes.{Bytes}
use chat_server_c.Base.Outcome.{Action, pure, ◌>>=◌, ◌>>◌}
use chat_server_c.Db.Statement.{insert_offline, delete_offline, select_offline, render}
use chat_server_c.Db.Tables.{Row}
use chat_server_c.Db.Backend.{Backend}
use chat_server_c.Db.Calls.{send_update, query_rows}

-- `vec.push_back(row[0]);`
pub message_of_row : Row → Bytes
message_of_row (message ∷ _) = message
message_of_row [] = []

module _ ⦃B : Backend⦄ where
  open B use {State}

  unfoldable pub insert : ℤ → Bytes → Action State (Unit {0})
  insert userid msg = send_update (render (insert_offline userid msg))

  unfoldable pub remove : ℤ → Action State (Unit {0})
  remove userid = send_update (render (delete_offline userid))

  unfoldable pub query : ℤ → Action State (List Bytes)
  query userid = query_rows message_of_row (render (select_offline userid))
