-- ===== src/Model/UserModel.antt =====
-- src/server/model/usermodel.cc
pub mod Effects
use chat_server_c.Base.{Option, none, some, Bool, true, false, List, [], ◌∷◌, if◌then◌else◌}
use chat_server_c.Base.Int.{ℤ, to_int}
use chat_server_c.Base.Decimal.{atoi}
use chat_server_c.Base.Outcome.{Action, null_row, pure, raise, gets, ◌>>=◌, ◌>>◌}
use chat_server_c.Protocol.{User, default_user}
use chat_server_c.Db.Statement.{
  insert_user, select_user, update_state, reset_state, render, sql_size,
}
use chat_server_c.Db.Tables.{Row}
use chat_server_c.Db.Backend.{Backend}
use chat_server_c.Db.Calls
use chat_server_c.Db.Calls.{sprintf, with_connection, run_update}

-- The first row of the answer, `select *`, as a user. `mysql_fetch_row` gives null where there is
-- no row, and the code reads `row[0]` all the same; an answer has the table's four columns.
unfoldable pub first_user : {S : Type 0} → List Row → Action S User
first_user [] = raise null_row
first_user ((id ∷ name ∷ password ∷ state ∷ _) ∷ _) =
    pure (record { id = atoi id; name = name; password = password; state = state })
first_user (_ ∷ _) = raise null_row

-- `if (res != nullptr) …; return User();`
unfoldable pub read_user : {S : Type 0} → Option (List Row) → Action S User
read_user none = pure default_user
read_user (some rows) = first_user rows

module _ ⦃B : Backend⦄ where
  open B use {State, mysql_insert_id}

  -- The user comes back with the id that the server made.
  unfoldable pub insert : User → Action State (Bool × User)
  insert user = do
    sql ← sprintf sql_size (render (insert_user user.name user.password user.state))
    with_connection (false, user)
        do
          inserted ← Calls.update sql
          id ← gets mysql_insert_id
          pure (if inserted then (true, record user { id = to_int id }) else (false, user))

  unfoldable pub query : ℤ → Action State User
  query id = do
    sql ← sprintf sql_size (render (select_user id))
    with_connection default_user do res ← Calls.query sql; read_user res

  unfoldable pub update : User → Action State Bool
  update user = run_update (render (update_state user.state user.id))

  unfoldable pub reset_states : Action State (Unit {0})
  reset_states = do with_connection false (Calls.update (render reset_state)); pure tt
