-- ===== src/Model/FriendModel/Effects.antt =====
-- What the methods of `FriendModel` do to the table `friend`, and what they return.
use chat_server_c.Base.{refl, ◌≡◌, ◌⊎◌, Perm, [], map, arith}
use chat_server_c.Base.Int.{ℤ}
use chat_server_c.Base.Decimal.{atoi-show_int}
use chat_server_c.Base.Perms.{map-map_eq}
use chat_server_c.Base.Outcome.{Returns}
use chat_server_c.Protocol.{User}
use chat_server_c.Db.Statement.{Fits, insert_friend, select_friends}
use chat_server_c.Db.Tables.{Tables, friend_row, friends_of}
use chat_server_c.Db.Backend.{Backend, IsHealthy}
use chat_server_c.Db.Calls.Effects.{Sent, send_update-Sent, query_rows-Rows}
use chat_server_c.Model.FriendModel.{friend_of_row, insert, query}

-- A friend as the query shows one: the password is not selected.
abbrev pub without_password : User → User
without_password u = record u { password = [] }

friend_of_row-friend_row : (u : User) → friend_of_row (friend_row u) ≡ without_password u
unfolding friend_of_row
friend_of_row-friend_row u = rw (atoi-show_int u.id)

module _ ⦃B : Backend⦄ where
  open B use {State, tables}

  pub insert-Sent :
      (userid friendid : ℤ) (t : Tables) (st : State)
      → Fits (insert_friend userid friendid)
      → tables st ≡ t
      → Returns
          (λ _ st'. Sent (insert_friend userid friendid) t (tables st'))
          (insert userid friendid st)
  unfolding insert
  insert-Sent userid friendid t st fits e = send_update-Sent _ t st (omega arith) fits e

  -- The friends, in some order, or without an answer nobody.
  pub query-Friends :
      (userid : ℤ) (t : Tables) (st : State)
      → Fits (select_friends userid)
      → tables st ≡ t
      → Returns
          (λ us st'.
            (Perm us (map without_password (friends_of userid t)) ⊎ ((us ≡ []) × ¬ IsHealthy B))
            × (tables st' ≡ t))
          (query userid st)
  unfolding query
  query-Friends userid t st fits e =
      rw
        (← map-map_eq friend_row friend_of_row without_password friend_of_row-friend_row
          (friends_of userid t))
        (query_rows-Rows friend_of_row (select_friends userid) t st (omega arith) refl fits e)
