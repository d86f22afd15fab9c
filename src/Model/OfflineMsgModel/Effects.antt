-- ===== src/Model/OfflineMsgModel/Effects.antt =====
-- What the methods of `OfflineMsgModel` do to the table `offlinemessage`, and what they return.
use chat_server_c.Db.Calls.{sprintf, send_update}
use chat_server_c.Base.{length, not_lt→ltb, ◌≡◌, refl, ◌⊎◌, Perm, List, [], ◌∷◌, map, arith}
use chat_server_c.Base.Int.{ℤ}
use chat_server_c.Base.Bytes.{Bytes}
use chat_server_c.Base.Filter.{keep}
use chat_server_c.Base.Perms.{map-map_eq}
use chat_server_c.Base.Outcome.{overflow, fault, Returns}
use chat_server_c.Db.Statement.{
  sql_size, render, Fits, insert_offline, delete_offline, select_offline, IsClean,
}
use chat_server_c.Db.Tables.{Tables, message_for}
use chat_server_c.Db.Backend.{Backend, IsHealthy}
use chat_server_c.Db.Calls.Effects.{Sent, send_update-Sent, query_rows-Rows}
use chat_server_c.Model.OfflineMsgModel.{message_of_row, insert, remove, query}

-- The messages that wait for a user.
abbrev pub waiting : ℤ → Tables → List Bytes
waiting id t = map (λ m. m.1) (keep (message_for id) t.messages)

module _ ⦃B : Backend⦄ where
  open B use {State, tables}

  pub insert-Sent :
      (userid : ℤ) (msg : Bytes) (t : Tables) (st : State)
      → IsClean (insert_offline userid msg)
      → Fits (insert_offline userid msg)
      → tables st ≡ t
      → Returns (λ _ st'. Sent (insert_offline userid msg) t (tables st')) (insert userid msg st)
  unfolding insert
  insert-Sent userid msg t st clean fits e = send_update-Sent _ t st clean fits e

  pub remove-Sent :
      (userid : ℤ) (t : Tables) (st : State)
      → Fits (delete_offline userid)
      → tables st ≡ t
      → Returns (λ _ st'. Sent (delete_offline userid) t (tables st')) (remove userid st)
  unfolding remove
  remove-Sent userid t st fits e = send_update-Sent _ t st (omega arith) fits e

  -- What waits, in some order, or without an answer nothing.
  pub query-Waiting :
      (userid : ℤ) (t : Tables) (st : State)
      → Fits (select_offline userid)
      → tables st ≡ t
      → Returns
          (λ ms st'. (Perm ms (waiting userid t) ⊎ ((ms ≡ []) × ¬ IsHealthy B)) × (tables st' ≡ t))
          (query userid st)
  unfolding query message_of_row
  query-Waiting userid t st fits e =
      rw
        (← map-map_eq (λ m. m.1 ∷ []) message_of_row (λ m. m.1) (λ m. refl)
          (keep (message_for userid) t.messages))
        (query_rows-Rows message_of_row (select_offline userid) t st (omega arith) refl fits e)

  -- A text that does not fit runs past the buffer before anything is sent.
  pub insert_overflows :
      (userid : ℤ) (msg : Bytes) (st : State)
      → ¬ Fits (insert_offline userid msg)
      → insert userid msg st ≡ (fault overflow, st)
  unfolding insert send_update sprintf
  insert_overflows userid msg st long =
      rw (not_lt→ltb (length (render (insert_offline userid msg))) sql_size long)
