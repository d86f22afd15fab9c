-- ===== src/Service/Chat/Receiving.antt =====
-- What a server does with a message that Redis brings.
use chat_server_c.Db.Calls.Effects.{Sent-apply}
use chat_server_c.Db.Statement.Bounds.{insert_offline-Fits}
use chat_server_c.Db.Tables.{apply}
use chat_server_c.Base.Outcome.{Returns}
use chat_server_c.Db.Statement.{insert_offline, IsPlain}
use chat_server_c.Base.Decimal.{IsInt}
use chat_server_c.Base.Assoc.{find}
use chat_server_c.Service.World.{on_store-last, sent, Conn, World}
use chat_server_c.Base.Bytes.{Bytes}
use chat_server_c.Base.Int.{ℤ}
use chat_server_c.Json.{JsonLib}
use chat_server_c.Db.Backend.{IsHealthy, Backend}
use chat_server_c.Base.{
  inr, append-nil, sym, inl, Option-cases, [], ◌≤◌, ◌∷◌, length, ◌≡◌, refl, none, some,
}
use chat_server_c.Service.Effects.{After}
use chat_server_c.Model.OfflineMsgModel
use chat_server_c.Model.OfflineMsgModel.Effects.{insert-Sent}
use chat_server_c.Service.Chat.{handle_redis_subscribe_message, receive}

module _ ⦃B : Backend⦄ where
  open B use {State, tables}

  -- A message of the channel of `userid`: handed on as it is, or kept for a user who has left since.
  pub data Received (userid : ℤ) (msg : Bytes) (w w' : World State) : Type 0 where
    handed_on :
        (peer : Conn)
        → find userid w.conns ≡ some peer
        → After w (tables w.store) (sent peer msg ∷ []) w'
        → Received userid msg w w'
    stored :
        find userid w.conns ≡ none
        → After w (apply (insert_offline userid msg) (tables w.store)) [] w'
        → Received userid msg w w'

module _ ⦃J : JsonLib⦄ ⦃B : Backend⦄ where
  open B use {State, tables}

  -- On a backend where nothing fails, for an `int` id and a message of at most 973 bytes that
  -- needs no escaping, `handleRedisSubscribeMessage` returns: the message goes to the user's
  -- connection as it is, or, if there is none, is stored for him.
  pub handle_redis-Received :
      (userid : ℤ) (msg : Bytes) (w : World State)
      → IsHealthy B
      → IsInt userid
      → IsPlain msg
      → length msg ≤ 973
      → Returns (λ _ w'. Received userid msg w w') (handle_redis_subscribe_message userid msg w)
  unfolding handle_redis_subscribe_message receive
  handle_redis-Received userid msg w healthy small plain short =
      elim (Option-cases (find userid w.conns)) [
        | inl away ↦ rw away (
            on_store-last (λ _ _. ⊥) _ w (OfflineMsgModel.insert userid msg w.store)
              (insert-Sent userid msg (tables w.store) w.store (tt, (tt, (tt, (plain, (tt, tt)))))
                (insert_offline-Fits userid msg small short) refl)
              (λ _ st h. stored away (record {
                conns_now = refl;
                tables_now = Sent-apply (insert_offline userid msg) _ _ healthy h;
                out_now = sym (append-nil w.out);
              })))
        | inr (peer, here) ↦
            rw here
              (handed_on peer here (record { conns_now = refl; tables_now = refl; out_now = refl }))
      ]
