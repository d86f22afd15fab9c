-- ===== src/Service/Observer/Delivery.antt =====
-- A message that one server publishes, at the server that listens: `Redis::publish`, the Redis server
-- between them, and the thread that reads.
use chat_server_c.Db.Statement.Bounds.{c_str-IsPlain}
use chat_server_c.Db.Statement.{IsPlain}
use chat_server_c.Service.Chat.{handle_redis_subscribe_message}
use chat_server_c.Base.Decimal.{atoi-show_int, show_int, IsInt}
use chat_server_c.Redis.{Hiredis, Reply, no_reply, triple, publish}
use chat_server_c.Service.World.{World}
use chat_server_c.Base.Bytes.{Bytes, codes}
use chat_server_c.Base.Outcome.{next-Returns, Returns, for_each}
use chat_server_c.Base.Int.{ℤ}
use chat_server_c.Db.Backend.{IsHealthy, Backend}
use chat_server_c.Json.{JsonLib}
use chat_server_c.Base.{All, ap, ◌++◌, ◌≡◌, ◌≤◌, length, List, none, refl, some, true, [], ◌∷◌}
use chat_server_c.Service.Observer.{observe, observer_channel_message}
use chat_server_c.Service.Chat.Receiving.{Received, handle_redis-Received}

-- Without a third text: the answers to subscriptions, and no reply.
abbrev pub IsSilent : Reply → Type 0
IsSilent no_reply = Unit {0}
IsSilent (triple kind channel none) = Unit {0}
IsSilent (triple kind channel (some text)) = ⊥

module _ ⦃J : JsonLib⦄ ⦃B : Backend⦄ where
  open B use {State, tables}

  -- The thread skips them.
  skips_silent :
      (rs : List Reply) (r : Reply) (w : World State)
      → All IsSilent rs
      → observer_channel_message (rs ++ r ∷ []) w ≡ observer_channel_message (r ∷ []) w
  unfolding observer_channel_message for_each observe
  skips_silent [] r w h = refl
  skips_silent (no_reply ∷ rs) r w h = skips_silent rs r w h.1
  skips_silent (triple kind channel none ∷ rs) r w h = skips_silent rs r w h.1
  skips_silent (triple kind channel (some text) ∷ rs) r w h = absurd h.0

  handles_message :
      (id : ℤ) (msg : Bytes) (w : World State)
      → IsHealthy B
      → IsInt id
      → IsPlain msg
      → length msg ≤ 973
      → Returns
          (λ _ w'. Received id msg w w')
          (observer_channel_message
            (triple (some (codes "message")) (some (show_int id)) (some msg) ∷ [])
            w)
  unfolding observer_channel_message for_each observe
  handles_message id msg w healthy small plain short = rw (atoi-show_int id) (
      next-Returns _ _ _ (handle_redis_subscribe_message id msg w)
        (handle_redis-Received id msg w healthy small plain short) (λ _ w' h. h))

  module _ ⦃H : Hiredis⦄ where
    open H use {Context, IsUp, Listens, inbox}

    publish-IsPlain :
        (c : Context) (id : ℤ) (msg : Bytes) (st : H.State)
        → IsPlain msg
        → publish c id msg st ≡ H.redis_command c (codes "PUBLISH" ∷ show_int id ∷ msg ∷ []) st
    unfolding publish
    publish-IsPlain c id msg st plain =
        ap (λ m. H.redis_command c (codes "PUBLISH" ∷ show_int id ∷ m ∷ []) st)
          (c_str-IsPlain msg plain)

    -- On a backend where nothing fails, for an `int` id and a message of at most 973 bytes that
    -- needs no escaping, where the Redis server takes commands on one context and has the other
    -- as a subscriber of the id's channel, and what was not read on that yet has no third text:
    -- `Redis::publish` of the message to the id on the first returns true, and the thread that
    -- reads the second sends the message to the user's connection as it was, or, if there is
    -- none, stores it for him, and does nothing else.
    pub observer_channel_message-Received :
        (c d : Context) (id : ℤ) (msg : Bytes) (st : H.State) (w : World State)
        → IsHealthy B
        → IsInt id
        → IsPlain msg
        → length msg ≤ 973
        → IsUp c st
        → Listens d (show_int id) st
        → All IsSilent (inbox d st)
        → ((publish c id msg st).0 ≡ true)
          × Returns
              (λ _ w'. Received id msg w w')
              (observer_channel_message (inbox d (publish c id msg st).1) w)
    observer_channel_message-Received c d id msg st w healthy small plain short up listens silent =
        let message = triple (some (codes "message")) (some (show_int id)) (some msg) in
        rw (publish-IsPlain c id msg st plain) (
          H.command_answered c (codes "PUBLISH" ∷ show_int id ∷ msg ∷ []) st up,
          rw
              (
                H.publish_arrives c d (show_int id) msg st up listens,
                skips_silent (inbox d st) message w silent,
              )
              (handles_message id msg w healthy small plain short),
        )
