-- ===== src/Service/Observer.antt =====
-- redis.cc: the thread that reads the channels, over the replies that come in.
pub mod Delivery
pub mod Across
use chat_server_c.Base.{List, [], ◌∷◌, ◌≡◌, Option, none, some}
use chat_server_c.Base.Int.{ℤ}
use chat_server_c.Base.Bytes.{Bytes, codes}
use chat_server_c.Base.Decimal.{show_int, atoi}
use chat_server_c.Base.Outcome.{pure, raise, null_row, for_each}
use chat_server_c.Json.{JsonLib}
use chat_server_c.Db.Backend.{Backend}
use chat_server_c.Base.Bytes.{c_str}
use chat_server_c.Redis.{Reply, no_reply, triple}
use chat_server_c.Service.Session.{Run}
use chat_server_c.Service.Chat.{handle_redis_subscribe_message}

module _ ⦃J : JsonLib⦄ ⦃B : Backend⦄ where
  -- `atoi` of a null `str` is undefined; the model stops there.
  pub observe : Reply → Run
  observe no_reply = pure tt
  observe (triple kind channel none) = pure tt
  observe (triple kind none (some text)) = raise null_row
  observe (triple kind (some channel) (some text)) =
      handle_redis_subscribe_message (atoi channel) text

  -- The loop, over the replies until the connection ends.
  pub observer_channel_message : List Reply → Run
  observer_channel_message replies = for_each replies observe
