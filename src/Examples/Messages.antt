-- ===== src/Examples/Messages.antt =====
-- Messages in the server of Examples.
use chat_server_c.Service.Observer.Delivery.{observer_channel_message-Received}
use chat_server_c.Service.Observer.Across.{one_chat-observer, IsElsewhere}
use chat_server_c.Service.World.{published, sent}
use chat_server_c.Examples.{bob}
use chat_server_c.Service.Observer.{observer_channel_message}
use chat_server_c.Redis.{publish, triple}
use chat_server_c.Redis.Sample.{Cable, sample_hiredis}
use chat_server_c.Base.{none, some, true, ◌≡◌}
use chat_server_c.Service.Chat.Group.{group_chat-Delivered}
use chat_server_c.Service.Chat.Places.{all_out, place, all_kept, keep_more}
use chat_server_c.Base.{zero, suc}
use chat_server_c.Service.Effects.{Became}
use chat_server_c.Service.Chat.Receiving.{handle_redis-Received, Received}
use chat_server_c.Base.Decimal.{show_int}
use chat_server_c.Base.Assoc.{find}
use chat_server_c.Service.Chat.Faults.{
  one_chat_five_digits, one_chat_unknown, one_chat_too_long, StopsWith, notice_short,
}
use chat_server_c.Db.Statement.Bounds.{insert_offline-Fits}
use chat_server_c.Service.Chat.{group_chat, receive, handle_redis_subscribe_message, one_chat}
use chat_server_c.Service.Chat.Routing.{one_chat-Routed, Unknown, Routed}
use chat_server_c.Db.Statement.{insert_offline}
use chat_server_c.Base.Outcome.{overflow, null_row, Returns, Ends}
use chat_server_c.Json.{str, int}
use chat_server_c.Base.Bytes.{bytes_eq, Bytes, codes}
use chat_server_c.Service.World.{World}
use chat_server_c.Protocol.{offline, User}
use chat_server_c.Db.Tables.{apply}
use chat_server_c.Base.Int.{ℤ, pos}
use chat_server_c.Base.{suc, Perm, inr, arith, [], ◌∷◌, none, List, ℕ}
use chat_server_c.Base.{refl, none}
use chat_server_c.Json.Sample.{sample_json, Doc}
use chat_server_c.Db.Server.Sample.{Server, running, running-IsHealthy}
use chat_server_c.Examples.{ann, cat, three_users, world, request, chat_to, IsPlain-by_test}

-- `cat` is connected here.
one_chat-Routed_example :
    Ends
      (λ _ w'. Routed 10 (chat_to 3) (pos 3) world w')
      (Unknown (pos 3) world)
      (one_chat 10 (chat_to 3) world)
unfolding bytes_eq find show_int
one_chat-Routed_example =
    one_chat-Routed 10 (chat_to 3) (pos 3) world running-IsHealthy refl (omega arith)
      (inr (cat, refl))
      (tt, (tt, (tt, (IsPlain-by_test (sample_json.dump (chat_to 3)) refl, (tt, tt)))))
      (insert_offline-Fits (pos 3) _ (omega arith) (omega arith))
      (notice_short (pos 3) (omega arith))

abbrev chat_in_group : Doc
chat_in_group =
    request (pos 11)
      (("id", int (pos 1)) ∷ ("groupid", int (pos 1)) ∷ ("msg", str (codes "all")) ∷ [])

group_chat-Delivered_example :
    Returns
      (λ _ w'.
        (ids : List ℤ) × Perm ids (pos 2 ∷ pos 3 ∷ [])
        × Became world.conns
            (keep_more three_users
              (all_kept (sample_json.dump chat_in_group) (place world.conns three_users) ids))
            (all_out (sample_json.dump chat_in_group) (place world.conns three_users) ids)
            w')
      (group_chat 10 chat_in_group world)
unfolding bytes_eq find
group_chat-Delivered_example =
    group_chat-Delivered 10 chat_in_group (pos 1) (pos 1) world running-IsHealthy refl refl
      (omega arith) (omega arith) (IsPlain-by_test (sample_json.dump chat_in_group) refl)
      (omega arith) ((omega arith, refl), ((omega arith, refl), tt))

handle_redis-Received_example :
    Received
      (pos 3)
      (codes "hi")
      world
      (handle_redis_subscribe_message (pos 3) (codes "hi") world).1
unfolding find handle_redis_subscribe_message receive
handle_redis-Received_example =
    handle_redis-Received (pos 3) (codes "hi") world running-IsHealthy (omega arith)
      (IsPlain-by_test (codes "hi") refl) (omega arith)

one_chat_unknown_example : StopsWith null_row three_users world (one_chat 10 (chat_to 9) world)
unfolding bytes_eq find
one_chat_unknown_example =
    one_chat_unknown 10 (chat_to 9) (pos 9) world running-IsHealthy refl (omega arith) refl refl

-- A user with an id of five digits, who is offline.
abbrev eve : User
eve = record { id = pos 10000; name = codes "eve"; password = codes "pe"; state = offline }

abbrev eve_world : World Server
eve_world = record {
  store = record { tables = record three_users { users = eve ∷ [] }; answer = none; key = 0 };
  conns = [];
  out = [];
}

one_chat_five_digits_example :
    StopsWith overflow
      (apply (insert_offline (pos 10000) (sample_json.dump (chat_to 10000))) eve_world.store.tables)
      eve_world
      (one_chat 10 (chat_to 10000) eve_world)
unfolding bytes_eq find
one_chat_five_digits_example =
    one_chat_five_digits 10 (chat_to 10000) 10000 eve_world running-IsHealthy refl (omega arith)
      (omega arith) refl eve refl refl
      (tt, (tt, (tt, (IsPlain-by_test (sample_json.dump (chat_to 10000)) refl, (tt, tt)))))
      (insert_offline-Fits (pos 10000) (sample_json.dump (chat_to 10000)) (omega arith)
        (omega arith))

abbrev many : ℕ → Bytes
many zero = []
many (suc n) = b'x' ∷ many n

abbrev long_chat : Doc
long_chat = request (pos 5) (("toid", int (pos 1)) ∷ ("msg", str (many 1000)) ∷ [])

one_chat_too_long_example : StopsWith overflow three_users world (one_chat 10 long_chat world)
unfolding bytes_eq find
one_chat_too_long_example =
    one_chat_too_long 10 long_chat (pos 1) world running-IsHealthy refl (omega arith) refl ann refl
      refl (IsPlain-by_test (sample_json.dump long_chat) refl) (omega arith)

-- The answer to the subscription was not read yet.
abbrev listening : Cable
listening = record {
  went = [];
  waits = [];
  signals = 0;
  replies = triple (some (codes "subscribe")) (some (codes "3")) none ∷ [];
}

observer_channel_message-Received_example :
    ((publish tt (pos 3) (codes "hi") listening).0 ≡ true)
    × Returns
        (λ _ w'. Received (pos 3) (codes "hi") world w')
        (observer_channel_message (publish tt (pos 3) (codes "hi") listening).1.replies world)
observer_channel_message-Received_example =
    observer_channel_message-Received tt tt (pos 3) (codes "hi") listening world running-IsHealthy
      (omega arith) (IsPlain-by_test (codes "hi") refl) (omega arith) tt tt (tt, tt)

-- `bob` is online, and another server has his connection.
abbrev beyond : World Server
beyond = record world { conns = (pos 2, 50) ∷ [] }

bob-IsElsewhere : IsElsewhere (pos 2) world
unfolding find
bob-IsElsewhere = record { user = bob; row = refl; same_id = λ h. cc h; on = refl; away = refl }

one_chat-observer_example :
    Returns
      (λ _ w'. w'.out ≡ published (pos 2) (sample_json.dump (chat_to 2)) ∷ [])
      (one_chat 10 (chat_to 2) world)
    × Returns
        (λ _ v'. v'.out ≡ sent 50 (sample_json.dump (chat_to 2)) ∷ [])
        (observer_channel_message
          (publish tt (pos 2) (sample_json.dump (chat_to 2)) listening).1.replies
          beyond)
unfolding bytes_eq find show_int
one_chat-observer_example =
    one_chat-observer 10 50 (chat_to 2) (pos 2) world beyond tt tt listening running-IsHealthy refl
      (omega arith) bob-IsElsewhere refl (IsPlain-by_test (sample_json.dump (chat_to 2)) refl)
      (omega arith) (notice_short (pos 2) (omega arith)) tt tt (tt, tt)
