-- ===== src/Service/Observer/Across.antt =====
-- A message from a user of one server to a user of another, through Redis.
use chat_server_c.Base.{
  All, ap, length, none, some, true, [], ◌++◌, ◌<◌, ◌≡◌, ◌≢◌, ◌≤◌, ◌∙◌, ◌∷◌, inr, subst, sym,
}
use chat_server_c.Base.Assoc.{find}
use chat_server_c.Base.Decimal.{IsInt, show_int}
use chat_server_c.Base.Int.{ℤ, int_eq_ne, minus_one}
use chat_server_c.Base.Bytes.{bytes_eq_iff}
use chat_server_c.Base.Outcome.{Ends-mono, Returns}
use chat_server_c.Db.Backend.{Backend, IsHealthy}
use chat_server_c.Db.Statement.{IsPlain}
use chat_server_c.Db.Statement.Bounds.{insert_offline-Fits}
use chat_server_c.Json.{JsonLib, int}
use chat_server_c.Model.UserModel.Effects.{users_with}
use chat_server_c.Protocol.{User, online}
use chat_server_c.Redis.{Hiredis, publish}
use chat_server_c.Service.Chat.{is_online, notice, notice_size, one_chat}
use chat_server_c.Service.Chat.Receiving.{Received, handed_on, stored}
use chat_server_c.Service.Chat.Routing.{Routed, forwarded, kept_back, one_chat-Routed, passed_on}
use chat_server_c.Service.Observer.{observer_channel_message}
use chat_server_c.Service.Observer.Delivery.{IsSilent, observer_channel_message-Received}
use chat_server_c.Service.World.{Conn, World, published, sent}

module _ ⦃J : JsonLib⦄ ⦃B : Backend⦄ ⦃H : Hiredis⦄ where
  open J use {Json, get, dump}
  open B use {State, tables}
  open H use {Context, IsUp, Listens, inbox}

  -- The user is at another server: his row says online, and there is no connection here.
  pub record IsElsewhere (id : ℤ) (w : World State) : Type 0 where
    pub user : User
    pub row : users_with id (tables w.store) ≡ user ∷ []
    pub same_id : user.id ≢ minus_one
    pub on : user.state ≡ online
    pub away : find id w.conns ≡ none

  -- On a backend where nothing fails, for a message of at most 973 bytes that needs no escaping,
  -- to an `int` id other than -1 whose only row says online and which has no connection at one
  -- server and one at another, where the Redis server takes commands of the one and has the other
  -- as a subscriber of the id's channel, and what the other has not read has no third text:
  -- `oneChat` at the one publishes the message and sends nothing else, and behind
  -- `Redis::publish` of it the thread that reads the channels at the other sends it to the user's
  -- connection, and nothing else.
  pub one_chat-observer :
      (conn peer : Conn) (js : Json) (id : ℤ) (w v : World State) (c d : Context) (st : H.State)
      → IsHealthy B
      → get js "toid" ≡ some (int id)
      → IsInt id
      → IsElsewhere id w
      → find id v.conns ≡ some peer
      → IsPlain (dump js)
      → length (dump js) ≤ 973
      → length (notice id) < notice_size
      → IsUp c st
      → Listens d (show_int id) st
      → All IsSilent (inbox d st)
      → Returns (λ _ w'. w'.out ≡ w.out ++ published id (dump js) ∷ []) (one_chat conn js w)
        × Returns
            (λ _ v'. v'.out ≡ v.out ++ sent peer (dump js) ∷ [])
            (observer_channel_message (inbox d (publish c id (dump js) st).1) v)
  one_chat-observer conn peer js id w v c d st healthy to small e here plain fits short up listens
        silent =
      (
        Ends-mono (one_chat conn js w)
            (one_chat-Routed conn js id w healthy to small (inr (e.user, e.row))
              (tt, (tt, (tt, (plain, (tt, tt))))) (insert_offline-Fits id (dump js) small fits)
              short)
            (λ _ w' r. out_there w' r) (λ f w' h. cc (h.2, e.row)),
        Ends-mono (observer_channel_message (inbox d (publish c id (dump js) st).1) v)
            (observer_channel_message-Received c d id (dump js) st v healthy small plain fits up
              listens silent).1
            (λ _ v' r. arrives v' r) (λ _ _ no_fault. no_fault),
      )
    where
      counts_online : is_online e.user ≡ true
      counts_online =
          rw (int_eq_ne e.user.id minus_one e.same_id) ((bytes_eq_iff e.user.state online).1 e.on)

      out_there :
          (w' : World State)
          → Routed conn js id w w'
          → w'.out ≡ w.out ++ published id (dump js) ∷ []
      out_there w' (forwarded q found _) = cc (found, e.away)
      out_there w' (passed_on u _ row on b) = b.out_now
      out_there w' (kept_back u _ row off _) =
          let same : u ∷ [] ≡ e.user ∷ [] = sym row ∙ e.row in
          let same : u ≡ e.user = cc same in
          let same_test : is_online u ≡ is_online e.user = ap is_online same in
          cc (same_test, off, counts_online)

      arrives :
          (v' : World State)
          → Received id (dump js) v v'
          → v'.out ≡ v.out ++ sent peer (dump js) ∷ []
      arrives v' (stored gone _) = cc (gone, here)
      arrives v' (handed_on q found b) =
          let hit : some q ≡ some peer = sym found ∙ here in
          subst (λ k. v'.out ≡ v.out ++ sent k (dump js) ∷ []) (cc hit) b.out_now
