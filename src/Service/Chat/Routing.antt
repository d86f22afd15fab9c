-- ===== src/Service/Chat/Routing.antt =====
-- Where a message to one user goes.
use chat_server_c.Base.{
  Option-cases, lt→ltb, ◌<◌, ◌≡◌, refl, inl, inr, [], ◌∷◌, ◌++◌, none, some, true, false, arith,
  length, Bool-cases,
}
use chat_server_c.Base.Int.{ℤ}
use chat_server_c.Base.Bytes.{bytes_eq_iff}
use chat_server_c.Base.Decimal.{IsInt}
use chat_server_c.Base.Assoc.{find}
use chat_server_c.Base.Outcome.{Ends, Fault, done, null_row, Returns, Ends-mono}
use chat_server_c.Protocol.{User, online, msg_code, user_offline}
use chat_server_c.Json.{get_int_lem, JsonLib, int, str}
use chat_server_c.Db.Statement.{Fits, IsClean, insert_offline}
use chat_server_c.Db.Statement.Bounds.{select_user-Fits}
use chat_server_c.Db.Tables.{Tables, apply}
use chat_server_c.Db.Backend.{Backend, IsHealthy}
use chat_server_c.Db.Calls.{sprintf}
use chat_server_c.Db.Calls.Effects.{Sent-apply}
use chat_server_c.Model.UserModel
use chat_server_c.Model.UserModel.Effects.{HasOne, Finds, users_with, query-Ends}
use chat_server_c.Model.OfflineMsgModel
use chat_server_c.Model.OfflineMsgModel.Effects.{insert-Sent}
use chat_server_c.Service.Effects.{After}
use chat_server_c.Service.World.{Conn, World, sent, published, on_store-Ends, on_store-Returns}
use chat_server_c.Service.Chat.{
  is_online, notice, notice_size, keep_and_tell, forward, route, one_chat,
}

module _ ⦃J : JsonLib⦄ ⦃B : Backend⦄ where
  open J use {Json, get, put, dump, IsObject}
  open B use {State, tables}

  abbrev pub offline_reply : Json → ℤ → Json
  offline_reply js toid =
      put (put js "errno" (int (msg_code user_offline))) "offlineresponse" (str (notice toid))

  -- What `oneChat` does with a message to `toid`, by where that user is.
  pub data Routed (conn : Conn) (js : Json) (toid : ℤ) (w w' : World State) : Type 0 where
    forwarded :
        (peer : Conn)
        → find toid w.conns ≡ some peer
        → After w (tables w.store) (sent peer (dump js) ∷ []) w'
        → Routed conn js toid w w'
    passed_on :
        (u : User)
        → find toid w.conns ≡ none
        → users_with toid (tables w.store) ≡ u ∷ []
        → is_online u ≡ true
        → After w (tables w.store) (published toid (dump js) ∷ []) w'
        → Routed conn js toid w w'
    kept_back :
        (u : User)
        → find toid w.conns ≡ none
        → users_with toid (tables w.store) ≡ u ∷ []
        → is_online u ≡ false
        → After w
            (apply (insert_offline toid (dump js)) (tables w.store))
            (sent conn (dump (offline_reply js toid)) ∷ [])
            w'
        → Routed conn js toid w w'

  -- The one way in which `oneChat` ends the process on a short id.
  abbrev pub Unknown : ℤ → World State → Fault → World State → Type 0
  Unknown toid w f w' =
      (f ≡ null_row) × (find toid w.conns ≡ none) × (users_with toid (tables w.store) ≡ [])

  pub keep_and_tell-After :
      (conn : Conn) (js : Json) (toid : ℤ) (w : World State) (t : Tables)
      → IsHealthy B
      → IsClean (insert_offline toid (dump js))
      → Fits (insert_offline toid (dump js))
      → length (notice toid) < notice_size
      → tables w.store ≡ t
      → Returns
          (λ _ w'.
            After w
              (apply (insert_offline toid (dump js)) t)
              (sent conn (dump (offline_reply js toid)) ∷ [])
              w')
          (keep_and_tell conn js toid w)
  unfolding keep_and_tell sprintf
  keep_and_tell-After conn js toid w t healthy clean fits short e =
      on_store-Returns _ _ _ w (OfflineMsgModel.insert toid (dump js) w.store)
        (insert-Sent toid (dump js) t w.store clean fits e)
        (λ _ st h. rw (lt→ltb (length (notice toid)) notice_size short) (record {
          conns_now = refl;
          tables_now = Sent-apply (insert_offline toid (dump js)) t _ healthy h;
          out_now = refl;
        }))

  module _ (conn : Conn) (js : Json) (toid : ℤ) (w : World State) (healthy : IsHealthy B)
      (clean : IsClean (insert_offline toid (dump js)))
      (fits : Fits (insert_offline toid (dump js))) (short : length (notice toid) < notice_size)
      (away : find toid w.conns ≡ none) where
    -- The branches behind `_userModel.query(toId)`.
    route_user :
        (u : User) (st : State)
        → users_with toid (tables w.store) ≡ u ∷ []
        → tables st ≡ tables w.store
        → Ends
            (λ _ w'. Routed conn js toid w w')
            (Unknown toid w)
            (forward conn js toid u (record w { store = st }))
    route_user u st row same = elim (Bool-cases (is_online u)) [
      | inl on ↦
          rw on (
            passed_on u away row on
              (record { conns_now = refl; tables_now = same; out_now = refl }))
      | inr off ↦ rw off (
          Ends-mono (keep_and_tell conn js toid (record w { store = st }))
            (keep_and_tell-After conn js toid (record w { store = st }) (tables w.store) healthy
              clean fits short same)
            (λ _ w' h.
              kept_back u away row off (record {
                conns_now = h.conns_now;
                tables_now = h.tables_now;
                out_now = h.out_now;
              }))
            (λ _ _ no_fault. absurd no_fault))
    ]

    route_away :
        IsInt toid
        → HasOne toid (tables w.store)
        → Ends (λ _ w'. Routed conn js toid w w') (Unknown toid w) (route conn js toid none w)
    unfolding route
    route_away small key =
        on_store-Ends _ _ _ w (UserModel.query toid w.store)
          (query-Ends toid (tables w.store) w.store (select_user-Fits toid small) key refl)
          (λ f st h. (h.0, away, h.1)) (λ u st h. route_user u st (found u h.0) h.1)
      where
        found :
            (u : User) → Finds toid (tables w.store) u → users_with toid (tables w.store) ≡ u ∷ []
        found u (inl row) = row
        found u (inr (_, sick)) = absurd (sick healthy)

  -- On a backend where nothing fails, and for a request whose `toid` is an `int` that at most one
  -- row of `user` has, whose text needs no escaping and fits the statement that stores it, and
  -- whose notice fits `tmp`: `oneChat` either sends the request to the user's connection, or, if
  -- there is none and his row says he is online, publishes it to his channel, or, if it says he
  -- is not, stores it and tells the sender, and does nothing else; or it ends the process on a
  -- null row, where there is neither a connection nor a row of that id.
  pub one_chat-Routed :
      (conn : Conn) (js : Json) (toid : ℤ) (w : World State)
      → IsHealthy B
      → get js "toid" ≡ some (int toid)
      → IsInt toid
      → HasOne toid (tables w.store)
      → IsClean (insert_offline toid (dump js))
      → Fits (insert_offline toid (dump js))
      → length (notice toid) < notice_size
      → Ends (λ _ w'. Routed conn js toid w w') (Unknown toid w) (one_chat conn js w)
  unfolding one_chat route
  one_chat-Routed conn js toid w healthy to small key clean fits short =
      rw (get_int_lem js "toid" toid to) (elim (Option-cases (find toid w.conns)) [
        | inl away ↦ rw away (route_away conn js toid w healthy clean fits short away small key)
        | inr (peer, here) ↦
            rw here
              (forwarded peer here (record { conns_now = refl; tables_now = refl; out_now = refl }))
      ])

  -- Who is connected gets the message, whatever the tables hold.
  pub one_chat_here :
      (conn : Conn) (js : Json) (toid : ℤ) (peer : Conn) (w : World State)
      → get js "toid" ≡ some (int toid)
      → find toid w.conns ≡ some peer
      → one_chat conn js w ≡ (done tt, record w { out = w.out ++ sent peer (dump js) ∷ [] })
  unfolding one_chat route
  one_chat_here conn js toid peer w to here = rw (get_int_lem js "toid" toid to, here) refl

-- Who counts as online has this state in his row.
pub is_online_state : (u : User) → is_online u ≡ true → u.state ≡ online
is_online_state u h = (bytes_eq_iff u.state online).0 (ground (arith, h))
