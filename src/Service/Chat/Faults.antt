-- ===== src/Service/Chat/Faults.antt =====
-- The messages on which `oneChat` ends the process.
use chat_server_c.Protocol.{User}
use chat_server_c.Base.Assoc.{find}
use chat_server_c.Base.Bytes.{codes}
use chat_server_c.Db.Calls.Effects.{Sent-apply}
use chat_server_c.Db.Calls.{sprintf}
use chat_server_c.Model.UserModel
use chat_server_c.Model.OfflineMsgModel
use chat_server_c.Service.World.{World, Conn, on_store-Returns, on_store-Ends}
use chat_server_c.Db.Statement.Bounds.{select_user-Fits, insert_offline_too_long}
use chat_server_c.Model.OfflineMsgModel.Effects.{insert-Sent, insert_overflows}
use chat_server_c.Db.Statement.{Fits, insert_offline, IsPlain, IsClean}
use chat_server_c.Model.UserModel.Effects.{query-Ends, Finds, users_with}
use chat_server_c.Db.Backend.{Backend, IsHealthy}
use chat_server_c.Db.Tables.{apply, Tables}
use chat_server_c.Base.Outcome.{Ends, overflow, null_row, Outcome, Fault}
use chat_server_c.Service.Chat.{is_online, keep_and_tell, route, one_chat, notice_size, notice}
use chat_server_c.Json.{get_int_lem, int, JsonLib}
use chat_server_c.Base.Decimal.{IsInt, length-show_ℕ_ge, show_int}
use chat_server_c.Base.{
  refl, not_lt→ltb, subst, inr, inl, false, ◌∷◌, [], none, some, length-append, arith, ◌<◌, ◌+◌,
  ◌≤◌, ◌≡◌, ℕ, length,
}
use chat_server_c.Base.Int.{ℤ, pos}

-- What `tmp` has to hold is 45 bytes and the id.
length-notice : (toid : ℤ) → length (notice toid) ≡ 45 + length (show_int toid)
unfolding notice
length-notice toid =
    omega (arith, length-append (show_int toid) (codes " do not online, message has chached!"))

pub notice_short : (toid : ℤ) → length (show_int toid) ≤ 4 → length (notice toid) < notice_size
notice_short toid h = omega (arith, length-notice toid)

pub notice_long : (n : ℕ) → 10000 ≤ n → ¬ (length (notice (pos n)) < notice_size)
unfolding show_int
notice_long n h k = omega (arith, length-notice (pos n), length-show_ℕ_ge n 4 (omega arith))

module _ ⦃J : JsonLib⦄ ⦃B : Backend⦄ where
  open J use {Json, get, dump}
  open B use {State, tables}

  -- The process ends with this fault, over these tables, and nothing was sent.
  abbrev pub StopsWith : Fault → Tables → World State → Outcome (Unit {0}) × World State → Type 0
  StopsWith f t w r =
      Ends (λ _ _. ⊥)
        (λ e w'. (e ≡ f) × (tables w'.store ≡ t) × (w'.out ≡ w.out) × (w'.conns ≡ w.conns)) r

  module _ (conn : Conn) (js : Json) (toid : ℤ) (w : World State) (healthy : IsHealthy B)
      (to : get js "toid" ≡ some (int toid)) (small : IsInt toid)
      (away : find toid w.conns ≡ none) where
    -- To a user who is not online anywhere, `oneChat` keeps the message.
    one_chat_off :
        (Q : Unit {0} → World State → Type 0) (F : Fault → World State → Type 0) (u : User)
        → users_with toid (tables w.store) ≡ u ∷ []
        → is_online u ≡ false
        → ((st : State)
            → tables st ≡ tables w.store
            → Ends Q F (keep_and_tell conn js toid (record w { store = st })))
        → Ends Q F (one_chat conn js w)
    unfolding one_chat route
    one_chat_off Q F u row off k = rw (get_int_lem js "toid" toid to) (
        rw away (
          on_store-Ends F Q _ w (UserModel.query toid w.store)
            (query-Ends toid (tables w.store) w.store (select_user-Fits toid small) (inr (u, row))
              refl)
            (λ f st h. cc (h.1, row)) (λ v st h. rw (still_off v h.0) (k st h.1))))
      where
        still_off : (v : User) → Finds toid (tables w.store) v → is_online v ≡ false
        still_off v (inl row') =
            let same : u ≡ v = cc (row, row') in subst (λ x. is_online x ≡ false) same off
        still_off v (inr (_, sick)) = absurd (sick healthy)

    -- On a backend where nothing fails, a message to an `int` id that has neither a connection
    -- nor a row ends the process on a null row; nothing was sent or stored.
    pub one_chat_unknown :
        users_with toid (tables w.store) ≡ []
        → StopsWith null_row (tables w.store) w (one_chat conn js w)
    unfolding one_chat route
    one_chat_unknown absent = rw (get_int_lem js "toid" toid to) (
        rw away (
          on_store-Ends _ _ _ w (UserModel.query toid w.store)
            (query-Ends toid (tables w.store) w.store (select_user-Fits toid small) (inl absent)
              refl)
            (λ f st h. (h.0, h.2, refl, refl)) (λ v st h. absurd (nobody v h.0))))
      where
        nobody : (v : User) → Finds toid (tables w.store) v → ⊥
        nobody v (inl row) = cc
        nobody v (inr (_, sick)) = absurd (sick healthy)

    -- The notice for an id of five digits or more runs past `tmp`, when the message is stored
    -- already.
    one_chat-notice :
        (u : User)
        → users_with toid (tables w.store) ≡ u ∷ []
        → is_online u ≡ false
        → IsClean (insert_offline toid (dump js))
        → Fits (insert_offline toid (dump js))
        → ¬ (length (notice toid) < notice_size)
        → StopsWith overflow
            (apply (insert_offline toid (dump js)) (tables w.store))
            w
            (one_chat conn js w)
    unfolding keep_and_tell sprintf
    one_chat-notice u row off clean fits long = one_chat_off _ _ u row off (λ st same.
        on_store-Returns _ _ _ (record w { store = st }) (OfflineMsgModel.insert toid (dump js) st)
          (insert-Sent toid (dump js) (tables w.store) st clean fits same)
          (λ _ st' h.
            rw (not_lt→ltb (length (notice toid)) notice_size long)
              (refl, Sent-apply (insert_offline toid (dump js)) _ _ healthy h, refl, refl)))

    -- On a backend where nothing fails, a message of at least 985 bytes that needs no escaping,
    -- to an `int` id without a connection whose only row does not say online, overflows the
    -- statement's buffer; nothing was sent or stored.
    pub one_chat_too_long :
        (u : User)
        → users_with toid (tables w.store) ≡ u ∷ []
        → is_online u ≡ false
        → IsPlain (dump js)
        → 985 ≤ length (dump js)
        → StopsWith overflow (tables w.store) w (one_chat conn js w)
    unfolding keep_and_tell
    one_chat_too_long u row off plain long = one_chat_off _ _ u row off (λ st same.
        rw (insert_overflows toid (dump js) st (insert_offline_too_long toid (dump js) plain long))
          (refl, same, refl, refl))

  -- On a backend where nothing fails, a message that needs no escaping and fits the statement, to
  -- an id from 10000 to 2^31 - 1 without a connection whose only row does not say online,
  -- overflows the buffer of the notice: the message is stored then, and the sender is told
  -- nothing.
  pub one_chat_five_digits :
      (conn : Conn) (js : Json) (n : ℕ) (w : World State)
      → IsHealthy B
      → get js "toid" ≡ some (int (pos n))
      → 10000 ≤ n
      → IsInt (pos n)
      → find (pos n) w.conns ≡ none
      → (u : User) → users_with (pos n) (tables w.store) ≡ u ∷ []
      → is_online u ≡ false
      → IsClean (insert_offline (pos n) (dump js))
      → Fits (insert_offline (pos n) (dump js))
      → StopsWith overflow
          (apply (insert_offline (pos n) (dump js)) (tables w.store))
          w
          (one_chat conn js w)
  one_chat_five_digits conn js n w healthy to big small away u row off clean fits =
      one_chat-notice conn js (pos n) w healthy to small away u row off clean fits
        (notice_long n big)
