-- ===== src/Service/Session/Delivery.antt =====
-- Messages and logins, one behind the other: what waits is handed over once, and who is in gets
-- messages at once.
use chat_server_c.Db.Statement.Bounds.{insert_offline-Fits}
use chat_server_c.Service.Session.{login_json, login}
use mathlib.Core.List.{map-append}
use chat_server_c.Base.Decimal.{IsInt}
use chat_server_c.Base.Outcome.{next-Returns, ◌>>◌, Ends-mono, Returns}
use chat_server_c.Base.Filter.{keep-keep-not, keep-append, keep}
use chat_server_c.Base.Assoc.{find-insert, find}
use chat_server_c.Db.Statement.{IsPlain, insert_offline}
use chat_server_c.Service.World.{subscribed, sent, World, Conn}
use chat_server_c.Protocol.{Group, online, User}
use chat_server_c.Db.Tables.{set_state, message_for, apply, Tables}
use chat_server_c.Db.Backend.{IsHealthy, Backend}
use chat_server_c.Base.Bytes.{Bytes}
use chat_server_c.Json.{str, int, JsonLib}
use chat_server_c.Base.Int.{int_eq_refl, int_eq_ne, int_eq_iff, int_eq, ℤ}
use chat_server_c.Base.{
  true, inr, Perm, ◌<◌, subst, ◌≤◌, ◌∙◌, sym, ◌≢◌, length, arith, not, map, none, ap, [], ◌∷◌, some,
  false, ◌≡◌, List, refl, ◌++◌,
}
use chat_server_c.Service.Effects.{After}
use chat_server_c.Service.Session.Welcome.{Welcomed, GroupsFit, users_with-set_state}
use chat_server_c.Service.Session.Login.{login-Answered, Answered, refused, in_already, let_in}
use chat_server_c.Model.UserModel.Effects.{users_with}
use chat_server_c.Model.OfflineMsgModel.Effects.{waiting}
use chat_server_c.Service.Chat.{is_online, one_chat, notice, notice_size}
use chat_server_c.Service.Chat.Routing.{
  one_chat_here, is_online_state, one_chat-Routed, Routed, forwarded, passed_on, kept_back,
}

-- The messages for another user stay.
pub keep-keep_other :
    (id j : ℤ) (ms : List (ℤ × Bytes))
    → int_eq id j ≡ false
    → keep (message_for j) (keep (λ m. not (message_for id m)) ms) ≡ keep (message_for j) ms
keep-keep_other id j [] ne = refl
keep-keep_other id j ((k, m) ∷ ms) ne =
    ground (arith, keep-keep_other id j ms ne, int_eq_iff k id, int_eq_iff k j, int_eq_iff id j)

pub waiting-append :
    (id : ℤ) (msg : Bytes) (t : Tables)
    → waiting id (apply (insert_offline id msg) t) ≡ waiting id t ++ msg ∷ []
waiting-append id msg t =
    ap (map (λ m. m.1)) (keep-append (message_for id) t.messages ((id, msg) ∷ []))
    ∙ rw (int_eq_refl id)
        (map-append (λ m. m.1) (keep (message_for id) t.messages) ((id, msg) ∷ []))

module _ ⦃J : JsonLib⦄ ⦃B : Backend⦄ where
  open J use {Json, get, put, dump}
  open B use {State, tables}

  -- The user is online, nothing waits for him, and what waits for others is as before.
  abbrev pub TakenOnce : ℤ → User → Tables → Tables → Type 0
  TakenOnce id u t t' =
      (users_with id t' ≡ set_state online u ∷ [])
      × (waiting id t' ≡ [])
      × ((j : ℤ) → id ≢ j → waiting j t' ≡ waiting j t)

  -- Behind a login the user is online and nothing waits for him; what waits for others stays.
  pub Welcomed-TakenOnce :
      (conn : Conn) (id : ℤ) (u : User) (w w' : World State)
      → users_with id (tables w.store) ≡ u ∷ []
      → Welcomed conn id (set_state online u) w w'
      → TakenOnce id u (tables w.store) (tables w'.store)
  Welcomed-TakenOnce conn id u w w' row h = rw h.tables_now (
    users_with-set_state id online (tables w.store).users u row,
    ap (map (λ m. m.1)) (keep-keep-not (message_for id) (tables w.store).messages),
    λ j ne.
        ap (map (λ m. m.1)) (keep-keep_other id j (tables w.store).messages (int_eq_ne id j ne)),
  )

  -- The row of the user and the request of a login that will be let in.
  abbrev pub CanLogIn : Json → ℤ → User → World State → Type 0
  CanLogIn js id u w =
      (get js "id" ≡ some (int id))
      × (get js "password" ≡ some (str u.password))
      × IsInt id
      × (users_with id (tables w.store) ≡ u ∷ [])
      × (u.state ≢ online)
      × GroupsFit id (tables w.store)

  pub login-Welcomed :
      (conn : Conn) (js : Json) (id : ℤ) (u : User) (w : World State)
      → IsHealthy B
      → CanLogIn js id u w
      → Returns (λ _ w'. Welcomed conn id (set_state online u) w w') (login conn js w)
  login-Welcomed conn js id u w healthy (has_id, has_pwd, small, row, off, fit) =
      Ends-mono (login conn js w)
        (login-Answered conn js id u.password w healthy has_id has_pwd small (inr (u, row)) fit)
        (λ _ w' (v, row', a). into v w' (cc (row, row')) a) (λ f w' h. cc (h.1, row))
    where
      into :
          (v : User) (w' : World State)
          → v ≡ u
          → Answered conn id u.password v w w'
          → Welcomed conn id (set_state online u) w w'
      into v w' e (refused wrong _) = absurd (wrong (ap (λ x. x.password) e))
      into v w' e (in_already _ on _) = absurd (off (sym (ap (λ x. x.state) e) ∙ on))
      into v w' e (let_in _ _ h) = subst (λ x. Welcomed conn id (set_state online x) w w') e h

  -- On a backend where nothing fails, a login that has the `int` id and the password of the id's
  -- only row, which does not say online, and groups whose ids fit the statements, is answered
  -- with all messages that waited for the user; behind it his row says online, no message waits
  -- for him, and what waits for every other id is as before.
  pub login-TakenOnce :
      (conn : Conn) (js : Json) (id : ℤ) (u : User) (w : World State)
      → IsHealthy B
      → CanLogIn js id u w
      → Returns
          (λ _ w'.
            (ms : List Bytes) × (fs : List User) × (gs : List Group) × Perm ms
              (waiting id (tables w.store))
            × (w'.out
                ≡ w.out
                  ++ subscribed id
                    ∷ sent conn (dump (login_json (set_state online u) ms fs gs))
                    ∷ [])
            × TakenOnce id u (tables w.store) (tables w'.store))
          (login conn js w)
  login-TakenOnce conn js id u w healthy can =
      Ends-mono (login conn js w) (login-Welcomed conn js id u w healthy can)
        (λ _ w' h. (
          h.messages,
          h.friends,
          h.groups,
          h.messages_all,
          h.out_now,
          Welcomed-TakenOnce conn id u w w' can.3 h,
        ))
        (λ _ _ no_fault. no_fault)

  -- On a backend where nothing fails, a login that has the `int` id and the password of the id's
  -- only row, which does not say online, groups whose ids fit the statements, and an id that is
  -- not in `_userConnMap`, is let in, and a message to the id right behind it is sent to the
  -- connection of the login, and nothing else happens.
  pub login-one_chat :
      (conn sender : Conn) (js msg : Json) (id : ℤ) (u : User) (w : World State)
      → IsHealthy B
      → CanLogIn js id u w
      → find id w.conns ≡ none
      → get msg "toid" ≡ some (int id)
      → Returns
          (λ _ w2.
            (w1 : World State) × Welcomed conn id (set_state online u) w w1
            × After w1 (tables w1.store) (sent conn (dump msg) ∷ []) w2)
          ((login conn js >> one_chat sender msg) w)
  login-one_chat conn sender js msg id u w healthy can fresh to =
      next-Returns _ _ _ (login conn js w) (login-Welcomed conn js id u w healthy can) (λ _ w1 h.
        rw (one_chat_here sender msg id conn w1 to (now_here w1 h))
          (w1, h, record { conns_now = refl; tables_now = refl; out_now = refl }))
    where
      now_here :
          (w1 : World State)
          → Welcomed conn id (set_state online u) w w1
          → find id w1.conns ≡ some conn
      now_here w1 h =
          ap (find id) h.conns_now
          ∙ find-insert id id conn w.conns
          ∙ rw (fresh, int_eq_refl id) refl

  -- On a backend where nothing fails: a message of at most 973 bytes that needs no escaping, to
  -- an `int` id that has no connection and one row only, which does not say online, whose groups'
  -- ids fit the statements and whose notice fits `tmp`: if the user logs in next with the row's
  -- password, he is let in, and the answer lists what waited before and this message, each as
  -- often as it was stored.
  pub one_chat-login :
      (sender conn : Conn) (msg js : Json) (id : ℤ) (u : User) (w : World State)
      → IsHealthy B
      → CanLogIn js id u w
      → find id w.conns ≡ none
      → get msg "toid" ≡ some (int id)
      → IsPlain (dump msg)
      → length (dump msg) ≤ 973
      → length (notice id) < notice_size
      → Returns
          (λ _ w2.
            (w1 : World State) × (h : Welcomed conn id (set_state online u) w1 w2) × Perm h.messages
              (waiting id (tables w.store) ++ dump msg ∷ []))
          ((one_chat sender msg >> login conn js) w)
  one_chat-login sender conn msg js id u w healthy can away to plain short short_notice =
      next-Returns _ _ _ (one_chat sender msg w)
        (Ends-mono (one_chat sender msg w)
          (one_chat-Routed sender msg id w healthy to can.2 (inr (u, row))
            (tt, (tt, (tt, (plain, (tt, tt))))) (insert_offline-Fits id (dump msg) can.2 short)
            short_notice)
          (λ _ w1 r. is_kept w1 r) (λ f w1 h. cc (h.2, row)))
        (λ _ w1 kept.
          let same : users_with id (tables w1.store) ≡ u ∷ [] = ap (users_with id) kept ∙ row in
          Ends-mono (login conn js w1)
            (login-Welcomed conn js id u w1 healthy
              (can.0, can.1, can.2, same, can.4, subst (GroupsFit id) (sym kept) can.5))
            (λ _ w2 h. (
              w1,
              h,
              subst (λ ms. Perm h.messages ms)
                  (ap (waiting id) kept ∙ waiting-append id (dump msg) (tables w.store))
                  h.messages_all,
            ))
            (λ _ _ no_fault. no_fault))
    where
      row : users_with id (tables w.store) ≡ u ∷ []
      row = can.3

      is_kept :
          (w1 : World State)
          → Routed sender msg id w w1
          → tables w1.store ≡ apply (insert_offline id (dump msg)) (tables w.store)
      is_kept w1 (forwarded peer here _) = cc (here, away)
      is_kept w1 (passed_on v _ row' on _) = absurd (
          can.4 (
            is_online_state u
              (subst (λ x. is_online x ≡ true) {x = v} {y = u} (cc (row, row')) on)))
      is_kept w1 (kept_back v _ _ _ after) = after.tables_now
