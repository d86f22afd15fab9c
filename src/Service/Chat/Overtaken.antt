-- ===== src/Service/Chat/Overtaken.antt =====
-- A message and a login of its receiver at once: `oneChat` holds no lock between its look at the
-- receiver's row and what it does by it.
use chat_server_c.Service.Chat.{forward, keep_and_tell, is_online, notice, notice_size}
use chat_server_c.Service.Chat.Routing.{keep_and_tell-After, offline_reply, is_online_state}
use chat_server_c.Service.Session.{Run, need_int, login}
use chat_server_c.Service.Session.Welcome.{GroupsFit, Welcomed, Welcomed-same}
use chat_server_c.Service.Session.Racing.{query-Returns}
use chat_server_c.Service.Session.Delivery.{
  CanLogIn, Welcomed-TakenOnce, login-Welcomed, waiting-append,
}
use chat_server_c.Service.World.{Conn, World, sent, on_store, on_store-Returns}
use chat_server_c.Service.Effects.{After}
use chat_server_c.Model.UserModel
use chat_server_c.Model.UserModel.Effects.{users_with}
use chat_server_c.Model.OfflineMsgModel.Effects.{waiting}
use chat_server_c.Db.Backend.{Backend, IsHealthy}
use chat_server_c.Db.Statement.{IsPlain, insert_offline}
use chat_server_c.Db.Statement.Bounds.{insert_offline-Fits}
use chat_server_c.Db.Tables.{apply, set_state}
use chat_server_c.Json.{JsonLib, int, get_int_lem}
use chat_server_c.Protocol.{User, online}
use chat_server_c.Base.Assoc.{find, find-insert}
use chat_server_c.Base.Int.{ℤ, int_eq_refl}
use chat_server_c.Base.Outcome.{Ends-mono, Returns, next-Returns, ◌>>=◌, ◌>>◌}
use chat_server_c.Base.{
  Bool-cases, ap, false, inl, inr, length, none, refl, some, subst, sym, [], ◌++◌, ◌<◌, ◌≡◌, ◌≢◌,
  ◌≤◌, ◌∙◌, ◌∷◌,
}

module _ ⦃J : JsonLib⦄ ⦃B : Backend⦄ where
  open J use {Json, get, dump}
  open B use {State, tables}

  -- A thread in `oneChat` that finds no connection reads the row; another thread's login runs; the
  -- first goes on.
  abbrev pub overtaken : Conn → Json → Conn → Json → Run
  overtaken sender msg conn js = do
    toid ← need_int msg "toid"
    user ← on_store (UserModel.query toid)
    login conn js
    forward sender msg toid user

  is_offline : (u : User) → u.state ≢ online → is_online u ≡ false
  is_offline u off = elim (Bool-cases (is_online u)) [
    | inl on ↦ absurd (off (is_online_state u on))
    | inr off_line ↦ off_line
  ]

  -- The user is in and not told of the message, which waits for him.
  pub record Missed (sender conn : Conn) (msg : Json) (id : ℤ) (u : User) (w w2 : World State)
      : Type 0 where
    pub between : World State
    pub let_in : Welcomed conn id (set_state online u) w between
    pub connected : find id w2.conns ≡ some conn
    pub out_now : w2.out ≡ between.out ++ sent sender (dump (offline_reply msg id)) ∷ []
    pub still_waits : waiting id (tables w2.store) ≡ dump msg ∷ []

  -- On a backend where nothing fails, for a message of at most 973 bytes that needs no escaping,
  -- to an `int` id that has no connection and one row only, which does not say online, whose
  -- groups' ids fit the statements and whose notice fits `tmp`: if a login with the row's
  -- password runs between the query of `oneChat` and what follows it, the user is let in and
  -- connected, the one thing that goes out behind his login is the notice to the sender, and the
  -- message is stored and is all that waits for him.
  pub one_chat_overtaken :
      (sender conn : Conn) (msg js : Json) (id : ℤ) (u : User) (w : World State)
      → IsHealthy B
      → CanLogIn js id u w
      → find id w.conns ≡ none
      → get msg "toid" ≡ some (int id)
      → IsPlain (dump msg)
      → length (dump msg) ≤ 973
      → length (notice id) < notice_size
      → Returns (λ _ w2. Missed sender conn msg id u w w2) (overtaken sender msg conn js w)
  one_chat_overtaken sender conn msg js id u w healthy can away to plain short short_notice =
      rw (get_int_lem msg "toid" id to) (
        on_store-Returns _ _ _ w (UserModel.query id w.store)
          (query-Returns id u w w.store healthy can.2 can.3 refl)
          (λ v st h. behind_query v st h.0 h.1))
    where
      missed :
          (w1 w2 : World State)
          → Welcomed conn id (set_state online u) w w1
          → After w1
              (apply (insert_offline id (dump msg)) (tables w1.store))
              (sent sender (dump (offline_reply msg id)) ∷ [])
              w2
          → Missed sender conn msg id u w w2
      missed w1 w2 h a = record {
        between = w1;
        let_in = h;
        connected =
            ap (find id) (a.conns_now ∙ h.conns_now)
            ∙ find-insert id id conn w.conns
            ∙ rw (away, int_eq_refl id) refl;
        out_now = a.out_now;
        still_waits =
            ap (waiting id) a.tables_now
            ∙ waiting-append id (dump msg) (tables w1.store)
            ∙ ap (λ ms. ms ++ dump msg ∷ []) (Welcomed-TakenOnce conn id u w w1 can.3 h).1;
      }

      behind_login :
          (w1 : World State)
          → Welcomed conn id (set_state online u) w w1
          → Returns (λ _ w2. Missed sender conn msg id u w w2) (forward sender msg id u w1)
      behind_login w1 h = rw (is_offline u can.4) (
          Ends-mono (keep_and_tell sender msg id w1)
            (keep_and_tell-After sender msg id w1 (tables w1.store) healthy
              (tt, (tt, (tt, (plain, (tt, tt))))) (insert_offline-Fits id (dump msg) can.2 short)
              short_notice refl)
            (λ _ w2 a. missed w1 w2 h a) (λ _ _ no_fault. no_fault))

      behind_query :
          (v : User) (st : State)
          → v ≡ u
          → tables st ≡ tables w.store
          → Returns
              (λ _ w2. Missed sender conn msg id u w w2)
              ((login conn js >> forward sender msg id v) (record w { store = st }))
      behind_query v st e same = rw e (
          next-Returns _ _ _ (login conn js (record w { store = st }))
            (login-Welcomed conn js id u (record w { store = st }) healthy can_still)
            (λ _ w1 h. behind_login w1 (Welcomed-same conn id (set_state online u) w w1 st same h)))
        where
          can_still : CanLogIn js id u (record w { store = st })
          can_still = (
            can.0,
            can.1,
            can.2,
            ap (users_with id) same ∙ can.3,
            can.4,
            subst (GroupsFit id) (sym same) can.5,
          )
