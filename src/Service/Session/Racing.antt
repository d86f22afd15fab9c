-- ===== src/Service/Session/Racing.antt =====
-- Two logins of a user at once: `login` reads the row before it takes the lock on `_userConnMap`, so
-- two threads may both read it before either of them sets the state in it.
use chat_server_c.Db.Statement.Bounds.{select_user-Fits}
use chat_server_c.Model.UserModel
use chat_server_c.Base.Outcome.{◌>>=◌}
use chat_server_c.Base.Filter.{keep-head}
use chat_server_c.Base.Bytes.{Bytes, bytes_eq_iff, bytes_eq, bytes_eq_refl}
use chat_server_c.Db.Tables.{user_id_is, set_state}
use chat_server_c.Base.Outcome.{Ends-mono, next-Returns, ◌>>◌, Returns}
use chat_server_c.Base.Assoc.{find-insert, find}
use chat_server_c.Service.Session.Welcome.{Welcomed-same, welcome-Welcomed, Welcomed, GroupsFit}
use chat_server_c.Model.UserModel.Effects.{query-Ends, Finds, users_with}
use chat_server_c.Base.Decimal.{IsInt}
use chat_server_c.Protocol.{online, User}
use chat_server_c.Base.Int.{int_eq_refl, int_eq_iff, ℤ}
use chat_server_c.Service.World.{on_store, on_store-Returns, World, Conn}
use chat_server_c.Service.Session.{Run, answer_login}
use chat_server_c.Db.Backend.{IsHealthy, Backend}
use chat_server_c.Json.{JsonLib}
use chat_server_c.Base.{
  inr, inl, sym, subst, ◌∙◌, not_true, ap, ◌≢◌, [], ◌∷◌, ◌≡◌, none, some, refl,
}

module _ ⦃J : JsonLib⦄ ⦃B : Backend⦄ where
  open B use {State, tables}

  answer_login-Welcomed :
      (conn : Conn) (id : ℤ) (u : User) (w : World State)
      → IsHealthy B
      → IsInt id
      → u.id ≡ id
      → u.state ≢ online
      → GroupsFit id (tables w.store)
      → Returns
          (λ _ w'. Welcomed conn id (set_state online u) w w')
          (answer_login conn id u.password u w)
  unfolding answer_login
  answer_login-Welcomed conn id u w healthy small same off fit =
      rw
        (
          (int_eq_iff u.id id).1 same,
          bytes_eq_refl u.password,
          not_true (bytes_eq u.state online) (λ e. off ((bytes_eq_iff u.state online).0 e)),
        )
        (welcome-Welcomed conn id u w healthy small fit same)

  answer_login_twice :
      (conn conn' : Conn) (id : ℤ) (u : User) (w : World State)
      → IsHealthy B
      → IsInt id
      → u.id ≡ id
      → u.state ≢ online
      → GroupsFit id (tables w.store)
      → find id w.conns ≡ none
      → Returns
          (λ _ w2.
            (w1 : World State) × Welcomed conn id (set_state online u) w w1
            × Welcomed conn' id (set_state online u) w1 w2
            × (find id w2.conns ≡ some conn))
          ((answer_login conn id u.password u >> answer_login conn' id u.password u) w)
  answer_login_twice conn conn' id u w healthy small same off fit away =
      next-Returns _ _ _ (answer_login conn id u.password u w)
        (answer_login-Welcomed conn id u w healthy small same off fit)
        (λ _ w1 h.
          Ends-mono (answer_login conn' id u.password u w1)
            (answer_login-Welcomed conn' id u w1 healthy small same off
              (subst (GroupsFit id) (sym h.tables_now) fit))
            (λ _ w2 h'. (w1, h, h', first_stays w1 w2 h h')) (λ _ _ no_fault. no_fault))
    where
      first_stays :
          (w1 w2 : World State)
          → Welcomed conn id (set_state online u) w w1
          → Welcomed conn' id (set_state online u) w1 w2
          → find id w2.conns ≡ some conn
      first_stays w1 w2 h h' =
          let here : find id w1.conns ≡ some conn =
            ap (find id) h.conns_now
            ∙ find-insert id id conn w.conns
            ∙ rw (away, int_eq_refl id) refl in
          ap (find id) h'.conns_now ∙ find-insert id id conn' w1.conns ∙ rw here refl

  -- Both calls of `login` read the row, and then each goes on with what it has read.
  abbrev pub interleaved : Conn → Conn → ℤ → Bytes → Run
  interleaved conn conn' id pwd = do
    user ← on_store (UserModel.query id)
    user' ← on_store (UserModel.query id)
    answer_login conn id pwd user
    answer_login conn' id pwd user'

  pub query-Returns :
      (id : ℤ) (u : User) (w : World State) (st : State)
      → IsHealthy B
      → IsInt id
      → users_with id (tables w.store) ≡ u ∷ []
      → tables st ≡ tables w.store
      → Returns (λ v st'. (v ≡ u) × (tables st' ≡ tables w.store)) (UserModel.query id st)
  query-Returns id u w st healthy small row e =
      Ends-mono (UserModel.query id st)
        (query-Ends id (tables w.store) st (select_user-Fits id small) (inr (u, row)) e)
        (λ v st' h. found v st' h.0 h.1) (λ f st' h. cc (h.1, row))
    where
      found :
          (v : User) (st' : State)
          → Finds id (tables w.store) v
          → tables st' ≡ tables w.store
          → (v ≡ u) × (tables st' ≡ tables w.store)
      found v st' (inl row') e' = (cc (row, row'), e')
      found v st' (inr (_, sick)) e' = absurd (sick healthy)

  -- On a backend where nothing fails, for an `int` id with one row, which does not say online,
  -- groups whose ids fit the statements, and no entry in `_userConnMap`: if two logins with the
  -- row's password read the row before either goes on, both are let in, and `_userConnMap` has
  -- the connection of the first.
  pub login_twice :
      (conn conn' : Conn) (id : ℤ) (u : User) (w : World State)
      → IsHealthy B
      → IsInt id
      → users_with id (tables w.store) ≡ u ∷ []
      → u.state ≢ online
      → GroupsFit id (tables w.store)
      → find id w.conns ≡ none
      → Returns
          (λ _ w2.
            (w1 : World State) × Welcomed conn id (set_state online u) w w1
            × Welcomed conn' id (set_state online u) w1 w2
            × (find id w2.conns ≡ some conn))
          (interleaved conn conn' id u.password w)
  login_twice conn conn' id u w healthy small row off fit away =
      on_store-Returns _ _ _ w (UserModel.query id w.store)
        (query-Returns id u w w.store healthy small row refl)
        (λ v st h.
          on_store-Returns _ _ _ (record w { store = st }) (UserModel.query id st)
            (query-Returns id u w st healthy small row h.1)
            (λ v' st' h'. both v v' st' h.0 h'.0 h'.1))
    where
      both :
          (v v' : User) (st : State)
          → v ≡ u
          → v' ≡ u
          → tables st ≡ tables w.store
          → Returns
              (λ _ w2.
                (w1 : World State) × Welcomed conn id (set_state online u) w w1
                × Welcomed conn' id (set_state online u) w1 w2
                × (find id w2.conns ≡ some conn))
              ((answer_login conn id u.password v >> answer_login conn' id u.password v')
                (record w { store = st }))
      both v v' st e e' same =
          rw (e, e')
            (Ends-mono
              ((answer_login conn id u.password u >> answer_login conn' id u.password u)
                (record w { store = st }))
              (answer_login_twice conn conn' id u (record w { store = st }) healthy small
                ((int_eq_iff u.id id).0 (keep-head (user_id_is id) _ _ u row)) off
                (subst (GroupsFit id) (sym same) fit) away)
              (λ _ w2 h.
                (h.0, Welcomed-same conn id (set_state online u) w h.0 st same h.1, h.2, h.3))
              (λ _ _ no_fault. no_fault))
