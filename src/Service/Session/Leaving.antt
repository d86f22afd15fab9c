-- ===== src/Service/Session/Leaving.antt =====
-- What `loginout` and a lost connection do.
use chat_server_c.Db.Statement.Bounds.{update_state-Fits, offline-IsClean}
use chat_server_c.Protocol.{default_user, offline}
use chat_server_c.Db.Statement.{update_state}
use chat_server_c.Base.Outcome.{Ends-mono, Returns}
use chat_server_c.Base.Decimal.{IsInt}
use chat_server_c.Base.Assoc.{erase, find}
use chat_server_c.Db.Tables.{apply, Tables}
use chat_server_c.Service.World.{sent, on_store-Returns, unsubscribed, World, Conn}
use chat_server_c.Service.Session.{
  logout_json, user_of_conn, erase_found, end_session, loginout, client_close_exception,
}
use chat_server_c.Base.Int.{pos, int_eq_ne, minus_one, ℤ}
use chat_server_c.Db.Backend.{IsHealthy, Backend}
use chat_server_c.Json.{get_int_lem, int, JsonLib}
use chat_server_c.Service.Effects.{Became, After}
use chat_server_c.Model.UserModel
use chat_server_c.Model.UserModel.Effects.{update-Written}
use chat_server_c.Base.{
  none, arith, [], ◌∷◌, inr, ◌++◌, inl, Option-cases, ◌≢◌, some, ◌≡◌, refl, append_assoc,
}

module _ ⦃J : JsonLib⦄ ⦃B : Backend⦄ where
  open J use {Json, get, put, dump}
  open B use {State, tables}

  -- The row of the user is set to a state, whether or not anybody asks if it worked.
  set_state-Sent :
      (id : ℤ) (t : Tables) (st : State)
      → IsHealthy B
      → IsInt id
      → tables st ≡ t
      → Returns
          (λ _ st'. tables st' ≡ apply (update_state offline id) t)
          (UserModel.update (record default_user { id = id; state = offline }) st)
  set_state-Sent id t st healthy small e =
      Ends-mono (UserModel.update (record default_user { id = id; state = offline }) st)
        (update-Written (record default_user { id = id; state = offline }) t st (offline-IsClean id)
          (update_state-Fits offline id small (omega arith)) e)
        (λ success st' h. h.applied (h.healthy healthy)) (λ _ _ no_fault. no_fault)

  -- What `loginout` does for a user by whether he is connected to this server.
  pub data Left (conn : Conn) (js : Json) (id : ℤ) (w w' : World State) : Type 0 where
    logged_out :
        (peer : Conn)
        → find id w.conns ≡ some peer
        → Became
            (erase id w.conns)
            (apply (update_state offline id) (tables w.store))
            (w.out
              ++ unsubscribed id
                ∷ sent conn (dump (logout_json js "offline success! welcome next time." (pos 0)))
                ∷ [])
            w'
        → Left conn js id w w'
    was_out :
        find id w.conns ≡ none
        → After w
            (tables w.store)
            (sent conn (dump (logout_json js "offline fail! please retry." (pos 1))) ∷ [])
            w'
        → Left conn js id w w'

  -- On a backend where nothing fails and for a request with an `int` id, `loginout` returns: if
  -- `_userConnMap` has the id, its entry is erased, the row's state set to offline, the channel
  -- unsubscribed and success answered; if not, failure is answered and nothing else changes.
  pub loginout-Left :
      (conn : Conn) (js : Json) (id : ℤ) (w : World State)
      → IsHealthy B
      → get js "id" ≡ some (int id)
      → IsInt id
      → Returns (λ _ w'. Left conn js id w w') (loginout conn js w)
  unfolding loginout end_session
  loginout-Left conn js id w healthy has_id small =
      rw (get_int_lem js "id" id has_id) (elim (Option-cases (find id w.conns)) [
        | inl away ↦
            rw away (was_out away (record { conns_now = refl; tables_now = refl; out_now = refl }))
        | inr (peer, here) ↦ rw here (
            on_store-Returns _ _ _ w (UserModel.update (record default_user { id = id }) w.store)
              (set_state-Sent id (tables w.store) w.store healthy small refl)
              (λ _ st h.
                logged_out peer here
                  (record { conns_now = refl; tables_now = h; out_now = append_assoc w.out _ _ })))
      ])

  -- What a lost connection does, by whom `_userConnMap` has under it.
  pub data Lost (conn : Conn) (w w' : World State) : Type 0 where
    dropped :
        (id : ℤ)
        → user_of_conn conn w.conns ≡ some id
        → Became
            (erase id w.conns)
            (apply (update_state offline id) (tables w.store))
            (w.out ++ unsubscribed id ∷ [])
            w'
        → Lost conn w w'
    nobody :
        user_of_conn conn w.conns ≡ none
        → After w (tables w.store) (unsubscribed minus_one ∷ []) w'
        → Lost conn w w'

  -- On a backend where nothing fails and where the first id with this connection is an `int`
  -- other than -1, `clientCloseException` returns: it erases that id, sets the row's state to
  -- offline and unsubscribes the channel; where no id has the connection it unsubscribes -1 and
  -- changes nothing.
  pub client_close_exception-Lost :
      (conn : Conn) (w : World State)
      → IsHealthy B
      → ((id : ℤ) → user_of_conn conn w.conns ≡ some id → IsInt id × (id ≢ minus_one))
      → Returns (λ _ w'. Lost conn w w') (client_close_exception conn w)
  unfolding client_close_exception erase_found
  client_close_exception-Lost conn w healthy ids = elim (Option-cases (user_of_conn conn w.conns)) [
    | inl none_found ↦
        rw none_found
          (nobody none_found (record { conns_now = refl; tables_now = refl; out_now = refl }))
    | inr (id, found) ↦
        rw (found, int_eq_ne id minus_one (ids id found).1)
          (on_store-Returns _ _ _
            (record w { conns = erase id w.conns; out = w.out ++ unsubscribed id ∷ [] })
            (UserModel.update (record default_user { id = id; state = offline }) w.store)
            (set_state-Sent id (tables w.store) w.store healthy (ids id found).0 refl)
            (λ _ st h.
              dropped id found (record { conns_now = refl; tables_now = h; out_now = refl })))
  ]
