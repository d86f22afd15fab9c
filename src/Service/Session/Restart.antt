-- ===== src/Service/Session/Restart.antt =====
-- SIGINT and a new start: `reset` sets the rows for the next server, to which users log in again.
use chat_server_c.Base.{
  All, Bool-cases, ap, if◌then◌else◌, inl, inr, map, refl, some, subst, sym, [], List, ◌≡◌, ◌≢◌,
  ◌∙◌, ◌∷◌,
}
use chat_server_c.Base.Bytes.{bytes_eq, bytes_eq_iff}
use chat_server_c.Base.Decimal.{IsInt}
use chat_server_c.Base.Filter.{keep-update_where_all, update_where}
use chat_server_c.Base.Int.{ℤ}
use chat_server_c.Base.Outcome.{Returns}
use chat_server_c.Db.Backend.{Backend, IsHealthy}
use chat_server_c.Db.Statement.{reset_state}
use chat_server_c.Db.Tables.{apply, set_state, user_id_is}
use chat_server_c.Json.{JsonLib, int, str}
use chat_server_c.Model.UserModel
use chat_server_c.Model.UserModel.Effects.{reset_states-Written, users_with}
use chat_server_c.Protocol.{User, offline, offline≢online, online}
use chat_server_c.Service.Session.{login, reset}
use chat_server_c.Service.Session.Delivery.{login-Welcomed}
use chat_server_c.Service.Session.Welcome.{GroupsFit, Welcomed}
use chat_server_c.Service.World.{Conn, World, on_store-last}

abbrev pub now_offline : User → User
now_offline u = if bytes_eq u.state online then set_state offline u else u

now_offline-state : (u : User) → (now_offline u).state ≢ online
now_offline-state u = elim (Bool-cases (bytes_eq u.state online)) [
  | inl on ↦ rw on offline≢online
  | inr off ↦ rw off (λ e. cc (off, (bytes_eq_iff u.state online).1 e))
]

now_offline-online : (u : User) → set_state online (now_offline u) ≡ set_state online u
now_offline-online u = elim (Bool-cases (bytes_eq u.state online)) [
  | inl on ↦ rw on refl
  | inr off ↦ rw off refl
]

now_offline-password : (u : User) → (now_offline u).password ≡ u.password
now_offline-password u = elim (Bool-cases (bytes_eq u.state online)) [
  | inl on ↦ rw on refl
  | inr off ↦ rw off refl
]

All-offline :
    (us : List User)
    → All
        (λ u. u.state ≢ online)
        (update_where (λ u. bytes_eq u.state online) (set_state offline) us)
All-offline [] = tt
All-offline (u ∷ us) = (now_offline-state u, All-offline us)

module _ ⦃J : JsonLib⦄ ⦃B : Backend⦄ where
  open J use {Json, get}
  open B use {State, tables}

  -- A server that has just started, on this store.
  abbrev pub fresh : State → World State
  fresh st = record { store = st; conns = []; out = [] }

  -- On a backend where nothing fails, `reset` returns and sends nothing; behind it no row says
  -- online, and the messages that wait are as before; and at a server that starts on these
  -- tables, a login with the `int` id and the password of the id's only row, and with groups
  -- whose ids fit the statements, is let in, whatever the row said before.
  pub reset-login :
      (conn : Conn) (js : Json) (id : ℤ) (u : User) (w : World State)
      → IsHealthy B
      → get js "id" ≡ some (int id)
      → get js "password" ≡ some (str u.password)
      → IsInt id
      → users_with id (tables w.store) ≡ u ∷ []
      → GroupsFit id (tables w.store)
      → Returns
          (λ _ w1.
            All (λ v. v.state ≢ online) (tables w1.store).users
            × ((tables w1.store).messages ≡ (tables w.store).messages)
            × (w1.out ≡ w.out)
            × Returns
                (λ _ w2. Welcomed conn id (set_state online u) (fresh w1.store) w2)
                (login conn js (fresh w1.store)))
          (reset w)
  unfolding reset
  reset-login conn js id u w healthy has_id has_pwd small row fit =
      on_store-last (λ _ _. ⊥) _ w (UserModel.reset_states w.store)
        (reset_states-Written (tables w.store) w.store refl)
        (λ _ st (success, r). restarted st (r.applied (r.healthy healthy)))
    where
      restarted :
          (st : State)
          → tables st ≡ apply reset_state (tables w.store)
          → All (λ v. v.state ≢ online) (tables st).users
            × ((tables st).messages ≡ (tables w.store).messages)
            × (w.out ≡ w.out)
            × Returns
                (λ _ w2. Welcomed conn id (set_state online u) (fresh st) w2)
                (login conn js (fresh st))
      restarted st e =
          let row_now : users_with id (tables st) ≡ now_offline u ∷ [] =
            ap (users_with id) e
            ∙ keep-update_where_all (user_id_is id) (λ v. bytes_eq v.state online)
                (set_state offline) (tables w.store).users (λ v. refl)
            ∙ ap (map now_offline) row in
          (
            subst (λ t. All (λ v. v.state ≢ online) t.users) (sym e)
                (All-offline (tables w.store).users),
            ap (λ t. t.messages) e,
            refl,
            subst
                (λ v. Returns (λ _ w2. Welcomed conn id v (fresh st) w2) (login conn js (fresh st)))
                (now_offline-online u)
                (login-Welcomed conn js id (now_offline u) (fresh st) healthy (
                  has_id,
                  has_pwd ∙ ap (λ p. some (str p)) (sym (now_offline-password u)),
                  small,
                  row_now,
                  now_offline-state u,
                  subst (GroupsFit id) (sym e) fit,
                )),
          )
