-- ===== src/Model/UserModel/Effects.antt =====
-- What the methods of `UserModel` do to the table `user`, and what they return.
use mathlib.Core.List.Perm
use chat_server_c.Base.{
  ◌≡◌, refl, ap, ◌⊎◌, inl, inr, Option, none, some, Bool, true, false, List, [], ◌∷◌, map, Perm,
  arith, subst, if◌then◌else◌,
}
use chat_server_c.Base.Int.{ℤ, to_int}
use chat_server_c.Base.Decimal.{atoi-show_int}
use chat_server_c.Base.Filter.{keep}
use chat_server_c.Base.Perms.{perm_singleton}
use chat_server_c.Base.Outcome.{null_row, Fault, Ends, Returns, next-Ends, next-Returns}
use chat_server_c.Protocol.{User, default_user}
use chat_server_c.Db.Statement.{
  Fits, insert_user, select_user, update_state, reset_state, render, IsClean,
}
use chat_server_c.Db.Tables.{Tables, Row, user_id_is, user_row}
use chat_server_c.Db.Backend.{Backend, IsHealthy}
use chat_server_c.Db.Calls
use chat_server_c.Db.Calls.{with_connection}
use chat_server_c.Db.Calls.Effects.{
  Written, Answers, update-Written as db_update-Written, update-Written_key, with_connection-Ends,
  sprintf-Ends, not-Written, run_update-Written, query-Answers,
}
use chat_server_c.Model.UserModel.{first_user, read_user, insert, query, update, reset_states}

-- The rows of the table with this id.
abbrev pub users_with : ℤ → Tables → List User
users_with id t = keep (user_id_is id) t.users

-- `id` is a key: no two rows have it.
abbrev pub HasOne : ℤ → Tables → Type 0
HasOne id t = (users_with id t ≡ []) ⊎ ((u : User) × (users_with id t ≡ u ∷ []))

Row-set : IsSet Row
Row-set = hlevel

module _ ⦃B : Backend⦄ where
  open B use {State, tables}

  -- What `query` may return: the user of the one row, or without an answer the default.
  abbrev pub Finds : ℤ → Tables → User → Type 0
  Finds id t v = (users_with id t ≡ v ∷ []) ⊎ ((v ≡ default_user) × ¬ IsHealthy B)

  -- A null row ends the process exactly where there is no user with the id.
  abbrev pub NoRow : ℤ → Tables → Fault → Tables → Type 0
  NoRow id t f t' = (f ≡ null_row) × (users_with id t ≡ []) × (t' ≡ t)

  read_user-Ends :
      (id : ℤ) (t : Tables) (a : Option (List Row)) (st : State)
      → HasOne id t
      → Answers (select_user id) t a (tables st)
      → Ends
          (λ v st'. Finds id t v × (tables st' ≡ t))
          (λ f st'. NoRow id t f (tables st'))
          (read_user a st)
  unfolding read_user first_user
  read_user-Ends id t none st one ans = (inr (refl, λ h. ans.healthy h refl), ans.same)
  read_user-Ends id t (some rows) st (inl e) ans =
      rw (Perm.eq-nil (subst (λ us. Perm rows (map user_row us)) e (ans.rows rows refl)))
        (refl, e, ans.same)
  read_user-Ends id t (some rows) st (inr (u, e)) ans =
      rw
        (perm_singleton Row-set rows (user_row u)
          (subst (λ us. Perm rows (map user_row us)) e (ans.rows rows refl)))
        (rw (atoi-show_int u.id) (inl e, ans.same))

  -- If the statement fits and at most one row has the id: `UserModel::query` returns that row's
  -- user and changes no table, or the default user if the backend may fail, or ends the process
  -- on a null row where no row has the id.
  pub query-Ends :
      (id : ℤ) (t : Tables) (st : State)
      → Fits (select_user id)
      → HasOne id t
      → tables st ≡ t
      → Ends
          (λ v st'. Finds id t v × (tables st' ≡ t))
          (λ f st'. NoRow id t f (tables st'))
          (query id st)
  unfolding query
  query-Ends id t st fits one e = sprintf-Ends _ _ _ (select_user id) st fits (
      with_connection-Ends (NoRow id t) (λ v t'. Finds id t v × (t' ≡ t)) default_user _ t st e
        (λ sick. (inr (refl, sick), refl))
        (λ st' e'.
          next-Returns _ _ read_user (Calls.query (render (select_user id)) st')
            (query-Answers (select_user id) t st' (omega arith) refl e')
            (λ a s ans. read_user-Ends id t a s one ans)))

  pub update-Written :
      (u : User) (t : Tables) (st : State)
      → IsClean (update_state u.state u.id)
      → Fits (update_state u.state u.id)
      → tables st ≡ t
      → Returns
          (λ success st'. Written (update_state u.state u.id) t success (tables st'))
          (update u st)
  unfolding update
  update-Written u t st clean fits e = run_update-Written _ t st clean fits e

  -- A registered user's row is there with a new key, and the object has that key as its id.
  pub insert-Written :
      (u : User) (t : Tables) (st : State)
      → let s = insert_user u.name u.password u.state in
        IsClean s
        → Fits s
        → tables st ≡ t
        → Returns
            (λ r st'.
              Written s t r.0 (tables st')
              × (r.1 ≡ (if r.0 then record u { id = to_int t.next_user } else u)))
            (insert u st)
  unfolding insert
  insert-Written u t st clean fits e =
      let s = insert_user u.name u.password u.state in
      sprintf-Ends _ _ _ s st fits (
        with_connection-Ends (λ _ _. ⊥)
          (λ r t'.
            Written s t r.0 t' × (r.1 ≡ (if r.0 then record u { id = to_int t.next_user } else u)))
          (false, u) _ t st e (λ sick. (not-Written s t sick, refl))
          (λ st' e'.
            next-Ends _ _ _ (Calls.update (render s) st')
              (update-Written_key s t t.next_user st' clean refl e')
              (λ success st'' h. with_id success st'' h.0 h.1)))
    where
      with_id :
          (success : Bool) (st' : State)
          → Written (insert_user u.name u.password u.state) t success (tables st')
          → (success ≡ true → B.mysql_insert_id st' ≡ t.next_user)
          → let r : Bool × User =
              if success
              then (true, record u { id = to_int (B.mysql_insert_id st') })
              else (false, u) in
            Written (insert_user u.name u.password u.state) t r.0 (tables st')
            × (r.1 ≡ (if r.0 then record u { id = to_int t.next_user } else u))
      with_id true st' w key = (w, ap (λ n. record u { id = to_int n }) (key refl))
      with_id false st' w key = (w, refl)

  pub reset_states-Written :
      (t : Tables) (st : State)
      → tables st ≡ t
      → Returns
          (λ _ st'. (success : Bool) × Written reset_state t success (tables st'))
          (reset_states st)
  unfolding reset_states
  reset_states-Written t st e =
      next-Ends _ _ _ (with_connection false (Calls.update (render reset_state)) st)
        (with_connection-Ends (λ _ _. ⊥) (Written reset_state t) false _ t st e
          (not-Written reset_state t)
          (λ st' e'. db_update-Written reset_state t st' (omega arith) e'))
        (λ success s w. (success, w))
