-- ===== src/Model/GroupModel/Effects.antt =====
-- What the methods of `GroupModel` do to the tables `allgroup` and `groupuser`, and what they return.
use native.Mathlib.Bridge.{le_prop}
use chat_server_c.Base.{
  ◌≡◌, refl, ap, ◌∙◌, ◌⊎◌, inl, inr, Perm, List, [], ◌∷◌, map, Bool, true, false, Option, none,
  some, All, All-map, sym, arith, if◌then◌else◌, subst,
}
use chat_server_c.Base.Int.{ℤ, to_int}
use chat_server_c.Base.Bytes.{Bytes}
use chat_server_c.Base.Decimal.{atoi-show_int, show_int}
use chat_server_c.Base.Perms.{map-map_eq, perm-All, map_id}
use chat_server_c.Base.Outcome.{Returns, next-Returns, Ends-mono}
use chat_server_c.Protocol.{Group, new_group, push_user}
use chat_server_c.Db.Statement.{
  Fits, IsClean, insert_group, insert_member, select_groups, select_members, select_member_ids,
  render,
}
use chat_server_c.Db.Tables.{Tables, Row, GroupRow, group_row, groups_of, others_in}
use chat_server_c.Db.Backend.{Backend, IsHealthy}
use chat_server_c.Db.Calls
use chat_server_c.Db.Calls.Effects.{
  Written, Sent, Rows, not-Written, update-Written_key, send_update-Sent, query_rows-Rows,
  query-Answers, with_connection-Ends, sprintf-Ends, read_rows-Rows,
}
use chat_server_c.Model.GroupModel.{
  group_of_row, push_rows, push_answer, id_of_row, create_group, add_group, query_members,
  fill_members, query_group, query_group_users,
}

-- A group as the query returns one: nobody is in it.
abbrev pub bare_group : GroupRow → Group
bare_group g = new_group g.id g.name g.desc

group_of_row-group_row : (g : GroupRow) → group_of_row (group_row g) ≡ bare_group g
unfolding group_of_row
group_of_row-group_row g = rw (atoi-show_int g.id)

-- `push_back` on the copy that `getUsers` returns leaves the group as it is.
push_rows_same : (rows : List Row) (group : Group) → push_rows rows group ≡ group
unfolding push_rows push_user
push_rows_same [] group = refl
push_rows_same (row ∷ rows) group = push_rows_same rows group

module _ ⦃B : Backend⦄ where
  open B use {State, tables}

  push_answer_same :
      (group : Group) (t : Tables) (a : Option (List Row)) (st : State)
      → tables st ≡ t
      → Returns (λ g st'. (g ≡ group) × (tables st' ≡ t)) (push_answer a group st)
  unfolding push_answer
  push_answer_same group t none st e = (refl, e)
  push_answer_same group t (some rows) st e = (push_rows_same rows group, e)

  query_members_same :
      (group : Group) (t : Tables) (st : State)
      → Fits (select_members group.id)
      → tables st ≡ t
      → Returns (λ g st'. (g ≡ group) × (tables st' ≡ t)) (query_members group st)
  unfolding query_members
  query_members_same group t st fits e = sprintf-Ends _ _ _ (select_members group.id) st fits (
      next-Returns _ _ (λ res. push_answer res group)
        (Calls.query (render (select_members group.id)) st)
        (query-Answers (select_members group.id) t st (omega arith) refl e)
        (λ a st' ans. push_answer_same group t a st' ans.same))

  fill_members_same :
      (groups : List Group) (t : Tables) (st : State)
      → All (λ g. Fits (select_members g.id)) groups
      → tables st ≡ t
      → Returns (λ gs st'. (gs ≡ groups) × (tables st' ≡ t)) (fill_members groups st)
  unfolding fill_members
  fill_members_same [] t st fits e = (refl, e)
  fill_members_same (g ∷ gs) t st fits e =
      next-Returns _ _ _ (query_members g st) (query_members_same g t st fits.0 e) (λ g' st' h.
        next-Returns _ _ _ (fill_members gs st') (fill_members_same gs t st' fits.1 h.1)
          (λ gs' st'' k. (cc (h.0, k.0), k.1)))

  -- If the statements fit, `GroupModel::queryGroup` returns and changes no table; its result has
  -- the user's groups in some order, each without any members, or nothing if the backend may
  -- fail.
  pub query_group-Groups :
      (userid : ℤ) (t : Tables) (st : State)
      → Fits (select_groups userid)
      → All (λ g. Fits (select_members g.id)) (groups_of userid t)
      → tables st ≡ t
      → Returns
          (λ gs st'.
            (Perm gs (map bare_group (groups_of userid t)) ⊎ ((gs ≡ []) × ¬ IsHealthy B))
            × (tables st' ≡ t))
          (query_group userid st)
  unfolding query_group
  query_group-Groups userid t st fits fits_each e =
      sprintf-Ends _ _ _ (select_groups userid) st fits (
        with_connection-Ends (λ _ _. ⊥) (λ gs t'. Groups gs × (t' ≡ t)) [] _ t st e
          (λ sick. (inr (refl, sick), refl))
          (λ st' e'.
            next-Returns _ _ _ (Calls.query (render (select_groups userid)) st')
              (query-Answers (select_groups userid) t st' (omega arith) refl e')
              (λ a s ans.
                next-Returns _ _ _ (Calls.read_rows group_of_row a s)
                  (read_rows-Rows group_of_row (select_groups userid) t a s ans)
                  (λ gs s' h.
                    Ends-mono (fill_members gs s')
                      (fill_members_same gs t s' (each gs (bare gs h.0)) h.1)
                      (λ gs' s'' k. (subst Groups (sym k.0) (bare gs h.0), k.1))
                      (λ _ _ no_fault. no_fault)))))
    where
      Groups : List Group → Type 0
      Groups gs = Perm gs (map bare_group (groups_of userid t)) ⊎ ((gs ≡ []) × ¬ IsHealthy B)

      bare : (gs : List Group) → Rows group_of_row (select_groups userid) t gs → Groups gs
      bare gs h =
          rw
            (← map-map_eq group_row group_of_row bare_group group_of_row-group_row
              (groups_of userid t))
            h

      each : (gs : List Group) → Groups gs → All (λ g. Fits (select_members g.id)) gs
      each gs (inl p) =
          perm-All (λ g. Fits (select_members g.id)) (λ g. le_prop) gs _ p
            (All-map (λ g. Fits (select_members g.id)) bare_group (groups_of userid t) fits_each)
      each gs (inr (none_found, _)) = rw none_found tt

  pub query_group_users-Ids :
      (userid groupid : ℤ) (t : Tables) (st : State)
      → Fits (select_member_ids groupid userid)
      → tables st ≡ t
      → Returns
          (λ ids st'.
            (Perm ids (others_in groupid userid t) ⊎ ((ids ≡ []) × ¬ IsHealthy B))
            × (tables st' ≡ t))
          (query_group_users userid groupid st)
  unfolding query_group_users id_of_row
  query_group_users-Ids userid groupid t st fits e =
      rw (← ids_same) (
        query_rows-Rows id_of_row (select_member_ids groupid userid) t st (omega arith) refl fits e)
    where
      ids_same :
          map id_of_row (map (λ i. show_int i ∷ []) (others_in groupid userid t))
          ≡ others_in groupid userid t
      ids_same =
          map-map_eq (λ i. show_int i ∷ []) id_of_row (λ i. i) atoi-show_int
            (others_in groupid userid t)
          ∙ map_id (others_in groupid userid t)

  pub add_group-Sent :
      (userid groupid : ℤ) (role : Bytes) (t : Tables) (st : State)
      → IsClean (insert_member groupid userid role)
      → Fits (insert_member groupid userid role)
      → tables st ≡ t
      → Returns
          (λ _ st'. Sent (insert_member groupid userid role) t (tables st'))
          (add_group userid groupid role st)
  unfolding add_group
  add_group-Sent userid groupid role t st clean fits e = send_update-Sent _ t st clean fits e

  -- A created group's row is there with a new key, and the object has that key as its id.
  pub create_group-Written :
      (g : Group) (t : Tables) (st : State)
      → IsClean (insert_group g.name g.desc)
      → Fits (insert_group g.name g.desc)
      → tables st ≡ t
      → Returns
          (λ r st'.
            Written (insert_group g.name g.desc) t r.0 (tables st')
            × (r.1 ≡ (if r.0 then record g { id = to_int t.next_group } else g)))
          (create_group g st)
  unfolding create_group
  create_group-Written g t st clean fits e =
      let s = insert_group g.name g.desc in
      sprintf-Ends _ _ _ s st fits (
        with_connection-Ends (λ _ _. ⊥)
          (λ r t'.
            Written s t r.0 t' × (r.1 ≡ (if r.0 then record g { id = to_int t.next_group } else g)))
          (false, g) _ t st e (λ sick. (not-Written s t sick, refl))
          (λ st' e'.
            next-Returns _ _ _ (Calls.update (render s) st')
              (update-Written_key s t t.next_group st' clean refl e')
              (λ success st'' h. with_id success st'' h.0 h.1)))
    where
      with_id :
          (success : Bool) (st' : State)
          → Written (insert_group g.name g.desc) t success (tables st')
          → (success ≡ true → B.mysql_insert_id st' ≡ t.next_group)
          → let r : Bool × Group =
              if success
              then (true, record g { id = to_int (B.mysql_insert_id st') })
              else (false, g) in
            Written (insert_group g.name g.desc) t r.0 (tables st')
            × (r.1 ≡ (if r.0 then record g { id = to_int t.next_group } else g))
      with_id true st' w key = (w, ap (λ n. record g { id = to_int n }) (key refl))
      with_id false st' w key = (w, refl)
