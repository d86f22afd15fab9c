-- ===== src/Service/Chat/Group.antt =====
-- Where the members of a group get a message.
use chat_server_c.Base.Perms.{perm-All}
use chat_server_c.Model.GroupModel.Effects.{query_group_users-Ids}
use chat_server_c.Db.Calls.Effects.{Sent-apply}
use chat_server_c.Base.Filter.{keep-head}
use chat_server_c.Db.Statement.Bounds.{
  select_member_ids-Fits, insert_offline-Fits, select_user-Fits,
}
use chat_server_c.Base.{
  ◌⊎◌, subst, Perm, All, ap, Bool-cases, append-nil, if◌then◌else◌, none, some,
}
use chat_server_c.Base.Outcome.{Ends-mono, next-Returns, for_each, Returns}
use chat_server_c.Db.Statement.{insert_offline, IsPlain}
use chat_server_c.Protocol.{User}
use chat_server_c.Db.Backend.{IsHealthy, Backend}
use chat_server_c.Base.Decimal.{IsInt}
use chat_server_c.Service.World.{
  on_store-Returns, on_store-last, on_store, emit, on_store-Ends, World, published, Conn,
}
use chat_server_c.Json.{get_int_lem, int, JsonLib}
use chat_server_c.Db.Tables.{user_id_is, others_in, Tables}
use chat_server_c.Base.Int.{int_eq_iff, ℤ}
use chat_server_c.Base.Assoc.{find}
use chat_server_c.Base.{
  sym, ◌∙◌, inr, inl, Option-cases, ◌≤◌, length, ◌≡◌, some, [], Bool, ◌∷◌, List, refl, append_assoc,
  ◌++◌,
}
use chat_server_c.Service.Effects.{Became}
use chat_server_c.Model.UserModel
use chat_server_c.Model.GroupModel
use chat_server_c.Model.OfflineMsgModel
use chat_server_c.Model.UserModel.Effects.{users_with, Finds, query-Ends}
use chat_server_c.Model.OfflineMsgModel.Effects.{insert-Sent}
use chat_server_c.Service.Chat.{deliver, route_member, group_chat, is_online}
use chat_server_c.Service.Chat.Places.{
  Place, place_by_row, place, goes_out, kept, all_out, all_kept, IsKnown, keep_more, keep_nothing,
  row_of_known, IsInt-IsProp,
}

module _ ⦃J : JsonLib⦄ ⦃B : Backend⦄ where
  open J use {Json, get, put, dump}
  open B use {State, tables}

  -- The tables and the events behind one round of the loop.
  abbrev Handled : Json → ℤ → Tables → Place → World State → World State → Type 0
  Handled js id t at w w' =
      Became w.conns (keep_more t (kept (dump js) id at)) (w.out ++ goes_out (dump js) id at) w'

  module _ (js : Json) (healthy : IsHealthy B) (plain : IsPlain (dump js))
      (short : length (dump js) ≤ 973) where
    -- A member that is not connected here.
    not_here :
        (id : ℤ) (t : Tables) (w : World State) (u : User)
        → IsInt id
        → users_with id t ≡ u ∷ []
        → tables w.store ≡ t
        → Returns (λ _ w'. Handled js id t (place_by_row (u ∷ [])) w w') (route_member js id none w)
    unfolding route_member
    not_here id t w u small row same =
        on_store-Ends (λ _ _. ⊥) _ _ w (UserModel.query id w.store)
          (query-Ends id t w.store (select_user-Fits id small) (inr (u, row)) same)
          (λ f st h. cc (h.1, row))
          (λ v st h.
            subst
              (λ v.
                Returns (λ _ w'. Handled js id t (place_by_row (u ∷ [])) w w')
                  ((if is_online v
                      then emit (published v.id (dump js))
                      else on_store (OfflineMsgModel.insert id (dump js)))
                    (record w { store = st })))
              (same_user v h.0) (by_state st h.1))
      where
        same_user : (v : User) → Finds id t v → u ≡ v
        same_user v (inl row') = cc (row, row')
        same_user v (inr (_, sick)) = absurd (sick healthy)

        same_id : u.id ≡ id
        same_id = (int_eq_iff u.id id).0 (keep-head (user_id_is id) t.users [] u row)

        by_state :
            (st : State)
            → tables st ≡ t
            → Returns
                (λ _ w'. Handled js id t (place_by_row (u ∷ [])) w w')
                ((if is_online u
                    then emit (published u.id (dump js))
                    else on_store (OfflineMsgModel.insert id (dump js)))
                  (record w { store = st }))
        by_state st same' = elim (Bool-cases (is_online u)) [
          | inl on ↦ rw on (record {
            conns_now = refl;
            tables_now = same' ∙ sym (keep_nothing t);
            out_now = ap (λ i. w.out ++ published i (dump js) ∷ []) same_id;
          })
          | inr off ↦ rw off (
              on_store-last (λ _ _. ⊥) _ w (OfflineMsgModel.insert id (dump js) st)
                (insert-Sent id (dump js) t st (tt, (tt, (tt, (plain, (tt, tt)))))
                  (insert_offline-Fits id (dump js) small short) same')
                (λ _ st' h. record {
                  conns_now = refl;
                  tables_now = Sent-apply (insert_offline id (dump js)) t _ healthy h;
                  out_now = sym (append-nil w.out);
                }))
        ]

    -- One round of the loop.
    deliver-Became :
        (id : ℤ) (t : Tables) (w : World State)
        → IsKnown w.conns t id
        → tables w.store ≡ t
        → Returns (λ _ w'. Handled js id t (place w.conns t id) w w') (deliver js id w)
    unfolding deliver route_member
    deliver-Became id t w (small, known) same = elim (Option-cases (find id w.conns)) [
      | inl none_found ↦
          let (u, row) = row_of_known (users_with id t) (rw none_found at known) in
          rw (none_found, row) (not_here id t w u small row same)
      | inr (peer, found) ↦
          rw found
            (record { conns_now = refl; tables_now = same ∙ sym (keep_nothing t); out_now = refl })
    ]

    -- The whole loop.
    for_each-Became :
        (ids : List ℤ) (t : Tables) (w : World State)
        → All (IsKnown w.conns t) ids
        → tables w.store ≡ t
        → Returns
            (λ _ w'.
              Became w.conns
                (keep_more t (all_kept (dump js) (place w.conns t) ids))
                (w.out ++ all_out (dump js) (place w.conns t) ids)
                w')
            (for_each ids (deliver js) w)
    unfolding for_each
    for_each-Became [] t w known same = record {
      conns_now = refl;
      tables_now = same ∙ sym (keep_nothing t);
      out_now = sym (append-nil w.out);
    }
    for_each-Became (id ∷ ids) t w (k, known) same =
        next-Returns _ _ _ (deliver js id w) (deliver-Became id t w k same) (λ _ w1 h.
          let more = kept (dump js) id (place w.conns t id) in
          Ends-mono (for_each ids (deliver js) w1)
            (for_each-Became ids (keep_more t more) w1
              (subst (λ c. All (IsKnown c t) ids) (sym h.conns_now) known) h.tables_now)
            (λ _ w' r. record {
              conns_now = r.conns_now ∙ h.conns_now;
              tables_now =
                  r.tables_now
                  ∙ ap (λ c. keep_more (keep_more t more) (all_kept (dump js) (place c t) ids))
                      h.conns_now
                  ∙ (λ i. record t {
                    messages =
                        append_assoc t.messages more (all_kept (dump js) (place w.conns t) ids) i;
                  });
              out_now =
                  r.out_now
                  ∙ ap (λ o. o ++ all_out (dump js) (place w1.conns t) ids) h.out_now
                  ∙ ap
                      (λ c.
                        (w.out ++ goes_out (dump js) id (place w.conns t id))
                        ++ all_out (dump js) (place c t) ids)
                      h.conns_now
                  ∙ append_assoc w.out _ _;
            })
            (λ _ _ no_fault. no_fault))

  -- On a backend where nothing fails, for a request with `int` ids, of at most 973 bytes and
  -- without need of escaping, and where every other member of the group has an `int` id and a
  -- connection or exactly one row: `groupChat` goes through the other members in the order of the
  -- database's answer, sends the request to each who is connected, publishes it for each whose
  -- row says online, stores it for each other, and does nothing else.
  pub group_chat-Delivered :
      (conn : Conn) (js : Json) (userid groupid : ℤ) (w : World State)
      → IsHealthy B
      → get js "id" ≡ some (int userid)
      → get js "groupid" ≡ some (int groupid)
      → IsInt userid
      → IsInt groupid
      → IsPlain (dump js)
      → length (dump js) ≤ 973
      → All (IsKnown w.conns (tables w.store)) (others_in groupid userid (tables w.store))
      → Returns
          (λ _ w'.
            (ids : List ℤ) × Perm ids (others_in groupid userid (tables w.store))
            × Became w.conns
                (keep_more
                  (tables w.store)
                  (all_kept (dump js) (place w.conns (tables w.store)) ids))
                (w.out ++ all_out (dump js) (place w.conns (tables w.store)) ids)
                w')
          (group_chat conn js w)
  unfolding group_chat
  group_chat-Delivered conn js userid groupid w healthy has_id has_groupid small small_group plain
        short known =
      let t = tables w.store in
      rw (get_int_lem js "id" userid has_id, get_int_lem js "groupid" groupid has_groupid)
        (on_store-Returns _ _ _ w (GroupModel.query_group_users userid groupid w.store)
          (query_group_users-Ids userid groupid t w.store
            (select_member_ids-Fits groupid userid small_group small) refl)
          (λ ids st h.
            Ends-mono (for_each ids (deliver js) (record w { store = st }))
              (for_each-Became js healthy plain short ids t (record w { store = st })
                (perm-All (IsKnown w.conns t) IsKnown-IsProp ids _ (all ids h.0) known) h.1)
              (λ _ w' r. (ids, all ids h.0, r)) (λ _ _ no_fault. no_fault)))
    where
      two_values : IsSet Bool
      two_values = hlevel

      IsKnown-IsProp : (id : ℤ) → IsProp (IsKnown w.conns (tables w.store) id)
      IsKnown-IsProp id p q i = (IsInt-IsProp id p.0 q.0 i, two_values _ _ p.1 q.1 i)

      all :
          (ids : List ℤ)
          → Perm ids (others_in groupid userid (tables w.store)) ⊎ ((ids ≡ []) × ¬ IsHealthy B)
          → Perm ids (others_in groupid userid (tables w.store))
      all ids (inl p) = p
      all ids (inr (_, sick)) = absurd (sick healthy)
