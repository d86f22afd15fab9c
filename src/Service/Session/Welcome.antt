-- ===== src/Service/Session/Welcome.antt =====
-- `welcome`: the part of `login` that lets a user in.
use mathlib.Core.List.Perm
use chat_server_c.Db.Calls.Effects.{Sent-apply}
use chat_server_c.Model.UserModel.Effects.{update-Written}
use chat_server_c.Model.GroupModel.Effects.{query_group-Groups, bare_group}
use chat_server_c.Db.Statement.Bounds.{
  online-IsClean, update_state-Fits, select_groups-Fits, select_friends-Fits, delete_offline-Fits,
  select_offline-Fits,
}
use chat_server_c.Model.FriendModel.Effects.{query-Friends, without_password}
use chat_server_c.Model.OfflineMsgModel.Effects.{remove-Sent, query-Waiting, waiting}
use chat_server_c.Base.Outcome.{next-Returns, ◌>>◌, ◌>>=◌, pure, Returns}
use chat_server_c.Base.Decimal.{IsInt}
use chat_server_c.Db.Statement.{select_members, Fits, update_state, delete_offline}
use chat_server_c.Base.Filter.{map-eq-nil, keep-not_none, keep-update_where, update_where, keep}
use chat_server_c.Service.World.{on_store, sent, subscribed, on_store-Returns, World, Conn}
use chat_server_c.Service.Session.{send, welcome, is_empty, login_json, take_messages}
use chat_server_c.Protocol.{online, Group, User}
use chat_server_c.Db.Tables.{
  message_for, groups_of, set_state, friends_of, user_id_is, apply, Tables,
}
use chat_server_c.Db.Backend.{IsHealthy, Backend}
use chat_server_c.Json.{JsonLib}
use chat_server_c.Base.Bytes.{Bytes}
use chat_server_c.Model.UserModel
use chat_server_c.Model.FriendModel
use chat_server_c.Model.OfflineMsgModel
use chat_server_c.Model.GroupModel
use chat_server_c.Base.{
  subst, arith, append_assoc, All, if◌then◌else◌, not, inr, ◌∙◌, inl, ◌⊎◌, ◌++◌, map, [], ◌∷◌, ◌≡◌,
  Perm, List, refl, sym, ap,
}
use chat_server_c.Base.Assoc.{insert}
use chat_server_c.Base.Int.{ℤ}

-- The row of a user whose state was set.
pub users_with-set_state :
    (id : ℤ) (s : Bytes) (us : List User) (u : User)
    → keep (user_id_is id) us ≡ u ∷ []
    → keep (user_id_is id) (update_where (user_id_is id) (set_state s) us) ≡ set_state s u ∷ []
users_with-set_state id s us u e =
    keep-update_where (user_id_is id) (set_state s) us (λ v. refl) ∙ ap (map (set_state s)) e

-- The tables behind a login of `id`: the state is online, and no message waits.
abbrev pub logged_in : ℤ → Tables → Tables
logged_in id t = apply (delete_offline id) (apply (update_state online id) t)

module _ ⦃J : JsonLib⦄ ⦃B : Backend⦄ where
  open J use {Json, get, put, dump}
  open B use {State, tables}

  -- A login that lets the user in.
  pub record Welcomed (conn : Conn) (id : ℤ) (u : User) (w w' : World State) : Type 0 where
    pub messages : List Bytes
    pub friends : List User
    pub groups : List Group
    pub messages_all : Perm messages (waiting id (tables w.store))
    pub friends_all :
        Perm friends
          (map without_password (friends_of id (apply (update_state online id) (tables w.store))))
    pub groups_all : Perm groups (map bare_group (groups_of id (tables w.store)))
    pub conns_now : w'.conns ≡ insert id conn w.conns
    pub tables_now : tables w'.store ≡ logged_in id (tables w.store)
    pub out_now :
        w'.out
        ≡ w.out ++ subscribed id ∷ sent conn (dump (login_json u messages friends groups)) ∷ []

  -- The tables before are all that a login asks of the store before.
  pub Welcomed-same :
      (conn : Conn) (id : ℤ) (u : User) (w w' : World State) (st : State)
      → tables st ≡ tables w.store
      → Welcomed conn id u (record w { store = st }) w'
      → Welcomed conn id u w w'
  Welcomed-same conn id u w w' st e h = record {
    messages = h.messages;
    friends = h.friends;
    groups = h.groups;
    messages_all = subst (λ t. Perm h.messages (waiting id t)) e h.messages_all;
    friends_all =
        subst
          (λ t.
            Perm h.friends
              (map without_password (friends_of id (apply (update_state online id) t))))
          e h.friends_all;
    groups_all = subst (λ t. Perm h.groups (map bare_group (groups_of id t))) e h.groups_all;
    conns_now = h.conns_now;
    tables_now = h.tables_now ∙ ap (logged_in id) e;
    out_now = h.out_now;
  }

  abbrev Taken : ℤ → World State → Tables → List Bytes → World State → Type 0
  Taken id w t ms w' =
      Perm ms (waiting id t)
      × (tables w'.store ≡ apply (delete_offline id) t)
      × (w'.conns ≡ w.conns)
      × (w'.out ≡ w.out)

  take_messages-Taken :
      (id : ℤ) (w : World State) (t : Tables)
      → IsHealthy B
      → IsInt id
      → tables w.store ≡ t
      → Returns (Taken id w t) (take_messages id w)
  unfolding take_messages
  take_messages-Taken id w t healthy small e =
      on_store-Returns _ _ _ w (OfflineMsgModel.query id w.store)
        (query-Waiting id t w.store (select_offline-Fits id small) e)
        (λ ms st h. rest ms st (all ms h.0) h.1)
    where
      all :
          (ms : List Bytes)
          → Perm ms (waiting id t) ⊎ ((ms ≡ []) × ¬ IsHealthy B)
          → Perm ms (waiting id t)
      all ms (inl p) = p
      all ms (inr (_, sick)) = absurd (sick healthy)

      no_messages : Perm [] (waiting id t) → apply (delete_offline id) t ≡ t
      no_messages p =
          let none_left : t.messages ≡ keep (λ m. not (message_for id m)) t.messages = sym (
            keep-not_none (message_for id) t.messages
              (map-eq-nil (λ m. m.1) _ (Perm.eq-nil (Perm.symm p)))) in
          λ i. record t { messages = sym none_left i }

      rest :
          (ms : List Bytes) (st : State)
          → Perm ms (waiting id t)
          → tables st ≡ t
          → Returns (Taken id w t) (
              (if is_empty ms then pure [] else (on_store (OfflineMsgModel.remove id) >> pure ms))
                (record w { store = st }))
      rest [] st p same = (p, same ∙ sym (no_messages p), refl, refl)
      rest (m ∷ ms) st p same =
          on_store-Returns _ _ _ (record w { store = st }) (OfflineMsgModel.remove id st)
            (remove-Sent id t st (delete_offline-Fits id small) same)
            (λ _ st' h. (p, Sent-apply (delete_offline id) t _ healthy h, refl, refl))

  -- What holds of the tables where the statements of a login are sent: the ids fit `int`.
  abbrev pub GroupsFit : ℤ → Tables → Type 0
  GroupsFit id t = All (λ g. Fits (select_members g.id)) (groups_of id t)

  module _ (conn : Conn) (id : ℤ) (u : User) (w : World State) (healthy : IsHealthy B)
      (small : IsInt id) (fit : GroupsFit id (tables w.store)) where
    abbrev start : Tables
    start = tables w.store

    read_groups :
        (ms : List Bytes) (fs : List User) (w1 : World State)
        → Perm ms (waiting id start)
        → Perm fs (map without_password (friends_of id (apply (update_state online id) start)))
        → tables w1.store ≡ logged_in id start
        → w1.conns ≡ insert id conn w.conns
        → w1.out ≡ w.out ++ subscribed id ∷ []
        → Returns
            (λ _ w'. Welcomed conn id (set_state online u) w w')
            ((on_store (GroupModel.query_group id) >>= λ gs.
                send conn (login_json (set_state online u) ms fs gs))
              w1)
    read_groups ms fs w1 pm pf same conns out =
        on_store-Returns _ _ _ w1 (GroupModel.query_group id w1.store)
          (query_group-Groups id (logged_in id start) w1.store (select_groups-Fits id small) fit
            same)
          (λ gs st h. record {
            messages = ms;
            friends = fs;
            groups = gs;
            messages_all = pm;
            friends_all = pf;
            groups_all = all gs h.0;
            conns_now = conns;
            tables_now = h.1;
            out_now =
                ap (λ o. o ++ sent conn (dump (login_json (set_state online u) ms fs gs)) ∷ []) out
                ∙ append_assoc w.out (subscribed id ∷ []) _;
          })
      where
        all :
            (gs : List Group)
            → Perm gs (map bare_group (groups_of id start)) ⊎ ((gs ≡ []) × ¬ IsHealthy B)
            → Perm gs (map bare_group (groups_of id start))
        all gs (inl p) = p
        all gs (inr (_, sick)) = absurd (sick healthy)

    read_friends :
        (ms : List Bytes) (w1 : World State)
        → Perm ms (waiting id start)
        → tables w1.store ≡ logged_in id start
        → w1.conns ≡ insert id conn w.conns
        → w1.out ≡ w.out ++ subscribed id ∷ []
        → Returns
            (λ _ w'. Welcomed conn id (set_state online u) w w')
            ((on_store (FriendModel.query id) >>= λ fs.
                on_store (GroupModel.query_group id) >>= λ gs.
                send conn (login_json (set_state online u) ms fs gs))
              w1)
    read_friends ms w1 pm same conns out =
        on_store-Returns _ _ _ w1 (FriendModel.query id w1.store)
          (query-Friends id (logged_in id start) w1.store (select_friends-Fits id small) same)
          (λ fs st h. read_groups ms fs (record w1 { store = st }) pm (all fs h.0) h.1 conns out)
      where
        all :
            (fs : List User)
            → Perm fs (map without_password (friends_of id (logged_in id start)))
              ⊎ ((fs ≡ []) × ¬ IsHealthy B)
            → Perm fs (map without_password (friends_of id (apply (update_state online id) start)))
        all fs (inl p) = p
        all fs (inr (_, sick)) = absurd (sick healthy)

    abbrev joined : World State
    joined = record w { conns = insert id conn w.conns; out = w.out ++ subscribed id ∷ [] }

    -- The state is set, and then the messages are taken.
    pub welcome-Welcomed :
        u.id ≡ id
        → Returns (λ _ w'. Welcomed conn id (set_state online u) w w') (welcome conn id u w)
    unfolding welcome
    welcome-Welcomed same_id =
        on_store-Returns _ _ _ joined (UserModel.update (set_state online u) w.store)
          (update-Written (set_state online u) start w.store (online-IsClean u.id)
            (update_state-Fits online u.id (subst IsInt (sym same_id) small) (omega arith)) refl)
          (λ success st h.
            next-Returns _ _ _ (take_messages id (record joined { store = st }))
              (take_messages-Taken id (record joined { store = st })
                (apply (update_state online id) start) healthy small
                (h.applied (h.healthy healthy)
                  ∙ ap (λ k. apply (update_state online k) start) same_id))
              (λ ms w1 (pm, same, conns, out). read_friends ms w1 pm same conns out))
