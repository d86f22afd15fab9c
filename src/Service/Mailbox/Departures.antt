-- ===== src/Service/Mailbox/Departures.antt =====
-- Logouts and lost connections, for one account.
use chat_server_c.Service.Mailbox.Keeping.{KeepsTo, Done, Became-Refines, Became-Frame}
use chat_server_c.Service.Mailbox.{drops}
use chat_server_c.Service.Mailbox.Apart.{IsApart, user_of_conn_owner, user_of_conn_found}
use chat_server_c.Service.Session.{user_of_conn, client_close_exception}
use chat_server_c.Service.Session.Leaving.{client_close_exception-Lost, Lost, dropped, nobody}
use chat_server_c.Service.World.{unsubscribed}
use chat_server_c.Base.{==_iff, ◌==◌, Bool-cases, inl}
use chat_server_c.Service.Mailbox.Frame.{Frame-refl, Frame-logged_out, Frame}
use chat_server_c.Db.Statement.{update_state}
use chat_server_c.Service.Session.Welcome.{users_with-set_state}
use chat_server_c.Service.Session.Leaving.{loginout-Left, was_out, logged_out, Left}
use chat_server_c.Protocol.{offline≢online, offline}
use chat_server_c.Service.Effects.{Became}
use chat_server_c.Base.Outcome.{Ends-mono, Returns}
use chat_server_c.Db.Tables.{set_state, apply}
use chat_server_c.Base.Assoc.{find-erase, find, erase}
use chat_server_c.Service.World.{Event, World, Conn}
use chat_server_c.Service.Mailbox.{leaves, is_out, is_in, IsAbout, Account}
use chat_server_c.Base.Decimal.{IsInt}
use chat_server_c.Base.Bytes.{Bytes}
use chat_server_c.Base.Int.{int_eq_refl, ℤ}
use chat_server_c.Db.Backend.{IsHealthy, Backend}
use chat_server_c.Json.{JsonLib}
use mathlib.Core.List.Perm
use chat_server_c.Service.Session.{loginout}
use chat_server_c.Base.{true, inr, ◌∙◌, sym, Perm, subst, ◌++◌, List, [], ◌∷◌, ◌≡◌, some, refl}

module _ ⦃J : JsonLib⦄ ⦃B : Backend⦄ (owner : Conn → ℤ) (id : ℤ) (pwd : Bytes)
    (healthy : IsHealthy B) (small : IsInt id) where
  open J use {Json, get, dump}
  open B use {State, tables}

  -- A user whose entry is erased and who is offline now, nothing of his waiting.
  put_out :
      (peer : Conn) (out : List Event) (w w' : World State)
      → KeepsTo owner id pwd (is_in peer) w
      → Became (erase id w.conns) (apply (update_state offline id) (tables w.store)) out w'
      → KeepsTo owner id pwd (is_out []) w'
        × Frame id w.conns (tables w.store) w'.conns (tables w'.store)
  put_out peer out w w' r b = (
    Became-Refines owner id pwd (is_out []) (erase id w.conns)
        (apply (update_state offline id) (tables w.store)) _ w'
        (record {
          user = set_state offline r.user;
          row = users_with-set_state id offline (tables w.store).users r.user r.row;
          same_password = r.same_password;
          place = (
            find-erase id id w.conns ∙ rw (int_eq_refl id) refl,
            offline≢online,
            subst (λ l. Perm l []) (sym r.place.2) (Perm.refl []),
          );
          fit = r.fit;
        })
        b,
    Became-Frame owner id pwd w _ _ _ w' (Frame-logged_out id w.conns (tables w.store)) b,
  )

  pub leaves_in :
      (conn peer : Conn) (js : Json) (w : World State)
      → KeepsTo owner id pwd (is_in peer) w
      → IsAbout owner id pwd (leaves conn js)
      → Returns (λ _ w'. Done owner id pwd (leaves conn js) (is_in peer) w w') (loginout conn js w)
  leaves_in conn peer js w r has_id =
      Ends-mono (loginout conn js w) (loginout-Left conn js id w healthy has_id small)
        (λ _ w' h. gone w' h) (λ _ _ no_fault. no_fault)
    where
      gone :
          (w' : World State)
          → Left conn js id w w'
          → Done owner id pwd (leaves conn js) (is_in peer) w w'
      gone w' (was_out away _) = cc (away, r.place.0)
      gone w' (logged_out _ _ b) =
          let (kept_to, f) = put_out peer _ w w' r b in (kept_to, b.out_now, f)

  pub leaves_out :
      (conn : Conn) (js : Json) (ms : List Bytes) (w : World State)
      → KeepsTo owner id pwd (is_out ms) w
      → IsAbout owner id pwd (leaves conn js)
      → Returns (λ _ w'. Done owner id pwd (leaves conn js) (is_out ms) w w') (loginout conn js w)
  leaves_out conn js ms w r has_id =
      Ends-mono (loginout conn js w) (loginout-Left conn js id w healthy has_id small)
        (λ _ w' h. stays w' h) (λ _ _ no_fault. no_fault)
    where
      stays :
          (w' : World State)
          → Left conn js id w w'
          → Done owner id pwd (leaves conn js) (is_out ms) w w'
      stays w' (logged_out peer here _) = cc (here, r.place.0)
      stays w' (was_out _ b) = (
        Became-Refines owner id pwd (is_out ms) w.conns (tables w.store) _ w' r b,
        b.out_now,
        Became-Frame owner id pwd w _ _ _ w' (Frame-refl id w.conns (tables w.store)) b,
      )

  stays_as_is :
      (a : Account) (out : List Event) (w w' : World State)
      → KeepsTo owner id pwd a w
      → Became w.conns (tables w.store) out w'
      → KeepsTo owner id pwd a w' × Frame id w.conns (tables w.store) w'.conns (tables w'.store)
  stays_as_is a out w w' r b = (
    Became-Refines owner id pwd a w.conns (tables w.store) _ w' r b,
    Became-Frame owner id pwd w _ _ _ w' (Frame-refl id w.conns (tables w.store)) b,
  )

  module _ (conn : Conn) (w : World State) (apart : IsApart owner w.conns)
      (about : IsAbout owner id pwd (drops conn)) where
    its_owner : (j : ℤ) → user_of_conn conn w.conns ≡ some j → j ≡ id
    its_owner j e = sym (user_of_conn_owner owner j conn w.conns apart e).0 ∙ about.0

    lost : Returns (λ _ w'. Lost conn w w') (client_close_exception conn w)
    lost = client_close_exception-Lost conn w healthy (λ j e. (
      subst IsInt (sym (its_owner j e)) small,
      λ none_found. about.1 (sym (its_owner j e) ∙ none_found),
    ))

    pub drops_in :
        (peer : Conn)
        → KeepsTo owner id pwd (is_in peer) w
        → Returns
            (λ _ w'. Done owner id pwd (drops conn) (is_in peer) w w')
            (client_close_exception conn w)
    drops_in peer r =
        Ends-mono (client_close_exception conn w) lost (λ _ w' h. by_entry w' h)
          (λ _ _ no_fault. no_fault)
      where
        by_entry :
            (w' : World State) → Lost conn w w' → Done owner id pwd (drops conn) (is_in peer) w w'
        by_entry w' (dropped j e b) =
            let same : j ≡ id = its_owner j e in
            let here : find id w.conns ≡ some conn =
              subst (λ k. find k w.conns ≡ some conn) same
                (user_of_conn_owner owner j conn w.conns apart e).1 in
            let mine : some peer ≡ some conn = sym r.place.0 ∙ here in
            let hit : (peer == conn) ≡ true = (==_iff peer conn).1 (cc mine) in
            let (kept_to, f) = put_out peer _ w w' r (
              subst
                (λ k.
                  Became (erase k w.conns) (apply (update_state offline k) (tables w.store))
                    (w.out ++ unsubscribed k ∷ []) w')
                same b) in
            rw hit (kept_to, subst (λ k. w'.out ≡ w.out ++ unsubscribed k ∷ []) same b.out_now, f)
        by_entry w' (nobody none_found b) = elim (Bool-cases (peer == conn)) [
          | inl hit ↦ cc (
            none_found,
            user_of_conn_found owner id peer w.conns apart.0 r.place.0,
            (==_iff peer conn).0 hit,
          )
          | inr miss ↦
              let (kept_to, f) = stays_as_is (is_in peer) _ w w' r b in
              rw miss (kept_to, b.out_now, f)
        ]

    pub drops_out :
        (ms : List Bytes)
        → KeepsTo owner id pwd (is_out ms) w
        → Returns
            (λ _ w'. Done owner id pwd (drops conn) (is_out ms) w w')
            (client_close_exception conn w)
    drops_out ms r =
        Ends-mono (client_close_exception conn w) lost (λ _ w' h. no_entry w' h)
          (λ _ _ no_fault. no_fault)
      where
        no_entry :
            (w' : World State) → Lost conn w w' → Done owner id pwd (drops conn) (is_out ms) w w'
        no_entry w' (dropped j e b) =
            let here : find id w.conns ≡ some conn =
              subst (λ k. find k w.conns ≡ some conn) (its_owner j e)
                (user_of_conn_owner owner j conn w.conns apart e).1 in
            cc (here, r.place.0)
        no_entry w' (nobody none_found b) =
            let (kept_to, f) = stays_as_is (is_out ms) _ w w' r b in (kept_to, b.out_now, f)
