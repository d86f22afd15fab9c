-- ===== src/Service/Mailbox/Simulation.antt =====
-- Each handler does to the user what the account says.
use chat_server_c.Service.Mailbox.Keeping.{KeepsTo, Done, Became-Refines, Became-Frame}
use chat_server_c.Service.Mailbox.{drops}
use chat_server_c.Service.Mailbox.Apart.{IsApart}
use chat_server_c.Service.Mailbox.Departures.{leaves_in, leaves_out, drops_in, drops_out}
use chat_server_c.Service.Mailbox.Frame.{Frame-refl, Frame-logged_in, Frame-insert_offline}
use chat_server_c.Db.Statement.Bounds.{insert_offline-Fits}
use chat_server_c.Service.Session.Delivery.{login-Welcomed, waiting-append, Welcomed-TakenOnce}
use chat_server_c.Db.Statement.{insert_offline}
use chat_server_c.Service.Session.Welcome.{GroupsFit, Welcomed}
use chat_server_c.Service.Session.Login.{login-Answered, let_in, in_already, Answered}
use chat_server_c.Model.OfflineMsgModel.Effects.{waiting}
use chat_server_c.Service.Chat.Routing.{
  one_chat-Routed, kept_back, is_online_state, passed_on, forwarded, Routed, one_chat_here,
}
use chat_server_c.Protocol.{online, User}
use chat_server_c.Service.Session.{login}
use chat_server_c.Base.Outcome.{Ends-mono, Returns}
use chat_server_c.Db.Tables.{set_state, apply}
use chat_server_c.Base.Assoc.{find-insert, find}
use chat_server_c.Service.World.{World, Conn}
use chat_server_c.Service.Mailbox.{
  perform, leaves, enters, chats, is_out, is_in, IsAbout, Act, Account,
}
use chat_server_c.Service.Chat.{is_online, one_chat, notice_size, notice}
use chat_server_c.Base.Decimal.{IsInt}
use chat_server_c.Base.Bytes.{Bytes}
use chat_server_c.Base.Int.{int_eq_refl, ℤ}
use chat_server_c.Db.Backend.{IsHealthy, Backend}
use chat_server_c.Json.{str, int, JsonLib}
use mathlib.Core.List.Perm
use chat_server_c.Service.Session.Login.{refused}
use chat_server_c.Base.{
  true, inr, ◌∙◌, ap, sym, Perm, subst, ◌++◌, List, ◌<◌, length, [], ◌∷◌, ◌≡◌, some, refl,
}

module _ ⦃J : JsonLib⦄ ⦃B : Backend⦄ (owner : Conn → ℤ) (id : ℤ) (pwd : Bytes)
    (healthy : IsHealthy B) (small : IsInt id) (short : length (notice id) < notice_size) where
  open J use {Json, get, dump}
  open B use {State, tables}

  chats_in :
      (conn peer : Conn) (js : Json) (w : World State)
      → KeepsTo owner id pwd (is_in peer) w
      → get js "toid" ≡ some (int id)
      → Returns (λ _ w'. Done owner id pwd (chats conn js) (is_in peer) w w') (one_chat conn js w)
  chats_in conn peer js w r to =
      rw (one_chat_here conn js id peer w to r.place.0)
        (r, refl, Frame-refl id w.conns (tables w.store))

  chats_out :
      (conn : Conn) (js : Json) (ms : List Bytes) (w : World State)
      → KeepsTo owner id pwd (is_out ms) w
      → IsAbout owner id pwd (chats conn js)
      → Returns (λ _ w'. Done owner id pwd (chats conn js) (is_out ms) w w') (one_chat conn js w)
  chats_out conn js ms w r (to, plain, fits) =
      Ends-mono (one_chat conn js w)
        (one_chat-Routed conn js id w healthy to small (inr (r.user, r.row))
          (tt, (tt, (tt, (plain, (tt, tt))))) (insert_offline-Fits id (dump js) small fits) short)
        (λ _ w' h. stored w' h) (λ f w' h. cc (h.2, r.row))
    where
      one_more :
          Perm
            (waiting id (apply (insert_offline id (dump js)) (tables w.store)))
            (ms ++ dump js ∷ [])
      one_more =
          subst (λ l. Perm l (ms ++ dump js ∷ []))
            (sym (waiting-append id (dump js) (tables w.store)))
            (Perm.append_right (dump js ∷ []) r.place.2)

      stored :
          (w' : World State)
          → Routed conn js id w w'
          → Done owner id pwd (chats conn js) (is_out ms) w w'
      stored w' (forwarded peer here _) = cc (here, r.place.0)
      stored w' (passed_on v _ row on _) = absurd (
          r.place.1 (
            is_online_state r.user
              (subst (λ x. is_online x ≡ true) {x = v} {y = r.user} (cc (row, r.row)) on)))
      stored w' (kept_back v _ _ _ b) = (
        Became-Refines owner id pwd (is_out (ms ++ dump js ∷ [])) w.conns
            (apply (insert_offline id (dump js)) (tables w.store)) _ w'
            (record {
              user = r.user;
              row = r.row;
              same_password = r.same_password;
              place = (r.place.0, r.place.1, one_more);
              fit = r.fit;
            })
            b,
        b.out_now,
        Became-Frame owner id pwd w _ _ _ w'
            (Frame-insert_offline id (dump js) w.conns (tables w.store)) b,
      )

  enters_in :
      (conn peer : Conn) (js : Json) (w : World State)
      → KeepsTo owner id pwd (is_in peer) w
      → IsAbout owner id pwd (enters conn js)
      → Returns (λ _ w'. Done owner id pwd (enters conn js) (is_in peer) w w') (login conn js w)
  enters_in conn peer js w r (has_id, has_pwd, _) =
      Ends-mono (login conn js w)
        (login-Answered conn js id pwd w healthy has_id has_pwd small (inr (r.user, r.row)) r.fit)
        (λ _ w' (v, row, a). again w' v (cc (row, r.row)) a) (λ f w' h. cc (h.1, r.row))
    where
      again :
          (w' : World State) (v : User)
          → v ≡ r.user
          → Answered conn id pwd v w w'
          → Done owner id pwd (enters conn js) (is_in peer) w w'
      again w' v e (refused wrong _) = absurd (wrong (ap (λ u. u.password) e ∙ r.same_password))
      again w' v e (in_already _ _ b) = (
        Became-Refines owner id pwd (is_in peer) w.conns (tables w.store) _ w' r b,
        b.out_now,
        Became-Frame owner id pwd w _ _ _ w' (Frame-refl id w.conns (tables w.store)) b,
      )
      again w' v e (let_in _ off _) = absurd (off (ap (λ u. u.state) e ∙ r.place.1))

  enters_out :
      (conn : Conn) (js : Json) (ms : List Bytes) (w : World State)
      → KeepsTo owner id pwd (is_out ms) w
      → IsAbout owner id pwd (enters conn js)
      → Returns (λ _ w'. Done owner id pwd (enters conn js) (is_out ms) w w') (login conn js w)
  enters_out conn js ms w r (has_id, has_pwd, _) =
      Ends-mono (login conn js w)
        (login-Welcomed conn js id r.user w healthy (
          has_id,
          has_pwd ∙ ap (λ p. some (str p)) (sym r.same_password),
          small,
          r.row,
          r.place.1,
          r.fit,
        ))
        (λ _ w' h. (
          now_in w' h,
          (
            set_state online r.user,
            h.messages,
            h.friends,
            h.groups,
            Perm.trans h.messages_all r.place.2,
            h.out_now,
          ),
          Became-Frame owner id pwd w _ _ w'.out w'
              (Frame-logged_in id conn w.conns (tables w.store))
              (record { conns_now = h.conns_now; tables_now = h.tables_now; out_now = refl }),
        ))
        (λ _ _ no_fault. no_fault)
    where
      now_in :
          (w' : World State)
          → Welcomed conn id (set_state online r.user) w w'
          → KeepsTo owner id pwd (is_in conn) w'
      now_in w' h =
          let (row, none_waits, _) = Welcomed-TakenOnce conn id r.user w w' r.row h in
          record {
            user = set_state online r.user;
            row = row;
            same_password = r.same_password;
            place = (
              ap (find id) h.conns_now
                  ∙ find-insert id id conn w.conns
                  ∙ rw (r.place.0, int_eq_refl id) refl,
              refl,
              none_waits,
            );
            fit = subst (GroupsFit id) (sym h.tables_now) r.fit;
          }

  -- What the account says of an act is what the handler does.
  pub perform-Refines :
      (act : Act J) (a : Account) (w : World State)
      → KeepsTo owner id pwd a w
      → IsApart owner w.conns
      → IsAbout owner id pwd act
      → Returns (λ _ w'. Done owner id pwd act a w w') (perform act w)
  perform-Refines (chats conn js) (is_in peer) w r apart h = chats_in conn peer js w r h.0
  perform-Refines (chats conn js) (is_out ms) w r apart h = chats_out conn js ms w r h
  perform-Refines (enters conn js) (is_in peer) w r apart h = enters_in conn peer js w r h
  perform-Refines (enters conn js) (is_out ms) w r apart h = enters_out conn js ms w r h
  perform-Refines (leaves conn js) (is_in peer) w r apart h =
      leaves_in owner id pwd healthy small conn peer js w r h
  perform-Refines (leaves conn js) (is_out ms) w r apart h =
      leaves_out owner id pwd healthy small conn js ms w r h
  perform-Refines (drops conn) (is_in peer) w r apart h =
      drops_in owner id pwd healthy small conn w apart h peer r
  perform-Refines (drops conn) (is_out ms) w r apart h =
      drops_out owner id pwd healthy small conn w apart h ms r
