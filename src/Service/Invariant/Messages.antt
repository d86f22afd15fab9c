-- ===== src/Service/Invariant/Messages.antt =====
-- The same of the handlers of messages, and of every step of the server.
use chat_server_c.Protocol.{new_group}
use chat_server_c.Service.Run.{
  then_by, started, Reachable, connection, from_redis, message, step, Input,
}
use chat_server_c.Service.Session.{client_close_exception, reset}
use chat_server_c.Base.Outcome.{pure, json_error, or_raise}
use chat_server_c.Base.Bytes.{codes, Bytes}
use chat_server_c.Base.Assoc.Values.{find-ValuesAre, insert-ValuesAre, ValuesAre}
use chat_server_c.Service.Dispatch.{
  or_default, on_connection, get_handler, on_message, handlers, MsgHandler,
}
use chat_server_c.Service.Chat.{
  notice, is_online, notice_size, deliver, route_member, route, receive, one_chat, keep_and_tell,
  handle_redis_subscribe_message, group_chat,
}
use chat_server_c.Db.Calls.{sprintf}
use chat_server_c.Base.Int.{minus_one, ℤ}
use chat_server_c.Service.World.{World, no_handler, on_store, published, emit, Event, Conn}
use chat_server_c.Base.Assoc.{find, Assoc}
use chat_server_c.Db.Backend.{Backend}
use chat_server_c.Json.{JsonLib}
use chat_server_c.Base.{
  subst, [], inr, inl, length, ltb, ◌≡◌, Bool-cases, ℕ, Option, List, refl, none, some,
}
use chat_server_c.Model.UserModel
use chat_server_c.Service.Social.{add_friend, create_group, add_group}
use chat_server_c.Service.Run.{interrupt}
use chat_server_c.Model.OfflineMsgModel
use chat_server_c.Model.GroupModel
use chat_server_c.Model.FriendModel
use chat_server_c.Service.Invariant.{
  AreKept, IsKept, Keeps, bind-Keeps, or_raise-Keeps, if-Keeps, for_each-Keeps,
}
use chat_server_c.Service.Invariant.Handlers.{
  store-Keeps, sent-Keeps, on_store-Keeps, need_int-Keeps, need_str-Keeps, login-Keeps, reg-Keeps,
  loginout-Keeps, client_close_exception-Keeps,
}

module _ ⦃J : JsonLib⦄ ⦃B : Backend⦄ (P : B.State → Assoc Conn → List Event → Type 0)
    (kept : IsKept P) (models : AreKept P) where
  open J use {Json, put, dump, parse}
  open B use {State}

  published-Keeps : (id : ℤ) (text : Bytes) → Keeps P (emit (published id text))
  published-Keeps id text w p = kept.quiet (published id text) w.store w.conns w.out refl p

  sprintf-Keeps : (size : ℕ) (text : Bytes) → Keeps P (sprintf size text)
  unfolding sprintf
  sprintf-Keeps size text w p = elim (Bool-cases (ltb (length text) size)) [
    | inl fits ↦ rw fits p
    | inr long ↦ rw long p
  ]

  keep_and_tell-Keeps : (conn : Conn) (js : Json) (toid : ℤ) → Keeps P (keep_and_tell conn js toid)
  unfolding keep_and_tell
  keep_and_tell-Keeps conn js toid =
      on_store-Keeps P kept models (OfflineMsgModel.insert toid (dump js)) _
        (models.insert_message toid (dump js))
        (λ _.
          bind-Keeps P (sprintf notice_size (notice toid)) _
            (sprintf-Keeps notice_size (notice toid)) (λ text. sent-Keeps P kept models _ _))

  route-Keeps :
      (conn : Conn) (js : Json) (toid : ℤ) (found : Option Conn)
      → Keeps P (route conn js toid found)
  unfolding route
  route-Keeps conn js toid (some peer) = sent-Keeps P kept models _ _
  route-Keeps conn js toid none =
      on_store-Keeps P kept models (UserModel.query toid) _ (models.query_user toid) (λ user.
        if-Keeps P (is_online user) (emit (published toid (dump js))) (keep_and_tell conn js toid)
          (published-Keeps toid (dump js)) (keep_and_tell-Keeps conn js toid))

  one_chat-Keeps : (conn : Conn) (js : Json) → Keeps P (one_chat conn js)
  unfolding one_chat
  one_chat-Keeps conn js =
      need_int-Keeps P kept models js "toid" _
        (λ toid w p. route-Keeps conn js toid (find toid w.conns) w p)

  route_member-Keeps :
      (js : Json) (id : ℤ) (found : Option Conn) → Keeps P (route_member js id found)
  unfolding route_member
  route_member-Keeps js id (some peer) = sent-Keeps P kept models _ _
  route_member-Keeps js id none =
      on_store-Keeps P kept models (UserModel.query id) _ (models.query_user id) (λ user.
        if-Keeps P (is_online user) (emit (published user.id (dump js)))
          (on_store (OfflineMsgModel.insert id (dump js))) (published-Keeps user.id (dump js))
          (store-Keeps P kept models (OfflineMsgModel.insert id (dump js))
            (models.insert_message id (dump js))))

  group_chat-Keeps : (conn : Conn) (js : Json) → Keeps P (group_chat conn js)
  unfolding group_chat deliver
  group_chat-Keeps conn js = need_int-Keeps P kept models js "id" _ (λ userid.
      need_int-Keeps P kept models js "groupid" _ (λ groupid.
        on_store-Keeps P kept models (GroupModel.query_group_users userid groupid) _
          (models.query_member_ids userid groupid)
          (λ ids.
            for_each-Keeps P ids (deliver js)
              (λ id w p. route_member-Keeps js id (find id w.conns) w p))))

  receive-Keeps :
      (userid : ℤ) (msg : Bytes) (found : Option Conn) → Keeps P (receive userid msg found)
  unfolding receive
  receive-Keeps userid msg (some peer) = sent-Keeps P kept models _ _
  receive-Keeps userid msg none =
      store-Keeps P kept models (OfflineMsgModel.insert userid msg)
        (models.insert_message userid msg)

  add_friend-Keeps : (conn : Conn) (js : Json) → Keeps P (add_friend conn js)
  unfolding add_friend
  add_friend-Keeps conn js = need_int-Keeps P kept models js "id" _ (λ id.
      need_int-Keeps P kept models js "friendid" _ (λ friendid.
        store-Keeps P kept models (FriendModel.insert id friendid)
          (models.insert_friend id friendid)))

  create_group-Keeps : (conn : Conn) (js : Json) → Keeps P (create_group conn js)
  unfolding create_group
  create_group-Keeps conn js = need_int-Keeps P kept models js "id" _ (λ userid.
      need_str-Keeps P kept models js "groupname" _ (λ name.
        need_str-Keeps P kept models js "groupdesc" _ (λ desc.
          on_store-Keeps P kept models (GroupModel.create_group (new_group minus_one name desc)) _
            (models.create_group _)
            (λ r.
              if-Keeps P r.0 (on_store (GroupModel.add_group userid r.1.id (codes "creator")))
                (pure tt)
                (store-Keeps P kept models (GroupModel.add_group userid r.1.id (codes "creator"))
                  (models.add_member userid r.1.id (codes "creator")))
                (λ w p. p)))))

  add_group-Keeps : (conn : Conn) (js : Json) → Keeps P (add_group conn js)
  unfolding add_group
  add_group-Keeps conn js = need_int-Keeps P kept models js "id" _ (λ id.
      need_int-Keeps P kept models js "groupid" _ (λ groupid.
        store-Keeps P kept models (GroupModel.add_group id groupid (codes "normal"))
          (models.add_member id groupid (codes "normal"))))

  abbrev KeepsAll : MsgHandler → Type 0
  KeepsAll h = (conn : Conn) (js : Json) → Keeps P (h conn js)

  handlers-KeepsAll : ValuesAre KeepsAll handlers
  unfolding handlers
  handlers-KeepsAll =
      let ins = insert-ValuesAre KeepsAll in
      ins _ _ _ group_chat-Keeps (
        ins _ _ _ add_group-Keeps (
          ins _ _ _ create_group-Keeps (
            ins _ _ _ (loginout-Keeps P kept models) (
              ins _ _ _ add_friend-Keeps (
                ins _ _ _ one_chat-Keeps (
                  ins _ _ _ (reg-Keeps P kept models)
                    (ins _ _ _ (login-Keeps P kept models) tt)))))))

  or_default-KeepsAll :
      (msgid : ℤ) (found : Option MsgHandler)
      → find msgid handlers ≡ found
      → KeepsAll (or_default msgid found)
  or_default-KeepsAll msgid (some h) e =
      find-ValuesAre KeepsAll msgid h handlers handlers-KeepsAll e
  or_default-KeepsAll msgid none e =
      λ conn js w p. kept.quiet (no_handler msgid) w.store w.conns w.out refl p

  on_message-Keeps : (conn : Conn) (buf : Bytes) → Keeps P (on_message conn buf)
  unfolding on_message get_handler
  on_message-Keeps conn buf =
      bind-Keeps P (or_raise (parse buf) json_error) _ (or_raise-Keeps P (parse buf) json_error)
        (λ js.
          need_int-Keeps P kept models js "msgid" _
            (λ msgid. or_default-KeepsAll msgid (find msgid handlers) refl conn js))

  pub step-Keeps : (i : Input) → Keeps P (step i)
  unfolding handle_redis_subscribe_message on_connection reset
  step-Keeps (message conn buf) = on_message-Keeps conn buf
  step-Keeps (from_redis userid msg) = λ w p. receive-Keeps userid msg (find userid w.conns) w p
  step-Keeps (connection conn connected) =
      if-Keeps P connected (pure tt) (client_close_exception conn) (λ w p. p)
        (client_close_exception-Keeps P kept models conn)
  step-Keeps interrupt = store-Keeps P kept models UserModel.reset_states models.reset_users

  -- What holds of every server that has just started holds of every state that it reaches.
  pub Reachable-Keeps :
      ((st : State) → P st [] []) → (w : World State) → Reachable w → P w.store w.conns w.out
  Reachable-Keeps first w (started st) = first st
  Reachable-Keeps first w (then_by i v _ r e) =
      subst (λ o. P o.1.store o.1.conns o.1.out) e (step-Keeps i v (Reachable-Keeps first v r))
