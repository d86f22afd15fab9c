-- ===== src/Service/Invariant/Handlers.antt =====
-- Each handler keeps a predicate that joining, leaving and quiet events keep.
use chat_server_c.Protocol.{offline, online, User, default_user}
use chat_server_c.Base.Int.{minus_one, int_eq, ℤ}
use chat_server_c.Base.Bytes.{bytes_eq, Bytes}
use chat_server_c.Service.Session.{
  refuse, or_minus_one, need_str, need_int, is_empty, already_online, user_of_conn, answer_login,
  welcome, take_messages, reg, loginout, login, erase_found, end_session, client_close_exception,
}
use chat_server_c.Base.Outcome.{json_error, ◌>>=◌, Action}
use chat_server_c.Service.World.{sent, subscribed, unsubscribed, emit, on_store, World, Event, Conn}
use chat_server_c.Base.Assoc.{insert, erase, find, Assoc}
use chat_server_c.Db.Backend.{Backend}
use chat_server_c.Json.{get_str, get_int, JsonLib}
use chat_server_c.Base.{if◌then◌else◌, [], ◌∷◌, ◌&&◌, ◌++◌, Option, String, List, refl, none, some}
use chat_server_c.Model.UserModel
use chat_server_c.Model.FriendModel
use chat_server_c.Model.OfflineMsgModel
use chat_server_c.Model.GroupModel
use chat_server_c.Service.Invariant.{
  KeepsStored, AreKept, IsKept, Keeps, bind-Keeps, or_raise-Keeps, if-Keeps,
}

module _ ⦃J : JsonLib⦄ ⦃B : Backend⦄ (P : B.State → Assoc Conn → List Event → Type 0)
    (kept : IsKept P) (models : AreKept P) where
  open J use {Json, put, dump}
  open B use {State}

  pub store-Keeps : {A : Type 0} (m : Action State A) → KeepsStored P m → Keeps P (on_store m)
  store-Keeps m q w p = q w.store w.conns w.out p

  pub sent-Keeps : (conn : Conn) (text : Bytes) → Keeps P (emit (sent conn text))
  sent-Keeps conn text w p = kept.quiet (sent conn text) w.store w.conns w.out refl p

  pub on_store-Keeps :
      {A C : Type 0} (m : Action State A) (f : A → Action (World State) C)
      → KeepsStored P m
      → ((a : A) → Keeps P (f a))
      → Keeps P (on_store m >>= f)
  on_store-Keeps m f q h = bind-Keeps P (on_store m) f (store-Keeps m q) h

  pub need_int-Keeps :
      {C : Type 0} (js : Json) (key : String) (f : ℤ → Action (World State) C)
      → ((i : ℤ) → Keeps P (f i))
      → Keeps P (need_int js key >>= f)
  need_int-Keeps js key f h =
      bind-Keeps P (need_int js key) f (or_raise-Keeps P (get_int js key) json_error) h

  pub need_str-Keeps :
      {C : Type 0} (js : Json) (key : String) (f : Bytes → Action (World State) C)
      → ((s : Bytes) → Keeps P (f s))
      → Keeps P (need_str js key >>= f)
  need_str-Keeps js key f h =
      bind-Keeps P (need_str js key) f (or_raise-Keeps P (get_str js key) json_error) h

  take_messages-Keeps : (id : ℤ) → Keeps P (take_messages id)
  unfolding take_messages
  take_messages-Keeps id =
      on_store-Keeps (OfflineMsgModel.query id) _ (models.query_messages id) (λ ms.
        if-Keeps P (is_empty ms) _ _ (λ w p. p)
          (on_store-Keeps (OfflineMsgModel.remove id) _ (models.remove_messages id) (λ _ w p. p)))

  welcome-Keeps : (conn : Conn) (id : ℤ) (u : User) → Keeps P (welcome conn id u)
  unfolding welcome
  welcome-Keeps conn id u w p =
      on_store-Keeps (UserModel.update (record u { state = online })) _
        (models.update_user (record u { state = online }))
        (λ _. bind-Keeps P (take_messages id) _ (take_messages-Keeps id) (λ ms.
          on_store-Keeps (FriendModel.query id) _ (models.query_friends id) (λ fs.
            on_store-Keeps (GroupModel.query_group id) _ (models.query_groups id)
              (λ gs. sent-Keeps _ _))))
        (record w { conns = insert id conn w.conns; out = w.out ++ subscribed id ∷ [] })
        (kept.joins id conn w.store w.conns w.out p)

  already_online-Keeps : (conn : Conn) → Keeps P (already_online conn)
  unfolding already_online
  already_online-Keeps conn w p = kept.quiet _ _ _ _ refl (kept.quiet _ _ _ _ refl p)

  refuse-Keeps : (conn : Conn) → Keeps P (refuse conn)
  unfolding refuse
  refuse-Keeps conn w p = kept.quiet _ _ _ _ refl p

  answer_login-Keeps :
      (conn : Conn) (id : ℤ) (pwd : Bytes) (user : User) → Keeps P (answer_login conn id pwd user)
  unfolding answer_login
  answer_login-Keeps conn id pwd user =
      if-Keeps P (int_eq user.id id && bytes_eq user.password pwd)
        (if bytes_eq user.state online then already_online conn else welcome conn id user)
        (refuse conn)
        (if-Keeps P (bytes_eq user.state online) (already_online conn) (welcome conn id user)
          (already_online-Keeps conn) (welcome-Keeps conn id user))
        (refuse-Keeps conn)

  pub login-Keeps : (conn : Conn) (js : Json) → Keeps P (login conn js)
  unfolding login
  login-Keeps conn js = need_int-Keeps js "id" _ (λ id. need_str-Keeps js "password" _ (λ pwd.
      on_store-Keeps (UserModel.query id) _ (models.query_user id)
        (λ user. answer_login-Keeps conn id pwd user)))

  pub reg-Keeps : (conn : Conn) (js : Json) → Keeps P (reg conn js)
  unfolding reg
  reg-Keeps conn js = need_str-Keeps js "name" _ (λ name. need_str-Keeps js "password" _ (λ pwd.
      on_store-Keeps (UserModel.insert (record default_user { name = name; password = pwd })) _
        (models.insert_user _) (λ r. sent-Keeps _ _)))

  end_session-Keeps :
      (conn : Conn) (js : Json) (id : ℤ) (found : Option Conn)
      → Keeps P (end_session conn js id found)
  unfolding end_session
  end_session-Keeps conn js id (some peer) =
      on_store-Keeps (UserModel.update (record default_user { id = id })) _ (models.update_user _)
        (λ _ w p.
          sent-Keeps _ _
            (record w { conns = erase id w.conns; out = w.out ++ unsubscribed id ∷ [] })
            (kept.leaves id w.store w.conns w.out p))
  end_session-Keeps conn js id none = sent-Keeps _ _

  pub loginout-Keeps : (conn : Conn) (js : Json) → Keeps P (loginout conn js)
  unfolding loginout
  loginout-Keeps conn js =
      need_int-Keeps js "id" _ (λ id w p. end_session-Keeps conn js id (find id w.conns) w p)

  leaving-Keeps :
      (found : Option ℤ) (w : World State)
      → P w.store w.conns w.out
      → P w.store (erase_found found w.conns) (w.out ++ unsubscribed (or_minus_one found) ∷ [])
  unfolding erase_found
  leaving-Keeps none w p = kept.nobody w.store w.conns w.out p
  leaving-Keeps (some id) w p = kept.leaves id w.store w.conns w.out p

  pub client_close_exception-Keeps : (conn : Conn) → Keeps P (client_close_exception conn)
  unfolding client_close_exception
  client_close_exception-Keeps conn w p =
      let found = user_of_conn conn w.conns in
      if-Keeps P (int_eq (or_minus_one found) minus_one) _ _ (λ w p. p)
        (on_store-Keeps
          (UserModel.update (record default_user { id = or_minus_one found; state = offline })) _
          (models.update_user _) (λ _ w p. p))
        (record w {
          conns = erase_found found w.conns;
          out = w.out ++ unsubscribed (or_minus_one found) ∷ [];
        })
        (leaving-Keeps found w p)
