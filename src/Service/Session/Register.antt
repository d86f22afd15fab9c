-- ===== src/Service/Session/Register.antt =====
-- `reg`, and a login of the user that it makes.
use chat_server_c.Db.Statement.Bounds.{insert_user-Fits, insert_user-IsClean}
use chat_server_c.Base.Outcome.{Ends-mono, next-Returns, ◌>>◌, Returns}
use chat_server_c.Base.Filter.{keep-append}
use chat_server_c.Db.Statement.{IsPlain, insert_user}
use chat_server_c.Protocol.{
  offline≢online, online, default_user, reg_msg_ack, offline, msg_code, User,
}
use chat_server_c.Db.Tables.{set_state, user_id_is, apply, Tables}
use chat_server_c.Service.World.{on_store-Returns, sent, World, Conn}
use chat_server_c.Service.Session.{login, reg}
use chat_server_c.Base.Int.{int_eq_refl, to_int, pos, ℤ}
use chat_server_c.Base.Bytes.{Bytes}
use chat_server_c.Db.Backend.{IsHealthy, Backend}
use chat_server_c.Json.{get_str_lem, str, int, JsonLib}
use chat_server_c.Base.{
  inr, subst, sym, arith, ap, ◌^◌, ◌<◌, ◌≤◌, ◌∙◌, ◌+◌, length, ◌∷◌, some, [], ◌≡◌, ℕ, refl,
}
use chat_server_c.Service.Effects.{After}
use chat_server_c.Service.Session.Welcome.{Welcomed, GroupsFit}
use chat_server_c.Service.Session.Login.{login-Answered, Answered, refused, in_already, let_in}
use chat_server_c.Model.UserModel
use chat_server_c.Model.UserModel.Effects.{insert-Written, users_with}

module _ ⦃J : JsonLib⦄ where
  open J use {Json, empty, put}

  abbrev pub registered_json : ℤ → Json
  registered_json id =
      put (put (put empty "msgid" (int (msg_code reg_msg_ack))) "id" (int id)) "errno" (int (pos 0))

module _ ⦃J : JsonLib⦄ ⦃B : Backend⦄ where
  open J use {Json, get, dump}
  open B use {State, tables}

  -- The tables behind a registration, and the answer with the new key.
  abbrev pub Registered : Conn → Bytes → Bytes → World State → World State → Type 0
  Registered conn name pwd w w' =
      After w (apply (insert_user name pwd offline) (tables w.store))
        (sent conn (dump (registered_json (to_int (tables w.store).next_user))) ∷ []) w'

  -- On a backend where nothing fails and for a name and password that need no escaping and have
  -- at most 954 bytes together, `reg` returns: there is one more row, offline and with the next
  -- key, and the answer has that key as an `int`; nothing else is sent or changed.
  pub reg-Registered :
      (conn : Conn) (js : Json) (name pwd : Bytes) (w : World State)
      → IsHealthy B
      → get js "name" ≡ some (str name)
      → get js "password" ≡ some (str pwd)
      → IsPlain name
      → IsPlain pwd
      → length name + length pwd ≤ 954
      → Returns (λ _ w'. Registered conn name pwd w w') (reg conn js w)
  unfolding reg
  reg-Registered conn js name pwd w healthy has_name has_pwd plain_name plain_pwd short =
      rw (get_str_lem js "name" name has_name, get_str_lem js "password" pwd has_pwd)
        (on_store-Returns _ _ _ w
          (UserModel.insert (record default_user { name = name; password = pwd }) w.store)
          (insert-Written (record default_user { name = name; password = pwd }) (tables w.store)
            w.store (insert_user-IsClean name pwd plain_name plain_pwd)
            (insert_user-Fits name pwd offline (omega (arith, short))) refl)
          (λ r st h.
            rw (h.1, h.0.healthy healthy)
              (record {
                conns_now = refl;
                tables_now = h.0.applied (h.0.healthy healthy);
                out_now = refl;
              })))

  -- The row that a registration makes.
  abbrev pub new_user : ℕ → Bytes → Bytes → User
  new_user n name pwd = record { id = pos n; name = name; password = pwd; state = offline }

  users_with-new :
      (name pwd : Bytes) (t : Tables)
      → users_with (pos t.next_user) t ≡ []
      → users_with (pos t.next_user) (apply (insert_user name pwd offline) t)
        ≡ new_user t.next_user name pwd ∷ []
  users_with-new name pwd t fresh =
      keep-append (user_id_is (pos t.next_user)) t.users (new_user t.next_user name pwd ∷ [])
      ∙ rw (fresh, int_eq_refl (pos t.next_user)) refl

  -- On a backend where nothing fails, for a name and password that need no escaping and have at
  -- most 954 bytes together, and a next key below 2^31 that no row has and whose groups' ids fit
  -- the statements: a registration makes a row with that key, and a login with that key and
  -- password behind it is let in.
  pub reg-login :
      (conn conn' : Conn) (js js' : Json) (name pwd : Bytes) (w : World State)
      → IsHealthy B
      → get js "name" ≡ some (str name)
      → get js "password" ≡ some (str pwd)
      → IsPlain name
      → IsPlain pwd
      → length name + length pwd ≤ 954
      → (tables w.store).next_user < 2 ^ 31
      → users_with (pos (tables w.store).next_user) (tables w.store) ≡ []
      → GroupsFit (pos (tables w.store).next_user) (tables w.store)
      → get js' "id" ≡ some (int (pos (tables w.store).next_user))
      → get js' "password" ≡ some (str pwd)
      → Returns
          (λ _ w2.
            (w1 : World State) × Registered conn name pwd w w1
            × Welcomed conn'
                (pos (tables w.store).next_user)
                (set_state online (new_user (tables w.store).next_user name pwd))
                w1
                w2)
          ((reg conn js >> login conn' js') w)
  reg-login conn conn' js js' name pwd w healthy has_name has_pwd plain_name plain_pwd short small
        fresh fit has_id has_pwd' =
      let n = (tables w.store).next_user in
      next-Returns _ _ _ (reg conn js w)
        (reg-Registered conn js name pwd w healthy has_name has_pwd plain_name plain_pwd short)
        (λ _ w1 r.
          let row : users_with (pos n) (tables w1.store) ≡ new_user n name pwd ∷ [] =
            ap (users_with (pos n)) r.tables_now ∙ users_with-new name pwd (tables w.store) fresh in
          Ends-mono (login conn' js' w1)
            (login-Answered conn' js' (pos n) pwd w1 healthy has_id has_pwd' small (inr (_, row))
              (subst (GroupsFit (pos n)) (sym r.tables_now) fit))
            (λ _ w2 (u, row', a). (w1, r, into w1 w2 u (cc (row, row')) a))
            (λ f w2 h. cc (h.1, row)))
    where
      into :
          (w1 w2 : World State) (u : User)
          → u ≡ new_user (tables w.store).next_user name pwd
          → Answered conn' (pos (tables w.store).next_user) pwd u w1 w2
          → Welcomed conn'
              (pos (tables w.store).next_user)
              (set_state online (new_user (tables w.store).next_user name pwd))
              w1
              w2
      into w1 w2 u e (refused wrong _) = absurd (wrong (ap (λ v. v.password) e))
      into w1 w2 u e (in_already _ on _) = absurd (offline≢online (sym (ap (λ v. v.state) e) ∙ on))
      into w1 w2 u e (let_in _ _ welcomed) =
          subst (λ v. Welcomed conn' (pos (tables w.store).next_user) (set_state online v) w1 w2) e
            welcomed
