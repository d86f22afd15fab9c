-- ===== src/Service/Session/Login.antt =====
-- The branches of `login`.
use chat_server_c.Base.{true, append_assoc, refl}
use chat_server_c.Db.Statement.Bounds.{select_user-Fits}
use chat_server_c.Base.Filter.{keep-head}
use mathlib.Core.Bool.{false≢true}
use chat_server_c.Db.Tables.{user_id_is, set_state}
use chat_server_c.Base.Outcome.{Ends-mono, Ends, null_row, Fault, Returns}
use chat_server_c.Base.Decimal.{IsInt}
use chat_server_c.Base.{subst, inr, ◌∙◌, sym, inl, some, Bool-cases, ◌≡◌, [], ◌∷◌, ◌≢◌}
use chat_server_c.Base.Bytes.{bytes_eq_iff, bytes_eq, codes, Bytes}
use chat_server_c.Protocol.{online, User, login_msg_ack, msg_code}
use chat_server_c.Base.Int.{int_eq, int_eq_iff, pos, ℤ}
use chat_server_c.Service.World.{on_store-Ends, sent, World, Conn}
use chat_server_c.Service.Session.{refuse, already_online, welcome, login, answer_login, ack}
use chat_server_c.Db.Backend.{IsHealthy, Backend}
use chat_server_c.Json.{get_str_lem, get_int_lem, int, str, JsonLib}
use chat_server_c.Service.Effects.{After}
use chat_server_c.Service.Session.Welcome.{Welcomed-same, Welcomed, welcome-Welcomed, GroupsFit}
use chat_server_c.Model.UserModel
use chat_server_c.Model.UserModel.Effects.{HasOne, users_with, query-Ends, Finds}

module _ ⦃J : JsonLib⦄ ⦃B : Backend⦄ where
  open J use {Json, get, put, dump}
  open B use {State, tables}

  abbrev pub refusal : Json
  refusal =
      put (ack (msg_code login_msg_ack) (pos 1)) "errmsg"
        (str (codes "Invalide userid or password!"))

  abbrev pub twice : Json
  twice = put (ack (msg_code login_msg_ack) (pos 2)) "errmsg" (str (codes "the user is online!"))

  -- What `login` does with the id of `u` and the password `pwd`.
  pub data Answered (conn : Conn) (id : ℤ) (pwd : Bytes) (u : User) (w w' : World State)
      : Type 0 where
    refused :
        u.password ≢ pwd
        → After w (tables w.store) (sent conn (dump refusal) ∷ []) w'
        → Answered conn id pwd u w w'
    in_already :
        u.password ≡ pwd
        → u.state ≡ online
        → After w (tables w.store) (sent conn (dump twice) ∷ sent conn (codes "\n") ∷ []) w'
        → Answered conn id pwd u w w'
    let_in :
        u.password ≡ pwd
        → u.state ≢ online
        → Welcomed conn id (set_state online u) w w'
        → Answered conn id pwd u w w'

  module _ (conn : Conn) (id : ℤ) (pwd : Bytes) (u : User) (w : World State) (healthy : IsHealthy B)
      (small : IsInt id) (fit : GroupsFit id (tables w.store)) where
    answer_login-Answered :
        (st : State)
        → int_eq u.id id ≡ true
        → tables st ≡ tables w.store
        → Returns
            (λ _ w'. Answered conn id pwd u w w')
            (answer_login conn id pwd u (record w { store = st }))
    unfolding answer_login already_online refuse
    answer_login-Answered st same_id same =
        rw same_id (elim (Bool-cases (bytes_eq u.password pwd)) [
          | inl right ↦ rw right (elim (Bool-cases (bytes_eq u.state online)) [
            | inl on ↦ rw on (
                in_already ((bytes_eq_iff u.password pwd).0 right)
                  ((bytes_eq_iff u.state online).0 on)
                  (record {
                    conns_now = refl;
                    tables_now = same;
                    out_now = append_assoc w.out _ _;
                  }))
            | inr off ↦ rw off (
                Ends-mono (welcome conn id u (record w { store = st }))
                  (welcome-Welcomed conn id u (record w { store = st }) healthy small
                    (subst (GroupsFit id) (sym same) fit) ((int_eq_iff u.id id).0 same_id))
                  (λ _ w' h.
                    let_in ((bytes_eq_iff u.password pwd).0 right)
                      (λ e. false≢true (sym off ∙ (bytes_eq_iff u.state online).1 e))
                      (Welcomed-same conn id (set_state online u) w w' st same h))
                  (λ _ _ no_fault. no_fault))
          ])
          | inr wrong ↦ rw wrong (
              refused (λ e. false≢true (sym wrong ∙ (bytes_eq_iff u.password pwd).1 e))
                (record { conns_now = refl; tables_now = same; out_now = refl }))
        ])

  -- The one way in which `login` ends the process on a readable request.
  abbrev pub NoUser : ℤ → World State → Fault → World State → Type 0
  NoUser id w f w' = (f ≡ null_row) × (users_with id (tables w.store) ≡ [])

  -- On a backend where nothing fails, and for a request with an `int` id that at most one row of
  -- `user` has, a password, and groups whose ids fit the statements: `login` refuses exactly if
  -- the row has another password, answers that the user is in already exactly if his row says
  -- online, and else lets him in: his state is set, his connection entered unless the id has one,
  -- his channel subscribed, and the answer lists the messages that waited, which are deleted, his
  -- friends and his groups; or it ends the process on a null row, where there is no row of that
  -- id.
  pub login-Answered :
      (conn : Conn) (js : Json) (id : ℤ) (pwd : Bytes) (w : World State)
      → IsHealthy B
      → get js "id" ≡ some (int id)
      → get js "password" ≡ some (str pwd)
      → IsInt id
      → HasOne id (tables w.store)
      → GroupsFit id (tables w.store)
      → Ends
          (λ _ w'.
            (u : User) × (users_with id (tables w.store) ≡ u ∷ []) × Answered conn id pwd u w w')
          (NoUser id w)
          (login conn js w)
  unfolding login
  login-Answered conn js id pwd w healthy has_id has_pwd small key fit =
      rw (get_int_lem js "id" id has_id, get_str_lem js "password" pwd has_pwd)
        (on_store-Ends _ _ _ w (UserModel.query id w.store)
          (query-Ends id (tables w.store) w.store (select_user-Fits id small) key refl)
          (λ f st h. (h.0, h.1)) (λ u st h. answer u st h.0 h.1))
    where
      answer :
          (u : User) (st : State)
          → Finds id (tables w.store) u
          → tables st ≡ tables w.store
          → Ends
              (λ _ w'.
                (v : User) × (users_with id (tables w.store) ≡ v ∷ [])
                × Answered conn id pwd v w w')
              (NoUser id w)
              (answer_login conn id pwd u (record w { store = st }))
      answer u st (inl row) same =
          Ends-mono (answer_login conn id pwd u (record w { store = st }))
            (answer_login-Answered conn id pwd u w healthy small fit st
              (keep-head (user_id_is id) _ _ u row) same)
            (λ _ w' h. (u, row, h)) (λ _ _ no_fault. absurd no_fault)
      answer u st (inr (_, sick)) same = absurd (sick healthy)
