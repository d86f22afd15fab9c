-- ===== src/Examples/Sessions.antt =====
-- Sessions in the server of Examples.
use chat_server_c.Service.Dispatch.Routes.{get_handler-Table, on_message_handled}
use chat_server_c.Service.Run.{started, message, then_by, Reachable}
use chat_server_c.Service.Session.Restart.{reset-login, fresh}
use chat_server_c.Examples.{bob}
use chat_server_c.Service.Session.{reset}
use chat_server_c.Base.{All, ◌≢◌}
use chat_server_c.Service.Invariant.Subscriptions.{Reachable-IsTuned, IsTuned}
use chat_server_c.Service.Dispatch.{on_message}
use chat_server_c.Service.Session.Welcome.{Welcomed}
use chat_server_c.Service.Effects.{After}
use chat_server_c.Model.OfflineMsgModel.Effects.{waiting}
use chat_server_c.Service.Session.Register.{reg-login, new_user, reg-Registered, Registered}
use chat_server_c.Service.Session.Leaving.{client_close_exception-Lost, loginout-Left, Lost, Left}
use chat_server_c.Service.Session.Delivery.{
  login-Welcomed, login-TakenOnce, login-one_chat, TakenOnce, one_chat-login, CanLogIn,
}
use chat_server_c.Base.Decimal.{IsInt, show_int}
use chat_server_c.Base.Assoc.{find}
use chat_server_c.Service.Chat.Faults.{notice_short}
use chat_server_c.Db.Statement.Bounds.{select_members-Fits}
use chat_server_c.Service.Session.{
  login_json, user_of_conn, reg, loginout, client_close_exception, login,
}
use chat_server_c.Service.Session.Login.{login-Answered, NoUser, Answered}
use chat_server_c.Service.Chat.{one_chat}
use chat_server_c.Model.UserModel.Effects.{users_with}
use chat_server_c.Base.Outcome.{fault, done, Outcome, ◌>>◌, Returns, Ends}
use chat_server_c.Json.{str, int}
use chat_server_c.Base.Bytes.{bytes_eq, Bytes, codes}
use chat_server_c.Service.World.{sent, subscribed, World}
use chat_server_c.Protocol.{offline≢online, Group, online, User}
use chat_server_c.Db.Tables.{set_state}
use chat_server_c.Base.Int.{minus_one, ℤ, pos}
use chat_server_c.Base.{ap, ◌∙◌, sym, subst, ◌≢◌, Perm, inr, arith, ◌≡◌, [], ◌∷◌, List}
use chat_server_c.Base.{refl, some}
use chat_server_c.Json.Sample.{sample_json, Doc}
use chat_server_c.Db.Server.Sample.{Server, running, running-IsHealthy}
use chat_server_c.Examples.{
  ann, three_users, world, request, login_ann, chat_to, IsPlain-by_test, can_log_in,
}

login-Answered_example :
    Ends
      (λ _ w'.
        (u : User) × (users_with (pos 1) three_users ≡ u ∷ [])
        × Answered 10 (pos 1) (codes "pa") u world w')
      (NoUser (pos 1) world)
      (login 10 login_ann world)
unfolding bytes_eq find show_int
login-Answered_example =
    login-Answered 10 login_ann (pos 1) (codes "pa") world running-IsHealthy refl refl (omega arith)
      (inr (ann, refl)) (select_members-Fits (pos 1) (omega arith), tt)

login-TakenOnce_example :
    Returns
      (λ _ w'.
        (ms : List Bytes) × (fs : List User) × (gs : List Group) × Perm ms
          (waiting (pos 1) three_users)
        × (w'.out
            ≡ subscribed (pos 1)
              ∷ sent 10 (sample_json.dump (login_json (set_state online ann) ms fs gs))
              ∷ [])
        × TakenOnce (pos 1) ann three_users w'.store.tables)
      (login 10 login_ann world)
login-TakenOnce_example =
    login-TakenOnce 10 login_ann (pos 1) ann world running-IsHealthy can_log_in

one_chat-login_example :
    Returns
      (λ _ w2.
        (w1 : World Server) × (h : Welcomed 10 (pos 1) (set_state online ann) w1 w2) × Perm
          h.messages
          (codes "old" ∷ sample_json.dump (chat_to 1) ∷ []))
      ((one_chat 20 (chat_to 1) >> login 10 login_ann) world)
unfolding bytes_eq find show_int
one_chat-login_example =
    one_chat-login 20 10 (chat_to 1) login_ann (pos 1) ann world running-IsHealthy can_log_in refl
      refl (IsPlain-by_test (sample_json.dump (chat_to 1)) refl) (omega arith)
      (notice_short (pos 1) (omega arith))

login-one_chat_example :
    Returns
      (λ _ w2.
        (w1 : World Server) × Welcomed 10 (pos 1) (set_state online ann) world w1
        × After w1 w1.store.tables (sent 10 (sample_json.dump (chat_to 1)) ∷ []) w2)
      ((login 10 login_ann >> one_chat 20 (chat_to 1)) world)
unfolding bytes_eq find
login-one_chat_example =
    login-one_chat 10 20 login_ann (chat_to 1) (pos 1) ann world running-IsHealthy can_log_in refl
      refl

abbrev logout_cat : Doc
logout_cat = request (pos 8) (("id", int (pos 3)) ∷ [])

loginout-Left_example :
    Returns (λ _ w'. Left 30 logout_cat (pos 3) world w') (loginout 30 logout_cat world)
unfolding bytes_eq
loginout-Left_example =
    loginout-Left 30 logout_cat (pos 3) world running-IsHealthy refl (omega arith)

only_cat : (id : ℤ) → user_of_conn 30 world.conns ≡ some id → IsInt id × (id ≢ minus_one)
unfolding user_of_conn
only_cat id e =
    let same : pos 3 ≡ id = cc e in
    subst (λ i. IsInt i × (i ≢ minus_one)) same (omega arith, λ h. cc h)

client_close_exception-Lost_example :
    Returns (λ _ w'. Lost 30 world w') (client_close_exception 30 world)
client_close_exception-Lost_example =
    client_close_exception-Lost 30 world running-IsHealthy only_cat

abbrev register_dan : Doc
register_dan = request (pos 3) (("name", str (codes "dan")) ∷ ("password", str (codes "pd")) ∷ [])

abbrev login_dan : Doc
login_dan = request (pos 1) (("id", int (pos 4)) ∷ ("password", str (codes "pd")) ∷ [])

reg-Registered_example :
    Returns (λ _ w'. Registered 10 (codes "dan") (codes "pd") world w') (reg 10 register_dan world)
unfolding bytes_eq
reg-Registered_example =
    reg-Registered 10 register_dan (codes "dan") (codes "pd") world running-IsHealthy refl refl
      (IsPlain-by_test (codes "dan") refl) (IsPlain-by_test (codes "pd") refl) (omega arith)

reg-login_example :
    Returns
      (λ _ w2.
        (w1 : World Server) × Registered 10 (codes "dan") (codes "pd") world w1
        × Welcomed 11 (pos 4) (set_state online (new_user 4 (codes "dan") (codes "pd"))) w1 w2)
      ((reg 10 register_dan >> login 11 login_dan) world)
unfolding bytes_eq
reg-login_example =
    reg-login 10 11 register_dan login_dan (codes "dan") (codes "pd") world running-IsHealthy refl
      refl (IsPlain-by_test (codes "dan") refl) (IsPlain-by_test (codes "pd") refl) (omega arith)
      (omega arith) refl tt refl refl

-- The server behind the login of `ann`, from its start.
abbrev start : World Server
start = record { store = world.store; conns = []; out = [] }

abbrev with_ann : World Server
with_ann = (on_message 10 (sample_json.dump login_ann) start).1

done-Returns :
    {S : Type 0} (P : Unit {0} → S → Type 0) (r : Outcome (Unit {0}) × S)
    → Returns P r
    → r ≡ (done tt, r.1)
done-Returns P (done x, s) h = refl
done-Returns P (fault e, s) h = absurd h

ann_can : CanLogIn login_ann (pos 1) ann start
unfolding bytes_eq
ann_can =
    (refl, refl, omega arith, refl, offline≢online, (select_members-Fits (pos 1) (omega arith), tt))

with_ann-Reachable : Reachable with_ann
unfolding bytes_eq
with_ann-Reachable =
    then_by (message 10 (sample_json.dump login_ann)) start with_ann (started world.store) (
      done-Returns (λ _ w'. Welcomed 10 (pos 1) (set_state online ann) start w')
        (on_message 10 (sample_json.dump login_ann) start)
        (subst (Returns (λ _ w'. Welcomed 10 (pos 1) (set_state online ann) start w'))
          (sym (
            on_message_handled 10 login_ann (pos 1) start refl
            ∙ ap (λ h. h 10 login_ann start) get_handler-Table.0))
          (login-Welcomed 10 login_ann (pos 1) ann start running-IsHealthy ann_can)))

Reachable-IsTuned_example : IsTuned with_ann.conns with_ann.out
Reachable-IsTuned_example = Reachable-IsTuned with_ann with_ann-Reachable

abbrev login_bob : Doc
login_bob = request (pos 1) (("id", int (pos 2)) ∷ ("password", str (codes "pb")) ∷ [])

reset-login_example :
    Returns
      (λ _ w1.
        All (λ v. v.state ≢ online) w1.store.tables.users
        × (w1.store.tables.messages ≡ three_users.messages)
        × (w1.out ≡ [])
        × Returns
            (λ _ w2. Welcomed 20 (pos 2) (set_state online bob) (fresh w1.store) w2)
            (login 20 login_bob (fresh w1.store)))
      (reset world)
unfolding bytes_eq
reset-login_example =
    reset-login 20 login_bob (pos 2) bob world running-IsHealthy refl refl (omega arith) refl
      (select_members-Fits (pos 1) (omega arith), tt)
