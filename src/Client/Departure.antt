-- ===== src/Client/Departure.antt =====
-- The line `loginout` at the client, at the server, and in the client's receiving thread.
use chat_server_c.Client.Requests.{run_command-Reaches}
use chat_server_c.Json.Fields.{shown-build, get-build, build-IsObject}
use chat_server_c.Client.Conversation.{receive_round-dump}
use chat_server_c.Service.Session.Leaving.{loginout-Left, was_out, logged_out, Left}
use chat_server_c.Service.Dispatch.{on_message}
use chat_server_c.Base.Outcome.{Ends-mono, done, Returns}
use chat_server_c.Base.Decimal.{IsInt}
use chat_server_c.Base.Assoc.{find}
use chat_server_c.Client.State.{loginout_failed, wire, Client}
use chat_server_c.Service.World.{sent, unsubscribed, World, Conn}
use chat_server_c.Service.Session.{logout_json}
use chat_server_c.Base.Int.{negsuc, pos, ℤ}
use chat_server_c.Base.Bytes.{codes, bytes_eq, Bytes}
use chat_server_c.Protocol.{loginout_msg, msg_code, User}
use chat_server_c.Db.Backend.{IsHealthy, Backend}
use chat_server_c.Client.Receiver.{leaves, goes_on, receive_round, receive_loginout, receive_json}
use chat_server_c.Json.{get_int_lem, str, int, Value, JsonLib}
use chat_server_c.Base.{
  sym, ◌∙◌, subst, ◌<◌, ◌++◌, length, [], ◌∷◌, ◌≡◌, refl, none, some, String, List,
}
use chat_server_c.Service.Session
use chat_server_c.Client.{request, find_command, main_menu, loginout, sends_and_leaves}

module _ ⦃J : JsonLib⦄ where
  open J use {Json, get, dump}

  abbrev pub leaving : User → Json
  leaving me = request me (msg_code loginout_msg)

  abbrev reply_fields : User → String → ℤ → List (String × Value)
  reply_fields me msg errno =
      ("errno", int errno)
      ∷ ("msg", str (codes msg))
      ∷ ("msgid", int (msg_code loginout_msg))
      ∷ ("id", int me.id)
      ∷ ("msgid", int (msg_code loginout_msg))
      ∷ []

  abbrev pub success : User → Json
  success me = logout_json (leaving me) "offline success! welcome next time." (pos 0)

  abbrev pub failure : User → Json
  failure me = logout_json (leaving me) "offline fail! please retry." (pos 1)

  -- The user is as before any login, and neither friends nor groups are kept; the screen is as it was.
  abbrev pub nobody_in : Client → Client
  nobody_in c = record c {
    me = record { id = negsuc 0; name = []; password = []; state = codes "offline" };
    friends = [];
    groups = [];
  }

  pub receive_round-success :
      (me : User) (c : Client)
      → length (dump (success me)) < 1024
      → receive_round (some (dump (success me))) c ≡ (done leaves, nobody_in c)
  unfolding receive_json receive_loginout
  receive_round-success me c short =
      let fs = reply_fields me "offline success! welcome next time." (pos 0) in
      receive_round-dump (success me) c (build-IsObject fs) short
      ∙ rw
          (
            get_int_lem (success me) "msgid" (msg_code loginout_msg) (get-build fs "msgid"),
            get_int_lem (success me) "errno" (pos 0) (get-build fs "errno"),
          )
          refl

  pub receive_round-failure :
      (me : User) (c : Client)
      → length (dump (failure me)) < 1024
      → receive_round (some (dump (failure me))) c ≡ (
        done goes_on,
        record c {
          screen =
              c.screen ++ loginout_failed (J.text (str (codes "offline fail! please retry."))) ∷ [];
        },
      )
  unfolding receive_json receive_loginout
  receive_round-failure me c short =
      let fs = reply_fields me "offline fail! please retry." (pos 1) in
      receive_round-dump (failure me) c (build-IsObject fs) short
      ∙ rw
          (
            get_int_lem (failure me) "msgid" (msg_code loginout_msg) (get-build fs "msgid"),
            get_int_lem (failure me) "errno" (pos 1) (get-build fs "errno"),
            J.is_object-IsObject (failure me) (build-IsObject fs),
            shown-build fs "msg",
          )
          refl

  main_menu-loginout :
      (me : User) (time : Bytes)
      → main_menu me time (codes "loginout") ≡ sends_and_leaves (leaving me)
  unfolding main_menu find_command bytes_eq
  main_menu-loginout me time = refl

module _ ⦃J : JsonLib⦄ ⦃B : Backend⦄ where
  open J use {Json, get, dump}
  open B use {State}

  -- What the server sends back on `conn`, and what the receiving thread of the client makes of it.
  pub data Parted (conn : Conn) (me : User) (c : Client) (w w' : World State) : Type 0 where
    let_go :
        (peer : Conn) (s : Bytes)
        → find me.id w.conns ≡ some peer
        → w'.out ≡ w.out ++ unsubscribed me.id ∷ sent conn s ∷ []
        → receive_round (some s) c ≡ (done leaves, nobody_in c)
        → Parted conn me c w w'
    kept_on :
        (s : Bytes)
        → find me.id w.conns ≡ none
        → w'.out ≡ w.out ++ sent conn s ∷ []
        → receive_round (some s) c ≡ (
          done goes_on,
          record c {
            screen =
                c.screen
                ++ loginout_failed (J.text (str (codes "offline fail! please retry."))) ∷ [];
          },
        )
        → Parted conn me c w w'

  -- On a backend where nothing fails, for a user with an `int` id and answers shorter than the
  -- buffer: the line `loginout` ends the menu, and of what the server sends back the receiving
  -- thread makes that its user is the one before any login, its friends and groups are none, its
  -- screen is as before, and it ends, if the id has a connection at the server; and if not, it
  -- prints the refusal and goes on.
  pub loginout-Parted :
      (me : User) (time : Bytes) (conn : Conn) (w : World State) (c : Client)
      → IsHealthy B
      → IsInt me.id
      → length (dump (success me)) < 1024
      → length (dump (failure me)) < 1024
      → (main_menu me time (codes "loginout") ≡ sends_and_leaves (leaving me))
        × Returns (λ _ w'. Parted conn me c w w') (on_message conn (wire (dump (leaving me))) w)
  loginout-Parted me time conn w c healthy small short_success short_failure = (
    main_menu-loginout me time,
    subst (Returns (λ _ w'. Parted conn me c w w'))
        (sym (run_command-Reaches me time loginout [] conn w))
        (Ends-mono (Session.loginout conn (leaving me) w)
          (loginout-Left conn (leaving me) me.id w healthy
            (get-build (("id", int me.id) ∷ ("msgid", int (msg_code loginout_msg)) ∷ []) "id")
            small)
          (λ _ w' h. told w' h) (λ _ _ no_fault. no_fault)),
  )
    where
      told : (w' : World State) → Left conn (leaving me) me.id w w' → Parted conn me c w w'
      told w' (logged_out peer here b) =
          let_go peer (dump (success me)) here b.out_now (receive_round-success me c short_success)
      told w' (was_out away b) =
          kept_on (dump (failure me)) away b.out_now (receive_round-failure me c short_failure)
