-- ===== src/Client/Registration.antt =====
-- A registration at the client and at the server.
use chat_server_c.Client.Commands.{parse-wire}
use chat_server_c.Service.Dispatch.Routes.{get_handler-Table, on_message_parsed}
use chat_server_c.Service.Session.{reg}
use chat_server_c.Service.Dispatch.{on_message}
use chat_server_c.Json.Fields.{shown-build, get-build, build-IsObject}
use chat_server_c.Client.Reading.{parse-buffer}
use chat_server_c.Base.Outcome.{Ends-mono, Returns, done}
use chat_server_c.Db.Statement.{IsPlain}
use chat_server_c.Service.Session.Register.{reg-Registered, Registered, registered_json}
use chat_server_c.Protocol.{reg_msg_ack, reg_msg, msg_code}
use chat_server_c.Service.World.{sent, World, Conn}
use chat_server_c.Client.State.{wire, registered, Client}
use chat_server_c.Db.Backend.{IsHealthy, Backend}
use chat_server_c.Client.Dialogs.{register_request, register_answer, register_dialog}
use chat_server_c.Base.Int.{to_int, pos, ℤ}
use chat_server_c.Base.Bytes.{Bytes}
use chat_server_c.Json.{get_int_lem, str, int, Value, JsonLib}
use chat_server_c.Base.{
  sym, subst, ap, ◌∙◌, ◌≤◌, ◌+◌, true, ◌<◌, ◌++◌, length, [], ◌∷◌, ◌≡◌, refl, some, String, List,
}

module _ ⦃J : JsonLib⦄ where
  open J use {Json, get, dump}

  abbrev answer_fields : ℤ → List (String × Value)
  answer_fields id =
      ("errno", int (pos 0)) ∷ ("id", int id) ∷ ("msgid", int (msg_code reg_msg_ack)) ∷ []

  abbrev request_fields : Bytes → Bytes → List (String × Value)
  request_fields name pwd =
      ("password", str pwd) ∷ ("name", str name) ∷ ("msgid", int (msg_code reg_msg)) ∷ []

  -- The client behind a registration as `id`.
  abbrev pub enrolled : Bytes → Bytes → ℤ → Client → Client
  enrolled name pwd id c = record c {
    screen = c.screen ++ registered name (J.text (int id)) ∷ [];
    requests = c.requests ++ wire (dump (register_request name pwd)) ∷ [];
  }

  register_dialog-registered_json :
      (name pwd : Bytes) (id : ℤ) (c : Client)
      → length (dump (registered_json id)) < 1024
      → register_dialog name pwd true (some (dump (registered_json id))) c
        ≡ (done tt, enrolled name pwd id c)
  unfolding register_dialog register_answer
  register_dialog-registered_json name pwd id c short =
      rw
        (
          parse-buffer (registered_json id) (build-IsObject (answer_fields id)) short,
          get_int_lem (registered_json id) "errno" (pos 0) (get-build (answer_fields id) "errno"),
          J.is_object-IsObject (registered_json id) (build-IsObject (answer_fields id)),
          shown-build (answer_fields id) "id",
        )
        refl

module _ ⦃J : JsonLib⦄ ⦃B : Backend⦄ where
  open J use {Json, get, dump}
  open B use {State, tables}

  -- On a backend where nothing fails, for a name and password that need no escaping and have at
  -- most 954 bytes together, and an answer shorter than the buffer: the server makes the row from
  -- the bytes that the dialogue sends, and from the answer the dialogue prints the name and the
  -- key of the row as the id.
  pub register_dialog-Registered :
      (name pwd : Bytes) (conn : Conn) (w : World State) (c : Client)
      → IsHealthy B
      → IsPlain name
      → IsPlain pwd
      → length name + length pwd ≤ 954
      → length (dump (registered_json (to_int (tables w.store).next_user))) < 1024
      → Returns
          (λ _ w'.
            Registered conn name pwd w w'
            × ((s : Bytes) × (w'.out ≡ w.out ++ sent conn s ∷ [])
                × (register_dialog name pwd true (some s) c
                    ≡ (done tt, enrolled name pwd (to_int (tables w.store).next_user) c))))
          (on_message conn (wire (dump (register_request name pwd))) w)
  register_dialog-Registered name pwd conn w c healthy plain_name plain_pwd fit short =
      subst (Returns _) (sym handled) (
        Ends-mono (reg conn js w)
          (reg-Registered conn js name pwd w healthy (get-build fs "name") (get-build fs "password")
            plain_name plain_pwd fit)
          (λ _ w' h. (
            h,
            (
              dump (registered_json (to_int (tables w.store).next_user)),
              h.out_now,
              register_dialog-registered_json name pwd (to_int (tables w.store).next_user) c short,
            ),
          ))
          (λ _ _ no_fault. no_fault))
    where
      fs : List (String × Value)
      fs = request_fields name pwd

      js : Json
      js = register_request name pwd

      handled : on_message conn (wire (dump js)) w ≡ reg conn js w
      handled =
          on_message_parsed conn (wire (dump js)) js (msg_code reg_msg) w
            (parse-wire js (build-IsObject fs)) (get-build fs "msgid")
          ∙ ap (λ f. f conn js w) get_handler-Table.1
