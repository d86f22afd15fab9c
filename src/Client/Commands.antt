-- ===== src/Client/Commands.antt =====
-- What the client's lines make the server do.
use chat_server_c.Json.Fields.{build-IsObject, get-build}
use chat_server_c.Client.State.{wire}
use chat_server_c.Service.Chat.{one_chat}
use chat_server_c.Service.Dispatch.{on_message}
use chat_server_c.Service.World.{World, Conn}
use chat_server_c.Base.{List, String, [], ◌∷◌}
use chat_server_c.Base.Decimal.{atoi}
use chat_server_c.Base.Int.{ℤ}
use chat_server_c.Protocol.{one_chat_msg, msg_code, User}
use chat_server_c.Db.Backend.{Backend}
use chat_server_c.Json.{Value, str, int, JsonLib}
use chat_server_c.Base.Bytes.{c_str-HasNoNul, codes, bytes_eq, Bytes}
use chat_server_c.Base.{false, ◌≡◌, ◌∷◌, ◌==◌, All, refl, ap, ◌∙◌, ◌++◌, some}
use chat_server_c.Client.{with_two, split_at_colon, main_menu, sends, chat_json, find_command}
use chat_server_c.Service.Dispatch.Routes.{on_message_parsed, get_handler-Table}

abbrev pub HasNoColon : Bytes → Type 0
HasNoColon s = All (λ c. (c == b':') ≡ false) s

split_at_colon-append : (a b : Bytes) → HasNoColon a → split_at_colon (a ++ b':' ∷ b) ≡ some (a, b)
split_at_colon-append [] b h = refl
split_at_colon-append (c ∷ a) b h = rw (h.0, split_at_colon-append a b h.1) refl

module _ ⦃J : JsonLib⦄ where
  open J use {Json, dump, parse}

  abbrev pub chat_fields : User → Bytes → ℤ → Bytes → List (String × Value)
  chat_fields me time to msg =
      ("time", str time)
      ∷ ("msg", str msg)
      ∷ ("toid", int to)
      ∷ ("name", str me.name)
      ∷ ("id", int me.id)
      ∷ ("msgid", int (msg_code one_chat_msg))
      ∷ []

  -- What the server reads from the bytes of a request: a NUL ends them.
  pub parse-wire : (j : Json) → J.IsObject j → parse (wire (dump j)) ≡ some j
  parse-wire j o =
      ap (λ s. parse (s ++ 0 ∷ [])) (c_str-HasNoNul (dump j) (J.dump-HasNoNul j o))
      ∙ J.parse-dump_nul j [] o

module _ ⦃J : JsonLib⦄ ⦃B : Backend⦄ where
  open J use {get, dump}
  open B use {State}

  pub main_menu-chat :
      (me : User) (time to msg : Bytes)
      → HasNoColon to
      → main_menu me time (codes "chat:" ++ (to ++ b':' ∷ msg))
        ≡ sends (chat_json me time (atoi to) msg)
  unfolding main_menu find_command bytes_eq
  main_menu-chat me time to msg h =
      ap (with_two (λ a b. chat_json me time (atoi a) b)) (split_at_colon-append to msg h)

  pub on_message-chat_json :
      (me : User) (time msg : Bytes) (to : ℤ) (conn : Conn) (w : World State)
      → on_message conn (wire (dump (chat_json me time to msg))) w
        ≡ one_chat conn (chat_json me time to msg) w
  on_message-chat_json me time msg to conn w =
      on_message_parsed conn (wire (dump (chat_json me time to msg))) (chat_json me time to msg)
        (msg_code one_chat_msg) w
        (parse-wire (chat_json me time to msg) (build-IsObject (chat_fields me time to msg)))
        (get-build (chat_fields me time to msg) "msgid")
      ∙ ap (λ f. f conn (chat_json me time to msg) w) get_handler-Table.2

  -- The line `chat:`, a text without a colon, a colon and a message sends a request that the
  -- server hands to `oneChat`, with the number that the text begins with as `toid` and the
  -- message as `msg`.
  pub main_menu-on_message :
      (me : User) (time to msg : Bytes) (conn : Conn) (w : World State)
      → HasNoColon to
      → (main_menu me time (codes "chat:" ++ (to ++ b':' ∷ msg))
          ≡ sends (chat_json me time (atoi to) msg))
        × (on_message conn (wire (dump (chat_json me time (atoi to) msg))) w
            ≡ one_chat conn (chat_json me time (atoi to) msg) w)
        × (get (chat_json me time (atoi to) msg) "toid" ≡ some (int (atoi to)))
        × (get (chat_json me time (atoi to) msg) "msg" ≡ some (str msg))
  main_menu-on_message me time to msg conn w h = (
    main_menu-chat me time to msg h,
    on_message-chat_json me time msg (atoi to) conn w,
    get-build (chat_fields me time (atoi to) msg) "toid",
    get-build (chat_fields me time (atoi to) msg) "msg",
  )
