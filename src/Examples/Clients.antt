-- ===== src/Examples/Clients.antt =====
-- Clients of the server of Examples.
use chat_server_c.Client.Keyboard.{
  number, read_number, skip_one, get_line, menu_round, menu_rounds_stuck, logs_in, invalid,
  menu_rounds,
}
use chat_server_c.Base.Decimal.{scan}
use chat_server_c.Base.Decimal.{atoi}
use chat_server_c.Base.Assoc.{find}
use chat_server_c.Client.Conversation.{main_menu-receive_round, said_by}
use chat_server_c.Db.Server.Sample.{running, running-IsHealthy}
use chat_server_c.Client.Registration.{register_dialog-Registered, enrolled}
use chat_server_c.Client.Receiver.{goes_on, receive_round}
use chat_server_c.Service.World.{sent}
use chat_server_c.Service.Dispatch.{on_message}
use chat_server_c.Client.Departure.{loginout-Parted, Parted, leaving}
use chat_server_c.Client.Entering.{login_answer-login_json, informed, showing, whole}
use chat_server_c.Base.Bytes.{bytes_eq, Bytes, codes}
use chat_server_c.Service.Session.Register.{registered_json, Registered}
use chat_server_c.Examples.{IsPlain-by_test, world, bob, chat_to, cat, ann}
use chat_server_c.Base.Int.{to_int_small, to_int, ℤ, pos}
use chat_server_c.Protocol.{default_user, Group}
use chat_server_c.Json.Sample.{sample_json, Doc}
use chat_server_c.Client.State.{wire, Client}
use chat_server_c.Client.Requests.{run_command-Reaches, handler_of, Reaches}
use chat_server_c.Client.Dialogs.{register_request, register_dialog, login_answer}
use chat_server_c.Base.Outcome.{done, Returns}
use chat_server_c.Base.{false, sym, ◌<◌, length, subst, true, [], ◌∷◌, ◌≡◌, refl, some, List, arith}
use chat_server_c.Client.{sends_and_leaves, sends, run_command, main_menu, chat}

-- The client of `cat`, and that of `ann`, who is not in yet.
abbrev cats : Client
cats = record { me = cat; friends = []; groups = []; screen = []; requests = [] }

abbrev new_client : Client
new_client = record { me = default_user; friends = []; groups = []; screen = []; requests = [] }

abbrev one_group : List Group
one_group =
    record {
      id = pos 1;
      name = codes "g";
      desc = codes "all";
      users = record { user = bob; role = codes "normal" } ∷ [];
    }
    ∷ []

abbrev kept : List (Doc × ℤ)
kept = (chat_to 1, pos 5) ∷ []

login_answer-login_json_example :
    login_answer (some (sample_json.dump (whole ann kept (bob ∷ []) one_group))) new_client ≡ (
      done true,
      showing kept (
          informed
            (sample_json.dump (whole ann kept (bob ∷ []) one_group))
            ann
            (bob ∷ [])
            one_group
            new_client),
    )
unfolding bytes_eq
login_answer-login_json_example =
    login_answer-login_json ann kept (bob ∷ []) one_group new_client (refl, tt) (omega arith)

main_menu-receive_round_example :
    (js : Doc) × (main_menu ann (codes "now") (codes "chat:3:hi") ≡ sends js)
    × (on_message 10 (wire (sample_json.dump js)) world
        ≡ (done tt, record world { out = sent 30 (sample_json.dump js) ∷ [] }))
    × (receive_round (some (sample_json.dump js)) cats
        ≡ (done goes_on, record cats { screen = said_by ann (codes "now") (codes "hi") ∷ [] }))
unfolding find atoi
main_menu-receive_round_example =
    main_menu-receive_round ann (codes "now") (codes "3") (codes "hi") 10 30 world cats (refl, tt)
      refl (omega arith)

run_command-Reaches_example :
    Reaches (handler_of chat) (run_command ann (codes "now") (some chat) (codes "3:hi"))
run_command-Reaches_example = run_command-Reaches ann (codes "now") chat (codes "3:hi")

loginout-Parted_example :
    (main_menu cat (codes "now") (codes "loginout") ≡ sends_and_leaves (leaving cat))
    × Returns
        (λ _ w'. Parted 30 cat cats world w')
        (on_message 30 (wire (sample_json.dump (leaving cat))) world)
loginout-Parted_example =
    loginout-Parted cat (codes "now") 30 world cats running-IsHealthy (omega arith) (omega arith)
      (omega arith)

register_dialog-Registered_example :
    Returns
      (λ _ w'.
        Registered 40 (codes "dan") (codes "pd") world w'
        × ((s : Bytes) × (w'.out ≡ sent 40 s ∷ [])
            × (register_dialog (codes "dan") (codes "pd") true (some s) new_client
                ≡ (done tt, enrolled (codes "dan") (codes "pd") (to_int 4) new_client))))
      (on_message 40 (wire (sample_json.dump (register_request (codes "dan") (codes "pd")))) world)
register_dialog-Registered_example =
    register_dialog-Registered (codes "dan") (codes "pd") 40 world new_client running-IsHealthy
      (IsPlain-by_test (codes "dan") refl) (IsPlain-by_test (codes "pd") refl) (omega arith)
      (subst (λ z. length (sample_json.dump (registered_json z)) < 1024)
        (sym (to_int_small 4 (omega arith))) (omega arith))

menu_rounds_stuck_example :
    menu_rounds 3 (record { typed = codes "login\n1\n"; failed = false })
    ≡ invalid ∷ invalid ∷ invalid ∷ []
unfolding number
menu_rounds_stuck_example =
    menu_rounds_stuck 3 (record { typed = codes "login\n1\n"; failed = false }) refl

-- A password of twenty bytes is cut, and then nothing is read any more.
long_password_test :
    menu_rounds 2 (record { typed = codes "1\n7\n12345678901234567890\n3\n"; failed = false })
    ≡ logs_in (pos 7) (codes "1234567890123456789") ∷ invalid ∷ []
unfolding number scan read_number skip_one get_line menu_round
long_password_test = refl
