-- ===== src/Examples/Connections.antt =====
-- The connection pool, its settings and the client, at work.
use chat_server_c.Db.Pool.Waiting.{
  returns_with, takes, get_waiting-decides, notified, get_waiting_starved, waits, woken_by,
  notifications, get_waiting,
}
use chat_server_c.Client.State.{wire}
use chat_server_c.Json.{str, int}
use chat_server_c.Service.Chat.{one_chat}
use chat_server_c.Service.Dispatch.{on_message}
use chat_server_c.Client.{chat_json, sends, main_menu}
use chat_server_c.Base.Bytes.{codes}
use chat_server_c.Base.Outcome.{empty_queue, fault}
use chat_server_c.Base.Int.{pos}
use chat_server_c.Base.Decimal.{atoi}
use chat_server_c.Base.{◌++◌, arith, inr, refl, ◌≡◌, ◌∷◌, [], some}
use chat_server_c.Db.Pool
use chat_server_c.Db.Pool.{
  Config, Pool, Idle, scan_connections, get_connection, give_back, produce_connection,
}
use chat_server_c.Db.Pool.Steps.{
  Reachable, started, then_by, taken, IsSound, Reachable-IsSound, scan_connections-empties,
}
use chat_server_c.Db.Pool.Settings.{Settings, load_config_file}
use chat_server_c.Db.Pool.Settings.RoundTrip.{print_file}
use chat_server_c.Db.Pool.Settings.Printed.{rows, IsWritable, IsVal-by_test, load_config_file-rows}
use chat_server_c.Base.Int.{negsuc}
use chat_server_c.Client.Commands.{main_menu-on_message}
use chat_server_c.Examples.{ann, world}
use chat_server_c.Json.Sample.{sample_json}
use chat_server_c.Db.Server.Sample.{running}

abbrev sizes : Config
sizes = record { init_size = pos 2; max_size = pos 4; max_idle_time = pos 60 }

-- Two connections are made, and one is lent.
abbrev one_lent : Pool
one_lent = (get_connection (Pool.start (some sizes) 5)).1

one_lent-Reachable : Reachable sizes one_lent
one_lent-Reachable =
    then_by (Pool.start (some sizes) 5) one_lent (started 5) (taken (Pool.start (some sizes) 5))

Reachable-IsSound_example : IsSound sizes one_lent
Reachable-IsSound_example = Reachable-IsSound sizes one_lent one_lent-Reachable

-- Three connections are lent, and the one that is idle has been so for long.
abbrev nearly_empty : Pool
nearly_empty = record {
  queue = record { conn = 3; since = 0 } ∷ [];
  count = 4;
  lent = 0 ∷ 1 ∷ 2 ∷ [];
  made = 4;
}

nearly_empty-IsSound : IsSound sizes nearly_empty
nearly_empty-IsSound = record {
  counted = refl;
  bounded = inr (omega arith);
  single = λ c. ground arith;
  old = λ c h. ground (arith, h);
}

scan_connections-empties_example : scan_connections sizes 100000 nearly_empty ≡ fault empty_queue
scan_connections-empties_example =
    scan_connections-empties sizes 100000 nearly_empty nearly_empty-IsSound (refl, tt) refl

abbrev unset : Settings
unset = record {
  ip = [];
  port = 0;
  name = [];
  password = [];
  dbname = [];
  init_size = pos 0;
  max_size = pos 0;
  max_idle_time = pos 0;
  connection_timeout = pos 0;
}

abbrev configured : Settings
configured = record {
  ip = codes "127.0.0.1";
  port = 3306;
  name = codes "clj";
  password = codes "pw";
  dbname = codes "chat";
  init_size = pos 100;
  max_size = pos 1024;
  max_idle_time = pos 60;
  connection_timeout = negsuc 0;
}

configured-IsWritable : IsWritable configured
configured-IsWritable = record {
  texts = (
    (IsVal-by_test (codes "127.0.0.1") refl, omega arith),
    (IsVal-by_test (codes "clj") refl, omega arith),
    (IsVal-by_test (codes "pw") refl, omega arith),
    (IsVal-by_test (codes "chat") refl, omega arith),
  );
  small_port = omega arith;
  numbers = (omega arith, omega arith, omega arith, omega arith);
}

load_config_file-rows_example :
    load_config_file (some (print_file (rows configured))) unset ≡ some configured
load_config_file-rows_example = load_config_file-rows configured unset configured-IsWritable

main_menu-on_message_example :
    (main_menu ann (codes "now") (codes "chat:3:hi")
      ≡ sends (chat_json ann (codes "now") (atoi (codes "3")) (codes "hi")))
    × (on_message 10
          (wire (sample_json.dump (chat_json ann (codes "now") (atoi (codes "3")) (codes "hi"))))
          world
        ≡ one_chat 10 (chat_json ann (codes "now") (atoi (codes "3")) (codes "hi")) world)
    × (sample_json.get (chat_json ann (codes "now") (atoi (codes "3")) (codes "hi")) "toid"
        ≡ some (int (atoi (codes "3"))))
    × (sample_json.get (chat_json ann (codes "now") (atoi (codes "3")) (codes "hi")) "msg"
        ≡ some (str (codes "hi")))
main_menu-on_message_example =
    main_menu-on_message ann (codes "now") (codes "3") (codes "hi") 10 world (refl, tt)

abbrev drained : Pool
drained = record { queue = []; count = 1; lent = 0 ∷ []; made = 1 }

abbrev refilled : Pool
refilled = record { queue = record { conn = 0; since = 5 } ∷ []; count = 1; lent = []; made = 1 }

abbrev one_connection : Config
one_connection = record { init_size = pos 1; max_size = pos 1; max_idle_time = pos 60 }

-- Two notifications find nothing, and then a connection was given back, or the time is over.
get_waiting-decides_example :
    (get_waiting [] drained (notifications (drained ∷ drained ∷ [])) ≡ waits)
    × (get_waiting [] drained (notifications (drained ∷ drained ∷ []) ++ (notified, refilled) ∷ [])
        ≡ returns_with (some 0) (record refilled { queue = []; lent = 0 ∷ [] }))
get_waiting-decides_example =
    get_waiting-decides (drained ∷ drained ∷ []) drained refilled notified _ [] refl
      (refl, (refl, tt)) (takes notified (record { conn = 0; since = 5 }) [] refl)

get_waiting_starved_example :
    (woken_by one_connection (1 ∷ 2 ∷ 3 ∷ []) drained
      ≡ notifications (drained ∷ drained ∷ drained ∷ []))
    × (get_waiting [] drained (woken_by one_connection (1 ∷ 2 ∷ 3 ∷ []) drained) ≡ waits)
get_waiting_starved_example = get_waiting_starved one_connection (1 ∷ 2 ∷ 3 ∷ []) drained refl refl
