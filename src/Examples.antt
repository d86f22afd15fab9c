-- ===== src/Examples.antt =====
-- The theorems at work: a server with three users and a group.
pub mod Messages
pub mod Sessions
pub mod Statements
pub mod Connections
pub mod Clients
pub mod Lending
pub mod Channels
pub mod Mailbox
use chat_server_c.Db.Statement.Bounds.{select_members-Fits}
use chat_server_c.Db.Statement.{is_special, IsPlain}
use chat_server_c.Service.Session.Delivery.{CanLogIn}
use chat_server_c.Json.{Value, str, int}
use chat_server_c.Service.World.{World}
use chat_server_c.Protocol.{offline≢online, online, offline, User}
use chat_server_c.Base.Int.{ℤ, pos}
use chat_server_c.Base.Bytes.{codes, bytes_eq, Bytes}
use chat_server_c.Base.{
  ◌&&◌, not, true, arith, String, ◌≡◌, List, Bool, ℕ, refl, none, some, [], ◌∷◌,
}
use chat_server_c.Json.Sample.{sample_json, Doc, object}
use chat_server_c.Db.Server.Sample.{Server, running, running-IsHealthy}
use chat_server_c.Db.Tables.{Member, Tables}

abbrev pub ann : User
ann = record { id = pos 1; name = codes "ann"; password = codes "pa"; state = offline }

abbrev pub bob : User
bob = record { id = pos 2; name = codes "bob"; password = codes "pb"; state = online }

abbrev pub cat : User
cat = record { id = pos 3; name = codes "cat"; password = codes "pc"; state = offline }

abbrev pub member : ℕ → Member
member n = record { groupid = pos 1; userid = pos n; role = codes "normal" }

abbrev pub three_users : Tables
three_users = record {
  users = ann ∷ bob ∷ cat ∷ [];
  friends = (pos 1, pos 2) ∷ [];
  groups = record { id = pos 1; name = codes "g"; desc = codes "all" } ∷ [];
  members = member 1 ∷ member 2 ∷ member 3 ∷ [];
  messages = (pos 1, codes "old") ∷ (pos 3, codes "other") ∷ [];
  next_user = 4;
  next_group = 2;
}

-- The server has a connection of `cat`; `bob` is online elsewhere.
abbrev pub world : World Server
world = record {
  store = record { tables = three_users; answer = none; key = 0 };
  conns = (pos 3, 30) ∷ [];
  out = [];
}

abbrev pub request : ℤ → List (String × Value) → Doc
request msgid [] = object ((codes "msgid", int msgid) ∷ [])
request msgid ((k, v) ∷ kvs) = sample_json.put (request msgid kvs) k v

abbrev pub login_ann : Doc
login_ann = request (pos 1) (("id", int (pos 1)) ∷ ("password", str (codes "pa")) ∷ [])

abbrev pub chat_to : ℕ → Doc
chat_to n =
    request (pos 5) (("id", int (pos 2)) ∷ ("toid", int (pos n)) ∷ ("msg", str (codes "hi")) ∷ [])

abbrev pub all_plain : Bytes → Bool
all_plain [] = true
all_plain (c ∷ s) = not (is_special c) && all_plain s

pub IsPlain-by_test : (s : Bytes) → all_plain s ≡ true → IsPlain s
IsPlain-by_test [] h = tt
IsPlain-by_test (c ∷ s) h = (ground (arith, h), IsPlain-by_test s (ground (arith, h)))

pub can_log_in : CanLogIn login_ann (pos 1) ann world
unfolding bytes_eq
can_log_in =
    (refl, refl, omega arith, refl, offline≢online, (select_members-Fits (pos 1) (omega arith), tt))
