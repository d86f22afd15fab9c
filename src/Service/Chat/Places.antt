-- ===== src/Service/Chat/Places.antt =====
-- Where the members of a group are, and what a message to the group is to do about each.
use native.Mathlib.Bridge.{le_prop}
use chat_server_c.Base.{append-nil, if◌then◌else◌, none, some}
use chat_server_c.Protocol.{User}
use chat_server_c.Base.Decimal.{IsInt}
use chat_server_c.Service.World.{published, sent, Event, Conn}
use chat_server_c.Db.Tables.{Tables}
use chat_server_c.Base.Int.{negsuc, pos, ℤ}
use chat_server_c.Base.Bytes.{Bytes}
use chat_server_c.Base.Assoc.{find, Assoc}
use chat_server_c.Base.{false, true, ◌≡◌, some, [], Bool, ◌∷◌, Option, List, refl, ◌++◌}
use chat_server_c.Model.UserModel.Effects.{users_with}
use chat_server_c.Service.Chat.{is_online}

-- A user as a member of a group: connected here, online on another server, or to be kept for.
pub data Place : Type 0 where
  here : Conn → Place
  elsewhere away : Place

abbrev pub place_by_row : List User → Place
place_by_row (u ∷ []) = if is_online u then elsewhere else away
place_by_row _ = away

abbrev pub place_by : Option Conn → List User → Place
place_by (some peer) rows = here peer
place_by none rows = place_by_row rows

abbrev pub place : Assoc Conn → Tables → ℤ → Place
place conns t id = place_by (find id conns) (users_with id t)

-- What goes out to a member, and what is kept for him.
abbrev pub goes_out : Bytes → ℤ → Place → List Event
goes_out msg id (here peer) = sent peer msg ∷ []
goes_out msg id elsewhere = published id msg ∷ []
goes_out msg id away = []

abbrev pub kept : Bytes → ℤ → Place → List (ℤ × Bytes)
kept msg id away = (id, msg) ∷ []
kept msg id _ = []

abbrev pub all_out : Bytes → (ℤ → Place) → List ℤ → List Event
all_out msg at [] = []
all_out msg at (id ∷ ids) = goes_out msg id (at id) ++ all_out msg at ids

abbrev pub all_kept : Bytes → (ℤ → Place) → List ℤ → List (ℤ × Bytes)
all_kept msg at [] = []
all_kept msg at (id ∷ ids) = kept msg id (at id) ++ all_kept msg at ids

-- There is exactly one row of the user, or he is connected here.
abbrev pub one_row : List User → Bool
one_row (u ∷ []) = true
one_row _ = false

abbrev pub known_by : Option Conn → List User → Bool
known_by (some peer) rows = true
known_by none rows = one_row rows

abbrev pub IsKnown : Assoc Conn → Tables → ℤ → Type 0
IsKnown conns t id = IsInt id × (known_by (find id conns) (users_with id t) ≡ true)

abbrev pub keep_more : Tables → List (ℤ × Bytes) → Tables
keep_more t ms = record t { messages = t.messages ++ ms }

pub keep_nothing : (t : Tables) → keep_more t [] ≡ t
keep_nothing t i = record t { messages = append-nil t.messages i }

pub row_of_known : (rows : List User) → one_row rows ≡ true → (u : User) × (rows ≡ u ∷ [])
row_of_known [] h = cc
row_of_known (u ∷ []) h = (u, refl)
row_of_known (u ∷ v ∷ rows) h = cc

pub IsInt-IsProp : (z : ℤ) → IsProp (IsInt z)
IsInt-IsProp (pos n) = le_prop
IsInt-IsProp (negsuc n) = le_prop
