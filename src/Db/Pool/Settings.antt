-- ===== src/Db/Pool/Settings.antt =====
-- dbpool.cc, `loadConfigFile`: the settings of the pool, from the text of `poolconf.ini`.
pub mod RoundTrip
pub mod Printed
use chat_server_c.Base.{
  ◌-◌, ℕ, zero, suc, ◌%◌, ◌^◌, List, [], ◌∷◌, ◌++◌, Option, none, some, ◌==◌, if◌then◌else◌, length,
}
use chat_server_c.Base.Int.{ℤ, pos, negsuc, int_lt, to_ℕ}
use chat_server_c.Base.Bytes.{Bytes, codes, bytes_eq}
use chat_server_c.Base.Decimal.{atoi}
use chat_server_c.Base.Bytes.{c_str}

pub record Settings : Type 0 where
  pub ip : Bytes
  pub port : ℕ
  pub name : Bytes
  pub password : Bytes
  pub dbname : Bytes
  pub init_size : ℤ
  pub max_size : ℤ
  pub max_idle_time : ℤ
  pub connection_timeout : ℤ

-- An `int` put into an `unsigned short`.
abbrev pub to_short : ℤ → ℕ
to_short (pos n) = n % 2 ^ 16
to_short (negsuc n) = 2 ^ 16 - 1 - n % 2 ^ 16

-- `fgets` with room for so many bytes: up to and with the end of the line.
abbrev pub take_line : ℕ → Bytes → Bytes × Bytes
take_line zero s = ([], s)
take_line (suc n) [] = ([], [])
take_line (suc n) (c ∷ s) =
    let rest = take_line n s in if c == 10 then (c ∷ [], s) else (c ∷ rest.0, rest.1)

-- The lines that the loop reads into `line[1024]`. A file of `n` bytes has at most `n`; behind the
-- last the loop may read an empty one, which it skips.
pub read_lines : ℕ → Bytes → List Bytes
read_lines (suc n) (c ∷ s) = let line = take_line 1023 (c ∷ s) in line.0 ∷ read_lines n line.1
read_lines _ _ = []

-- `str.substr(0, idx)` and what is behind the `=`, or `none` without one
abbrev pub split_at_equals : Bytes → Option (Bytes × Bytes)
split_at_equals [] = none
split_at_equals (c ∷ s) =
    let rest = split_at_equals s in if c == b'=' then some ([], s) else put_in_front c rest
  where
    put_in_front : ℕ → Option (Bytes × Bytes) → Option (Bytes × Bytes)
    put_in_front c none = none
    put_in_front c (some (a, b)) = some (c ∷ a, b)

-- `str.substr(idx + 1, endidx - idx - 1)`: to the end of the line, or of the string
abbrev pub to_newline : Bytes → Bytes
to_newline [] = []
to_newline (c ∷ s) = let rest = to_newline s in if c == 10 then [] else c ∷ rest

unfoldable pub set_field : Bytes → Bytes → Settings → Settings
set_field key val s =
    if bytes_eq key (codes "ip")
    then record s { ip = val }
    else if bytes_eq key (codes "port")
    then record s { port = to_short (atoi val) }
    else if bytes_eq key (codes "name")
    then record s { name = val }
    else if bytes_eq key (codes "password")
    then record s { password = val }
    else if bytes_eq key (codes "initSize")
    then record s { init_size = atoi val }
    else if bytes_eq key (codes "maxSize")
    then record s { max_size = atoi val }
    else if bytes_eq key (codes "maxIdleTime")
    then record s { max_idle_time = atoi val }
    else if bytes_eq key (codes "connectionTimeOut")
    then record s { connection_timeout = atoi val }
    else if bytes_eq key (codes "dbname")
    then record s { dbname = val }
    else s

abbrev pub set_split : Option (Bytes × Bytes) → Settings → Settings
set_split none s = s
set_split (some (key, rest)) s = set_field key (to_newline rest) s

abbrev pub set_line : Bytes → Settings → Settings
set_line line s = set_split (split_at_equals (c_str line)) s

abbrev pub set_lines : List Bytes → Settings → Settings
set_lines [] s = s
set_lines (line ∷ lines) s = set_lines lines (set_line line s)

-- `none` where the file cannot be opened
pub load_config_file : Option Bytes → Settings → Option Settings
load_config_file none s = none
load_config_file (some text) s = some (set_lines (read_lines (length text) text) s)
