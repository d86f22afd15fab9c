-- ===== src/Db/Pool/Settings/Printed.antt =====
-- Settings of the pool, written to a file and read again.
use chat_server_c.Base.{
  All, ap, arith, length, refl, some, ◌<◌, ◌==◌, ◌^◌, ◌≡◌, ◌≤◌, ◌∙◌, Bool, not, true, ◌&&◌, List,
  [], ◌∷◌, false, ℕ,
}
use chat_server_c.Base.Bytes.{Bytes, bytes_eq, codes}
use chat_server_c.Base.Decimal.{
  IsInt, atoi, atoi-show_int, length-show_int_le, show_int, show_int-All,
}
use chat_server_c.Base.Int.{ℤ, pos}
use chat_server_c.Db.Pool.Settings.{Settings, load_config_file, set_field, to_short}
use chat_server_c.Db.Pool.Settings.RoundTrip.{
  IsKey, IsLine, IsVal, load_config_file-print_file, print_file, set_all,
}

-- Each field behind the key that stands for it in the file.
abbrev pub rows : Settings → List (Bytes × Bytes)
rows s =
    (codes "ip", s.ip)
    ∷ (codes "port", show_int (pos s.port))
    ∷ (codes "name", s.name)
    ∷ (codes "password", s.password)
    ∷ (codes "dbname", s.dbname)
    ∷ (codes "initSize", show_int s.init_size)
    ∷ (codes "maxSize", show_int s.max_size)
    ∷ (codes "maxIdleTime", show_int s.max_idle_time)
    ∷ (codes "connectionTimeOut", show_int s.connection_timeout)
    ∷ []

abbrev pub IsText : Bytes → Type 0
IsText s = IsVal s × (length s ≤ 900)

-- The texts fit on a line, and the numbers fit their types.
pub record IsWritable (s : Settings) : Type 0 where
  pub texts : IsText s.ip × IsText s.name × IsText s.password × IsText s.dbname
  pub small_port : s.port < 2 ^ 16
  pub numbers :
      IsInt s.init_size × IsInt s.max_size × IsInt s.max_idle_time × IsInt s.connection_timeout

text-IsLine : (key val : Bytes) → IsKey key → length key ≤ 100 → IsText val → IsLine (key, val)
text-IsLine key val k short (v, fits) = (k, v, omega arith)

number-IsLine :
    (key : Bytes) (z : ℤ) → IsKey key → length key ≤ 100 → IsInt z → IsLine (key, show_int z)
number-IsLine key z k short small = (
  k,
  show_int-All (λ c. ((c == 0) ≡ false) × ((c == 10) ≡ false)) z
      (λ d h. (ground arith, ground arith)) (refl, refl),
  omega (arith, length-show_int_le z small),
)

abbrev is_key : Bytes → Bool
is_key [] = true
is_key (c ∷ s) = not (c == 0) && not (c == 10) && not (c == b'=') && is_key s

IsKey-by_test : (s : Bytes) → is_key s ≡ true → IsKey s
IsKey-by_test [] h = tt
IsKey-by_test (c ∷ s) h =
    ((ground (arith, h), ground (arith, h), ground (arith, h)), IsKey-by_test s (ground (arith, h)))

abbrev pub is_val : Bytes → Bool
is_val [] = true
is_val (c ∷ s) = not (c == 0) && not (c == 10) && is_val s

pub IsVal-by_test : (s : Bytes) → is_val s ≡ true → IsVal s
IsVal-by_test [] h = tt
IsVal-by_test (c ∷ s) h =
    ((ground (arith, h), ground (arith, h)), IsVal-by_test s (ground (arith, h)))

port_stays : (n : ℕ) → n < 2 ^ 16 → to_short (atoi (show_int (pos n))) ≡ n
port_stays n h = ap to_short (atoi-show_int (pos n)) ∙ omega arith

set_all-rows : (s s0 : Settings) → s.port < 2 ^ 16 → set_all (rows s) s0 ≡ s
unfolding set_field bytes_eq
set_all-rows s s0 h =
    rw
      (
        port_stays s.port h,
        atoi-show_int s.init_size,
        atoi-show_int s.max_size,
        atoi-show_int s.max_idle_time,
        atoi-show_int s.connection_timeout,
      )
      refl

rows-IsLine : (s : Settings) → IsWritable s → All IsLine (rows s)
rows-IsLine s w =
    let (ip, name, password, dbname) = w.texts in
    let (init, most, idle, timeout) = w.numbers in
    (
      text-IsLine (codes "ip") s.ip (IsKey-by_test (codes "ip") refl) (omega arith) ip,
      (
        number-IsLine (codes "port") (pos s.port) (IsKey-by_test (codes "port") refl) (omega arith)
            (omega (arith, w.small_port)),
        (
          text-IsLine (codes "name") s.name (IsKey-by_test (codes "name") refl) (omega arith) name,
          (
            text-IsLine (codes "password") s.password (IsKey-by_test (codes "password") refl)
                (omega arith) password,
            (
              text-IsLine (codes "dbname") s.dbname (IsKey-by_test (codes "dbname") refl)
                  (omega arith) dbname,
              (
                number-IsLine (codes "initSize") s.init_size (IsKey-by_test (codes "initSize") refl)
                    (omega arith) init,
                (
                  number-IsLine (codes "maxSize") s.max_size (IsKey-by_test (codes "maxSize") refl)
                      (omega arith) most,
                  (
                    number-IsLine (codes "maxIdleTime") s.max_idle_time
                        (IsKey-by_test (codes "maxIdleTime") refl) (omega arith) idle,
                    (
                      number-IsLine (codes "connectionTimeOut") s.connection_timeout
                          (IsKey-by_test (codes "connectionTimeOut") refl) (omega arith) timeout,
                      tt,
                    ),
                  ),
                ),
              ),
            ),
          ),
        ),
      ),
    )

-- Settings whose texts have no NUL and no end of line and at most 900 bytes, whose port is below
-- 2^16 and whose other numbers fit `int`, written to a file with a line for each field, its key,
-- an equals sign and its value, are what `loadConfigFile` makes of that file, whatever the
-- settings were before.
pub load_config_file-rows :
    (s s0 : Settings) → IsWritable s → load_config_file (some (print_file (rows s))) s0 ≡ some s
load_config_file-rows s s0 w =
    load_config_file-print_file (rows s) s0 (rows-IsLine s w)
    ∙ ap some (set_all-rows s s0 w.small_port)
