-- ===== src/Db/Pool/Settings/RoundTrip.antt =====
-- A file of settings, line by line.
use chat_server_c.Base.Bytes.{c_str-HasNoNul, HasNoNul}
use chat_server_c.Db.Pool.Settings.{take_line, to_newline, split_at_equals, set_field, Settings}
use chat_server_c.Base.Bytes.{Bytes}
use chat_server_c.Base.{
  All-mono, map, length-append, All-append, suc, arith, some, ◌<◌, false, ◌≤◌, ◌≡◌, ◌==◌, ◌+◌, [],
  ◌∷◌, ◌++◌, length, All, ℕ, List, refl, ap, ◌∙◌,
}
use chat_server_c.Base.{zero, suc, some, append_assoc}
use chat_server_c.Db.Pool.Settings.{
  Settings, set_lines, set_line, set_split, read_lines, load_config_file, take_line,
  split_at_equals, to_newline, set_field,
}

-- The lines of a file, one setting to a line.
abbrev pub print_line : Bytes × Bytes → Bytes
print_line (key, val) = (key ++ b'=' ∷ val) ++ 10 ∷ []

abbrev pub print_file : List (Bytes × Bytes) → Bytes
print_file [] = []
print_file (kv ∷ kvs) = print_line kv ++ print_file kvs

-- No NUL, no end of line, and in a key no `=`.
abbrev pub IsVal : Bytes → Type 0
IsVal s = All (λ c. ((c == 0) ≡ false) × ((c == 10) ≡ false)) s

abbrev pub IsKey : Bytes → Type 0
IsKey s = All (λ c. ((c == 0) ≡ false) × ((c == 10) ≡ false) × ((c == b'=') ≡ false)) s

abbrev pub IsLine : Bytes × Bytes → Type 0
IsLine (key, val) = IsKey key × IsVal val × (length key + length val ≤ 1000)

abbrev pub set_all : List (Bytes × Bytes) → Settings → Settings
set_all [] s = s
set_all ((key, val) ∷ kvs) s = set_all kvs (set_field key val s)

take_line-append :
    (n : ℕ) (s r : Bytes)
    → All (λ c. (c == 10) ≡ false) s
    → length s < n
    → take_line n (s ++ 10 ∷ r) ≡ (s ++ 10 ∷ [], r)
take_line-append zero s r h k = absurd (omega (arith, k))
take_line-append (suc n) [] r h k = refl
take_line-append (suc n) (c ∷ s) r h k =
    rw (h.0, take_line-append n s r h.1 (omega (arith, k))) refl

split_at_equals-append :
    (key rest : Bytes)
    → All (λ c. (c == b'=') ≡ false) key
    → split_at_equals (key ++ b'=' ∷ rest) ≡ some (key, rest)
split_at_equals-append [] rest h = refl
split_at_equals-append (c ∷ key) rest h = rw (h.0, split_at_equals-append key rest h.1) refl

to_newline-append :
    (val : Bytes) → All (λ c. (c == 10) ≡ false) val → to_newline (val ++ 10 ∷ []) ≡ val
to_newline-append [] h = refl
to_newline-append (c ∷ val) h = rw (h.0, to_newline-append val h.1) refl

body_line : (key val : Bytes) → IsLine (key, val) → All (λ c. (c == 10) ≡ false) (key ++ b'=' ∷ val)
body_line key val (k, v, _) =
    All-append _ key (b'=' ∷ val) (All-mono _ _ key (λ c h. h.1) k)
      (refl, All-mono _ _ val (λ c h. h.1) v)

-- The line that is read first.
take_line-print_line :
    (kv : Bytes × Bytes) (r : Bytes)
    → IsLine kv
    → take_line 1023 (print_line kv ++ r) ≡ (print_line kv, r)
take_line-print_line (key, val) r line =
    ap (take_line 1023) (append_assoc (key ++ b'=' ∷ val) (10 ∷ []) r)
    ∙ take_line-append 1023 (key ++ b'=' ∷ val) r (body_line key val line)
        (omega (arith, length-append key (b'=' ∷ val), line.2))

read_lines_lem :
    (n : ℕ) (s : Bytes)
    → 0 < length s
    → read_lines (suc n) s ≡ (take_line 1023 s).0 ∷ read_lines n (take_line 1023 s).1
unfolding read_lines
read_lines_lem n [] h = absurd (omega (arith, h))
read_lines_lem n (c ∷ s) h = refl

length-print_line : (kv : Bytes × Bytes) → 0 < length (print_line kv)
length-print_line (key, val) = omega (arith, length-append (key ++ b'=' ∷ val) (10 ∷ []))

read_lines-print_file :
    (n : ℕ) (kvs : List (Bytes × Bytes))
    → All IsLine kvs
    → length kvs ≤ n
    → read_lines n (print_file kvs) ≡ map print_line kvs
unfolding read_lines
read_lines-print_file zero [] h k = refl
read_lines-print_file (suc n) [] h k = refl
read_lines-print_file zero (kv ∷ kvs) h k = absurd (omega (arith, k))
read_lines-print_file (suc n) (kv ∷ kvs) h k =
    read_lines_lem n (print_file (kv ∷ kvs))
      (omega (arith, length-append (print_line kv) (print_file kvs), length-print_line kv))
    ∙ rw (take_line-print_line kv (print_file kvs) h.0)
        (ap (λ ls. print_line kv ∷ ls) (read_lines-print_file n kvs h.1 (omega (arith, k))))

set_line-print_line :
    (key val : Bytes) (s : Settings)
    → IsLine (key, val)
    → set_line (print_line (key, val)) s ≡ set_field key val s
set_line-print_line key val s line =
    ap (λ t. set_split (split_at_equals t) s)
      (c_str-HasNoNul ((key ++ b'=' ∷ val) ++ 10 ∷ []) no_nul
        ∙ append_assoc key (b'=' ∷ val) (10 ∷ []))
    ∙ rw (split_at_equals-append key (val ++ 10 ∷ []) (All-mono _ _ key (λ c h. h.2) line.0))
        (ap (λ v. set_field key v s) (to_newline-append val (All-mono _ _ val (λ c h. h.1) line.1)))
  where
    no_nul : HasNoNul ((key ++ b'=' ∷ val) ++ 10 ∷ [])
    no_nul =
        All-append _ (key ++ b'=' ∷ val) (10 ∷ [])
          (All-append _ key (b'=' ∷ val) (All-mono _ _ key (λ c h. h.0) line.0)
            (refl, All-mono _ _ val (λ c h. h.0) line.1))
          (refl, tt)

set_lines-print_line :
    (kvs : List (Bytes × Bytes)) (s : Settings)
    → All IsLine kvs
    → set_lines (map print_line kvs) s ≡ set_all kvs s
set_lines-print_line [] s h = refl
set_lines-print_line ((key, val) ∷ kvs) s h =
    ap (set_lines (map print_line kvs)) (set_line-print_line key val s h.0)
    ∙ set_lines-print_line kvs (set_field key val s) h.1

length-print_file : (kvs : List (Bytes × Bytes)) → length kvs ≤ length (print_file kvs)
length-print_file [] = omega arith
length-print_file (kv ∷ kvs) = omega (
  arith,
  length-append (print_line kv) (print_file kvs),
  length-print_line kv,
  length-print_file kvs,
)

-- Such a file sets its fields one after the other.
pub load_config_file-print_file :
    (kvs : List (Bytes × Bytes)) (s : Settings)
    → All IsLine kvs
    → load_config_file (some (print_file kvs)) s ≡ some (set_all kvs s)
unfolding load_config_file
load_config_file-print_file kvs s h = ap some (
    ap (λ ls. set_lines ls s)
      (read_lines-print_file (length (print_file kvs)) kvs h (length-print_file kvs))
    ∙ set_lines-print_line kvs s h)
