-- ===== src/Json.antt =====
-- What the program uses of nlohmann's json.hpp (thirdparty/json.hpp), as a parameter.
pub mod Sample
pub mod Fields
use text.Mathlib.Text.{◌==◌ as str_eq}
use chat_server_c.Base.{
  [], ◌∷◌, ◌++◌, true, false, Bool, String, ◌≡◌, Option, none, some, List, if◌then◌else◌,
}
use chat_server_c.Base.Int.{ℤ}
use chat_server_c.Base.Bytes.{Bytes, HasNoNul}

-- The three types at which the program reads and writes the values of an object: `get<int>()`,
-- `string`, `vector<string>`.
pub data Value : Type 0 where
  int : ℤ → Value
  str : Bytes → Value
  strs : List Bytes → Value

-- `get j k` is what `js[k]` converts to, `none` where every conversion that the program makes
-- throws. `IsObject` says that `j` is null or an object, which are what `js[k] = v` accepts.
-- Texts are valid UTF-8, which is what `dump` accepts.
pub record JsonLib : Type 1 where
  pub Json : Type 0
  pub IsObject : Json → Type 0
  -- `json js;`
  pub empty : Json
  pub get : Json → String → Option Value
  -- `js[k] = v`
  pub put : Json → String → Value → Json
  pub dump : Json → Bytes
  -- `json::parse`, `none` where it throws
  pub parse : Bytes → Option Json
  pub empty-IsObject : IsObject empty
  pub get-IsObject : (j : Json) (k : String) (v : Value) → get j k ≡ some v → IsObject j
  pub put-IsObject : (j : Json) (k : String) (v : Value) → IsObject j → IsObject (put j k v)
  pub get-put :
      (j : Json) (k l : String) (v : Value)
      → IsObject j
      → get (put j k v) l ≡ (if str_eq k l then some v else get j l)
  pub contains : Json → String → Bool
  -- Whether `js[k]` does not throw, and what `cout << js[k]` prints then.
  pub is_object : Json → Bool
  pub is_object-IsObject : (j : Json) → IsObject j → is_object j ≡ true
  pub shown : Json → String → Bytes
  -- What `cout` prints for a value.
  pub text : Value → Bytes
  pub shown-put :
      (j : Json) (k l : String) (v : Value)
      → IsObject j
      → shown (put j k v) l ≡ (if str_eq k l then text v else shown j l)
  pub contains-empty : (l : String) → contains empty l ≡ false
  pub contains-put :
      (j : Json) (k l : String) (v : Value)
      → IsObject j
      → contains (put j k v) l ≡ (if str_eq k l then true else contains j l)
  -- An empty text is no value.
  pub parse_empty : parse [] ≡ none
  pub parse-dump : (j : Json) → IsObject j → parse (dump j) ≡ some j
  -- The parser takes a NUL for the end of its input.
  -- Control characters are escaped.
  pub dump-HasNoNul : (j : Json) → IsObject j → HasNoNul (dump j)
  pub parse-dump_nul : (j : Json) (r : Bytes) → IsObject j → parse (dump j ++ 0 ∷ r) ≡ some j

module _ ⦃J : JsonLib⦄ where
  open J use {Json, get}

  abbrev as_int : Option Value → Option ℤ
  as_int (some (int z)) = some z
  as_int _ = none

  abbrev as_str : Option Value → Option Bytes
  as_str (some (str s)) = some s
  as_str _ = none

  -- `js[k].get<int>()`
  pub get_int : Json → String → Option ℤ
  get_int j k = as_int (get j k)

  -- `string s = js[k]`
  pub get_str : Json → String → Option Bytes
  get_str j k = as_str (get j k)

  abbrev as_strs : Option Value → Option (List Bytes)
  as_strs (some (strs ss)) = some ss
  as_strs _ = none

  -- `vector<string> v = js[k]`
  pub get_strs : Json → String → Option (List Bytes)
  get_strs j k = as_strs (get j k)

  pub get_strs_lem :
      (j : Json) (k : String) (ss : List Bytes) → get j k ≡ some (strs ss) → get_strs j k ≡ some ss
  unfolding get_strs
  get_strs_lem j k ss e = rw e

  pub get_int_lem : (j : Json) (k : String) (z : ℤ) → get j k ≡ some (int z) → get_int j k ≡ some z
  unfolding get_int
  get_int_lem j k z e = rw e

  pub get_str_lem :
      (j : Json) (k : String) (s : Bytes) → get j k ≡ some (str s) → get_str j k ≡ some s
  unfolding get_str
  get_str_lem j k s e = rw e
