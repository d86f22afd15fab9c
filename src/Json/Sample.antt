-- ===== src/Json/Sample.antt =====
-- A concrete `JsonLib` for the tests: objects as lists of fields, written with their lengths in
-- front instead of JSON's punctuation.
use text.Mathlib.Text.{◌==◌ as str_eq}
use text.Mathlib.TextEquality.{eq_iff, Char-path}
use chat_server_c.Base.{
  map, All, All-map, All-append, append-nil, sym, false, true, Bool, ◌∙◌, ◌==◌, ℕ, zero, suc, ◌+◌,
  ◌-◌, String, ◌≡◌, refl, ap, Option, none, some, List, [], ◌∷◌, ◌++◌, arith, length, if◌then◌else◌,
  append_assoc,
}
use chat_server_c.Base.Int.{pos, negsuc}
use chat_server_c.Base.Bytes.{HasNoNul, Bytes, codes, bytes_eq, bytes_eq_iff}
use chat_server_c.Json.{Value, int, str, strs, JsonLib}

-- The offset keeps the numbers away from the bytes that SQL would have to escape.
abbrev offset : ℕ
offset = 200

abbrev write_text : Bytes → Bytes
write_text s = (length s + offset) ∷ map (λ c. c + offset) s

abbrev write_texts : List Bytes → Bytes
write_texts [] = []
write_texts (s ∷ ss) = write_text s ++ write_texts ss

abbrev write_value : Value → Bytes
write_value (int (pos n)) = 1 ∷ (n + offset) ∷ []
write_value (int (negsuc n)) = 2 ∷ (n + offset) ∷ []
write_value (str s) = 3 ∷ write_text s
write_value (strs ss) = 4 ∷ (length ss + offset) ∷ write_texts ss

abbrev pub Fields : Type 0
Fields = List (Bytes × Value)

abbrev write_fields : Fields → Bytes
write_fields [] = []
write_fields ((k, v) ∷ fs) = write_text k ++ (write_value v ++ write_fields fs)

-- Every reader returns what follows; a text that it cannot read gives an empty value.
abbrev split : ℕ → Bytes → Bytes × Bytes
split zero s = ([], s)
split (suc n) [] = ([], [])
split (suc n) (c ∷ s) = let (a, b) = split n s in (c ∷ a, b)

abbrev read_text : Bytes → Bytes × Bytes
read_text [] = ([], [])
read_text (n ∷ s) = (map (λ c. c - offset) (split (n - offset) s).0, (split (n - offset) s).1)

abbrev read_texts : ℕ → Bytes → List Bytes × Bytes
read_texts zero s = ([], s)
read_texts (suc n) s =
    ((read_text s).0 ∷ (read_texts n (read_text s).1).0, (read_texts n (read_text s).1).1)

abbrev read_value : Bytes → Value × Bytes
read_value (c ∷ n ∷ s) =
    if c == 1
    then (int (pos (n - offset)), s)
    else if c == 2
    then (int (negsuc (n - offset)), s)
    else if c == 3
    then (str (read_text (n ∷ s)).0, (read_text (n ∷ s)).1)
    else (strs (read_texts (n - offset) s).0, (read_texts (n - offset) s).1)
read_value s = (str [], s)

abbrev read_fields : ℕ → Bytes → Fields
read_fields zero s = []
read_fields (suc n) s =
    let k = read_text s in let v = read_value k.1 in (k.0, v.0) ∷ read_fields n v.1

split-append :
    (s r : Bytes) → split (length s) (map (λ c. c + offset) s ++ r) ≡ (map (λ c. c + offset) s, r)
split-append [] r = refl
split-append (c ∷ s) r = rw (split-append s r)

shift_back : (s : Bytes) → map (λ c. c - offset) (map (λ c. c + offset) s) ≡ s
shift_back [] = refl
shift_back (c ∷ s) = let e : c + offset - offset ≡ c = omega arith in rw (e, shift_back s) refl

read_text-write_text : (s r : Bytes) → read_text (write_text s ++ r) ≡ (s, r)
read_text-write_text s r =
    let e : length s + offset - offset ≡ length s = omega arith in
    rw (e, split-append s r, shift_back s) refl

read_texts-write_texts :
    (ss : List Bytes) (r : Bytes) → read_texts (length ss) (write_texts ss ++ r) ≡ (ss, r)
read_texts-write_texts [] r = refl
read_texts-write_texts (s ∷ ss) r =
    let p =
      ap read_text (append_assoc (write_text s) (write_texts ss) r)
      ∙ read_text-write_text s (write_texts ss ++ r) in
    let q = read_texts-write_texts ss r in
    (λ i. ((p i).0 ∷ (read_texts (length ss) (p i).1).0, (read_texts (length ss) (p i).1).1)) ∙ λ i.
    (s ∷ (q i).0, (q i).1)

read_value-write_value : (v : Value) (r : Bytes) → read_value (write_value v ++ r) ≡ (v, r)
read_value-write_value (int (pos n)) r = ground arith
read_value-write_value (int (negsuc n)) r = ground arith
read_value-write_value (str s) r = let p = read_text-write_text s r in λ i. (str (p i).0, (p i).1)
read_value-write_value (strs ss) r =
    let e : length ss + offset - offset ≡ length ss = omega arith in
    rw e (rw (read_texts-write_texts ss r))

read_fields-write_fields :
    (fs : Fields) (r : Bytes) → read_fields (length fs) (write_fields fs ++ r) ≡ fs
read_fields-write_fields [] r = refl
read_fields-write_fields ((k, v) ∷ fs) r =
    let p =
      ap read_text (append_assoc (write_text k) (write_value v ++ write_fields fs) r)
      ∙ read_text-write_text k ((write_value v ++ write_fields fs) ++ r) in
    let q =
      ap read_value (append_assoc (write_value v) (write_fields fs) r)
      ∙ read_value-write_value v (write_fields fs ++ r) in
    (λ i. ((p i).0, (read_value (p i).1).0) ∷ read_fields (length fs) (read_value (p i).1).1)
    ∙ (λ i. (k, (q i).0) ∷ read_fields (length fs) (q i).1)
    ∙ ap (λ gs. (k, v) ∷ gs) (read_fields-write_fields fs r)

-- A JSON value: null or an object, which are what the program writes to, or another.
pub data Doc : Type 0 where
  object : Fields → Doc
  other : ℕ → Doc

abbrev lookup : Bytes → Fields → Option Value
lookup k [] = none
lookup k ((j, v) ∷ fs) = if bytes_eq j k then some v else lookup k fs

abbrev get_doc : Doc → String → Option Value
get_doc (object fs) k = lookup (codes k) fs
get_doc (other n) k = none

abbrev has_value : Option Value → Bool
has_value none = false
has_value (some v) = true

abbrev contains_doc : Doc → String → Bool
contains_doc j k = has_value (get_doc j k)

abbrev is_object_doc : Doc → Bool
is_object_doc (object fs) = true
is_object_doc (other n) = false

abbrev show_value : Option Value → Bytes
show_value none = codes "null"
show_value (some v) = write_value v

abbrev shown_doc : Doc → String → Bytes
shown_doc j k = show_value (get_doc j k)

abbrev put_doc : Doc → String → Value → Doc
put_doc (object fs) k v = object ((codes k, v) ∷ fs)
put_doc (other n) k v = other n

abbrev dump_doc : Doc → Bytes
dump_doc (object fs) = 1 ∷ (length fs + offset) ∷ write_fields fs
dump_doc (other n) = 2 ∷ (n + offset) ∷ []

abbrev parse_doc : Bytes → Option Doc
parse_doc (c ∷ n ∷ s) =
    if c == 1 then some (object (read_fields (n - offset) s)) else some (other (n - offset))
parse_doc _ = none

abbrev pub IsObjectDoc : Doc → Type 0
IsObjectDoc (object fs) = Unit {0}
IsObjectDoc (other n) = ⊥

codes_injective : (s t : String) → codes s ≡ codes t → s ≡ t
codes_injective String.[] String.[] e = refl
codes_injective String.[] (String.◌∷◌ d t) e = cc
codes_injective (String.◌∷◌ c s) String.[] e = cc
codes_injective (String.◌∷◌ c s) (String.◌∷◌ d t) e =
    cc (Char-path c d (cc), codes_injective s t (cc))

bytes_eq-codes : (s t : String) → bytes_eq (codes s) (codes t) ≡ str_eq s t
bytes_eq-codes s t =
    ground (arith, bytes_eq_iff (codes s) (codes t), eq_iff s t, codes_injective s t)

if-has_value :
    (b : Bool) (o : Option Value) (v : Value)
    → has_value (if b then some v else o) ≡ (if b then true else has_value o)
if-has_value true o v = refl
if-has_value false o v = refl

pub get_doc-IsObject : (j : Doc) (k : String) (v : Value) → get_doc j k ≡ some v → IsObjectDoc j
get_doc-IsObject (object fs) k v e = tt
get_doc-IsObject (other n) k v e = cc

pub put_doc-IsObject :
    (j : Doc) (k : String) (v : Value) → IsObjectDoc j → IsObjectDoc (put_doc j k v)
put_doc-IsObject (object fs) k v h = tt
put_doc-IsObject (other n) k v h = h

pub get_doc-put_doc :
    (j : Doc) (k l : String) (v : Value)
    → IsObjectDoc j
    → get_doc (put_doc j k v) l ≡ (if str_eq k l then some v else get_doc j l)
get_doc-put_doc (object fs) k l v h = rw (bytes_eq-codes k l)
get_doc-put_doc (other n) k l v h = absurd h

pub contains_doc-put_doc :
    (j : Doc) (k l : String) (v : Value)
    → IsObjectDoc j
    → contains_doc (put_doc j k v) l ≡ (if str_eq k l then true else contains_doc j l)
contains_doc-put_doc j k l v h =
    rw (get_doc-put_doc j k l v h) (if-has_value (str_eq k l) (get_doc j l) v)

pub is_object_doc-IsObject : (j : Doc) → IsObjectDoc j → is_object_doc j ≡ true
is_object_doc-IsObject (object fs) h = refl
is_object_doc-IsObject (other n) h = absurd h

if-show_value :
    (b : Bool) (o : Option Value) (v : Value)
    → show_value (if b then some v else o) ≡ (if b then write_value v else show_value o)
if-show_value true o v = refl
if-show_value false o v = refl

pub shown_doc-put_doc :
    (j : Doc) (k l : String) (v : Value)
    → IsObjectDoc j
    → shown_doc (put_doc j k v) l ≡ (if str_eq k l then write_value v else shown_doc j l)
shown_doc-put_doc j k l v h =
    rw (get_doc-put_doc j k l v h) (if-show_value (str_eq k l) (get_doc j l) v)

above_offset : (n : ℕ) → ((n + offset) == 0) ≡ false
above_offset n = ground arith

write_text-HasNoNul : (s : Bytes) → HasNoNul (write_text s)
write_text-HasNoNul s = (above_offset (length s), All-map _ (λ c. c + offset) s (all s))
  where
    all : (t : Bytes) → All (λ c. ((c + offset) == 0) ≡ false) t
    all [] = tt
    all (c ∷ t) = (above_offset c, all t)

write_texts-HasNoNul : (ss : List Bytes) → HasNoNul (write_texts ss)
write_texts-HasNoNul [] = tt
write_texts-HasNoNul (s ∷ ss) =
    All-append _ (write_text s) (write_texts ss) (write_text-HasNoNul s) (write_texts-HasNoNul ss)

write_value-HasNoNul : (v : Value) → HasNoNul (write_value v)
write_value-HasNoNul (int (pos n)) = (refl, (above_offset n, tt))
write_value-HasNoNul (int (negsuc n)) = (refl, (above_offset n, tt))
write_value-HasNoNul (str s) = (refl, write_text-HasNoNul s)
write_value-HasNoNul (strs ss) = (refl, (above_offset (length ss), write_texts-HasNoNul ss))

write_fields-HasNoNul : (fs : Fields) → HasNoNul (write_fields fs)
write_fields-HasNoNul [] = tt
write_fields-HasNoNul ((k, v) ∷ fs) =
    All-append _ (write_text k) (write_value v ++ write_fields fs) (write_text-HasNoNul k) (
      All-append _ (write_value v) (write_fields fs) (write_value-HasNoNul v)
        (write_fields-HasNoNul fs))

pub dump_doc-HasNoNul : (j : Doc) → IsObjectDoc j → HasNoNul (dump_doc j)
dump_doc-HasNoNul (object fs) h = (refl, (above_offset (length fs), write_fields-HasNoNul fs))
dump_doc-HasNoNul (other n) h = absurd h

pub parse_doc-dump_doc :
    (j : Doc) (r : Bytes) → IsObjectDoc j → parse_doc (dump_doc j ++ r) ≡ some j
parse_doc-dump_doc (object fs) r h =
    let e : length fs + offset - offset ≡ length fs = omega arith in
    rw e (rw (read_fields-write_fields fs r))
parse_doc-dump_doc (other n) r h = absurd h

instance abbrev pub sample_json : JsonLib
sample_json = record {
  Json = Doc;
  IsObject = IsObjectDoc;
  empty = object [];
  get = get_doc;
  put = put_doc;
  dump = dump_doc;
  parse = parse_doc;
  empty-IsObject = tt;
  get-IsObject = get_doc-IsObject;
  put-IsObject = put_doc-IsObject;
  get-put = get_doc-put_doc;
  contains = contains_doc;
  contains-empty = λ l. refl;
  contains-put = contains_doc-put_doc;
  is_object = is_object_doc;
  is_object-IsObject = is_object_doc-IsObject;
  shown = shown_doc;
  text = write_value;
  shown-put = shown_doc-put_doc;
  dump-HasNoNul = dump_doc-HasNoNul;
  parse_empty = refl;
  parse-dump = λ j h. ap parse_doc (sym (append-nil (dump_doc j))) ∙ parse_doc-dump_doc j [] h;
  parse-dump_nul = λ j r h. parse_doc-dump_doc j (0 ∷ r) h;
}
