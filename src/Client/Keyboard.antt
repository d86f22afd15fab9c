-- ===== src/Client/Keyboard.antt =====
-- src/client/main.cc, what `main` reads from `cin`: the choices, and what the dialogues ask for.
use chat_server_c.Base.Decimal.{is_digit, scan, negate}
use chat_server_c.Base.Int.{int_eq, pos, ℤ}
use chat_server_c.Base.Bytes.{Bytes}
use chat_server_c.Base.{
  ◌∙◌, refl, ◌-◌, ◌&&◌, ◌^◌, leb, ◌||◌, ap, ◌≡◌, ◌==◌, ℕ, zero, suc, List, [], ◌∷◌, Bool, true,
  false, if◌then◌else◌,
}

-- `cin`: what was typed and not read, and whether an extraction failed. Nothing clears that, and
-- until then every further call leaves the text alone.
pub record Keyboard : Type 0 where
  pub typed : Bytes
  pub failed : Bool

abbrev pub is_space : ℕ → Bool
is_space c = c == 32 || leb 9 c && leb c 13

abbrev pub skip_spaces : Bytes → Bytes
skip_spaces [] = []
skip_spaces (c ∷ s) = let rest = skip_spaces s in if is_space c then rest else c ∷ s

-- What an extraction of an `int` finds: none, one that does not fit (and the bound it is set to), or
-- one and what follows it.
pub data Extraction : Type 0 where
  no_number : Extraction
  too_large : ℤ → Extraction
  a_number : ℤ → Bytes → Extraction

-- The digits at the front, as a number of at most 2^31 - 1 or, with a sign, 2^31.
abbrev digits_to : (ℕ → ℤ) → ℕ → Bytes → Extraction
digits_to sign most [] = no_number
digits_to sign most (c ∷ s) =
    let (n, rest) = scan 0 (c ∷ s) in
    if is_digit c
    then if leb n most then a_number (sign n) rest else too_large (sign most)
    else no_number

-- An `int` at the front of the text, and what follows it.
unfoldable pub number : Bytes → Extraction
number [] = no_number
number (c ∷ s) =
    if c == b'-'
    then digits_to negate (2 ^ 31) s
    else if c == b'+'
    then digits_to pos (2 ^ 31 - 1) s
    else digits_to pos (2 ^ 31 - 1) (c ∷ s)

abbrev extracted : Keyboard → Extraction → ℤ × Keyboard
extracted k no_number = (pos 0, record k { failed = true })
extracted k (too_large z) = (z, record k { failed = true })
extracted k (a_number z rest) = (z, record k { typed = rest })

-- `int z = 0; cin >> z;`
unfoldable pub read_number : Keyboard → ℤ × Keyboard
read_number k = if k.failed then (pos 0, k) else extracted k (number (skip_spaces k.typed))

abbrev behind_one : Keyboard → Bytes → Keyboard
behind_one k [] = record k { failed = true }
behind_one k (_ ∷ s) = record k { typed = s }

-- `cin.get();`
unfoldable pub skip_one : Keyboard → Keyboard
skip_one k = if k.failed then k else behind_one k k.typed

-- The line, what follows it, and whether it has more than `n` bytes.
abbrev line_of : ℕ → Bytes → Bytes × Bytes × Bool
line_of n [] = ([], [], false)
line_of zero (c ∷ s) = if c == 10 then ([], s, false) else ([], c ∷ s, true)
line_of (suc n) (c ∷ s) =
    let (l, rest, long) = line_of n s in if c == 10 then ([], s, false) else (c ∷ l, rest, long)

abbrev line_read : ℕ → Keyboard → Bytes → Bytes × Keyboard
line_read n k [] = ([], record k { failed = true })
line_read n k (c ∷ s) =
    let (l, rest, long) = line_of n (c ∷ s) in (l, record { typed = rest; failed = long })

-- `char buffer[n + 1]; cin.getline(buffer, n + 1);`
unfoldable pub get_line : ℕ → Keyboard → Bytes × Keyboard
get_line n k = if k.failed then ([], k) else line_read n k k.typed

pub data Choice : Type 0 where
  logs_in : ℤ → Bytes → Choice
  registers : Bytes → Bytes → Choice
  exits : Choice
  invalid : Choice

abbrev pub choose : ℤ → Keyboard → Choice × Keyboard
choose z k =
    let (id, k1) = read_number k in
    let (pwd, k2) = get_line 19 (skip_one k1) in
    let (name, l1) = get_line 29 k in
    let (pwd', l2) = get_line 19 l1 in
    if int_eq z (pos 1)
    then (logs_in id pwd, k2)
    else if int_eq z (pos 2)
    then (registers name pwd', l2)
    else if int_eq z (pos 3)
    then (exits, k)
    else (invalid, k)

-- A round of the loop of `main`: the choice and the input of its dialogue.
unfoldable pub menu_round : Keyboard → Choice × Keyboard
menu_round k = let (choice, k1) = read_number k in choose choice (skip_one k1)

-- Rounds behind which no login was let in, which would read on in `mainMenu`.
abbrev pub menu_rounds : ℕ → Keyboard → List Choice
menu_rounds zero k = []
menu_rounds (suc n) k = let (c, k1) = menu_round k in c ∷ menu_rounds n k1

abbrev pub repeat : {A : Type 0} → ℕ → A → List A
repeat zero a = []
repeat (suc n) a = a ∷ repeat n a

abbrev with_state : Bytes → Bool → Keyboard
with_state typed failed = record { typed = typed; failed = failed }

-- Nothing that is a number, or a failure before: the round is lost, and the next ones with it.
stuck_round :
    (typed : Bytes) (failed : Bool)
    → number (skip_spaces typed) ≡ no_number
    → menu_round (with_state typed failed) ≡ (invalid, with_state typed true)
unfolding menu_round read_number skip_one
stuck_round typed true e = refl
stuck_round typed false e = rw e refl

-- If what was typed does not begin with a number, every further round of the loop of `main` finds
-- an invalid choice, whatever is typed behind it and however many there are.
pub menu_rounds_stuck :
    (n : ℕ) (k : Keyboard)
    → number (skip_spaces k.typed) ≡ no_number
    → menu_rounds n k ≡ repeat n invalid
menu_rounds_stuck zero k e = refl
menu_rounds_stuck (suc n) k e =
    ap (λ r. r.0 ∷ menu_rounds n r.1) (stuck_round k.typed k.failed e)
    ∙ ap (λ cs. invalid ∷ cs) (menu_rounds_stuck n (with_state k.typed true) e)
