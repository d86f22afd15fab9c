-- ===== src/Base/Decimal.antt =====
-- `%d` of printf and `atoi`, over bytes.
use Prim.Native.Nat.{ℕ, zero, suc, ◌+◌, ◌-◌, ◌*◌, ◌/◌, ◌%◌, ◌^◌, ◌≤◌, ◌<◌}
use mathlib.Core.Path.{◌≡◌, refl, sym, ap, ◌∙◌}
use mathlib.Core.Logic.{inl, inr}
use mathlib.Core.Bool.{Bool, true, false, ◌&&◌, ◌||◌}
use mathlib.Core.List.{[], ◌∷◌, ◌++◌, append-nil}
use native.Mathlib.Nat.{pow-suc}
use native.Mathlib.Omega.{arith}
use chat_server_c.Base.Tests.{All, Bool-cases, leb, ◌==◌, if◌then◌else◌, length}
use chat_server_c.Base.Int.{ℤ, pos, negsuc}
use chat_server_c.Base.Bytes.{Bytes}

-- The digits of `n` before `out`; a number has at most as many digits as its value, so `n` rounds
-- are enough.
emit : ℕ → ℕ → Bytes → Bytes
emit zero n out = out
emit (suc f) n out =
    let rest = emit f (n / 10) ((b'0' + n % 10) ∷ out) in if n == 0 then out else rest

pub show_ℕ : ℕ → Bytes
unfolding emit
show_ℕ n = if n == 0 then b'0' ∷ [] else emit n n []

-- `%d`
unfoldable pub show_int : ℤ → Bytes
unfolding show_ℕ
show_int (pos n) = show_ℕ n
show_int (negsuc n) = b'-' ∷ show_ℕ (suc n)

abbrev pub is_digit : ℕ → Bool
is_digit c = leb b'0' c && leb c b'9'

-- The number that the leading digits spell behind `n`, and what follows them.
unfoldable pub scan : ℕ → Bytes → ℕ × Bytes
scan n [] = (n, [])
scan n (c ∷ s) = let rest = scan (n * 10 + (c - b'0')) s in if is_digit c then rest else (n, c ∷ s)

abbrev pub negate : ℕ → ℤ
negate zero = pos 0
negate (suc n) = negsuc n

-- `strtol` with base 10, past the white space: a sign, then digits. C leaves a value outside `int`
-- undefined; here it is kept.
abbrev signed : Bytes → ℤ × Bytes
signed [] = (pos 0, [])
signed (c ∷ s) =
    if c == b'-'
    then (let (n, r) = scan 0 s in (negate n, r))
    else if c == b'+'
    then (let (n, r) = scan 0 s in (pos n, r))
    else (let (n, r) = scan 0 (c ∷ s) in (pos n, r))

abbrev is_space : ℕ → Bool
is_space c = c == 32 || (leb 9 c && leb c 13)

unfoldable pub read_int : Bytes → ℤ × Bytes
unfolding scan
read_int [] = (pos 0, [])
read_int (c ∷ s) = let rest = read_int s in if is_space c then rest else signed (c ∷ s)

unfoldable pub atoi : Bytes → ℤ
unfolding read_int
atoi s = (read_int s).0

-- What follows a number does not begin with a digit.
abbrev pub NotDigit : Bytes → Type 0
NotDigit [] = Unit {0}
NotDigit (c ∷ s) = is_digit c ≡ false

scan-emit :
    (f n : ℕ) (out rest : Bytes) → n ≤ f → scan 0 (emit f n out ++ rest) ≡ scan n (out ++ rest)
unfolding emit scan
scan-emit zero n out rest h = ground arith
scan-emit (suc f) n out rest h = ground (arith, scan-emit f (n / 10) ((b'0' + n % 10) ∷ out) rest)

scan-NotDigit : (n : ℕ) (rest : Bytes) → NotDigit rest → scan n rest ≡ (n, rest)
unfolding scan
scan-NotDigit n [] h = refl
scan-NotDigit n (c ∷ s) h = ground arith

scan-show_ℕ : (n : ℕ) (rest : Bytes) → NotDigit rest → scan 0 (show_ℕ n ++ rest) ≡ (n, rest)
unfolding show_ℕ scan
scan-show_ℕ n rest h = ground (arith, scan-emit n n [] rest, scan-NotDigit n rest h)

emit_head :
    (f n : ℕ) (c : ℕ) (out : Bytes)
    → is_digit c ≡ true
    → (d : ℕ) × (s : Bytes) × (emit f n (c ∷ out) ≡ d ∷ s) × (is_digit d ≡ true)
unfolding emit
emit_head zero n c out h = (c, out, refl, h)
emit_head (suc f) n c out h = elim (Bool-cases (n == 0)) [
  | inl e ↦ (c, out, rw e, h)
  | inr e ↦
      let (d, s, eq, dig) = emit_head f (n / 10) (b'0' + n % 10) (c ∷ out) (ground arith) in
      (d, s, rw e eq, dig)
]

-- A printed number begins with a digit.
show_ℕ_head : (n : ℕ) → (d : ℕ) × (s : Bytes) × (show_ℕ n ≡ d ∷ s) × (is_digit d ≡ true)
unfolding show_ℕ emit
show_ℕ_head zero = (b'0', [], refl, refl)
show_ℕ_head (suc n) =
    let (d, s, e, h) = emit_head n (suc n / 10) (b'0' + suc n % 10) [] (ground arith) in
    (d, s, ground (arith, e), h)

signed-digits :
    (d n : ℕ) (s r : Bytes)
    → is_digit d ≡ true
    → scan 0 (d ∷ s) ≡ (n, r)
    → read_int (d ∷ s) ≡ (pos n, r)
unfolding read_int
signed-digits d n s r h e = ground arith

-- Reading a printed `int` gives it back, and leaves what follows.
pub read_int-show_int :
    (z : ℤ) (rest : Bytes) → NotDigit rest → read_int (show_int z ++ rest) ≡ (z, rest)
unfolding show_int
read_int-show_int (pos n) rest h =
    let (d, s, e, dig) = show_ℕ_head n in
    rw e (
      signed-digits d n (s ++ rest) rest dig
        (ap (λ t. scan 0 (t ++ rest)) (sym e) ∙ scan-show_ℕ n rest h))
read_int-show_int (negsuc n) rest h = unfold read_int in ground (arith, scan-show_ℕ (suc n) rest h)

-- `atoi` undoes `%d`.
pub atoi-show_int : (z : ℤ) → atoi (show_int z) ≡ z
unfolding atoi
atoi-show_int z =
    ap (λ p. p.0) (ap read_int {x = show_int z} (sym (append-nil _)) ∙ read_int-show_int z [] tt)

pow-pos : (k : ℕ) → 0 < 10 ^ k
pow-pos zero = omega arith
pow-pos (suc k) = omega (arith, pow-suc 10 k, pow-pos k)

le-length-emit : (f n : ℕ) (out : Bytes) → length out ≤ length (emit f n out)
unfolding emit
le-length-emit zero n out = omega arith
le-length-emit (suc f) n out = ground (arith, le-length-emit f (n / 10) ((b'0' + n % 10) ∷ out))

-- A number of at least k + 1 digits takes at least as many bytes.
length-emit_ge :
    (f n k : ℕ) (out : Bytes) → n ≤ f → 10 ^ k ≤ n → length out + suc k ≤ length (emit f n out)
unfolding emit
length-emit_ge zero n k out h p = absurd (omega (arith, pow-pos k))
length-emit_ge (suc f) n zero out h p =
    ground (arith, le-length-emit f (n / 10) ((b'0' + n % 10) ∷ out))
length-emit_ge (suc f) n (suc k) out h p =
    ground (arith, pow-suc 10 k, pow-pos k, length-emit_ge f (n / 10) k ((b'0' + n % 10) ∷ out))

-- A number below 10 ^ k takes at most k bytes.
length-emit_le : (f n k : ℕ) (out : Bytes) → n < 10 ^ k → length (emit f n out) ≤ length out + k
unfolding emit
length-emit_le zero n k out p = omega arith
length-emit_le (suc f) n zero out p = ground arith
length-emit_le (suc f) n (suc k) out p =
    ground (arith, pow-suc 10 k, length-emit_le f (n / 10) k ((b'0' + n % 10) ∷ out))

pub length-show_ℕ_ge : (n k : ℕ) → 10 ^ k ≤ n → suc k ≤ length (show_ℕ n)
unfolding show_ℕ
length-show_ℕ_ge n k p = ground (arith, length-emit_ge n n k [])

pub length-show_ℕ_le : (n k : ℕ) → n < 10 ^ suc k → length (show_ℕ n) ≤ suc k
unfolding show_ℕ
length-show_ℕ_le n k p = ground (arith, length-emit_le n n (suc k) [])

-- The bytes that an integer of a 32-bit `int` takes in print.
abbrev pub IsInt : ℤ → Type 0
IsInt (pos n) = n < 2 ^ 31
IsInt (negsuc n) = n < 2 ^ 31

pub length-show_int_le : (z : ℤ) → IsInt z → length (show_int z) ≤ 11
unfolding show_int
length-show_int_le (pos n) h = omega (arith, length-show_ℕ_le n 9 (omega arith))
length-show_int_le (negsuc n) h = omega (arith, length-show_ℕ_le (suc n) 9 (omega arith))

emit-All :
    (P : ℕ → Type 0) (digits : (d : ℕ) → d < 10 → P (b'0' + d)) (f n : ℕ) (out : Bytes)
    → All P out
    → All P (emit f n out)
unfolding emit
emit-All P digits zero n out h = h
emit-All P digits (suc f) n out h = elim (Bool-cases (n == 0)) [
  | inl done_now ↦ rw done_now h
  | inr more ↦
      rw more
        (emit-All P digits f (n / 10) ((b'0' + n % 10) ∷ out) (digits (n % 10) (omega arith), h))
]

show_ℕ-All : (P : ℕ → Type 0) (n : ℕ) → ((d : ℕ) → d < 10 → P (b'0' + d)) → All P (show_ℕ n)
unfolding show_ℕ
show_ℕ-All P n digits = elim (Bool-cases (n == 0)) [
  | inl nothing ↦ rw nothing (digits 0 (omega arith), tt)
  | inr more ↦ rw more (emit-All P digits n n [] tt)
]

-- What holds of the digits and the sign holds of all bytes of a number.
pub show_int-All :
    (P : ℕ → Type 0) (z : ℤ) → ((d : ℕ) → d < 10 → P (b'0' + d)) → P b'-' → All P (show_int z)
unfolding show_int
show_int-All P (pos n) digits sign = show_ℕ-All P n digits
show_int-All P (negsuc n) digits sign = (sign, show_ℕ-All P (suc n) digits)
