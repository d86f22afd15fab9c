-- ===== src/Base/Assoc.antt =====
-- `unordered_map<int, V>` as an association list. The program looks keys up and walks the whole map
-- in one place, where the order of the list stands for the container's unspecified order.
pub mod Keys
pub mod Values
use mathlib.Core.Path.{◌≡◌}
use mathlib.Core.Bool.{Bool, true, false}
use mathlib.Core.Option.{Option, none, some}
use mathlib.Core.List.{List, [], ◌∷◌}
use native.Mathlib.Omega.{arith}
use chat_server_c.Base.Tests.{if◌then◌else◌}
use chat_server_c.Base.Int.{ℤ, int_eq, int_eq_iff}

abbrev pub Assoc : Type 0 → Type 0
Assoc V = List (ℤ × V)

module _ {V : Type 0} where
  unfoldable pub find : ℤ → Assoc V → Option V
  find k [] = none
  find k ((j, v) ∷ m) = if int_eq j k then some v else find k m

  abbrev pub is_some : Option V → Bool
  is_some none = false
  is_some (some v) = true

  -- `m.insert({k, v})`: a key that is there keeps its value.
  unfoldable pub insert : ℤ → V → Assoc V → Assoc V
  insert k v m = if is_some (find k m) then m else (k, v) ∷ m

  -- `m.erase(k)`
  unfoldable pub erase : ℤ → Assoc V → Assoc V
  erase k [] = []
  erase k ((j, v) ∷ m) = let rest = erase k m in if int_eq j k then rest else (j, v) ∷ rest

  pub find-insert :
      (k j : ℤ) (v : V) (m : Assoc V)
      → find j (insert k v m)
        ≡ (if is_some (find k m) then find j m else if int_eq k j then some v else find j m)
  unfolding find insert
  find-insert k j v m = ground arith

  pub find-erase :
      (k j : ℤ) (m : Assoc V) → find j (erase k m) ≡ (if int_eq k j then none else find j m)
  unfolding find erase
  find-erase k j [] = ground arith
  find-erase k j ((i, v) ∷ m) =
      ground (arith, find-erase k j m, int_eq_iff i k, int_eq_iff i j, int_eq_iff k j)
