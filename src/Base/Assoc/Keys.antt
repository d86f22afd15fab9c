-- ===== src/Base/Assoc/Keys.antt =====
-- Keys that stand at most once in a map.
use chat_server_c.Base.{inr, inl, Bool-cases, Option-cases}
use mathlib.Core.Path.{◌≡◌, ◌∙◌}
use mathlib.Core.Bool.{false}
use mathlib.Core.List.{[], ◌∷◌}
use mathlib.Core.Option.{none}
use native.Mathlib.Omega.{arith}
use chat_server_c.Base.Int.{ℤ, int_eq}
use chat_server_c.Base.Assoc.{find-erase, Assoc, find, insert, erase}

module _ {V : Type 0} where
  -- No key has two entries: `find` on what is behind an entry misses its key.
  abbrev pub IsUnique : Assoc V → Type 0
  IsUnique [] = Unit
  IsUnique ((k, v) ∷ m) = (find k m ≡ none) × IsUnique m

  pub insert-IsUnique : (k : ℤ) (v : V) (m : Assoc V) → IsUnique m → IsUnique (insert k v m)
  unfolding insert
  insert-IsUnique k v m h = elim (Option-cases (find k m)) [
    | inl free ↦ rw free (free, h)
    | inr (u, taken) ↦ rw taken h
  ]

  pub erase-IsUnique : (k : ℤ) (m : Assoc V) → IsUnique m → IsUnique (erase k m)
  unfolding erase
  erase-IsUnique k [] h = tt
  erase-IsUnique k ((j, v) ∷ m) h = elim (Bool-cases (int_eq j k)) [
    | inl same ↦ rw same (erase-IsUnique k m h.1)
    | inr other ↦ rw other (still_free other, erase-IsUnique k m h.1)
  ]
    where
      still_free : int_eq j k ≡ false → find j (erase k m) ≡ none
      still_free other = find-erase k j m ∙ ground (arith, h.0)
