-- ===== src/Base/Assoc/Values.antt =====
-- What holds of all values of a map.
use chat_server_c.Base.{inr, inl, All, Option-cases, Bool-cases}
use mathlib.Core.Path.{◌≡◌, subst}
use mathlib.Core.List.{[], ◌∷◌}
use mathlib.Core.Option.{Option, none, some}
use chat_server_c.Base.Int.{ℤ, int_eq}
use chat_server_c.Base.Assoc.{Assoc, find, insert}

module _ {V : Type 0} (Q : V → Type 0) where
  abbrev pub ValuesAre : Assoc V → Type 0
  ValuesAre m = All (λ e. Q e.1) m

  pub insert-ValuesAre :
      (k : ℤ) (v : V) (m : Assoc V) → Q v → ValuesAre m → ValuesAre (insert k v m)
  unfolding insert
  insert-ValuesAre k v m q h = elim (Option-cases (find k m)) [
    | inl free ↦ rw free (q, h)
    | inr (u, taken) ↦ rw taken h
  ]

  abbrev value : V → Option V → V
  value u none = u
  value u (some v) = v

  pub find-ValuesAre : (k : ℤ) (v : V) (m : Assoc V) → ValuesAre m → find k m ≡ some v → Q v
  unfolding find
  find-ValuesAre k v [] h e = cc
  find-ValuesAre k v ((j, u) ∷ m) h e = elim (Bool-cases (int_eq j k)) [
    | inl same ↦ subst (λ o. Q (value u o)) (rw same at e) h.0
    | inr other ↦ find-ValuesAre k v m h.1 (rw other at e)
  ]
