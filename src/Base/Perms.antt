-- ===== src/Base/Perms.antt =====
-- Permutations of short lists.
use mathlib.Core.List.{Permᴰ}
use mathlib.Core.Logic.{∥∥₁_elim}
use mathlib.Core.Path.{◌≡◌, refl, ap, sym, subst}
use mathlib.Core.List.{List, [], ◌∷◌, Perm, map}
use chat_server_c.Base.Tests.{All}
use native.Mathlib.Omega.{arith}

permᴰ_nil : {A : Type 0} {xs ys : List A} → Permᴰ xs ys → ys ≡ [] → xs ≡ []
permᴰ_nil Permᴰ.nil e = e
permᴰ_nil (Permᴰ.cons h p) e = cc
permᴰ_nil (Permᴰ.swap h k) e = cc
permᴰ_nil (Permᴰ.trans p q) e = permᴰ_nil p (permᴰ_nil q e)

permᴰ_singleton : {A : Type 0} {xs ys : List A} (x : A) → Permᴰ xs ys → ys ≡ x ∷ [] → xs ≡ x ∷ []
permᴰ_singleton x Permᴰ.nil e = e
permᴰ_singleton x (Permᴰ.cons h p) e = ground (arith, permᴰ_nil p, h)
permᴰ_singleton x (Permᴰ.swap h k) e = cc
permᴰ_singleton x (Permᴰ.trans p q) e = permᴰ_singleton x p (permᴰ_singleton x q e)

-- A permutation of a single entry is that entry.
pub perm_singleton : {A : Type 0} → IsSet A → (xs : List A) (x : A) → Perm xs (x ∷ []) → xs ≡ x ∷ []
perm_singleton {A} set xs x p = ∥∥₁_elim p (hlevel set) (λ q. permᴰ_singleton x q refl)

module _ {A : Type 0} (P : A → Type 0) where
  All-prop : ((x : A) → IsProp (P x)) → (xs : List A) → IsProp (All P xs)
  All-prop prop [] = hlevel
  All-prop prop (x ∷ xs) = hlevel (prop x, All-prop prop xs)

  permᴰ-All : {xs ys : List A} → Permᴰ xs ys → All P ys → All P xs
  permᴰ-All Permᴰ.nil h = h
  permᴰ-All (Permᴰ.cons e p) h = (subst P (sym e) h.0, permᴰ-All p h.1)
  permᴰ-All (Permᴰ.swap e f) h = (subst P (sym e) h.1.0, (subst P (sym f) h.0, h.1.1))
  permᴰ-All (Permᴰ.trans p q) h = permᴰ-All p (permᴰ-All q h)

  -- A predicate on every entry does not depend on the order.
  pub perm-All : ((x : A) → IsProp (P x)) → (xs ys : List A) → Perm xs ys → All P ys → All P xs
  perm-All prop xs ys p h = ∥∥₁_elim p (All-prop prop xs) (λ q. permᴰ-All q h)

pub map-map_eq :
    {A B C : Type 0} (f : A → B) (g : B → C) (h : A → C)
    → ((x : A) → g (f x) ≡ h x)
    → (xs : List A) → map g (map f xs) ≡ map h xs
map-map_eq f g h e [] = refl
map-map_eq f g h e (x ∷ xs) = cc (e x, map-map_eq f g h e xs)

pub map_id : {A : Type 0} (xs : List A) → map (λ x. x) xs ≡ xs
map_id [] = refl
map_id (x ∷ xs) = ap (◌∷◌ x) (map_id xs)
