-- ===== src/Base/Filter.antt =====
-- Selection and update of the rows of a table, by Boolean tests.
use chat_server_c.Base.{false, true, map}
use mathlib.Core.Path.{◌≡◌, refl}
use mathlib.Core.Bool.{Bool, not}
use mathlib.Core.List.{List, [], ◌∷◌, ◌++◌}
use native.Mathlib.Omega.{arith}
use chat_server_c.Base.Tests.{if◌then◌else◌}

module _ {A : Type 0} where
  abbrev pub keep : (A → Bool) → List A → List A
  keep p [] = []
  keep p (x ∷ xs) = let rest = keep p xs in if p x then x ∷ rest else rest

  abbrev pub update_where : (A → Bool) → (A → A) → List A → List A
  update_where p f [] = []
  update_where p f (x ∷ xs) = (if p x then f x else x) ∷ update_where p f xs

  pub keep-append : (p : A → Bool) (xs ys : List A) → keep p (xs ++ ys) ≡ keep p xs ++ keep p ys
  keep-append p [] ys = refl
  keep-append p (x ∷ xs) ys = ground (arith, keep-append p xs ys)

  -- What a deletion leaves holds nothing that it was to delete.
  pub keep-keep-not : (p : A → Bool) (xs : List A) → keep p (keep (λ x. not (p x)) xs) ≡ []
  keep-keep-not p [] = refl
  keep-keep-not p (x ∷ xs) = ground (arith, keep-keep-not p xs)

  -- Where nothing is to be deleted, all stays.
  pub keep-not_none : (p : A → Bool) (xs : List A) → keep p xs ≡ [] → keep (λ x. not (p x)) xs ≡ xs
  keep-not_none p [] e = refl
  keep-not_none p (x ∷ xs) e = ground (arith, keep-not_none p xs)

  -- What is selected passes the test.
  pub keep-head : (p : A → Bool) (xs ys : List A) (x : A) → keep p xs ≡ x ∷ ys → p x ≡ true
  keep-head p [] ys x e = cc
  keep-head p (z ∷ xs) ys x e = ground (arith, keep-head p xs ys x)

  -- An update that the test does not see goes to the selected rows.
  pub keep-update_where :
      (p : A → Bool) (f : A → A) (xs : List A)
      → ((x : A) → p (f x) ≡ p x)
      → keep p (update_where p f xs) ≡ map f (keep p xs)
  keep-update_where p f [] e = refl
  keep-update_where p f (x ∷ xs) e = ground (arith, e x, keep-update_where p f xs e)

  -- An update of other rows is not seen.
  pub keep-update_where_ne :
      (p q : A → Bool) (f : A → A) (xs : List A)
      → ((x : A) → q x ≡ true → (p x ≡ false) × (p (f x) ≡ false))
      → keep p (update_where q f xs) ≡ keep p xs
  keep-update_where_ne p q f [] e = refl
  keep-update_where_ne p q f (x ∷ xs) e = ground (arith, e x, keep-update_where_ne p q f xs e)

  -- An update that does not change what is kept.
  pub keep-update_where_all :
      (p q : A → Bool) (f : A → A) (xs : List A)
      → ((x : A) → p (f x) ≡ p x)
      → keep p (update_where q f xs) ≡ map (λ x. if q x then f x else x) (keep p xs)
  keep-update_where_all p q f [] e = refl
  keep-update_where_all p q f (x ∷ xs) e = ground (arith, e x, keep-update_where_all p q f xs e)

pub map-eq-nil : {A B : Type 0} (f : A → B) (xs : List A) → map f xs ≡ [] → xs ≡ []
map-eq-nil f [] e = refl
map-eq-nil f (x ∷ xs) e = cc
