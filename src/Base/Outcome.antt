-- ===== src/Base/Outcome.antt =====
-- Calls that change a state and may end the process.
use mathlib.Core.List.{List, [], ◌∷◌}
use mathlib.Core.Option.{Option, none, some}

-- What ends the process: an exception of the JSON library that nothing catches, `row[0]` where
-- `mysql_fetch_row` returned null, a `sprintf` past the end of its buffer, and `front` of an empty
-- queue. C++ leaves the last three undefined; the model stops there.
pub data Fault : Type 0 where
  json_error null_row overflow empty_queue : Fault

pub data Outcome (A : Type 0) : Type 0 where
  done : A → Outcome A
  fault : Fault → Outcome A

-- The state comes back after a fault too: what was written or sent stays so.
abbrev pub Action : Type 0 → Type 0 → Type 0
Action S A = S → Outcome A × S

module _ {S : Type 0} where
  abbrev pub pure : {A : Type 0} → A → Action S A
  pure a s = (done a, s)

  abbrev pub raise : {A : Type 0} → Fault → Action S A
  raise f s = (fault f, s)

  abbrev pub or_raise : {A : Type 0} → Option A → Fault → Action S A
  or_raise none f = raise f
  or_raise (some a) f = pure a

  abbrev pub gets : {A : Type 0} → (S → A) → Action S A
  gets f s = (done (f s), s)

  abbrev pub modify : (S → S) → Action S (Unit {0})
  modify f s = (done tt, f s)

  -- the rest of a call, by how the first part ended
  abbrev pub next : {A B : Type 0} → (A → Action S B) → Outcome A × S → Outcome B × S
  next f (done a, s) = f a s
  next f (fault e, s) = (fault e, s)

  infixl 5 ◌>>=◌ ◌>>◌
  abbrev pub ◌>>=◌ : {A B : Type 0} → Action S A → (A → Action S B) → Action S B
  ◌>>=◌ m f s = next f (m s)

  abbrev pub ◌>>◌ : {A B : Type 0} → Action S A → Action S B → Action S B
  m >> k = m >>= λ _. k

  -- `for (auto &x : xs) body(x);`
  unfoldable pub for_each : {A : Type 0} → List A → (A → Action S (Unit {0})) → Action S (Unit {0})
  for_each [] body = pure tt
  for_each (x ∷ xs) body = body x >> for_each xs body

  -- The call returns with a value and in a state that satisfy `P`, or it ends the process with a
  -- fault and in a state that satisfy `F`.
  abbrev pub Ends : {A : Type 0} → (A → S → Type 0) → (Fault → S → Type 0) → Outcome A × S → Type 0
  Ends P F (done a, s) = P a s
  Ends P F (fault e, s) = F e s

  -- The call returns, with a value and in a state that satisfy `P`.
  abbrev pub Returns : {A : Type 0} → (A → S → Type 0) → Outcome A × S → Type 0
  Returns P r = Ends P (λ e s. ⊥) r

  pub next-Ends :
      {A B : Type 0} {P : A → S → Type 0} (F : Fault → S → Type 0) (Q : B → S → Type 0)
      (f : A → Action S B) (r : Outcome A × S)
      → Ends P F r
      → ((a : A) (s : S) → P a s → Ends Q F (f a s))
      → Ends Q F (next f r)
  next-Ends F Q f (done a, s) h k = k a s h
  next-Ends F Q f (fault e, s) h k = h

  -- The same behind a part that cannot fault.
  pub next-Returns :
      {A B : Type 0} {P : A → S → Type 0} (F : Fault → S → Type 0) (Q : B → S → Type 0)
      (f : A → Action S B) (r : Outcome A × S)
      → Returns P r
      → ((a : A) (s : S) → P a s → Ends Q F (f a s))
      → Ends Q F (next f r)
  next-Returns F Q f (done a, s) h k = k a s h
  next-Returns F Q f (fault e, s) h k = absurd h

  pub Ends-mono :
      {A : Type 0} {P Q : A → S → Type 0} {F G : Fault → S → Type 0} (r : Outcome A × S)
      → Ends P F r
      → ((a : A) (s : S) → P a s → Q a s)
      → ((e : Fault) (s : S) → F e s → G e s)
      → Ends Q G r
  Ends-mono (done a, s) h k l = k a s h
  Ends-mono (fault e, s) h k l = l e s h
