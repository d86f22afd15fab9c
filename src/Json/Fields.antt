-- ===== src/Json/Fields.antt =====
-- Objects that are made by one `js[k] = v` behind the other, and what is read in them.
use chat_server_c.Json.{Value, JsonLib}
use text.Mathlib.Text.{◌==◌ as str_eq}
use chat_server_c.Base.{
  refl, ◌∷◌, [], ◌∙◌, some, false, String, List, [], ◌∷◌, ◌≡◌, if◌then◌else◌, true,
}

abbrev pub field {ℓ} : {A : Type ℓ} → (Value → A) → String → List (String × Value) → A → A
field f l [] d = d
field f l ((k, v) ∷ fs) d = if str_eq k l then f v else field f l fs d

module _ ⦃J : JsonLib⦄ where
  open J use {Json, empty, get, put, contains, shown}

  -- The last field first.
  abbrev pub build : List (String × Value) → Json
  build [] = empty
  build ((k, v) ∷ fs) = put (build fs) k v

  pub build-IsObject : (fs : List (String × Value)) → J.IsObject (build fs)
  build-IsObject [] = J.empty-IsObject
  build-IsObject ((k, v) ∷ fs) = J.put-IsObject (build fs) k v (build-IsObject fs)

  pub get-build :
      (fs : List (String × Value)) (l : String)
      → get (build fs) l ≡ field (λ v. some v) l fs (get empty l)
  get-build [] l = refl
  get-build ((k, v) ∷ fs) l =
      J.get-put (build fs) k l v (build-IsObject fs) ∙ rw (get-build fs l) refl

  pub contains-build :
      (fs : List (String × Value)) (l : String)
      → contains (build fs) l ≡ field (λ _. true) l fs false
  contains-build [] l = J.contains-empty l
  contains-build ((k, v) ∷ fs) l =
      J.contains-put (build fs) k l v (build-IsObject fs) ∙ rw (contains-build fs l) refl

  pub shown-build :
      (fs : List (String × Value)) (l : String)
      → shown (build fs) l ≡ field J.text l fs (shown empty l)
  shown-build [] l = refl
  shown-build ((k, v) ∷ fs) l =
      J.shown-put (build fs) k l v (build-IsObject fs) ∙ rw (shown-build fs l) refl
