-- ===== src/Client/Reading.antt =====
-- What the client reads in the texts that the server composes: the buffer, the lists of a login
-- answer, and loops over texts.
use chat_server_c.Service.Session.{put_list}
use chat_server_c.Client.State.{fill, Client, buffer}
use chat_server_c.Client.Dialogs.{for_list}
use chat_server_c.Base.Bytes.{HasNoNul, Bytes, c_str}
use chat_server_c.Json.{strs, get_strs_lem, JsonLib}
use chat_server_c.Base.Outcome.{done, Action, for_each}
use text.Mathlib.Text.{◌==◌ as str_eq}
use chat_server_c.Base.{
  arith, ◌-◌, ◌∙◌, map, ◌≤◌, ◌++◌, true, false, ap, All, ◌<◌, ℕ, length, String, List, [], ◌∷◌, ◌≡◌,
  refl, some, zero, suc,
}

module _ ⦃J : JsonLib⦄ where
  open J use {Json, get, put, dump, parse, contains}

  -- The object lists `ss` under the key, or does not have the key and `ss` is empty.
  abbrev pub Lists : Json → String → List Bytes → Type 0
  Lists j k [] = contains j k ≡ false
  Lists j k (s ∷ ss) = (contains j k ≡ true) × (get j k ≡ some (strs (s ∷ ss)))

  fill-append : (n : ℕ) (s : Bytes) → length s ≤ n → fill n s ≡ s ++ fill (n - length s) []
  fill-append n [] h = let e : n - 0 ≡ n = omega arith in rw e refl
  fill-append zero (b ∷ s) h = absurd (omega (arith, h))
  fill-append (suc n) (b ∷ s) h =
      let e : n - length s ≡ suc n - suc (length s) = omega arith in
      ap (λ t. b ∷ t) (fill-append n s (omega (arith, h)) ∙ ap (λ m. s ++ fill m []) e)

  c_str-append : (s r : Bytes) → HasNoNul s → c_str (s ++ 0 ∷ r) ≡ s
  unfolding c_str
  c_str-append [] r h = refl
  c_str-append (c ∷ s) r h = rw (h.0, c_str-append s r h.1) refl

  -- A text shorter than the buffer has a NUL behind it there.
  buffer-append : (s : Bytes) → length s < 1024 → (r : Bytes) × (buffer s ≡ s ++ 0 ∷ r)
  unfolding buffer
  buffer-append s h = (
    fill (1023 - length s) [],
    fill-append 1024 s (omega (arith, h))
        ∙ (let e : 1024 - length s ≡ suc (1023 - length s) = omega (arith, h) in
            ap (λ m. s ++ fill m []) e),
  )

  pub parse-buffer :
      (j : Json) → J.IsObject j → length (dump j) < 1024 → parse (buffer (dump j)) ≡ some j
  parse-buffer j o h = let (r, e) = buffer-append (dump j) h in ap parse e ∙ J.parse-dump_nul j r o

  pub c_str-buffer :
      (j : Json) → J.IsObject j → length (dump j) < 1024 → c_str (buffer (dump j)) ≡ dump j
  c_str-buffer j o h =
      let (r, e) = buffer-append (dump j) h in
      ap c_str e ∙ c_str-append (dump j) r (J.dump-HasNoNul j o)

  pub put_list-IsObject :
      (j : Json) (k : String) (ss : List Bytes) → J.IsObject j → J.IsObject (put_list j k ss)
  put_list-IsObject j k [] o = o
  put_list-IsObject j k (s ∷ ss) o = J.put-IsObject j k _ o

  pub get-put_list :
      (j : Json) (k l : String) (ss : List Bytes)
      → J.IsObject j
      → str_eq k l ≡ false
      → get (put_list j k ss) l ≡ get j l
  get-put_list j k l [] o e = refl
  get-put_list j k l (s ∷ ss) o e = J.get-put j k l _ o ∙ rw e refl

  pub contains-put_list :
      (j : Json) (k l : String) (ss : List Bytes)
      → J.IsObject j
      → str_eq k l ≡ false
      → contains (put_list j k ss) l ≡ contains j l
  contains-put_list j k l [] o e = refl
  contains-put_list j k l (s ∷ ss) o e = J.contains-put j k l _ o ∙ rw e refl

  pub Lists-here :
      (j : Json) (k : String) (ss : List Bytes)
      → J.IsObject j
      → str_eq k k ≡ true
      → contains j k ≡ false
      → Lists (put_list j k ss) k ss
  Lists-here j k [] o e h = h
  Lists-here j k (s ∷ ss) o e h =
      (J.contains-put j k k _ o ∙ rw e refl, J.get-put j k k _ o ∙ rw e refl)

  pub Lists-behind :
      (j : Json) (k l : String) (ss ts : List Bytes)
      → J.IsObject j
      → str_eq k l ≡ false
      → Lists j l ts
      → Lists (put_list j k ss) l ts
  Lists-behind j k l ss [] o e h = contains-put_list j k l ss o e ∙ h
  Lists-behind j k l ss (t ∷ ts) o e (c, g) =
      (contains-put_list j k l ss o e ∙ c, get-put_list j k l ss o e ∙ g)

  pub for_list-Lists :
      (j : Json) (k : String) (ss : List Bytes) (body : Bytes → Action Client (Unit {0}))
      (c : Client)
      → Lists j k ss
      → for_list j k body c ≡ for_each ss body c
  unfolding for_list for_each
  for_list-Lists j k [] body c h = rw h refl
  for_list-Lists j k (s ∷ ss) body c (h, g) = rw (h, get_strs_lem j k (s ∷ ss) g) refl

module _ {S : Type 0} {A : Type 0} where
  -- The states of a loop whose body never fails.
  abbrev pub steps : (A → S → S) → List A → S → S
  steps step [] s = s
  steps step (x ∷ xs) s = steps step xs (step x s)

  pub for_each-map :
      {B : Type 0} (f : A → B) (body : B → Action S (Unit {0})) (step : A → S → S) (P : A → Type 0)
      → ((x : A) (s : S) → P x → body (f x) s ≡ (done tt, step x s))
      → (xs : List A) (s : S) → All P xs
      → for_each (map f xs) body s ≡ (done tt, steps step xs s)
  unfolding for_each
  for_each-map f body step P one [] s h = refl
  for_each-map f body step P one (x ∷ xs) s h =
      rw (one x s h.0) (for_each-map f body step P one xs (step x s) h.1)
