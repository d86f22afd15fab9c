-- ===== src/Service/Mailbox/Apart.antt =====
-- Connections that belong to one user each: what `clientCloseException` finds in `_userConnMap`.
use chat_server_c.Base.{
  All, Bool-cases, Option-cases, ap, ==_iff, inl, inr, refl, some, subst, sym, [], ◌==◌, ◌≡◌, ◌∙◌,
  ◌∷◌,
}
use mathlib.Core.Bool.{false≢true}
use chat_server_c.Base.Int.{ℤ, int_eq, int_eq_iff, int_eq_refl}
use chat_server_c.Base.Assoc.{Assoc, erase, find, find-insert, insert}
use chat_server_c.Base.Assoc.Keys.{IsUnique, erase-IsUnique, insert-IsUnique}
use chat_server_c.Service.Session.{user_of_conn}
use chat_server_c.Service.World.{Conn}

module _ (owner : Conn → ℤ) where
  -- Every entry is the owner's of its connection, and no id has two.
  abbrev pub IsApart : Assoc Conn → Type 0
  IsApart m = All (λ e. owner e.1 ≡ e.0) m × IsUnique m

  pub find-owner :
      (id : ℤ) (c : Conn) (m : Assoc Conn)
      → All (λ e. owner e.1 ≡ e.0) m
      → find id m ≡ some c
      → owner c ≡ id
  unfolding find
  find-owner id c [] h e = cc e
  find-owner id c ((k, d) ∷ m) h e = elim (Bool-cases (int_eq k id)) [
    | inl same ↦
        let here : some d ≡ some c = sym (rw same refl) ∙ e in
        subst (λ x. owner x ≡ id) (cc here) (h.0 ∙ (int_eq_iff k id).0 same)
    | inr other ↦ find-owner id c m h.1 (sym (rw other refl) ∙ e)
  ]

  erase-All :
      (id : ℤ) (m : Assoc Conn)
      → All (λ e. owner e.1 ≡ e.0) m
      → All (λ e. owner e.1 ≡ e.0) (erase id m)
  unfolding erase
  erase-All id [] h = tt
  erase-All id ((k, d) ∷ m) h = elim (Bool-cases (int_eq k id)) [
    | inl same ↦ rw same (erase-All id m h.1)
    | inr other ↦ rw other (h.0, erase-All id m h.1)
  ]

  pub erase-IsApart : (id : ℤ) (m : Assoc Conn) → IsApart m → IsApart (erase id m)
  erase-IsApart id m h = (erase-All id m h.0, erase-IsUnique id m h.1)

  pub insert-IsApart :
      (id : ℤ) (c : Conn) (m : Assoc Conn)
      → ((d : Conn) → find id (insert id c m) ≡ some d → owner d ≡ id)
      → IsApart m
      → IsApart (insert id c m)
  unfolding insert find
  insert-IsApart id c m ours h = (new_entry ours, insert-IsUnique id c m h.1)
    where
      new_entry :
          ((d : Conn) → find id (insert id c m) ≡ some d → owner d ≡ id)
          → All (λ e. owner e.1 ≡ e.0) (insert id c m)
      new_entry k = elim (Option-cases (find id m)) [
        | inl free ↦ rw free (k c (find-insert id id c m ∙ rw (free, int_eq_refl id) refl), h.0)
        | inr (d, taken) ↦ rw taken h.0
      ]

  -- Whose connection it is, is found.
  pub user_of_conn_found :
      (id : ℤ) (c : Conn) (m : Assoc Conn)
      → All (λ e. owner e.1 ≡ e.0) m
      → find id m ≡ some c
      → user_of_conn c m ≡ some id
  unfolding find user_of_conn
  user_of_conn_found id c [] h e = cc e
  user_of_conn_found id c ((k, d) ∷ m) h e = elim (Bool-cases (d == c)) [
    | inl same ↦
        let own : owner d ≡ owner c = ap owner ((==_iff d c).0 same) in
        rw same (ap some (sym h.0 ∙ own ∙ find-owner id c ((k, d) ∷ m) h e))
    | inr other ↦ elim (Bool-cases (int_eq k id)) [
      | inl hit ↦
          let found : some d ≡ some c = sym (rw hit refl) ∙ e in
          absurd (false≢true (sym other ∙ (==_iff d c).1 (cc found)))
      | inr miss ↦ rw other (user_of_conn_found id c m h.1 (sym (rw miss refl) ∙ e))
    ]
  ]

  -- And nobody else.
  pub user_of_conn_owner :
      (id : ℤ) (c : Conn) (m : Assoc Conn)
      → IsApart m
      → user_of_conn c m ≡ some id
      → (owner c ≡ id) × (find id m ≡ some c)
  unfolding find user_of_conn
  user_of_conn_owner id c [] h e = cc e
  user_of_conn_owner id c ((k, d) ∷ m) (own, (fresh, unique)) e = elim (Bool-cases (d == c)) [
    | inl same ↦
        let hit : some k ≡ some id = sym (rw same refl) ∙ e in
        let key : k ≡ id = cc hit in
        let conn : d ≡ c = (==_iff d c).0 same in
        (ap owner (sym conn) ∙ own.0 ∙ key, rw ((int_eq_iff k id).1 key, conn) refl)
    | inr other ↦
        let (own_rest, found) =
          user_of_conn_owner id c m (own.1, unique) (sym (rw other refl) ∙ e) in
        (own_rest, behind found)
  ]
    where
      behind : find id m ≡ some c → find id ((k, d) ∷ m) ≡ some c
      behind found = elim (Bool-cases (int_eq k id)) [
        | inl hit ↦ cc (fresh, (int_eq_iff k id).0 hit, found)
        | inr miss ↦ rw miss found
      ]
