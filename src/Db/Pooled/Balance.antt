-- ===== src/Db/Pooled/Balance.antt =====
-- Over the pool, what is taken for a call of the model classes goes back.
use mathlib.Core.Bool.{false≢true}
use chat_server_c.Db.Pooled.{give_last, pooled, is_given, Shared}
use chat_server_c.Db.Calls.Brackets.{Brackets}
use chat_server_c.Db.Pool.Lending.{give_back-IsLent, get_connection-IsLent, IsLent, Background}
use chat_server_c.Db.Pool.{get_connection, Pool, Config}
use chat_server_c.Db.Backend.{Backend}
use chat_server_c.Db.Pool.Lending.{Background-IsLent}
use chat_server_c.Base.{subst, inr, ap, ◌∙◌, ◌⊎◌, sym, ◌≡◌, inl, ℕ, [], ◌∷◌, true, false}

module _ (B : Backend) (cfg : Config) (others : B.State → Pool → Pool) (now : B.State → ℕ)
    (background : (st : B.State) (p : Pool) → Background cfg p (others st p)) where
  abbrev State : Type 0
  State = Shared B others now

  -- No connection is lent, and the pool is sound.
  abbrev pub AllBack : State → Type 0
  AllBack st = IsLent cfg [] st.pool

  abbrev pub OneLent : State → Type 0
  OneLent st = (c : ℕ) × IsLent cfg (c ∷ []) st.pool

  -- What `getConnection` leaves, by whether it gives a connection.
  taken_or_missed :
      (p : Pool)
      → IsLent cfg [] p
      → ((is_given (get_connection p).0 ≡ false) × IsLent cfg [] (get_connection p).1)
        ⊎ ((is_given (get_connection p).0 ≡ true)
            × ((c : ℕ) × IsLent cfg (c ∷ []) (get_connection p).1))
  taken_or_missed p h = elim (get_connection-IsLent cfg [] p h) [
    | inl (e, l) ↦ inl (ap is_given e, l)
    | inr (c, e, l) ↦ inr (ap is_given e, (c, l))
  ]

  behind_wait : (st : State) → AllBack st → IsLent cfg [] (others st.server st.pool)
  behind_wait st h =
      Background-IsLent cfg [] st.pool (others st.server st.pool) (background st.server st.pool) h

  pub pooled-Brackets : Brackets (pooled B others now) AllBack OneLent
  pooled-Brackets = record {
    taken = λ st got h. elim (taken_or_missed (others st.server st.pool) (behind_wait st h)) [
      | inl (e, l) ↦ absurd (false≢true (sym e ∙ got))
      | inr (e, l) ↦ l
    ];
    missed = λ st nothing h. elim (taken_or_missed (others st.server st.pool) (behind_wait st h)) [
      | inl (e, l) ↦ l
      | inr (e, l) ↦ absurd (false≢true (sym nothing ∙ e))
    ];
    given = λ st (c, h).
        subst (IsLent cfg []) (sym (ap (λ cs. give_last (now st.server) cs st.pool) h.1))
          (give_back-IsLent cfg c (now st.server) st.pool h);
    asked = λ text st h. h;
  }
