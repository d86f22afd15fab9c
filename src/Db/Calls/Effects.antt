-- ===== src/Db/Calls/Effects.antt =====
-- What an update or a query of a clean statement does to the tables, whether or not it succeeds.
use mathlib.Core.List.Perm
use chat_server_c.Base.{
  ℕ, ◌≡◌, ◌≢◌, refl, sym, ap, ◌∙◌, List, Option, none, some, Perm, Bool, true, false, not, arith,
  map, [], ◌⊎◌, inl, inr, Bool-cases, subst,
}
use chat_server_c.Base.Bytes.{Bytes}
use chat_server_c.Base.Outcome.{
  Outcome, Fault, done, fault, Action, Ends, Returns, next-Ends, next-Returns, ◌>>=◌,
}
use mathlib.Core.Bool.{false≢true}
use chat_server_c.Db.Backend.{Backend, IsHealthy}
use chat_server_c.Db.Statement.{Statement, render, IsClean, Fits, sql_size}
use chat_server_c.Db.Tables.{Tables, Row, apply, select, is_query, new_key}
use chat_server_c.Db.Calls.{
  sprintf, update, query, release_after, with_connection, run_update, send_update, read_rows,
  query_rows,
}

pub sprintf-Fits :
    {S : Type 0} (s : Statement) (st : S)
    → Fits s
    → sprintf sql_size (render s) st ≡ (done (render s), st)
unfolding sprintf
sprintf-Fits s st h = ground arith

-- A query changes no table.
apply-query : (s : Statement) (t : Tables) → is_query s ≡ true → apply s t ≡ t
apply-query (Statement.select_user id) t h = refl
apply-query _ t h = ground arith

module _ ⦃B : Backend⦄ where
  open B use {State, tables, acquire, release, mysql_query}

  -- The statement took effect exactly if the call says so, and it does on a healthy backend.
  pub record Written (s : Statement) (t : Tables) (success : Bool) (t' : Tables) : Type 0 where
    pub applied : success ≡ true → t' ≡ apply s t
    pub kept : success ≡ false → t' ≡ t
    pub healthy : IsHealthy B → success ≡ true

  -- The answer holds the rows that the tables say, in some order, and is there on a healthy backend.
  pub record Answers (s : Statement) (t : Tables) (answer : Option (List Row)) (t' : Tables)
      : Type 0 where
    pub rows : (rs : List Row) → answer ≡ some rs → Perm rs (select s t)
    pub same : t' ≡ t
    pub healthy : IsHealthy B → answer ≢ none

  pub update-Written :
      (s : Statement) (t : Tables) (st : State)
      → IsClean s
      → tables st ≡ t
      → Returns (λ success st'. Written s t success (tables st')) (update (render s) st)
  unfolding update
  update-Written s t st clean e = elim (Bool-cases (mysql_query (render s) st).0) [
    | inl failed ↦ record {
      applied = λ h. cc;
      kept = λ h. B.query_fails s st clean failed ∙ e;
      healthy = λ h. cc (h.accepts s st clean);
    }
    | inr fine ↦ record {
      applied = λ h. B.query_succeeds s st clean fine ∙ ap (apply s) e;
      kept = λ h. cc;
      healthy = λ h. rw fine;
    }
  ]

  -- The branches of `with_connection`: no connection, or the body over the same tables.
  pub with_connection-Ends :
      {A : Type 0} (F : Fault → Tables → Type 0) (P : A → Tables → Type 0) (otherwise : A)
      (body : Action State A) (t : Tables) (st : State)
      → tables st ≡ t
      → (¬ IsHealthy B → P otherwise t)
      → ((st' : State)
          → tables st' ≡ t
          → Ends (λ a s. P a (tables s)) (λ f s. F f (tables s)) (body st'))
      → Ends (λ a s. P a (tables s)) (λ f s. F f (tables s)) (with_connection otherwise body st)
  unfolding with_connection
  with_connection-Ends {A} F P otherwise body t st e missing found =
      elim (Bool-cases (acquire st).0) [
        | inl got ↦
            rw (got, with_connection)
              (release_after_lem (body (acquire st).1) (found _ (B.tables-acquire st ∙ e)))
        | inr timeout ↦
            rw (timeout, with_connection)
              (subst (P otherwise) (sym (B.tables-acquire st ∙ e))
                (missing (λ h. false≢true (sym timeout ∙ h.connects st))))
      ]
    where
      release_after_lem :
          (r : Outcome A × State)
          → Ends (λ a s. P a (tables s)) (λ f s. F f (tables s)) r
          → Ends (λ a s. P a (tables s)) (λ f s. F f (tables s)) (release_after r)
      release_after_lem (done a, s) h = subst (P a) (sym (B.tables-release s)) h
      release_after_lem (fault f, s) h = subst (F f) (sym (B.tables-release s)) h

  -- The text goes into its buffer, and then what follows.
  pub sprintf-Ends :
      {A : Type 0} (F : Fault → State → Type 0) (Q : A → State → Type 0)
      (k : Bytes → Action State A) (s : Statement) (st : State)
      → Fits s
      → Ends Q F (k (render s) st)
      → Ends Q F ((sprintf sql_size (render s) >>= k) st)
  sprintf-Ends F Q k s st fits h = rw (sprintf-Fits s st fits) h

  -- A call that did nothing, on a backend that is not healthy.
  pub not-Written : (s : Statement) (t : Tables) → ¬ IsHealthy B → Written s t false t
  not-Written s t sick = record {
    applied = λ h. cc;
    kept = λ _. refl;
    healthy = λ h. absurd (sick h);
  }

  pub run_update-Written :
      (s : Statement) (t : Tables) (st : State)
      → IsClean s
      → Fits s
      → tables st ≡ t
      → Returns (λ success st'. Written s t success (tables st')) (run_update (render s) st)
  unfolding run_update
  run_update-Written s t st clean fits e = sprintf-Ends _ _ _ s st fits (
      with_connection-Ends (λ _ _. ⊥) (Written s t) false (update (render s)) t st e
        (not-Written s t) (λ st' e'. update-Written s t st' clean e'))

  pub query-Answers :
      (s : Statement) (t : Tables) (st : State)
      → IsClean s
      → is_query s ≡ true
      → tables st ≡ t
      → Returns (λ answer st'. Answers s t answer (tables st')) (query (render s) st)
  unfolding query
  query-Answers s t st clean reads e = elim (Bool-cases (mysql_query (render s) st).0) [
    | inl failed ↦ record {
      rows = λ rs h. ground (arith, failed, h);
      same = B.query_fails s st clean failed ∙ e;
      healthy = λ h. absurd (false≢true (sym (h.accepts s st clean) ∙ failed));
    }
    | inr fine ↦ record {
      rows =
          λ rs h. subst (λ u. Perm rs (select s u)) e (B.result_rows s st rs clean (rw fine at h));
      same = B.query_succeeds s st clean fine ∙ ap (apply s) e ∙ apply-query s t reads;
      healthy = λ h. rw fine (h.answers s st clean reads);
    }
  ]

  -- The key of a new row can be asked for behind the insertion that made it.
  pub update-Written_key :
      (s : Statement) (t : Tables) (n : ℕ) (st : State)
      → IsClean s
      → new_key s t ≡ some n
      → tables st ≡ t
      → Returns
          (λ success st'.
            Written s t success (tables st') × (success ≡ true → B.mysql_insert_id st' ≡ n))
          (update (render s) st)
  unfolding update
  update-Written_key s t n st clean key e = (update-Written s t st clean e, known)
    where
      known :
          not (mysql_query (render s) st).0 ≡ true
          → B.mysql_insert_id (mysql_query (render s) st).1 ≡ n
      known h = B.insert_id_new s st n clean (ground (arith, h)) (ap (new_key s) e ∙ key)

  -- What is left of an update whose success nobody asks.
  abbrev pub Sent : Statement → Tables → Tables → Type 0
  Sent s t t' = (success : Bool) × Written s t success t'

  pub send_update-Sent :
      (s : Statement) (t : Tables) (st : State)
      → IsClean s
      → Fits s
      → tables st ≡ t
      → Returns (λ _ st'. Sent s t (tables st')) (send_update (render s) st)
  unfolding send_update
  send_update-Sent s t st clean fits e =
      next-Returns (λ _ _. ⊥) _ _ (run_update (render s) st)
        (run_update-Written s t st clean fits e) (λ success st' w. (success, w))

  -- On a healthy backend an update takes effect.
  pub Sent-apply : (s : Statement) (t t' : Tables) → IsHealthy B → Sent s t t' → t' ≡ apply s t
  Sent-apply s t t' healthy (success, w) = w.applied (w.healthy healthy)

  -- A query whose rows become a list: the tables' rows in some order, or without an answer nothing.
  abbrev pub Rows : {A : Type 0} → (Row → A) → Statement → Tables → List A → Type 0
  Rows f s t xs = Perm xs (map f (select s t)) ⊎ ((xs ≡ []) × ¬ IsHealthy B)

  pub read_rows-Rows :
      {A : Type 0} (f : Row → A) (s : Statement) (t : Tables) (a : Option (List Row)) (st : State)
      → Answers s t a (tables st)
      → Returns (λ xs st'. Rows f s t xs × (tables st' ≡ t)) (read_rows f a st)
  unfolding read_rows
  read_rows-Rows f s t none st ans = (inr (refl, λ h. ans.healthy h refl), ans.same)
  read_rows-Rows f s t (some rows) st ans = (inl (Perm.map f (ans.rows rows refl)), ans.same)

  pub query_rows-Rows :
      {A : Type 0} (f : Row → A) (s : Statement) (t : Tables) (st : State)
      → IsClean s
      → is_query s ≡ true
      → Fits s
      → tables st ≡ t
      → Returns (λ xs st'. Rows f s t xs × (tables st' ≡ t)) (query_rows f (render s) st)
  unfolding query_rows
  query_rows-Rows f s t st clean reads fits e = sprintf-Ends _ _ _ s st fits (
      with_connection-Ends (λ _ _. ⊥) (λ xs t'. Rows f s t xs × (t' ≡ t)) [] _ t st e
        (λ sick. (inr (refl, sick), refl))
        (λ st' e'.
          next-Ends _ _ (read_rows f) (query (render s) st') (query-Answers s t st' clean reads e')
            (λ a s' ans. read_rows-Rows f s t a s' ans)))
