-- ===== src/Db/Calls/Brackets.antt =====
-- A predicate on the backend's state that holds between the calls of the model classes: each of them
-- takes one connection at most, and gives it back.
use chat_server_c.Db.Statement.{sql_size}
use chat_server_c.Db.Tables.{Row}
use chat_server_c.Base.Bytes.{Bytes}
use chat_server_c.Base.Outcome.{fault, done, next, Outcome, ◌>>=◌, Action}
use chat_server_c.Db.Calls.{
  release_after, with_connection, update, send_update, run_update, read_rows, query_rows, query,
  sprintf,
}
use chat_server_c.Db.Backend.{Backend}
use chat_server_c.Base.{
  length, inr, ltb, inl, List, Bool-cases, ◌≡◌, ℕ, Option, [], none, some, true, false,
}

-- `Out` holds while no connection is taken, `Inside` while one is.
pub record Brackets (B : Backend) (Out Inside : B.State → Type 0) : Type 0 where
  pub taken : (st : B.State) → (B.acquire st).0 ≡ true → Out st → Inside (B.acquire st).1
  pub missed : (st : B.State) → (B.acquire st).0 ≡ false → Out st → Out (B.acquire st).1
  pub given : (st : B.State) → Inside st → Out (B.release st)
  pub asked : (text : Bytes) (st : B.State) → Inside st → Inside (B.mysql_query text st).1

module _ {S : Type 0} (Q : S → Type 0) where
  -- The call keeps the predicate, however it ends.
  abbrev pub Holds : {A : Type 0} → Action S A → Type 0
  Holds m = (st : S) → Q st → Q (m st).1

  pub bind-Holds :
      {A C : Type 0} (m : Action S A) (f : A → Action S C)
      → Holds m
      → ((a : A) → Holds (f a))
      → Holds (m >>= f)
  bind-Holds {A = A} {C = C} m f h k st q = go (m st) (h st q)
    where
      go : (r : Outcome A × S) → Q r.1 → Q (next f r).1
      go (done a, st') p = k a st' p
      go (fault e, st') p = p

  pub sprintf-Holds : (size : ℕ) (text : Bytes) → Holds (sprintf size text)
  unfolding sprintf
  sprintf-Holds size text st q = elim (Bool-cases (ltb (length text) size)) [
    | inl fits ↦ rw fits q
    | inr long ↦ rw long q
  ]

module _ ⦃B : Backend⦄ (Out Inside : B.State → Type 0) (brackets : Brackets B Out Inside) where
  open B use {State, acquire, release}

  pub update-Holds : (sql : Bytes) → Holds Inside (update sql)
  unfolding update
  update-Holds sql st q = brackets.asked sql st q

  pub query-Holds : (sql : Bytes) → Holds Inside (query sql)
  unfolding query
  query-Holds sql st q = brackets.asked sql st q

  pub read_rows-Holds :
      {A : Type 0} (f : Row → A) (res : Option (List Row)) → Holds Inside (read_rows f res)
  unfolding read_rows
  read_rows-Holds f none st q = q
  read_rows-Holds f (some rows) st q = q

  pub with_connection-Holds :
      {A : Type 0} (otherwise : A) (body : Action State A)
      → Holds Inside body
      → Holds Out (with_connection otherwise body)
  unfolding with_connection release_after
  with_connection-Holds otherwise body h st q = elim (Bool-cases (acquire st).0) [
    | inl got ↦
        rw got (brackets.given (body (acquire st).1).1 (h (acquire st).1 (brackets.taken st got q)))
    | inr nothing ↦ rw nothing (brackets.missed st nothing q)
  ]

  pub run_update-Holds : (text : Bytes) → Holds Out (run_update text)
  unfolding run_update
  run_update-Holds text =
      bind-Holds Out (sprintf sql_size text) _ (sprintf-Holds Out sql_size text)
        (λ sql. with_connection-Holds false (update sql) (update-Holds sql))

  pub send_update-Holds : (text : Bytes) → Holds Out (send_update text)
  unfolding send_update
  send_update-Holds text =
      bind-Holds Out (run_update text) _ (run_update-Holds text) (λ success st q. q)

  pub query_rows-Holds : {A : Type 0} (f : Row → A) (text : Bytes) → Holds Out (query_rows f text)
  unfolding query_rows
  query_rows-Holds f text =
      bind-Holds Out (sprintf sql_size text) _ (sprintf-Holds Out sql_size text) (λ sql.
        with_connection-Holds [] _
          (bind-Holds Inside (query sql) _ (query-Holds sql) (λ res. read_rows-Holds f res)))
