-- ===== src/Db/Server/Sample.antt =====
-- The backend of the tests: a pool that always or never has a connection, and the server that reads
-- the statements.
use mathlib.Core.List.Perm
use chat_server_c.Base.{
  ℕ, ◌≡◌, ◌≢◌, refl, sym, ap, ◌∙◌, Bool, true, false, Option, none, some, List, Perm, subst,
}
use chat_server_c.Base.Bytes.{Bytes}
use chat_server_c.Db.Statement.{Statement, render, IsClean}
use chat_server_c.Db.Tables.{Tables, Row, apply, select, is_query, new_key}
use chat_server_c.Db.Backend.{Backend, IsHealthy}
use chat_server_c.Db.Server.{parse}
use chat_server_c.Db.Server.Reading.{parse-render}

pub record Server : Type 0 where
  pub tables : Tables
  pub answer : Option (List Row)
  pub key : ℕ

abbrev pub answer_of : Bool → Statement → Tables → Option (List Row)
answer_of true s t = some (select s t)
answer_of false s t = none

abbrev pub key_or : Option ℕ → ℕ → ℕ
key_or none k = k
key_or (some n) k = n

abbrev pub run : Option Statement → Server → Bool × Server
run none st = (true, st)
run (some s) st = (
  false,
  record {
    tables = apply s st.tables;
    answer = answer_of (is_query s) s st.tables;
    key = key_or (new_key s st.tables) st.key;
  },
)

abbrev pub serve : Bytes → Server → Bool × Server
serve text st = run (parse text) st

pub serve-render : (s : Statement) (st : Server) → IsClean s → serve (render s) st ≡ run (some s) st
serve-render s st clean = ap (λ p. run p st) (parse-render s clean)

answer_of_perm :
    (b : Bool) (s : Statement) (t : Tables) (rows : List Row)
    → answer_of b s t ≡ some rows
    → Perm rows (select s t)
answer_of_perm true s t rows e = subst (λ r. Perm r (select s t)) (cc) (Perm.refl (select s t))
answer_of_perm false s t rows e = cc

pub serve_succeeds :
    (s : Statement) (st : Server)
    → IsClean s
    → (serve (render s) st).0 ≡ false
    → (serve (render s) st).1.tables ≡ apply s st.tables
serve_succeeds s st clean ok = ap (λ r. r.1.tables) (serve-render s st clean)

pub serve_fails :
    (s : Statement) (st : Server)
    → IsClean s
    → (serve (render s) st).0 ≡ true
    → (serve (render s) st).1.tables ≡ st.tables
serve_fails s st clean failed = cc (ap (λ r. r.0) (serve-render s st clean))

pub serve_rows :
    (s : Statement) (st : Server) (rows : List Row)
    → IsClean s
    → (serve (render s) st).1.answer ≡ some rows
    → Perm rows (select s st.tables)
serve_rows s st rows clean e =
    answer_of_perm (is_query s) s st.tables rows
      (sym (ap (λ r. r.1.answer) (serve-render s st clean)) ∙ e)

pub serve_key :
    (s : Statement) (st : Server) (n : ℕ)
    → IsClean s
    → (serve (render s) st).0 ≡ false
    → new_key s st.tables ≡ some n
    → (serve (render s) st).1.key ≡ n
serve_key s st n clean ok e =
    ap (λ r. r.1.key) (serve-render s st clean) ∙ ap (λ k. key_or k st.key) e

-- `up`: whether the pool has a connection.
abbrev pub sample_backend : Bool → Backend
sample_backend up = record {
  State = Server;
  tables = λ st. st.tables;
  acquire = λ st. (up, st);
  release = λ st. st;
  mysql_query = serve;
  mysql_use_result = λ st. st.answer;
  mysql_insert_id = λ st. st.key;
  tables-acquire = λ st. refl;
  tables-release = λ st. refl;
  query_succeeds = serve_succeeds;
  query_fails = serve_fails;
  result_rows = serve_rows;
  insert_id_new = serve_key;
}

instance abbrev pub running : Backend
running = sample_backend true

answer_of-ne-none : (b : Bool) (s : Statement) (t : Tables) → b ≡ true → answer_of b s t ≢ none
answer_of-ne-none true s t e h = cc
answer_of-ne-none false s t e h = cc

pub running-IsHealthy : IsHealthy running
running-IsHealthy = record {
  connects = λ st. refl;
  accepts = λ s st clean. ap (λ r. r.0) (serve-render s st clean);
  answers = λ s st clean reads h.
      answer_of-ne-none (is_query s) s st.tables reads
        (sym (ap (λ r. r.1.answer) (serve-render s st clean)) ∙ h);
}
