-- ===== src/Db/Pool/Lending.antt =====
-- The connections that the callers hold, through the rounds of the pool's threads, `getConnection` and
-- the deleter.
use chat_server_c.Base.Int.{to_ℕ, pos, int_lt}
use chat_server_c.Db.Pool.Steps.{
  started, Reachable-IsSound, taken, value_or, scanned, returned, produced, Step-IsSound, IsSound,
}
use chat_server_c.Base.Outcome.{fault, done, Outcome}
use chat_server_c.Db.Pool.{
  empty_pool, add_connection, start, fill, release_idle, without, take_front, scanned_pool,
  produce_into, scan_connections, Pool, Idle, produce_connection, produced_pool, behind_round,
  give_back, get_connection, Config,
}
use chat_server_c.Base.{
  zero, suc, suc, inr, sym, inl, ◌∙◌, arith, ap, ◌⊎◌, Bool-cases, ◌≡◌, ℕ, List, refl, [], ◌∷◌, none,
  some,
}

-- What the pool's own threads do while nobody holds its mutex.
pub data Background (cfg : Config) : Pool → Pool → Type 0 where
  nothing : (p : Pool) → Background cfg p p
  produces :
      (now : ℕ) (p q : Pool) → Background cfg (produced_pool cfg now p) q → Background cfg p q
  scans :
      (now : ℕ) (p p' q : Pool)
      → scan_connections cfg now p ≡ done p'
      → Background cfg p' q
      → Background cfg p q

-- The pool is sound, and the callers hold these connections.
abbrev pub IsLent : Config → List ℕ → Pool → Type 0
IsLent cfg cs p = IsSound cfg p × (p.lent ≡ cs)

lent-produce_into :
    (l : List Idle) (cfg : Config) (now : ℕ) (p : Pool)
    → (behind_round p (produce_into l cfg now p)).lent ≡ p.lent
lent-produce_into (c ∷ l) cfg now p = refl
lent-produce_into [] cfg now p = elim (Bool-cases (int_lt (pos p.count) cfg.max_size)) [
  | inl room ↦ rw room refl
  | inr full ↦ rw full refl
]

lent-scanned_pool :
    (p p' : Pool) (r : Outcome (List Idle × ℕ)) → scanned_pool p r ≡ done p' → p'.lent ≡ p.lent
lent-scanned_pool p p' (done (l, n)) e = ap (λ q. q.lent) (sym (ap (value_or p) e))
lent-scanned_pool p p' (fault f) e = cc

pub Background-IsLent :
    (cfg : Config) (cs : List ℕ) (p q : Pool)
    → Background cfg p q
    → IsLent cfg cs p
    → IsLent cfg cs q
unfolding produce_connection scan_connections
Background-IsLent cfg cs p q (nothing _) h = h
Background-IsLent cfg cs p q (produces now _ _ b) (s, e) =
    Background-IsLent cfg cs (produced_pool cfg now p) q b (
      Step-IsSound cfg p (produced_pool cfg now p) s (produced now p),
      lent-produce_into p.queue cfg now p ∙ e,
    )
Background-IsLent cfg cs p q (scans now _ p' _ found b) (s, e) = Background-IsLent cfg cs p' q b (
  Step-IsSound cfg p p' s (scanned now p p' found),
  lent-scanned_pool p p' (release_idle cfg now p.queue p.count) found ∙ e,
)

-- `getConnection` finds no connection and changes nothing, or lends one more.
pub get_connection-IsLent :
    (cfg : Config) (cs : List ℕ) (p : Pool)
    → IsLent cfg cs p
    → (((get_connection p).0 ≡ none) × IsLent cfg cs (get_connection p).1)
      ⊎ ((c : ℕ) × ((get_connection p).0 ≡ some c) × IsLent cfg (c ∷ cs) (get_connection p).1)
unfolding get_connection
get_connection-IsLent cfg cs p (s, e) = front p.queue refl
  where
    front :
        (l : List Idle)
        → p.queue ≡ l
        → (((take_front p.queue p).0 ≡ none) × IsLent cfg cs (take_front p.queue p).1)
          ⊎ ((c : ℕ) × ((take_front p.queue p).0 ≡ some c)
              × IsLent cfg (c ∷ cs) (take_front p.queue p).1)
    front [] q = inl (
      ap (λ l. (take_front l p).0) q,
      (
        Step-IsSound cfg p (get_connection p).1 s (taken p),
        ap (λ l. (take_front l p).1.lent) q ∙ e,
      ),
    )
    front (i ∷ l) q = inr (
      i.conn,
      ap (λ l. (take_front l p).0) q,
      (
        Step-IsSound cfg p (get_connection p).1 s (taken p),
        ap (λ l. (take_front l p).1.lent) q ∙ ap (λ ds. i.conn ∷ ds) e,
      ),
    )

-- The only connection that is lent goes back.
pub give_back-IsLent :
    (cfg : Config) (c now : ℕ) (p : Pool)
    → IsLent cfg (c ∷ []) p
    → IsLent cfg [] (give_back c now p)
unfolding give_back
give_back-IsLent cfg c now p (s, e) = (
  Step-IsSound cfg p (give_back c now p) s (returned c now p (rw e (ground arith))),
  ap (without c) e ∙ ground arith,
)

lent-fill : (n now : ℕ) (p : Pool) → (fill n now p).lent ≡ p.lent
lent-fill zero now p = refl
lent-fill (suc n) now p = lent-fill n now (add_connection now p)

-- The constructor lends nothing.
pub start-IsLent : (cfg : Config) (now : ℕ) → IsLent cfg [] (start (some cfg) now)
unfolding start
start-IsLent cfg now = (
  Reachable-IsSound cfg (start (some cfg) now) (started now),
  lent-fill (to_ℕ cfg.init_size) now empty_pool,
)
