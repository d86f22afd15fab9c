-- ===== src/Db/Pool/Steps.antt =====
-- The pool's threads and its users, one step at a time, and what every step keeps.
use chat_server_c.Base.{zero}
use chat_server_c.Base.{
  some, true, All, inr, ap, subst, inl, Bool-cases, ◌⊎◌, ◌≡◌, refl, [], ◌∷◌, ◌++◌, if◌then◌else◌, ℕ,
  suc, ◌≤◌, ◌<◌, ◌+◌, ◌-◌, ◌==◌, List, arith, length, length-append,
}
use chat_server_c.Base.Int.{negsuc, ℤ, to_ℕ, int_lt, pos}
use chat_server_c.Base.Outcome.{empty_queue, Outcome, done, fault}
use chat_server_c.Db.Pool.{
  take_front, start, scanned_pool, fill, empty_pool, Pool, Idle, Config, produce_connection,
  produced_pool, behind_round, produce_into, scan_connections, release_idle, get_connection,
  give_back, without, add_connection, milliseconds,
}

-- How often a connection stands in a list.
abbrev pub times : ℕ → List ℕ → ℕ
times c [] = 0
times c (d ∷ cs) = let rest = times c cs in if c == d then suc rest else rest

abbrev pub queued : ℕ → List Idle → ℕ
queued c [] = 0
queued c (i ∷ is) = let rest = queued c is in if c == i.conn then suc rest else rest

pub data Step (cfg : Config) : Pool → Pool → Type 0 where
  produced : (now : ℕ) (p : Pool) → Step cfg p (produced_pool cfg now p)
  scanned : (now : ℕ) (p p' : Pool) → scan_connections cfg now p ≡ done p' → Step cfg p p'
  taken : (p : Pool) → Step cfg p (get_connection p).1
  returned : (c now : ℕ) (p : Pool) → 0 < times c p.lent → Step cfg p (give_back c now p)

-- No more connections than this are made at a time.
abbrev pub limit : Config → ℕ
limit cfg = to_ℕ cfg.init_size + to_ℕ cfg.max_size

pub record IsSound (cfg : Config) (p : Pool) : Type 0 where
  pub counted : p.count ≡ length p.queue + length p.lent
  -- The count stays in the bound that it has been below.
  pub bounded : (p.count ≤ to_ℕ cfg.init_size) ⊎ (p.count ≤ to_ℕ cfg.max_size)
  -- No connection is idle and lent, or lent twice.
  pub single : (c : ℕ) → queued c p.queue + times c p.lent ≤ 1
  pub old : (c : ℕ) → p.made ≤ c → queued c p.queue + times c p.lent ≡ 0

queued-append : (c : ℕ) (xs ys : List Idle) → queued c (xs ++ ys) ≡ queued c xs + queued c ys
queued-append c [] ys = omega arith
queued-append c (x ∷ xs) ys = ground (arith, queued-append c xs ys)

times-without :
    (c d : ℕ) (cs : List ℕ)
    → 0 < times c cs
    → times d (without c cs) + (if d == c then 1 else 0) ≡ times d cs
times-without c d [] h = omega arith
times-without c d (e ∷ cs) h = ground (arith, times-without c d cs)

length-without : (c : ℕ) (cs : List ℕ) → 0 < times c cs → suc (length (without c cs)) ≡ length cs
length-without c [] h = omega arith
length-without c (e ∷ cs) h = ground (arith, length-without c cs)

add_connection-IsSound :
    (cfg : Config) (now : ℕ) (p : Pool)
    → IsSound cfg p
    → (suc p.count ≤ to_ℕ cfg.init_size) ⊎ (suc p.count ≤ to_ℕ cfg.max_size)
    → IsSound cfg (add_connection now p)
add_connection-IsSound cfg now p s room = record {
  counted =
      omega (arith, s.counted, length-append p.queue (record { conn = p.made; since = now } ∷ []));
  bounded = room;
  single = λ c.
      rw (queued-append c p.queue (record { conn = p.made; since = now } ∷ []))
        (ground (arith, s.single c, s.old c));
  old = λ c h.
      rw (queued-append c p.queue (record { conn = p.made; since = now } ∷ []))
        (ground (arith, s.old c));
}

abbrev pub value_or : {A : Type 0} → A → Outcome A → A
value_or a (done b) = b
value_or a (fault f) = a

done-IsSound :
    (cfg : Config) (p : Pool) (queue : List Idle) (count : ℕ) (rest : List Idle) (left : ℕ)
    → IsSound cfg (record p { queue = queue; count = count })
    → ◌≡◌ {A = Outcome (List Idle × ℕ)} (done (queue, count)) (done (rest, left))
    → IsSound cfg (record p { queue = rest; count = left })
done-IsSound cfg p queue count rest left s e =
    subst (λ r. IsSound cfg (record p { queue = r.0; count = r.1 }))
      (ap (value_or (queue, count)) e) s

front_gone :
    (cfg : Config) (c : Idle) (queue : List Idle) (count : ℕ) (p : Pool)
    → IsSound cfg (record p { queue = c ∷ queue; count = count })
    → IsSound cfg (record p { queue = queue; count = count - 1 })
front_gone cfg c queue count p s = record {
  counted = omega (arith, s.counted);
  bounded = below (s.bounded);
  single = λ d. ground (arith, s.single d);
  old = λ d h. ground (arith, s.old d h);
}
  where
    below :
        (count ≤ to_ℕ cfg.init_size) ⊎ (count ≤ to_ℕ cfg.max_size)
        → (count - 1 ≤ to_ℕ cfg.init_size) ⊎ (count - 1 ≤ to_ℕ cfg.max_size)
    below (inl h) = inl (omega (arith, h))
    below (inr h) = inr (omega (arith, h))

-- The queue shrinks at the front, by expired connections only.
release_idle-IsSound :
    (cfg : Config) (now : ℕ) (queue : List Idle) (count : ℕ) (p : Pool) (rest : List Idle)
    (left : ℕ)
    → IsSound cfg (record p { queue = queue; count = count })
    → release_idle cfg now queue count ≡ done (rest, left)
    → IsSound cfg (record p { queue = rest; count = left })
unfolding release_idle
release_idle-IsSound cfg now [] count p rest left s e =
    elim (Bool-cases (int_lt cfg.init_size (pos count))) [
      | inl more ↦ cc (rw more at e)
      | inr enough ↦ done-IsSound cfg p [] count rest left s (rw enough at e)
    ]
release_idle-IsSound cfg now (c ∷ queue) count p rest left s e =
    elim (Bool-cases (int_lt cfg.init_size (pos count))) [
      | inl more ↦
          elim (Bool-cases (int_lt (milliseconds cfg.max_idle_time) (pos (now - c.since)))) [
            | inl expired ↦
                release_idle-IsSound cfg now queue (count - 1) p rest left
                  (front_gone cfg c queue count p s) (rw (more, expired) at e)
            | inr fresh ↦ done-IsSound cfg p (c ∷ queue) count rest left s (rw (more, fresh) at e)
          ]
      | inr enough ↦ done-IsSound cfg p (c ∷ queue) count rest left s (rw enough at e)
    ]

lt_max : (n : ℕ) (z : ℤ) → int_lt (pos n) z ≡ true → suc n ≤ to_ℕ z
lt_max n (pos m) h = ground (arith, h)
lt_max n (negsuc m) h = cc

produce_into-IsSound :
    (cfg : Config) (now : ℕ) (queue : List Idle) (p : Pool)
    → IsSound cfg p
    → IsSound cfg (behind_round p (produce_into queue cfg now p))
produce_into-IsSound cfg now (c ∷ queue) p s = s
produce_into-IsSound cfg now [] p s = elim (Bool-cases (int_lt (pos p.count) cfg.max_size)) [
  | inl room ↦ rw room (add_connection-IsSound cfg now p s (inr (lt_max p.count cfg.max_size room)))
  | inr full ↦ rw full s
]

take_front-IsSound :
    (cfg : Config) (queue : List Idle) (p : Pool)
    → IsSound cfg (record p { queue = queue })
    → IsSound cfg (take_front queue (record p { queue = queue })).1
take_front-IsSound cfg [] p s = s
take_front-IsSound cfg (c ∷ queue) p s = record {
  counted = omega (arith, s.counted);
  bounded = s.bounded;
  single = λ d. ground (arith, s.single d);
  old = λ d h. ground (arith, s.old d h);
}

scanned_pool-IsSound :
    (cfg : Config) (now : ℕ) (p p' : Pool) (r : Outcome (List Idle × ℕ))
    → IsSound cfg p
    → release_idle cfg now p.queue p.count ≡ r
    → scanned_pool p r ≡ done p'
    → IsSound cfg p'
scanned_pool-IsSound cfg now p p' (done (queue, count)) s e found =
    subst (IsSound cfg) (ap (value_or p) found)
      (release_idle-IsSound cfg now p.queue p.count p queue count s e)
scanned_pool-IsSound cfg now p p' (fault f) s e found = cc

pub Step-IsSound : (cfg : Config) (p p' : Pool) → IsSound cfg p → Step cfg p p' → IsSound cfg p'
unfolding produce_connection scan_connections get_connection give_back
Step-IsSound cfg p p' s (produced now _) = produce_into-IsSound cfg now p.queue p s
Step-IsSound cfg p p' s (scanned now _ _ e) =
    scanned_pool-IsSound cfg now p _ (release_idle cfg now p.queue p.count) s refl e
Step-IsSound cfg p p' s (taken _) = take_front-IsSound cfg p.queue p s
Step-IsSound cfg p p' s (returned c now _ h) = record {
  counted = omega (
    arith,
    s.counted,
    length-append p.queue (record { conn = c; since = now } ∷ []),
    length-without c p.lent h,
  );
  bounded = s.bounded;
  single = λ d.
      rw (queued-append d p.queue (record { conn = c; since = now } ∷ []))
        (ground (arith, s.single d, times-without c d p.lent h));
  old = λ d k.
      rw (queued-append d p.queue (record { conn = c; since = now } ∷ []))
        (ground (arith, s.old d k, times-without c d p.lent h));
}

fill-IsSound :
    (cfg : Config) (n now : ℕ) (p : Pool)
    → IsSound cfg p
    → n + p.count ≤ to_ℕ cfg.init_size
    → IsSound cfg (fill n now p)
fill-IsSound cfg zero now p s h = s
fill-IsSound cfg (suc n) now p s h =
    fill-IsSound cfg n now (add_connection now p)
      (add_connection-IsSound cfg now p s (inl (omega (arith, h)))) (omega (arith, h))

empty-IsSound : (cfg : Config) → IsSound cfg empty_pool
empty-IsSound cfg = record {
  counted = refl;
  bounded = inl (omega arith);
  single = λ c. omega arith;
  old = λ c h. refl;
}

-- The pool in the course of the program.
pub data Reachable (cfg : Config) : Pool → Type 0 where
  started : (now : ℕ) → Reachable cfg (start (some cfg) now)
  then_by : (p p' : Pool) → Reachable cfg p → Step cfg p p' → Reachable cfg p'

-- In every state that the pool reaches from its constructor, by rounds of its two threads,
-- `getConnection` and the pointers' deleter: the count is that of the connections in the queue
-- and with the callers, it is at most the initial or at most the maximal size, and no connection
-- is in the queue and with a caller, or twice in either.
pub Reachable-IsSound : (cfg : Config) (p : Pool) → Reachable cfg p → IsSound cfg p
unfolding start
Reachable-IsSound cfg p (started now) =
    fill-IsSound cfg (to_ℕ cfg.init_size) now empty_pool (empty-IsSound cfg) (omega arith)
Reachable-IsSound cfg p (then_by q _ r step) = Step-IsSound cfg q p (Reachable-IsSound cfg q r) step

-- Every connection of the queue has been idle for too long.
abbrev pub AllExpired : Config → ℕ → List Idle → Type 0
AllExpired cfg now queue =
    All (λ c. int_lt (milliseconds cfg.max_idle_time) (pos (now - c.since)) ≡ true) queue

int_lt_le : (z : ℤ) (a b : ℕ) → a ≤ b → int_lt z (pos a) ≡ true → int_lt z (pos b) ≡ true
int_lt_le (pos n) a b h k = ground (arith, h, k)
int_lt_le (negsuc n) a b h k = refl

release_idle-empties :
    (cfg : Config) (now : ℕ) (queue : List Idle) (count k : ℕ)
    → AllExpired cfg now queue
    → count ≡ length queue + k
    → int_lt cfg.init_size (pos k) ≡ true
    → release_idle cfg now queue count ≡ fault empty_queue
unfolding release_idle
release_idle-empties cfg now [] count k old e more =
    rw (int_lt_le cfg.init_size k count (omega (arith, e)) more) refl
release_idle-empties cfg now (c ∷ queue) count k (h, old) e more =
    rw (int_lt_le cfg.init_size k count (omega (arith, e)) more, h)
      (release_idle-empties cfg now queue (count - 1) k old (omega (arith, e)) more)

-- If the pool is sound, all connections of its queue have been idle for too long, and the callers
-- hold more than the initial number, a scan takes the front of an empty queue.
pub scan_connections-empties :
    (cfg : Config) (now : ℕ) (p : Pool)
    → IsSound cfg p
    → AllExpired cfg now p.queue
    → int_lt cfg.init_size (pos (length p.lent)) ≡ true
    → scan_connections cfg now p ≡ fault empty_queue
unfolding scan_connections
scan_connections-empties cfg now p s old more =
    rw (release_idle-empties cfg now p.queue p.count (length p.lent) old s.counted more) refl
