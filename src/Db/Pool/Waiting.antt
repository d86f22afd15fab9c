-- ===== src/Db/Pool/Waiting.antt =====
-- dbpool.cc, the wait of `getConnection`. The condition variable and the clock decide when the
-- caller wakes; the model takes the wake-ups as a list, each with the pool as it is then.
use chat_server_c.Base.Int.{pos, int_lt}
use chat_server_c.Db.Pool.{
  produce_into, produce_connection, Round, sleeps, notifies_all, Config, Pool, Idle, get_connection,
}
use chat_server_c.Base.{
  false, append-nil, sym, ◌∙◌, ap, ◌++◌, map, All, ℕ, Option, List, [], ◌∷◌, ◌≡◌, refl, none, some,
}

-- Whether `cv.wait_for` returns before the time is over.
pub data Wake : Type 0 where
  notified timed_out : Wake

pub data Waiting : Type 0 where
  waits : Waiting
  returns_with : Option ℕ → Pool → Waiting

abbrev finished : Option ℕ × Pool → Waiting
finished (c, p) = returns_with c p

-- The `while` of `getConnection` from the test of the queue on, and what follows it.
pub get_waiting : List Idle → Pool → List (Wake × Pool) → Waiting
get_waiting (_ ∷ _) p wakes = finished (get_connection p)
get_waiting [] p [] = waits
get_waiting [] p ((notified, q) ∷ wakes) = get_waiting q.queue q wakes
get_waiting [] p ((timed_out, q) ∷ wakes) = at_timeout q.queue q (get_waiting q.queue q wakes)
  where
    -- `if (_connectionQueue.empty()) return nullptr;`
    at_timeout : List Idle → Pool → Waiting → Waiting
    at_timeout [] q rest = returns_with none q
    at_timeout (_ ∷ _) q rest = rest

abbrev pub IsDrained : Pool → Type 0
IsDrained p = p.queue ≡ []

-- Wake-ups by a notification, with these pools.
abbrev pub notifications : List Pool → List (Wake × Pool)
notifications ps = map (λ p. (notified, p)) ps

get_waiting-append :
    (ps : List Pool) (p : Pool) (wakes : List (Wake × Pool))
    → IsDrained p
    → All IsDrained ps
    → (q : Pool) × (get_waiting p.queue p (notifications ps ++ wakes) ≡ get_waiting [] q wakes)
unfolding get_waiting
get_waiting-append [] p wakes e h = (p, ap (λ l. get_waiting l p wakes) e)
get_waiting-append (r ∷ ps) p wakes e h =
    let (q, rest) = get_waiting-append ps r wakes h.0 h.1 in
    (q, ap (λ l. get_waiting l p (notifications (r ∷ ps) ++ wakes)) e ∙ rest)

-- The wake-ups behind which `getConnection` returns, and with what.
pub data Decisive (q : Pool) : Wake → Waiting → Type 0 where
  gives_up : IsDrained q → Decisive q timed_out (returns_with none q)
  takes :
      (k : Wake) (c : Idle) (cs : List Idle)
      → q.queue ≡ c ∷ cs
      → Decisive q k (returns_with (some c.conn) (record q { queue = cs; lent = c.conn ∷ q.lent }))

decided :
    (p q : Pool) (k : Wake) (r : Waiting) (wakes : List (Wake × Pool))
    → Decisive q k r
    → get_waiting [] p ((k, q) ∷ wakes) ≡ r
unfolding get_waiting get_connection
decided p q k r wakes (gives_up e) = rw e refl
decided p q k r wakes (takes notified c cs e) = rw e refl
decided p q k r wakes (takes timed_out c cs e) = rw e refl

-- However often a caller of `getConnection` is notified while the queue is empty, it waits; it
-- returns at the first wake-up after that which finds a connection, with the front of the queue,
-- and at the first that finds none and whose time is over, with none.
pub get_waiting-decides :
    (ps : List Pool) (p q : Pool) (k : Wake) (r : Waiting) (wakes : List (Wake × Pool))
    → IsDrained p
    → All IsDrained ps
    → Decisive q k r
    → (get_waiting p.queue p (notifications ps) ≡ waits)
      × (get_waiting p.queue p (notifications ps ++ (k, q) ∷ wakes) ≡ r)
unfolding get_waiting
get_waiting-decides ps p q k r wakes e h d =
    let (q0, before) = get_waiting-append ps p [] e h in
    let (q1, behind) = get_waiting-append ps p ((k, q) ∷ wakes) e h in
    (
      ap (λ ws. get_waiting p.queue p ws) (sym (append-nil (notifications ps))) ∙ before,
      behind ∙ decided q1 q k r wakes d,
    )

abbrev behind : Round → (Pool → List (Wake × Pool)) → List (Wake × Pool)
behind sleeps rest = []
behind (notifies_all q) rest = (notified, q) ∷ rest q

-- The wake-ups by the rounds of `produceConnectionTask` that begin at these times, up to the first in
-- which it waits itself.
abbrev pub woken_by : Config → List ℕ → Pool → List (Wake × Pool)
woken_by cfg [] p = []
woken_by cfg (now ∷ nows) p = behind (produce_connection cfg now p) (woken_by cfg nows)

full_same :
    (cfg : Config) (now : ℕ) (p : Pool)
    → IsDrained p
    → int_lt (pos p.count) cfg.max_size ≡ false
    → produce_connection cfg now p ≡ notifies_all p
unfolding produce_connection
full_same cfg now p e full = ap (λ l. produce_into l cfg now p) e ∙ rw full refl

woken_by-all :
    (cfg : Config) (nows : List ℕ) (p : Pool)
    → IsDrained p
    → int_lt (pos p.count) cfg.max_size ≡ false
    → woken_by cfg nows p ≡ notifications (map (λ _. p) nows)
woken_by-all cfg [] p e full = refl
woken_by-all cfg (now ∷ nows) p e full =
    ap (λ r. behind r (woken_by cfg nows)) (full_same cfg now p e full)
    ∙ ap (λ ws. (notified, p) ∷ ws) (woken_by-all cfg nows p e full)

All-IsDrained : (nows : List ℕ) (p : Pool) → IsDrained p → All IsDrained (map (λ _. p) nows)
All-IsDrained [] p e = tt
All-IsDrained (now ∷ nows) p e = (e, All-IsDrained nows p e)

-- While the queue is empty and the count is not below the maximum, every round of
-- `produceConnectionTask` notifies without a wait and leaves the pool as it is, however many
-- there are, and a caller of `getConnection` that is woken by all of them still waits.
pub get_waiting_starved :
    (cfg : Config) (nows : List ℕ) (p : Pool)
    → IsDrained p
    → int_lt (pos p.count) cfg.max_size ≡ false
    → (woken_by cfg nows p ≡ notifications (map (λ _. p) nows))
      × (get_waiting p.queue p (woken_by cfg nows p) ≡ waits)
unfolding get_waiting
get_waiting_starved cfg nows p e full =
    let ps = map (λ _. p) nows in
    let (q, before) = get_waiting-append ps p [] e (All-IsDrained nows p e) in
    (
      woken_by-all cfg nows p e full,
      ap (get_waiting p.queue p)
            (woken_by-all cfg nows p e full ∙ sym (append-nil (notifications ps)))
          ∙ before,
    )
