-- ===== src/Db/Pool.antt =====
-- src/server/db/dbpool.cc: the connection pool. Every operation holds `_queueMutex` while it reads or
-- changes the queue, so each is one step. A connection is a number, in the order of `new MySQL()`.
pub mod Steps
pub mod Settings
pub mod Waiting
pub mod Lending
use chat_server_c.Base.{
  ℕ, zero, suc, ◌-◌, ◌*◌, ◌+◌, List, [], ◌∷◌, ◌++◌, Option, none, some, Bool, ◌==◌, if◌then◌else◌,
}
use chat_server_c.Base.Int.{ℤ, pos, negsuc, int_lt, to_ℕ}
use chat_server_c.Base.Outcome.{Outcome, done, fault, empty_queue}

-- The numbers that `loadConfigFile` reads and the pool goes by.
pub record Config : Type 0 where
  pub init_size : ℤ
  pub max_size : ℤ
  pub max_idle_time : ℤ

-- An idle connection, with its `_alivetime`.
pub record Idle : Type 0 where
  pub conn : ℕ
  pub since : ℕ

-- `_connectionQueue`, `_connectionCnt`, and what the fields do not say: the connections that the
-- callers of `getConnection` hold, and how many were made.
pub record Pool : Type 0 where
  pub queue : List Idle
  pub count : ℕ
  pub lent : List ℕ
  pub made : ℕ

abbrev pub empty_pool : Pool
empty_pool = record { queue = []; count = 0; lent = []; made = 0 }

-- A new connection is pushed, stamped and counted.
abbrev pub add_connection : ℕ → Pool → Pool
add_connection now p = record p {
  queue = p.queue ++ record { conn = p.made; since = now } ∷ [];
  count = suc p.count;
  made = suc p.made;
}

abbrev pub fill : ℕ → ℕ → Pool → Pool
fill zero now p = p
fill (suc n) now p = fill n now (add_connection now p)

-- The constructor; without a configuration the pool stays empty.
pub start : Option Config → ℕ → Pool
start none now = empty_pool
start (some cfg) now = fill (to_ℕ cfg.init_size) now empty_pool

-- A round of `produceConnectionTask`: it waits on the condition variable, or goes through and
-- notifies all that wait on it.
pub data Round : Type 0 where
  sleeps : Round
  notifies_all : Pool → Round

abbrev pub produce_into : List Idle → Config → ℕ → Pool → Round
produce_into (_ ∷ _) cfg now p = sleeps
produce_into [] cfg now p =
    notifies_all (if int_lt (pos p.count) cfg.max_size then add_connection now p else p)

pub produce_connection : Config → ℕ → Pool → Round
produce_connection cfg now p = produce_into p.queue cfg now p

abbrev pub behind_round : Pool → Round → Pool
behind_round p sleeps = p
behind_round p (notifies_all q) = q

-- The pool behind a round.
abbrev pub produced_pool : Config → ℕ → Pool → Pool
produced_pool cfg now p = behind_round p (produce_connection cfg now p)

-- `_maxIdleTime * 1000`, where it does not overflow
abbrev pub milliseconds : ℤ → ℤ
milliseconds (pos n) = pos (n * 1000)
milliseconds (negsuc n) = negsuc (n * 1000 + 999)

-- The `while` of `scannerConnectionTask`: the queue and the count that it leaves.
pub release_idle : Config → ℕ → List Idle → ℕ → Outcome (List Idle × ℕ)
release_idle cfg now [] count =
    if int_lt cfg.init_size (pos count) then fault empty_queue else done ([], count)
release_idle cfg now (c ∷ queue) count =
    let rest = release_idle cfg now queue (count - 1) in
    if int_lt cfg.init_size (pos count)
    then (if int_lt (milliseconds cfg.max_idle_time) (pos (now - c.since))
        then rest
        else done (c ∷ queue, count))
    else done (c ∷ queue, count)

abbrev pub scanned_pool : Pool → Outcome (List Idle × ℕ) → Outcome Pool
scanned_pool p (done (queue, count)) = done (record p { queue = queue; count = count })
scanned_pool p (fault e) = fault e

pub scan_connections : Config → ℕ → Pool → Outcome Pool
scan_connections cfg now p = scanned_pool p (release_idle cfg now p.queue p.count)

abbrev pub take_front : List Idle → Pool → Option ℕ × Pool
take_front [] p = (none, p)
take_front (c ∷ queue) p = (some c.conn, record p { queue = queue; lent = c.conn ∷ p.lent })

-- `getConnection`, behind its wait: the queue is empty only if the wait timed out.
pub get_connection : Pool → Option ℕ × Pool
get_connection p = take_front p.queue p

abbrev pub without : ℕ → List ℕ → List ℕ
without c [] = []
without c (d ∷ cs) = let rest = without c cs in if c == d then cs else d ∷ rest

-- The deleter of the pointer that `getConnection` returns.
pub give_back : ℕ → ℕ → Pool → Pool
give_back c now p = record p {
  queue = p.queue ++ record { conn = c; since = now } ∷ [];
  lent = without c p.lent;
}
