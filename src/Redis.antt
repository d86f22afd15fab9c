-- ===== src/Redis.antt =====
-- redis.cc: the connections to Redis, and the commands that go over them. The library hiredis is a
-- parameter.
pub mod Sending
pub mod Sample
use chat_server_c.Base.{
  ℕ, zero, suc, String, List, [], ◌∷◌, ◌++◌, ◌+◌, ◌<◌, ◌≡◌, ◌≢◌, Option, none, some, Bool, true,
  false, not, length, if◌then◌else◌,
}
use chat_server_c.Base.Int.{ℤ}
use chat_server_c.Base.Bytes.{Bytes, codes, c_str}
use chat_server_c.Base.Decimal.{show_int}

-- What `redisBufferWrite` returns, and whether it sets `done`.
pub data Write : Type 0 where
  write_failed written_part written_all : Write

-- What `redisGetReply` gives: null, or an array of three elements, of which some have a `str`.
pub data Reply : Type 0 where
  no_reply : Reply
  triple : Option Bytes → Option Bytes → Option Bytes → Reply

-- A `redisContext` sends what `redisAppendCommand` puts into its buffer when `redisBufferWrite` is
-- called, and `encoded` is the form in which a command goes over the wire. On a socket that blocks a
-- byte goes each time at least, unless a signal interrupts the write, as it does `interrupts` times
-- from now on. `inbox` has the replies that come in on a context and were not read.
pub record Hiredis : Type 1 where
  pub Context : Type 0
  pub State : Type 0
  pub wire : Context → State → Bytes
  pub unsent : Context → State → Bytes
  pub encoded : List Bytes → Bytes
  pub interrupts : State → ℕ
  pub inbox : Context → State → List Reply
  -- The server takes commands on the context.
  pub IsUp : Context → State → Type 0
  -- The server has the context as a subscriber of the channel.
  pub Listens : Context → Bytes → State → Type 0
  -- `none` for a null pointer
  pub redis_connect : State → Option Context × State
  -- whether there is a reply
  pub redis_command : Context → List Bytes → State → Bool × State
  -- whether it returns `REDIS_ERR`
  pub redis_append_command : Context → List Bytes → State → Bool × State
  pub redis_buffer_write : Context → State → Write × State
  pub append_adds :
      (c : Context) (words : List Bytes) (st : State)
      → (redis_append_command c words st).0 ≡ false
      → (wire c (redis_append_command c words st).1 ≡ wire c st)
        × (unsent c (redis_append_command c words st).1 ≡ unsent c st ++ encoded words)
  pub append_fails :
      (c : Context) (words : List Bytes) (st : State)
      → (redis_append_command c words st).0 ≡ true
      → (wire c (redis_append_command c words st).1 ≡ wire c st)
        × (unsent c (redis_append_command c words st).1 ≡ unsent c st)
  pub encoded_bytes : (words : List Bytes) → encoded words ≢ []
  pub writes_part :
      (c : Context) (st : State)
      → (redis_buffer_write c st).0 ≡ written_part
      → (s : Bytes) × (unsent c st ≡ s ++ unsent c (redis_buffer_write c st).1)
        × (wire c (redis_buffer_write c st).1 ≡ wire c st ++ s)
        × (unsent c (redis_buffer_write c st).1 ≢ [])
        × (length (unsent c (redis_buffer_write c st).1) + interrupts (redis_buffer_write c st).1
            < length (unsent c st) + interrupts st)
  pub writes_all :
      (c : Context) (st : State)
      → (redis_buffer_write c st).0 ≡ written_all
      → (unsent c (redis_buffer_write c st).1 ≡ [])
        × (wire c (redis_buffer_write c st).1 ≡ wire c st ++ unsent c st)
  pub write_fails :
      (c : Context) (st : State)
      → (redis_buffer_write c st).0 ≡ write_failed
      → (unsent c (redis_buffer_write c st).1 ≡ unsent c st)
        × (wire c (redis_buffer_write c st).1 ≡ wire c st)
  pub command_answered :
      (c : Context) (words : List Bytes) (st : State)
      → IsUp c st
      → (redis_command c words st).0 ≡ true
  -- `PUBLISH` sends its third word to the subscribers of the channel that is its second.
  pub publish_arrives :
      (c d : Context) (channel message : Bytes) (st : State)
      → IsUp c st
      → Listens d channel st
      → inbox d (redis_command c (codes "PUBLISH" ∷ channel ∷ message ∷ []) st).1
        ≡ inbox d st ++ triple (some (codes "message")) (some channel) (some message) ∷ []

module _ ⦃H : Hiredis⦄ where
  open H use {
    Context, State, redis_connect, redis_command, redis_append_command, redis_buffer_write, unsent,
    interrupts,
  }

  -- `class Redis`; `observed` is the context that a thread with `observer_channel_message` reads.
  pub record Redis : Type 0 where
    pub publish_context : Option Context
    pub subcribe_context : Option Context
    pub observed : Option Context

  -- `Redis()`
  abbrev pub new_redis : Redis
  new_redis = record { publish_context = none; subcribe_context = none; observed = none }

  abbrev second_context : Redis → Option Context × State → Bool × Redis × State
  second_context r (none, st) = (false, record r { subcribe_context = none }, st)
  second_context r (some c, st) =
      (true, record r { subcribe_context = some c; observed = some c }, st)

  abbrev first_context : Redis → Option Context × State → Bool × Redis × State
  first_context r (none, st) = (false, record r { publish_context = none }, st)
  first_context r (some c, st) =
      second_context (record r { publish_context = some c }) (redis_connect st)

  pub connect : Redis → State → Bool × Redis × State
  connect r st = first_context r (redis_connect st)

  -- `PUBLISH %d %s`, on a context that is there
  unfoldable pub publish : Context → ℤ → Bytes → State → Bool × State
  publish c channel message st =
      redis_command c (codes "PUBLISH" ∷ show_int channel ∷ c_str message ∷ []) st

  -- `while (!done) { if (REDIS_ERR == redisBufferWrite(…)) return false; }`; `none` where the rounds
  -- do not suffice.
  unfoldable pub write_out : ℕ → Context → State → Option (Bool × State)
  write_out zero c st = none
  write_out (suc rounds) c st =
      let (w, st') = redis_buffer_write c st in
      let rest = write_out rounds c st' in behind w st' rest
    where
      behind : Write → State → Option (Bool × State) → Option (Bool × State)
      behind write_failed st' rest = some (false, st')
      behind written_part st' rest = rest
      behind written_all st' rest = some (true, st')

  -- A round writes a byte or is interrupted.
  unfoldable pub send_command : Context → List Bytes → State → Option (Bool × State)
  send_command c words st =
      let (failed, st') = redis_append_command c words st in
      if failed
      then some (false, st')
      else write_out (suc (length (unsent c st') + interrupts st')) c st'

  pub subscribe : Context → ℤ → State → Option (Bool × State)
  subscribe c channel st = send_command c (codes "SUBSCRIBE" ∷ show_int channel ∷ []) st

  pub unsubscribe : Context → ℤ → State → Option (Bool × State)
  unsubscribe c channel st = send_command c (codes "UNSUBSCRIBE" ∷ show_int channel ∷ []) st
