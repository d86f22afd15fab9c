-- ===== src/Service/Run.antt =====
-- A run of the server: the inputs it reacts to, and the states it reaches by them.
use chat_server_c.Base.{[], ◌≡◌, Bool}
use chat_server_c.Base.Int.{ℤ}
use chat_server_c.Base.Bytes.{Bytes}
use chat_server_c.Base.Outcome.{done}
use chat_server_c.Json.{JsonLib}
use chat_server_c.Db.Backend.{Backend}
use chat_server_c.Service.World.{Conn, World}
use chat_server_c.Service.Session.{Run, reset}
use chat_server_c.Service.Chat.{handle_redis_subscribe_message}
use chat_server_c.Service.Dispatch.{on_message, on_connection}

-- The calls that muduo, Redis and the signal make.
pub data Input : Type 0 where
  message : Conn → Bytes → Input
  from_redis : ℤ → Bytes → Input
  connection : Conn → Bool → Input
  interrupt : Input

module _ ⦃J : JsonLib⦄ ⦃B : Backend⦄ where
  open B use {State}

  abbrev pub step : Input → Run
  step (message conn buf) = on_message conn buf
  step (from_redis userid msg) = handle_redis_subscribe_message userid msg
  step (connection conn connected) = on_connection conn connected
  step interrupt = reset

  -- From a server that has just started; a fault ends the run.
  pub data Reachable : World State → Type 0 where
    started : (st : State) → Reachable (record { store = st; conns = []; out = [] })
    then_by :
        (i : Input) (w w' : World State) → Reachable w → step i w ≡ (done tt, w') → Reachable w'
