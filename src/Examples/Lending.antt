-- ===== src/Examples/Lending.antt =====
-- The server of Examples over a pool of one connection.
use chat_server_c.Service.Invariant.Lending.{steps-IsLent, shared}
use chat_server_c.Json.Sample.{sample_json}
use chat_server_c.Examples.{login_ann, world}
use chat_server_c.Service.Run.{step, interrupt, connection, message}
use chat_server_c.Db.Pooled.{Shared}
use chat_server_c.Base.Outcome.{for_each}
use chat_server_c.Base.Int.{pos}
use chat_server_c.Service.World.{World}
use chat_server_c.Db.Server.Sample.{running, Server}
use chat_server_c.Db.Pool.Lending.{start-IsLent, nothing, produces, Background, IsLent}
use chat_server_c.Db.Pool.{start, produced_pool, Pool, Config}
use chat_server_c.Base.{[], ◌∷◌, some, false}

abbrev one_of_two : Config
one_of_two = record { init_size = pos 1; max_size = pos 2; max_idle_time = pos 60 }

abbrev producer : Server → Pool → Pool
producer st p = produced_pool one_of_two 0 p

abbrev producing : (st : Server) (p : Pool) → Background one_of_two p (producer st p)
producing st p = produces 0 p _ (nothing _)

abbrev shared_world : World (Shared running producer (λ _. 0))
shared_world = record {
  store = record { pool = start (some one_of_two) 0; server = world.store };
  conns = world.conns;
  out = [];
}

steps-IsLent_example :
    IsLent one_of_two []
      (for_each
        (message 10 (sample_json.dump login_ann) ∷ connection 30 false ∷ interrupt ∷ [])
        (step ⦃B = shared running one_of_two producer (λ _. 0) producing⦄)
        shared_world).1.store.pool
steps-IsLent_example =
    steps-IsLent running one_of_two producer (λ _. 0) producing
      (message 10 (sample_json.dump login_ann) ∷ connection 30 false ∷ interrupt ∷ []) shared_world
      (start-IsLent one_of_two 0)
