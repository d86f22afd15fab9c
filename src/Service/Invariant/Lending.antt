-- ===== src/Service/Invariant/Lending.antt =====
-- The connections of the pool in the course of a server.
use chat_server_c.Service.Invariant.Messages.{step-Keeps}
use chat_server_c.Base.Outcome.{for_each}
use chat_server_c.Service.World.{World}
use chat_server_c.Service.Run.{step, Input}
use chat_server_c.Model.Keeping.{
  query_member_ids-Holds, query_groups-Holds, add_member-Holds, create_group-Holds,
  query_messages-Holds, remove_messages-Holds, insert_message-Holds, query_friends-Holds,
  insert_friend-Holds, reset_users-Holds, update_user-Holds, query_user-Holds, insert_user-Holds,
}
use chat_server_c.Db.Pooled.Balance.{pooled-Brackets}
use chat_server_c.Service.Invariant.{for_each-Keeps, IsKept, AreKept}
use chat_server_c.Db.Pooled.{pooled}
use chat_server_c.Db.Pool.Lending.{IsLent, Background}
use chat_server_c.Db.Pool.{Pool, Config}
use chat_server_c.Db.Backend.{Backend}
use chat_server_c.Json.{JsonLib}
use chat_server_c.Base.{List, ℕ, []}

module _ ⦃J : JsonLib⦄ (B : Backend) (cfg : Config) (others : B.State → Pool → Pool)
    (now : B.State → ℕ)
    (background : (st : B.State) (p : Pool) → Background cfg p (others st p)) where
  instance abbrev pub shared : Backend
  shared = pooled B others now

  -- The server started with the pool as it is behind its constructor, or later.
  abbrev Ready : shared.State → Type 0
  Ready st = IsLent cfg [] st.pool

  IsLent-AreKept : AreKept ⦃B = shared⦄ (λ st conns out. Ready st)
  IsLent-AreKept =
      let bs = pooled-Brackets B cfg others now background in
      record {
        insert_user = λ u st conns out p. insert_user-Holds _ _ bs u st p;
        query_user = λ id st conns out p. query_user-Holds _ _ bs id st p;
        update_user = λ u st conns out p. update_user-Holds _ _ bs u st p;
        reset_users = λ st conns out p. reset_users-Holds _ _ bs st p;
        insert_friend = λ id k st conns out p. insert_friend-Holds _ _ bs id k st p;
        query_friends = λ id st conns out p. query_friends-Holds _ _ bs id st p;
        insert_message = λ id msg st conns out p. insert_message-Holds _ _ bs id msg st p;
        remove_messages = λ id st conns out p. remove_messages-Holds _ _ bs id st p;
        query_messages = λ id st conns out p. query_messages-Holds _ _ bs id st p;
        create_group = λ g st conns out p. create_group-Holds _ _ bs g st p;
        add_member = λ id k role st conns out p. add_member-Holds _ _ bs id k role st p;
        query_groups = λ id st conns out p. query_groups-Holds _ _ bs id st p;
        query_member_ids = λ id k st conns out p. query_member_ids-Holds _ _ bs id k st p;
      }

  IsLent-IsKept : IsKept (λ st conns out. Ready st)
  IsLent-IsKept = record {
    quiet = λ e st conns out q p. p;
    joins = λ id conn st conns out p. p;
    leaves = λ id st conns out p. p;
    nobody = λ st conns out p. p;
  }

  -- Over a pool that its threads change while `getConnection` waits, and from a state where the
  -- pool is sound and no connection is with a caller: after any messages, connections, Redis
  -- messages and resets, up to a fault of one of them, the pool is sound, and all connections
  -- that the model classes took have gone back.
  pub steps-IsLent :
      (inputs : List Input) (w : World shared.State)
      → IsLent cfg [] w.store.pool
      → IsLent cfg [] (for_each inputs step w).1.store.pool
  steps-IsLent inputs w h =
      for_each-Keeps (λ st conns out. Ready st) inputs step
        (λ i. step-Keeps (λ st conns out. Ready st) IsLent-IsKept IsLent-AreKept i) w h
