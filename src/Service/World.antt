-- ===== src/Service/World.antt =====
-- include/server/chatservice.hpp: the state of `ChatService`, and what it does to the outside. A
-- handler is one step: the model takes its calls in order, with no other thread between them.
use chat_server_c.Base.{ℕ, List, [], ◌∷◌, ◌++◌}
use chat_server_c.Base.Int.{ℤ}
use chat_server_c.Base.Bytes.{Bytes}
use chat_server_c.Base.Assoc.{Assoc}
use chat_server_c.Base.Outcome.{Outcome, Fault, done, fault, Action, Ends, Returns, next}

-- A `TcpConnectionPtr`: the connections are only compared.
abbrev pub Conn : Type 0
Conn = ℕ

-- `conn->send(text)`, the calls of `Redis`, whose results `ChatService` does not ask, and the log.
pub data Event : Type 0 where
  sent : Conn → Bytes → Event
  published : ℤ → Bytes → Event
  subscribed : ℤ → Event
  unsubscribed : ℤ → Event
  no_handler : ℤ → Event

-- `_userConnMap`, the pool and database behind the model classes, and what went out, oldest first.
pub record World (S : Type 0) : Type 0 where
  pub store : S
  pub conns : Assoc Conn
  pub out : List Event

module _ {S : Type 0} where
  abbrev pub emit : Event → Action (World S) (Unit {0})
  emit e w = (done tt, record w { out = w.out ++ e ∷ [] })

  abbrev pub stored : {A : Type 0} → World S → Outcome A × S → Outcome A × World S
  stored w (o, st) = (o, record w { store = st })

  -- A call of a model class.
  abbrev pub on_store : {A : Type 0} → Action S A → Action (World S) A
  on_store m w = stored w (m w.store)

  -- A call of a model class that ends as `r`, and then the rest of the handler.
  pub on_store-Ends :
      {A C : Type 0} {P : A → S → Type 0} {G : Fault → S → Type 0} (F : Fault → World S → Type 0)
      (Q : C → World S → Type 0) (f : A → Action (World S) C) (w : World S) (r : Outcome A × S)
      → Ends P G r
      → ((e : Fault) (st : S) → G e st → F e (record w { store = st }))
      → ((a : A) (st : S) → P a st → Ends Q F (f a (record w { store = st })))
      → Ends Q F (next f (stored w r))
  on_store-Ends F Q f w (done a, st) h g k = k a st h
  on_store-Ends F Q f w (fault e, st) h g k = g e st h

  -- The same behind a call that returns.
  pub on_store-Returns :
      {A C : Type 0} {P : A → S → Type 0} (F : Fault → World S → Type 0) (Q : C → World S → Type 0)
      (f : A → Action (World S) C) (w : World S) (r : Outcome A × S)
      → Returns P r
      → ((a : A) (st : S) → P a st → Ends Q F (f a (record w { store = st })))
      → Ends Q F (next f (stored w r))
  on_store-Returns F Q f w (done a, st) h k = k a st h
  on_store-Returns F Q f w (fault e, st) h k = absurd h

  -- A call of a model class that is the last of the handler.
  pub on_store-last :
      {A : Type 0} {P : A → S → Type 0} (F : Fault → World S → Type 0) (Q : A → World S → Type 0)
      (w : World S) (r : Outcome A × S)
      → Returns P r
      → ((a : A) (st : S) → P a st → Q a (record w { store = st }))
      → Ends Q F (stored w r)
  on_store-last F Q w (done a, st) h k = k a st h
  on_store-last F Q w (fault e, st) h k = absurd h
