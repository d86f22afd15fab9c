-- ===== src/Service/Invariant/Subscriptions.antt =====
-- The subscriptions of the server, read off its events, follow `_userConnMap`.
use chat_server_c.Service.World.{
  no_handler, published, unsubscribed, sent, subscribed, World, Event, Conn,
}
use chat_server_c.Db.Backend.{Backend}
use chat_server_c.Json.{JsonLib}
use chat_server_c.Base.Int.{int_eq_ne, int_eq_iff, minus_one, int_eq, ℤ}
use chat_server_c.Base.Assoc.{find-erase, find-insert, find, is_some, Assoc}
use mathlib.Core.Option.{none, some}
use chat_server_c.Base.{
  sym, ◌∙◌, inr, arith, inl, Bool-cases, ◌≢◌, ◌≡◌, ◌∷◌, true, false, [], List, Bool, refl,
  if◌then◌else◌, ◌++◌,
}
use chat_server_c.Service.Invariant.{AreKept, IsKept, is_quiet}
use chat_server_c.Service.Invariant.Messages.{Reachable-Keeps}
use chat_server_c.Service.Run.{Reachable}

-- Whether the server listens to the channel of `id` behind an event.
abbrev listens_after : ℤ → Bool → Event → Bool
listens_after id b (subscribed j) = if int_eq j id then true else b
listens_after id b (unsubscribed j) = if int_eq j id then false else b
listens_after id b _ = b

listens_from : ℤ → Bool → List Event → Bool
listens_from id b [] = b
listens_from id b (e ∷ es) = listens_from id (listens_after id b e) es

-- Whether the server listens to the channel of `id` behind all these events.
pub listens : ℤ → List Event → Bool
listens id es = listens_from id false es

listens_from-append :
    (id : ℤ) (b : Bool) (es : List Event) (e : Event)
    → listens_from id b (es ++ e ∷ []) ≡ listens_after id (listens_from id b es) e
unfolding listens_from
listens_from-append id b [] e = refl
listens_from-append id b (d ∷ es) e = listens_from-append id (listens_after id b d) es e

listens-append :
    (id : ℤ) (es : List Event) (e : Event)
    → listens id (es ++ e ∷ []) ≡ listens_after id (listens id es) e
unfolding listens
listens-append id es e = listens_from-append id false es e

listens_after-quiet : (id : ℤ) (b : Bool) (e : Event) → is_quiet e ≡ true → listens_after id b e ≡ b
listens_after-quiet id b (sent conn text) q = refl
listens_after-quiet id b (published j text) q = refl
listens_after-quiet id b (subscribed j) q = cc
listens_after-quiet id b (unsubscribed j) q = cc
listens_after-quiet id b (no_handler j) q = refl

-- The server listens to a user's channel exactly if it has a connection of the user. The id -1 is
-- left out: a lost connection that nobody logged in on ends the subscription to it.
abbrev pub IsTuned : Assoc Conn → List Event → Type 0
IsTuned conns out = (id : ℤ) → id ≢ minus_one → listens id out ≡ is_some (find id conns)

IsTuned-IsKept : {S : Type 0} → IsKept {S = S} (λ _. IsTuned)
IsTuned-IsKept = record {
  quiet = λ e _ conns out q tuned id real.
      listens-append id out e ∙ listens_after-quiet id (listens id out) e q ∙ tuned id real;
  joins = λ k conn _ conns out tuned id real.
      listens-append id out (subscribed k)
      ∙ rw (find-insert k id conn conns, tuned id real) (joined k id conn conns);
  leaves = λ k _ conns out tuned id real.
      listens-append id out (unsubscribed k)
      ∙ rw (find-erase k id conns, tuned id real) (left k id conns);
  nobody = λ _ conns out tuned id real.
      listens-append id out (unsubscribed minus_one)
      ∙ rw (int_eq_ne minus_one id (λ e. real (sym e))) (tuned id real);
}
  where
    joined :
        (k id : ℤ) (conn : Conn) (conns : Assoc Conn)
        → (if int_eq k id then true else is_some (find id conns))
          ≡ is_some (
              if is_some (find k conns)
              then find id conns
              else if int_eq k id
              then some conn
              else find id conns)
    joined k id conn conns = elim (Bool-cases (int_eq k id)) [
      | inl same ↦ rw (same, (int_eq_iff k id).0 same) (ground arith)
      | inr other ↦ rw other (ground arith)
    ]

    left :
        (k id : ℤ) (conns : Assoc Conn)
        → (if int_eq k id then false else is_some (find id conns))
          ≡ is_some (if int_eq k id then none else find id conns)
    left k id conns = ground arith

module _ ⦃J : JsonLib⦄ ⦃B : Backend⦄ where
  open B use {State}

  -- The model classes do not touch what is no part of the store.
  elsewhere-AreKept : (P : Assoc Conn → List Event → Type 0) → AreKept (λ _. P)
  elsewhere-AreKept P = record {
    insert_user = λ u st conns out p. p;
    query_user = λ id st conns out p. p;
    update_user = λ u st conns out p. p;
    reset_users = λ st conns out p. p;
    insert_friend = λ id k st conns out p. p;
    query_friends = λ id st conns out p. p;
    insert_message = λ id msg st conns out p. p;
    remove_messages = λ id st conns out p. p;
    query_messages = λ id st conns out p. p;
    create_group = λ g st conns out p. p;
    add_member = λ id k role st conns out p. p;
    query_groups = λ id st conns out p. p;
    query_member_ids = λ id k st conns out p. p;
  }

  -- In every state that a server reaches from its start, by any messages, connections, Redis
  -- messages and resets and on any backend: for every id but -1, the server is subscribed to the
  -- id's channel exactly if `_userConnMap` has a connection for it.
  pub Reachable-IsTuned : (w : World State) → Reachable w → IsTuned w.conns w.out
  unfolding listens listens_from find
  Reachable-IsTuned w r =
      Reachable-Keeps (λ _. IsTuned) IsTuned-IsKept (elsewhere-AreKept IsTuned) (λ st id real. refl)
        w r
