-- ===== src/Service/Invariant.antt =====
-- Predicates on the server's state that every handler keeps, on any backend.
pub mod Handlers
pub mod Messages
pub mod Subscriptions
pub mod Lending
use mathlib.Core.Option.{none, some}
use chat_server_c.Base.Int.{minus_one, ℤ}
use chat_server_c.Base.Outcome.{
  fault, done, next, Outcome, ◌>>=◌, or_raise, Fault, Action, for_each,
}
use chat_server_c.Service.World.{World, unsubscribed, subscribed, Conn, Event}
use chat_server_c.Base.Assoc.{erase, insert, Assoc}
use chat_server_c.Base.{
  some, if◌then◌else◌, [], ◌∷◌, true, ◌≡◌, false, Option, List, Bool, refl, append_assoc, ◌++◌,
}
use chat_server_c.Model.UserModel
use chat_server_c.Model.FriendModel
use chat_server_c.Model.OfflineMsgModel
use chat_server_c.Model.GroupModel
use chat_server_c.Base.Bytes.{Bytes}
use chat_server_c.Protocol.{User, Group}
use chat_server_c.Db.Backend.{Backend}
use chat_server_c.Service.Dispatch

-- Neither a subscription nor the end of one.
abbrev pub is_quiet : Event → Bool
is_quiet (subscribed id) = false
is_quiet (unsubscribed id) = false
is_quiet _ = true

-- A predicate on the store, the map and the events that the three ways to change the map and the
-- subscriptions keep.
pub record IsKept {S : Type 0} (P : S → Assoc Conn → List Event → Type 0) : Type 0 where
  pub quiet :
      (e : Event) (st : S) (conns : Assoc Conn) (out : List Event)
      → is_quiet e ≡ true
      → P st conns out
      → P st conns (out ++ e ∷ [])
  pub joins :
      (id : ℤ) (conn : Conn) (st : S) (conns : Assoc Conn) (out : List Event)
      → P st conns out
      → P st (insert id conn conns) (out ++ subscribed id ∷ [])
  pub leaves :
      (id : ℤ) (st : S) (conns : Assoc Conn) (out : List Event)
      → P st conns out
      → P st (erase id conns) (out ++ unsubscribed id ∷ [])
  pub nobody :
      (st : S) (conns : Assoc Conn) (out : List Event)
      → P st conns out
      → P st conns (out ++ unsubscribed minus_one ∷ [])

module _ {S : Type 0} (P : S → Assoc Conn → List Event → Type 0) where
  -- The call of a model class keeps the predicate, however it ends.
  abbrev pub KeepsStored : {A : Type 0} → Action S A → Type 0
  KeepsStored m =
      (st : S) (conns : Assoc Conn) (out : List Event) → P st conns out → P (m st).1 conns out

  -- The call keeps the predicate, however it ends.
  abbrev pub Keeps : {A : Type 0} → Action (World S) A → Type 0
  Keeps m = (w : World S) → P w.store w.conns w.out → P (m w).1.store (m w).1.conns (m w).1.out

  pub bind-Keeps :
      {A C : Type 0} (m : Action (World S) A) (f : A → Action (World S) C)
      → Keeps m
      → ((a : A) → Keeps (f a))
      → Keeps (m >>= f)
  bind-Keeps {A = A} {C = C} m f h k w p = go (m w) (h w p)
    where
      go :
          (r : Outcome A × World S)
          → P r.1.store r.1.conns r.1.out
          → P (next f r).1.store (next f r).1.conns (next f r).1.out
      go (done a, w') q = k a w' q
      go (fault e, w') q = q

  pub or_raise-Keeps : {A : Type 0} (a : Option A) (e : Fault) → Keeps (or_raise a e)
  or_raise-Keeps none e w p = p
  or_raise-Keeps (some a) e w p = p

  pub if-Keeps :
      {A : Type 0} (b : Bool) (m k : Action (World S) A)
      → Keeps m
      → Keeps k
      → Keeps (if b then m else k)
  if-Keeps true m k h j = h
  if-Keeps false m k h j = j

  pub for_each-Keeps :
      {A : Type 0} (xs : List A) (body : A → Action (World S) (Unit {0}))
      → ((x : A) → Keeps (body x))
      → Keeps (for_each xs body)
  unfolding for_each
  for_each-Keeps [] body h = λ w p. p
  for_each-Keeps (x ∷ xs) body h =
      bind-Keeps (body x) (λ _. for_each xs body) (h x) (λ _. for_each-Keeps xs body h)

-- Every method of the model classes keeps the predicate.
pub record AreKept ⦃B : Backend⦄ (P : B.State → Assoc Conn → List Event → Type 0) : Type 0 where
  pub insert_user : (u : User) → KeepsStored P (UserModel.insert u)
  pub query_user : (id : ℤ) → KeepsStored P (UserModel.query id)
  pub update_user : (u : User) → KeepsStored P (UserModel.update u)
  pub reset_users : KeepsStored P UserModel.reset_states
  pub insert_friend : (id k : ℤ) → KeepsStored P (FriendModel.insert id k)
  pub query_friends : (id : ℤ) → KeepsStored P (FriendModel.query id)
  pub insert_message : (id : ℤ) (msg : Bytes) → KeepsStored P (OfflineMsgModel.insert id msg)
  pub remove_messages : (id : ℤ) → KeepsStored P (OfflineMsgModel.remove id)
  pub query_messages : (id : ℤ) → KeepsStored P (OfflineMsgModel.query id)
  pub create_group : (g : Group) → KeepsStored P (GroupModel.create_group g)
  pub add_member : (id k : ℤ) (role : Bytes) → KeepsStored P (GroupModel.add_group id k role)
  pub query_groups : (id : ℤ) → KeepsStored P (GroupModel.query_group id)
  pub query_member_ids : (id k : ℤ) → KeepsStored P (GroupModel.query_group_users id k)
