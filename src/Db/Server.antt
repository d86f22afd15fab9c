-- ===== src/Db/Server.antt =====
-- A small server that reads the texts of the statements back: it shows that a text says which
-- statement it is, and it is the concrete backend of the tests.
pub mod Reading
pub mod Sample
use chat_server_c.Base.{
  ℕ, ◌≡◌, List, [], ◌∷◌, Option, none, some, ◌==◌, if◌then◌else◌, Bool, true, false,
}
use chat_server_c.Base.Int.{ℤ, pos}
use chat_server_c.Base.Bytes.{Bytes, codes}
use chat_server_c.Base.Decimal.{read_int}
use chat_server_c.Db.Statement.{
  Statement, insert_user, select_user, update_state, reset_state, insert_friend, select_friends,
  insert_offline, delete_offline, select_offline, insert_group, insert_member, select_groups,
  select_members, select_member_ids, Piece, lit, dec, txt, pieces,
}

abbrev pub and_then : {A B : Type 0} → Option A → (A → Option B) → Option B
and_then none f = none
and_then (some a) f = f a

-- `t` behind the prefix `s`
pub strip : Bytes → Bytes → Option Bytes
strip [] t = some t
strip (a ∷ s) [] = none
strip (a ∷ s) (b ∷ t) = let rest = strip s t in if a == b then rest else none

-- the text up to a quote, and what follows from the quote on
pub until_quote : Bytes → Bytes × Bytes
until_quote [] = ([], [])
until_quote (c ∷ t) = let (s, r) = until_quote t in if c == b'\'' then ([], c ∷ t) else (c ∷ s, r)

-- The arguments of a format, read from a text; those in the format itself are ignored.
pub read_pieces : List Piece → Bytes → Option (List Piece)
read_pieces [] [] = some []
read_pieces [] (c ∷ t) = none
read_pieces (lit s ∷ ps) t =
    and_then (strip (codes s) t) λ r. and_then (read_pieces ps r) λ qs. some (lit s ∷ qs)
read_pieces (dec _ ∷ ps) t =
    and_then (read_pieces ps (read_int t).1) λ qs. some (dec (read_int t).0 ∷ qs)
read_pieces (txt _ ∷ ps) t =
    and_then (read_pieces ps (until_quote t).1) λ qs. some (txt (until_quote t).0 ∷ qs)

-- The statement of the given kind with the arguments that stand among the pieces.
pub with_arguments : Statement → List Piece → Option Statement
with_arguments (insert_user _ _ _) (_ ∷ txt n ∷ _ ∷ txt p ∷ _ ∷ txt s ∷ _) =
    some (insert_user n p s)
with_arguments (select_user _) (_ ∷ dec i ∷ _) = some (select_user i)
with_arguments (update_state _ _) (_ ∷ txt s ∷ _ ∷ dec i ∷ _) = some (update_state s i)
with_arguments reset_state _ = some reset_state
with_arguments (insert_friend _ _) (_ ∷ dec u ∷ _ ∷ dec f ∷ _) = some (insert_friend u f)
with_arguments (select_friends _) (_ ∷ dec u ∷ _) = some (select_friends u)
with_arguments (insert_offline _ _) (_ ∷ dec u ∷ _ ∷ txt m ∷ _) = some (insert_offline u m)
with_arguments (delete_offline _) (_ ∷ dec u ∷ _) = some (delete_offline u)
with_arguments (select_offline _) (_ ∷ dec u ∷ _) = some (select_offline u)
with_arguments (insert_group _ _) (_ ∷ txt n ∷ _ ∷ txt d ∷ _) = some (insert_group n d)
with_arguments (insert_member _ _ _) (_ ∷ dec g ∷ _ ∷ dec u ∷ _ ∷ txt r ∷ _) =
    some (insert_member g u r)
with_arguments (select_groups _) (_ ∷ dec u ∷ _) = some (select_groups u)
with_arguments (select_members _) (_ ∷ dec g ∷ _) = some (select_members g)
with_arguments (select_member_ids _ _) (_ ∷ dec g ∷ _ ∷ dec u ∷ _) = some (select_member_ids g u)
with_arguments _ _ = none

pub read_as : Statement → Bytes → Option Statement
read_as s t = and_then (read_pieces (pieces s) t) (with_arguments s)

pub or_else : {A : Type 0} → Option A → Option A → Option A
or_else (some a) o = some a
or_else none o = o

pub first_of_kinds : List Statement → Bytes → Option Statement
first_of_kinds [] t = none
first_of_kinds (s ∷ ss) t = or_else (read_as s t) (first_of_kinds ss t)

-- One statement of each kind. `update_state` stands before `reset_state`, whose text begins alike.
abbrev pub kinds : List Statement
kinds =
    insert_user [] [] []
    ∷ select_user (pos 0)
    ∷ update_state [] (pos 0)
    ∷ reset_state
    ∷ insert_friend (pos 0) (pos 0)
    ∷ select_friends (pos 0)
    ∷ insert_offline (pos 0) []
    ∷ delete_offline (pos 0)
    ∷ select_offline (pos 0)
    ∷ insert_group [] []
    ∷ insert_member (pos 0) (pos 0) []
    ∷ select_groups (pos 0)
    ∷ select_members (pos 0)
    ∷ select_member_ids (pos 0) (pos 0)
    ∷ []

pub parse : Bytes → Option Statement
parse t = first_of_kinds kinds t
