-- ===== src/Db/Statement.antt =====
-- The SQL that the classes of src/server/model compose with `sprintf`, one constructor to a format.
pub mod Bounds
pub mod Escaping
use chat_server_c.Base.{
  length, ◌<◌, ℕ, ◌≡◌, String, List, [], ◌∷◌, ◌++◌, Bool, false, ◌||◌, All, ◌==◌, if◌then◌else◌,
}
use chat_server_c.Base.Int.{ℤ}
use chat_server_c.Base.Bytes.{c_str, Bytes, codes}
use chat_server_c.Base.Decimal.{show_int}

pub data Statement : Type 0 where
  insert_user : Bytes → Bytes → Bytes → Statement
  select_user : ℤ → Statement
  update_state : Bytes → ℤ → Statement
  reset_state : Statement
  insert_friend : ℤ → ℤ → Statement
  select_friends : ℤ → Statement
  insert_offline : ℤ → Bytes → Statement
  delete_offline : ℤ → Statement
  select_offline : ℤ → Statement
  insert_group : Bytes → Bytes → Statement
  insert_member : ℤ → ℤ → Bytes → Statement
  select_groups : ℤ → Statement
  select_members : ℤ → Statement
  select_member_ids : ℤ → ℤ → Statement

-- A format with its arguments: text, `%d` and `%s`.
pub data Piece : Type 0 where
  lit : String → Piece
  dec : ℤ → Piece
  txt : Bytes → Piece

abbrev pub print_piece : Piece → Bytes
print_piece (lit s) = codes s
print_piece (dec z) = show_int z
print_piece (txt s) = c_str s

abbrev pub print : List Piece → Bytes
print [] = []
print (p ∷ ps) = print_piece p ++ print ps

abbrev pub pieces : Statement → List Piece
pieces (insert_user name password state) =
    lit "insert into user(name,password,state) values('"
    ∷ txt name
    ∷ lit "' , '"
    ∷ txt password
    ∷ lit "' , '"
    ∷ txt state
    ∷ lit "')"
    ∷ []
pieces (select_user id) = lit "select * from user where id = " ∷ dec id ∷ []
pieces (update_state state id) =
    lit "update user set state = '" ∷ txt state ∷ lit "' where id = " ∷ dec id ∷ []
pieces reset_state = lit "update user set state = 'offline' where state = 'online' " ∷ []
pieces (insert_friend userid friendid) =
    lit "insert into friend  values(" ∷ dec userid ∷ lit " , " ∷ dec friendid ∷ lit ")" ∷ []
pieces (select_friends userid) =
    lit
      "select a.id, a.name, a.state from user a inner join friend b on b.friendid = a.id where b.userid = "
    ∷ dec userid
    ∷ []
pieces (insert_offline userid msg) =
    lit "insert into offlinemessage values(" ∷ dec userid ∷ lit " ,'" ∷ txt msg ∷ lit "')" ∷ []
pieces (delete_offline userid) = lit "delete from offlinemessage where userid = " ∷ dec userid ∷ []
pieces (select_offline userid) =
    lit "select message  from offlinemessage where userid = " ∷ dec userid ∷ []
pieces (insert_group name desc) =
    lit "insert into allgroup (groupname, groupdesc) values('"
    ∷ txt name
    ∷ lit "', '"
    ∷ txt desc
    ∷ lit "')"
    ∷ []
pieces (insert_member groupid userid role) =
    lit "insert into groupuser values("
    ∷ dec groupid
    ∷ lit ","
    ∷ dec userid
    ∷ lit ", '"
    ∷ txt role
    ∷ lit "')"
    ∷ []
pieces (select_groups userid) =
    lit
      "select a.id , a.groupname, a.groupdesc from allgroup a inner join groupuser b         on  a.id = b.groupid where b.userid = "
    ∷ dec userid
    ∷ []
pieces (select_members groupid) =
    lit
      "select a.id, a.name ,a.state,b.grouprole from user a join groupuser b on            b.userid = a.id where groupid = "
    ∷ dec groupid
    ∷ []
pieces (select_member_ids groupid userid) =
    lit "select userid from groupuser where groupid = "
    ∷ dec groupid
    ∷ lit " and userid != "
    ∷ dec userid
    ∷ []

-- The text that `sprintf` leaves in `sql`, of any length.
unfoldable pub render : Statement → Bytes
unfolding c_str
render s = print (pieces s)

-- `char sql[1024]`
abbrev pub sql_size : ℕ
sql_size = 1024

-- The text of the statement and its NUL fit the buffer.
abbrev pub Fits : Statement → Type 0
Fits s = length (render s) < sql_size

-- A byte that would end or change a quoted text: NUL, the quote, the backslash.
abbrev pub is_special : ℕ → Bool
is_special c = c == 0 || (c == b'\'' || c == b'\\')

abbrev pub IsPlain : Bytes → Type 0
IsPlain s = All (λ c. is_special c ≡ false) s

abbrev pub PieceIsPlain : Piece → Type 0
PieceIsPlain (lit s) = Unit
PieceIsPlain (dec z) = Unit
PieceIsPlain (txt s) = IsPlain s

-- No argument needs escaping, which the code does not do.
abbrev pub IsClean : Statement → Type 0
IsClean s = All PieceIsPlain (pieces s)
