-- ===== src/Db/Statement/Bounds.antt =====
-- When a statement's text fits `char sql[1024]`: always, if its arguments are `int`s only; up to a
-- length, if it carries texts.
use chat_server_c.Protocol.{online, offline}
use mathlib.Core.Path.{ap₂}
use chat_server_c.Base.{
  ℕ, ◌+◌, ◌≤◌, ◌≡◌, refl, ap, ◌∙◌, List, [], ◌∷◌, arith, length, length-append,
}
use chat_server_c.Base.Int.{minus_one, ℤ}
use chat_server_c.Base.Bytes.{codes, Bytes}
use chat_server_c.Base.Decimal.{IsInt, show_int, length-show_int_le}
use chat_server_c.Db.Statement.{
  IsClean, txt, dec, print_piece, print, pieces, lit, update_state, select_offline, select_members,
  select_member_ids, select_groups, select_friends, insert_user, insert_offline, insert_member,
  insert_group, insert_friend, delete_offline, Statement, Piece, select_user, render, Fits, IsPlain,
}
use chat_server_c.Base.Bytes.{c_str}

pub c_str-IsPlain : (s : Bytes) → IsPlain s → c_str s ≡ s
unfolding c_str
c_str-IsPlain [] h = refl
c_str-IsPlain (c ∷ s) h = ground (arith, c_str-IsPlain s h.1)

length-c_str_le : (s : Bytes) → length (c_str s) ≤ length s
unfolding c_str
length-c_str_le [] = omega arith
length-c_str_le (c ∷ s) = ground (arith, length-c_str_le s)

-- The length of a text that a format makes is the sum of its parts'.
abbrev length_piece : Piece → ℕ
length_piece (lit s) = length (codes s)
length_piece (dec z) = length (show_int z)
length_piece (txt s) = length (c_str s)

abbrev length_pieces : List Piece → ℕ
length_pieces [] = 0
length_pieces (p ∷ ps) = length_piece p + length_pieces ps

length-print_piece : (p : Piece) → length (print_piece p) ≡ length_piece p
length-print_piece (lit s) = refl
length-print_piece (dec z) = refl
length-print_piece (txt s) = refl

length-print : (ps : List Piece) → length (print ps) ≡ length_pieces ps
length-print [] = refl
length-print (p ∷ ps) =
    length-append (print_piece p) (print ps) ∙ ap₂ ◌+◌ (length-print_piece p) (length-print ps)

length-render : (s : Statement) → length (render s) ≡ length_pieces (pieces s)
unfolding render
length-render s = length-print (pieces s)

-- Statements whose arguments are numbers fit for every `int`.
pub select_user-Fits : (a : ℤ) → IsInt a → Fits (select_user a)
select_user-Fits a h = omega (arith, length-render (select_user a), length-show_int_le a h)

pub select_friends-Fits : (a : ℤ) → IsInt a → Fits (select_friends a)
select_friends-Fits a h = omega (arith, length-render (select_friends a), length-show_int_le a h)

pub select_offline-Fits : (a : ℤ) → IsInt a → Fits (select_offline a)
select_offline-Fits a h = omega (arith, length-render (select_offline a), length-show_int_le a h)

pub delete_offline-Fits : (a : ℤ) → IsInt a → Fits (delete_offline a)
delete_offline-Fits a h = omega (arith, length-render (delete_offline a), length-show_int_le a h)

pub select_groups-Fits : (a : ℤ) → IsInt a → Fits (select_groups a)
select_groups-Fits a h = omega (arith, length-render (select_groups a), length-show_int_le a h)

pub select_members-Fits : (a : ℤ) → IsInt a → Fits (select_members a)
select_members-Fits a h = omega (arith, length-render (select_members a), length-show_int_le a h)

pub select_member_ids-Fits : (a b : ℤ) → IsInt a → IsInt b → Fits (select_member_ids a b)
select_member_ids-Fits a b h k =
    omega
      (arith, length-render (select_member_ids a b), length-show_int_le a h, length-show_int_le b k)

pub insert_friend-Fits : (a b : ℤ) → IsInt a → IsInt b → Fits (insert_friend a b)
insert_friend-Fits a b h k =
    omega (arith, length-render (insert_friend a b), length-show_int_le a h, length-show_int_le b k)

pub insert_member-Fits :
    (a b : ℤ) (role : Bytes) → IsInt a → IsInt b → length role ≤ 900 → Fits (insert_member a b role)
insert_member-Fits a b role h k fits = omega (
  arith,
  length-render (insert_member a b role),
  length-show_int_le a h,
  length-show_int_le b k,
  length-c_str_le role,
)

pub update_state-Fits :
    (state : Bytes) (id : ℤ) → IsInt id → length state ≤ 900 → Fits (update_state state id)
update_state-Fits state id h fits =
    omega
      (arith, length-render (update_state state id), length-show_int_le id h, length-c_str_le state)

pub insert_user-Fits :
    (name password state : Bytes)
    → length name + length password + length state ≤ 961
    → Fits (insert_user name password state)
insert_user-Fits name password state fits = omega (
  arith,
  length-render (insert_user name password state),
  length-c_str_le name,
  length-c_str_le password,
  length-c_str_le state,
)

pub insert_group-Fits :
    (name desc : Bytes) → length name + length desc ≤ 963 → Fits (insert_group name desc)
insert_group-Fits name desc fits =
    omega
      (arith, length-render (insert_group name desc), length-c_str_le name, length-c_str_le desc)

pub insert_offline-Fits :
    (id : ℤ) (msg : Bytes) → IsInt id → length msg ≤ 973 → Fits (insert_offline id msg)
insert_offline-Fits id msg h fits =
    omega
      (arith, length-render (insert_offline id msg), length-show_int_le id h, length-c_str_le msg)

-- A message of 985 bytes or more does not fit, whoever it is for.
pub insert_offline_too_long :
    (id : ℤ) (msg : Bytes) → IsPlain msg → 985 ≤ length msg → ¬ Fits (insert_offline id msg)
insert_offline_too_long id msg plain long fits =
    omega (arith, length-render (insert_offline id msg), ap length (c_str-IsPlain msg plain))

-- The two states that the code writes need no escaping.
pub online-IsClean : (id : ℤ) → IsClean (update_state online id)
online-IsClean id = (tt, ((refl, (refl, (refl, (refl, (refl, (refl, tt)))))), (tt, (tt, tt))))

pub offline-IsClean : (id : ℤ) → IsClean (update_state offline id)
offline-IsClean id =
    (tt, ((refl, (refl, (refl, (refl, (refl, (refl, (refl, tt))))))), (tt, (tt, tt))))

pub insert_user-IsClean :
    (name pwd : Bytes) → IsPlain name → IsPlain pwd → IsClean (insert_user name pwd offline)
insert_user-IsClean name pwd plain_name plain_pwd =
    (tt, (plain_name, (tt, (plain_pwd, (tt, ((offline-IsClean minus_one).1.0, (tt, tt)))))))
