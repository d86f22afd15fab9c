-- ===== src/Service/Mailbox/Frame.antt =====
-- What happens to one user leaves the others as they were.
use chat_server_c.Service.Session.Delivery.{keep-keep_other}
use chat_server_c.Model.OfflineMsgModel.Effects.{waiting}
use chat_server_c.Model.UserModel.Effects.{users_with}
use chat_server_c.Service.Session.Welcome.{logged_in}
use chat_server_c.Db.Statement.{update_state, insert_offline}
use chat_server_c.Base.Filter.{keep-update_where_ne, keep-append, update_where, keep}
use chat_server_c.Protocol.{online, offline, User}
use chat_server_c.Db.Tables.{message_for, set_state, groups_of, user_id_is, apply, Tables}
use chat_server_c.Service.World.{Conn}
use chat_server_c.Service.Mailbox.Apart.{IsApart, erase-IsApart, insert-IsApart}
use chat_server_c.Base.Bytes.{Bytes}
use chat_server_c.Base.Assoc.{is_some, find-insert, find-erase, find, insert, erase, Assoc}
use chat_server_c.Base.Int.{int_eq_iff, int_eq, int_eq_ne, ℤ}
use chat_server_c.Base.{
  some, true, false, sym, false, append-nil, ◌∙◌, if◌then◌else◌, map, Option, ap, Bool, ◌≢◌, List,
  [], ◌∷◌, ◌≡◌, refl,
}

-- The two states of map and tables look the same to every user but `id`.
pub record Frame (id : ℤ) (conns : Assoc Conn) (t : Tables) (conns' : Assoc Conn) (t' : Tables)
    : Type 0 where
  pub same_conn : (j : ℤ) → id ≢ j → find j conns' ≡ find j conns
  pub same_row : (j : ℤ) → id ≢ j → users_with j t' ≡ users_with j t
  pub same_waiting : (j : ℤ) → id ≢ j → waiting j t' ≡ waiting j t
  pub same_groups : (j : ℤ) → groups_of j t' ≡ groups_of j t
  pub still_apart :
      (owner : Conn → ℤ)
      → ((c : Conn) → find id conns' ≡ some c → owner c ≡ id)
      → IsApart owner conns
      → IsApart owner conns'

pub Frame-refl : (id : ℤ) (conns : Assoc Conn) (t : Tables) → Frame id conns t conns t
Frame-refl id conns t = record {
  same_conn = λ j ne. refl;
  same_row = λ j ne. refl;
  same_waiting = λ j ne. refl;
  same_groups = λ j. refl;
  still_apart = λ owner ours apart. apart;
}

other_row :
    (id j : ℤ) (s : Bytes) (us : List User)
    → id ≢ j
    → keep (user_id_is j) (update_where (user_id_is id) (set_state s) us) ≡ keep (user_id_is j) us
other_row id j s us ne =
    keep-update_where_ne (user_id_is j) (user_id_is id) (set_state s) us (λ u e.
      let off : int_eq u.id j ≡ false =
        int_eq_ne u.id j (λ k. ne (sym ((int_eq_iff u.id id).0 e) ∙ k)) in
      (off, off))

pub Frame-insert_offline :
    (id : ℤ) (msg : Bytes) (conns : Assoc Conn) (t : Tables)
    → Frame id conns t conns (apply (insert_offline id msg) t)
Frame-insert_offline id msg conns t = record {
  same_conn = λ j ne. refl;
  same_row = λ j ne. refl;
  same_waiting = λ j ne. ap (map (λ m. m.1)) (
      keep-append (message_for j) t.messages ((id, msg) ∷ [])
      ∙ rw (int_eq_ne id j ne) (append-nil (keep (message_for j) t.messages)));
  same_groups = λ j. refl;
  still_apart = λ owner ours apart. apart;
}

pub Frame-logged_in :
    (id : ℤ) (conn : Conn) (conns : Assoc Conn) (t : Tables)
    → Frame id conns t (insert id conn conns) (logged_in id t)
Frame-logged_in id conn conns t = record {
  same_conn = λ j ne.
      find-insert id j conn conns
      ∙ rw (int_eq_ne id j ne) (if_same (is_some (find id conns)) (find j conns));
  same_row = λ j ne. other_row id j online t.users ne;
  same_waiting = λ j ne. ap (map (λ m. m.1)) (keep-keep_other id j t.messages (int_eq_ne id j ne));
  same_groups = λ j. refl;
  still_apart = λ owner ours apart. insert-IsApart owner id conn conns ours apart;
}
  where
    if_same : (b : Bool) (o : Option Conn) → (if b then o else o) ≡ o
    if_same true o = refl
    if_same false o = refl

pub Frame-logged_out :
    (id : ℤ) (conns : Assoc Conn) (t : Tables)
    → Frame id conns t (erase id conns) (apply (update_state offline id) t)
Frame-logged_out id conns t = record {
  same_conn = λ j ne. find-erase id j conns ∙ rw (int_eq_ne id j ne) refl;
  same_row = λ j ne. other_row id j offline t.users ne;
  same_waiting = λ j ne. refl;
  same_groups = λ j. refl;
  still_apart = λ owner ours apart. erase-IsApart owner id conns apart;
}
