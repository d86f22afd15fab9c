-- ===== src/Examples/Mailbox.antt =====
-- The mailboxes of `ann` and `cat` in the server of Examples, and what reaches it at once.
use chat_server_c.Db.Statement.Bounds.{select_members-Fits}
use chat_server_c.Base.Decimal.{IsInt, show_int}
use mathlib.Core.List.Perm
use chat_server_c.Service.Chat.Faults.{notice_short}
use chat_server_c.Json.{int}
use chat_server_c.Service.Chat.Overtaken.{one_chat_overtaken, overtaken, Missed}
use chat_server_c.Service.Session.Racing.{login_twice, interleaved}
use chat_server_c.Protocol.{offline≢online, online}
use chat_server_c.Service.Mailbox.Traces.{after_turns, addressed_to, Trace, delivered}
use chat_server_c.Model.OfflineMsgModel.Effects.{waiting}
use chat_server_c.Base.{Perm}
use chat_server_c.Service.Mailbox.Sequences.{perform_turn, IsFor, AllRefine, for_each-Refines}
use chat_server_c.Examples.{
  all_plain, cat, can_log_in, request, three_users, login_ann, ann, world, chat_to, IsPlain-by_test,
}
use chat_server_c.Db.Tables.{set_state}
use chat_server_c.Service.Session.Welcome.{Welcomed}
use chat_server_c.Json.Sample.{sample_json}
use chat_server_c.Db.Server.Sample.{running, running-IsHealthy, Server}
use chat_server_c.Base.Int.{int_eq, ℤ, pos}
use chat_server_c.Service.World.{Conn, World}
use chat_server_c.Service.Mailbox.{Account, leaves, enters, is_out, chats, drops, Refines, Act}
use chat_server_c.Base.Outcome.{for_each, Returns}
use chat_server_c.Base.Bytes.{Bytes, codes, bytes_eq}
use chat_server_c.Base.Assoc.{find}
use chat_server_c.Base.{
  ◌==◌, ◌≤◌, length, true, sym, if◌then◌else◌, ◌⊎◌, subst, ℕ, inl, inr, refl, ◌++◌, arith, All,
  List, [], ◌∷◌, ◌≡◌, some, refl,
}

-- Both are out, and nobody is connected.
abbrev quiet_world : World Server
quiet_world = record world { conns = [] }

abbrev IsAnnOrCat : ℤ → Type 0
IsAnnOrCat id = (id ≡ pos 1) ⊎ (id ≡ pos 3)

abbrev whose : Conn → ℤ
whose conn = if conn == 10 then pos 1 else pos 3

abbrev their_password : ℤ → Bytes
their_password id = if int_eq id (pos 1) then codes "pa" else codes "pc"

abbrev their_account : ℤ → Account
their_account id =
    if int_eq id (pos 1) then is_out (codes "old" ∷ []) else is_out (codes "other" ∷ [])

abbrev some_turns : List (ℤ × Act sample_json)
some_turns =
    (pos 1, chats 20 (chat_to 1))
    ∷ (pos 1, enters 10 login_ann)
    ∷ (pos 3, chats 10 (chat_to 3))
    ∷ (pos 1, chats 20 (chat_to 1))
    ∷ (pos 1, drops 10)
    ∷ (pos 1, leaves 10 (request (pos 8) (("id", int (pos 1)) ∷ [])))
    ∷ []

ann_out : Refines (pos 1) (codes "pa") (is_out (codes "old" ∷ [])) [] three_users
unfolding find
ann_out = record {
  user = ann;
  row = refl;
  same_password = refl;
  place = (refl, offline≢online, Perm.refl (codes "old" ∷ []));
  fit = (select_members-Fits (pos 1) (omega arith), tt);
}

cat_out : Refines (pos 3) (codes "pc") (is_out (codes "other" ∷ [])) [] three_users
unfolding find
cat_out = record {
  user = cat;
  row = refl;
  same_password = refl;
  place = (refl, offline≢online, Perm.refl (codes "other" ∷ []));
  fit = (select_members-Fits (pos 1) (omega arith), tt);
}

both_out : AllRefine whose IsAnnOrCat their_password their_account quiet_world
both_out id (inl e) =
    subst (λ k. Refines k (their_password k) (their_account k) [] three_users) (sym e) ann_out
both_out id (inr e) =
    subst (λ k. Refines k (their_password k) (their_account k) [] three_users) (sym e) cat_out

chat-IsFor :
    (n : ℕ) (conn : Conn)
    → IsAnnOrCat (pos n)
    → IsInt (pos n)
    → length (show_int (pos n)) ≤ 4
    → all_plain (sample_json.dump (chat_to n)) ≡ true
    → length (sample_json.dump (chat_to n)) ≤ 973
    → IsFor whose IsAnnOrCat their_password (pos n, chats conn (chat_to n))
unfolding bytes_eq
chat-IsFor n conn known small digits plain fits = (
  known,
  (refl, IsPlain-by_test (sample_json.dump (chat_to n)) plain, fits),
  small,
  notice_short (pos n) digits,
)

some_turns-IsFor : All (IsFor whose IsAnnOrCat their_password) some_turns
unfolding bytes_eq show_int
some_turns-IsFor =
    let ann_short = notice_short (pos 1) (omega arith) in
    (
      chat-IsFor 1 20 (inl refl) (omega arith) (omega arith) refl (omega arith),
      (
        (inl refl, (refl, refl, refl), omega arith, ann_short),
        (
          chat-IsFor 3 10 (inr refl) (omega arith) (omega arith) refl (omega arith),
          (
            chat-IsFor 1 20 (inl refl) (omega arith) (omega arith) refl (omega arith),
            (
              (inl refl, (refl, λ h. cc h), omega arith, ann_short),
              ((inl refl, refl, omega arith, ann_short), tt),
            ),
          ),
        ),
      ),
    )

for_each-Refines_example :
    Returns
      (λ _ w'.
        AllRefine whose IsAnnOrCat their_password (after_turns some_turns their_account) w'
        × (t : Trace some_turns their_account quiet_world w') × ((j : ℤ)
            → IsAnnOrCat j
            → Perm
                (delivered j t ++ waiting j w'.store.tables)
                (waiting j three_users ++ addressed_to j some_turns)))
      (for_each some_turns perform_turn quiet_world)
for_each-Refines_example =
    for_each-Refines whose IsAnnOrCat their_password some_turns their_account quiet_world
      running-IsHealthy both_out (tt, tt) some_turns-IsFor

login_twice_example :
    Returns
      (λ _ w2.
        (w1 : World Server) × Welcomed 10 (pos 1) (set_state online ann) world w1
        × Welcomed 11 (pos 1) (set_state online ann) w1 w2
        × (find (pos 1) w2.conns ≡ some 10))
      (interleaved 10 11 (pos 1) (codes "pa") world)
unfolding find
login_twice_example =
    login_twice 10 11 (pos 1) ann world running-IsHealthy (omega arith) refl offline≢online
      can_log_in.5 refl

one_chat_overtaken_example :
    Returns
      (λ _ w2. Missed 20 10 (chat_to 1) (pos 1) ann world w2)
      (overtaken 20 (chat_to 1) 10 login_ann world)
unfolding bytes_eq find show_int
one_chat_overtaken_example =
    one_chat_overtaken 20 10 (chat_to 1) login_ann (pos 1) ann world running-IsHealthy can_log_in
      refl refl (IsPlain-by_test (sample_json.dump (chat_to 1)) refl) (omega arith)
      (notice_short (pos 1) (omega arith))
