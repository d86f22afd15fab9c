-- ===== src/Service/Mailbox/Sequences.antt =====
-- Any sequence of messages, logins, logouts and lost connections of any of the users.
use mathlib.Core.Bool.{false≢true}
use chat_server_c.Db.Statement.{select_members, Fits}
use chat_server_c.Service.Mailbox.Simulation.{perform-Refines}
use chat_server_c.Service.Chat.{notice_size, notice}
use chat_server_c.Service.Mailbox.Owners.{Frame-IsApart}
use chat_server_c.Service.Mailbox.Traces.{
  Turn, after_turn, after_turns, addressed_to, Trace, ended, followed, delivered, delivered-kept,
}
use mathlib.Core.List.Perm
use chat_server_c.Model.OfflineMsgModel.Effects.{waiting}
use chat_server_c.Service.Mailbox.Frame.{Frame}
use chat_server_c.Service.Mailbox.Apart.{IsApart}
use chat_server_c.Db.Tables.{Tables}
use chat_server_c.Protocol.{User}
use chat_server_c.Base.Decimal.{IsInt}
use chat_server_c.Service.World.{Conn, World}
use chat_server_c.Base.Outcome.{Ends-mono, next-Returns, Returns, for_each}
use chat_server_c.Base.Assoc.{Assoc}
use chat_server_c.Service.Session.{Run}
use chat_server_c.Base.Bytes.{Bytes}
use chat_server_c.Service.Mailbox.{
  is_out, FitsPlace, after, kept, is_in, Refines, perform, IsAbout, Account, Act,
}
use chat_server_c.Db.Backend.{IsHealthy, Backend}
use chat_server_c.Base.Int.{int_eq_iff, int_eq, ℤ}
use chat_server_c.Json.{JsonLib}
use chat_server_c.Base.{
  inr, Perm, subst, ◌∙◌, ◌<◌, inl, Bool-cases, ◌≢◌, length, sym, All, ◌++◌, List, [], ◌∷◌,
}

module _ ⦃J : JsonLib⦄ ⦃B : Backend⦄ where
  open B use {State, tables}

  abbrev pub perform_turn : Turn → Run
  perform_turn (id, act) = perform act

  Frame-Refines :
      (id j : ℤ) (pwd : Bytes) (a : Account) (conns conns' : Assoc Conn) (t t' : Tables)
      → id ≢ j
      → Frame id conns t conns' t'
      → Refines j pwd a conns t
      → Refines j pwd a conns' t'
  Frame-Refines id j pwd a conns conns' t t' ne f r = record {
    user = r.user;
    row = f.same_row j ne ∙ r.row;
    same_password = r.same_password;
    place = moved a r.place;
    fit = subst (All (λ g. Fits (select_members g.id))) (sym (f.same_groups j)) r.fit;
  }
    where
      moved : (b : Account) → FitsPlace j b r.user conns t → FitsPlace j b r.user conns' t'
      moved (is_in peer) (here, on, nothing) =
          (f.same_conn j ne ∙ here, on, f.same_waiting j ne ∙ nothing)
      moved (is_out ms) (away, off, waits) =
          (f.same_conn j ne ∙ away, off, subst (λ l. Perm l ms) (sym (f.same_waiting j ne)) waits)

  -- What is stored for a user is what his account keeps.
  waits-kept :
      (id : ℤ) (a : Account) (u : User) (conns : Assoc Conn) (t : Tables)
      → FitsPlace id a u conns t
      → Perm (waiting id t) (kept a)
  waits-kept id (is_in peer) u conns t h = subst (λ l. Perm l []) (sym h.2) (Perm.refl [])
  waits-kept id (is_out ms) u conns t h = h.2

  module _ (owner : Conn → ℤ) (Known : ℤ → Type 0) (password : ℤ → Bytes) where
    -- The server keeps the account of every user that is considered.
    abbrev pub AllRefine : (ℤ → Account) → World State → Type 0
    AllRefine accounts w =
        (id : ℤ) → Known id → Refines id (password id) (accounts id) w.conns (tables w.store)

    -- The turn is about such a user, with a short id.
    abbrev pub IsFor : Turn → Type 0
    IsFor (id, act) =
        Known id
        × IsAbout owner id (password id) act
        × IsInt id
        × (length (notice id) < notice_size)

    turn-AllRefine :
        (id : ℤ) (act : Act J) (accounts : ℤ → Account) (w w' : World State)
        → AllRefine accounts w
        → Refines id (password id) (after act (accounts id)) w'.conns (tables w'.store)
        → Frame id w.conns (tables w.store) w'.conns (tables w'.store)
        → AllRefine (after_turn (id, act) accounts) w'
    turn-AllRefine id act accounts w w' before r f j known = elim (Bool-cases (int_eq id j)) [
      | inl same ↦ rw same (
          subst (λ k. Refines k (password k) (after act (accounts k)) w'.conns (tables w'.store))
            ((int_eq_iff id j).0 same) r)
      | inr other ↦ rw other (
          Frame-Refines id j (password j) (accounts j) w.conns w'.conns (tables w.store)
            (tables w'.store) (λ e. false≢true (sym other ∙ (int_eq_iff id j).1 e)) f
            (before j known))
    ]

    -- On a backend where nothing fails, for any set of users whose only rows, entries in
    -- `_userConnMap` and stored messages agree with an account each, where each entry has a
    -- connection of the user's own and no id has two, and any sequence of messages to them,
    -- logins with their passwords on their own connections, logouts, and losses of their own
    -- connections by users other than -1, for `int` ids with short notices and messages without
    -- need of escaping and of at most 973 bytes: no handler ends the process; behind the last one
    -- every user's row, entry and stored messages agree with what his account has become; each
    -- handler sends what the account says; and for every such user, the messages in what was sent
    -- to him and those that are stored for him at the end are those that were stored at the start
    -- and those that the sequence addressed to him, each as often, in some order.
    pub for_each-Refines :
        (turns : List Turn) (accounts : ℤ → Account) (w : World State)
        → IsHealthy B
        → AllRefine accounts w
        → IsApart owner w.conns
        → All IsFor turns
        → Returns
            (λ _ w'.
              AllRefine (after_turns turns accounts) w'
              × (t : Trace turns accounts w w') × ((j : ℤ)
                  → Known j
                  → Perm
                      (delivered j t ++ waiting j (tables w'.store))
                      (waiting j (tables w.store) ++ addressed_to j turns)))
            (for_each turns perform_turn w)
    unfolding for_each
    for_each-Refines turns accounts w healthy before apart about =
        Ends-mono (for_each turns perform_turn w) (runs turns accounts w before apart about)
          (λ _ w' (all, t). (all, t, λ j known. nothing_lost w' all t j known))
          (λ _ _ no_fault. no_fault)
      where
        nothing_lost :
            (w' : World State)
            → AllRefine (after_turns turns accounts) w'
            → (t : Trace turns accounts w w') → (j : ℤ) → Known j
            → Perm
                (delivered j t ++ waiting j (tables w'.store))
                (waiting j (tables w.store) ++ addressed_to j turns)
        nothing_lost w' all t j known =
            let now = after_turns turns accounts j in
            Perm.trans
              (Perm.append_left (delivered j t) (
                waits-kept j now (all j known).user w'.conns (tables w'.store) (all j known).place))
              (Perm.trans (delivered-kept j turns accounts w w' t) (
                Perm.append_right (addressed_to j turns) (
                  Perm.symm (
                    waits-kept j (accounts j) (before j known).user w.conns (tables w.store)
                      (before j known).place))))

        runs :
            (ts : List Turn) (accts : ℤ → Account) (v : World State)
            → AllRefine accts v
            → IsApart owner v.conns
            → All IsFor ts
            → Returns
                (λ _ w'. AllRefine (after_turns ts accts) w' × Trace ts accts v w')
                (for_each ts perform_turn v)
        runs [] accts v before apart about = (before, ended accts v)
        runs ((id, act) ∷ ts) accts v before apart ((known, h, small, short), about) =
            next-Returns _ _ _ (perform act v)
              (perform-Refines owner id (password id) healthy small short act (accts id) v
                (before id known) apart h)
              (λ _ v1 (r, shown, f).
                Ends-mono (for_each ts perform_turn v1)
                  (runs ts (after_turn (id, act) accts) v1
                    (turn-AllRefine id act accts v v1 before r f)
                    (Frame-IsApart owner id (password id) act (accts id) v v1 h (before id known) r
                      f apart)
                    about)
                  (λ _ w' (all, t). (all, followed id act ts accts v v1 w' shown t))
                  (λ _ _ no_fault. no_fault))
