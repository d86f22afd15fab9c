-- ===== src/Service/Mailbox/Traces.antt =====
-- What the handlers of several turns send, and the messages in it that each user gets.
use mathlib.Core.List.Perm
use chat_server_c.Service.World.{World}
use chat_server_c.Base.Bytes.{Bytes}
use chat_server_c.Service.Mailbox.{
  leaves, enters, drops, dropped, is_out, chats, after, addressed, kept, is_in, Shows, Account, Act,
}
use chat_server_c.Service.World.{Conn}
use chat_server_c.Db.Backend.{Backend}
use chat_server_c.Base.Int.{int_eq_iff, int_eq, ℤ}
use chat_server_c.Json.{JsonLib}
use chat_server_c.Base.{
  inr, Perm, subst, sym, inl, append_assoc, Bool-cases, append-nil, ◌++◌, if◌then◌else◌, List, Bool,
  true, false, [], ◌∷◌, ◌≡◌, refl, ◌==◌,
}

module _ ⦃J : JsonLib⦄ where
  open J use {dump}

  -- An act about the user with the id.
  abbrev pub Turn : Type 0
  Turn = ℤ × Act J

  abbrev pub after_turn : Turn → (ℤ → Account) → ℤ → Account
  after_turn (id, act) accounts j = if int_eq id j then after act (accounts j) else accounts j

  abbrev pub after_turns : List Turn → (ℤ → Account) → ℤ → Account
  after_turns [] accounts = accounts
  after_turns (turn ∷ turns) accounts = after_turns turns (after_turn turn accounts)

  abbrev pub addressed_to : ℤ → List Turn → List Bytes
  addressed_to j [] = []
  addressed_to j ((id, act) ∷ turns) =
      (if int_eq id j then addressed act else []) ++ addressed_to j turns

  kept-dropped : (b : Bool) (peer : Conn) → kept (dropped b peer) ≡ []
  kept-dropped true peer = refl
  kept-dropped false peer = refl

  module _ ⦃B : Backend⦄ where
    open B use {State}

    -- What goes out for one turn after the other.
    pub data Trace : List Turn → (ℤ → Account) → World State → World State → Type 0 where
      ended : (accounts : ℤ → Account) (w : World State) → Trace [] accounts w w
      followed :
          (id : ℤ) (act : Act J) (turns : List Turn) (accounts : ℤ → Account)
          (w w1 w2 : World State)
          → Shows id act (accounts id) w w1
          → Trace turns (after_turn (id, act) accounts) w1 w2
          → Trace ((id, act) ∷ turns) accounts w w2

    -- The messages for the user in what was sent: the message itself, or those that the answer to
    -- his login lists, in the order of the answer.
    abbrev pub got :
        (id : ℤ) (act : Act J) (a : Account) (w w' : World State) → Shows id act a w w' → List Bytes
    got id (chats conn js) (is_in peer) w w' s = dump js ∷ []
    got id (chats conn js) (is_out ms) w w' s = []
    got id (enters conn js) (is_in peer) w w' s = []
    got id (enters conn js) (is_out ms) w w' (u, listed, fs, gs, p, o) = listed
    got id (leaves conn js) a w w' s = []
    got id (drops conn) a w w' s = []

    -- The same for a user and all turns.
    abbrev pub delivered :
        {turns : List Turn} {accounts : ℤ → Account} {w w' : World State}
        → ℤ
        → Trace turns accounts w w'
        → List Bytes
    delivered j (ended accounts w) = []
    delivered j (followed id act turns accounts w w1 w2 s t) =
        (if int_eq id j then got id act (accounts id) w w1 s else []) ++ delivered j t

    got-kept :
        (id : ℤ) (act : Act J) (a : Account) (w w' : World State) (s : Shows id act a w w')
        → Perm (got id act a w w' s ++ kept (after act a)) (kept a ++ addressed act)
    got-kept id (chats conn js) (is_in peer) w w' s = Perm.refl (dump js ∷ [])
    got-kept id (chats conn js) (is_out ms) w w' s = Perm.refl (ms ++ dump js ∷ [])
    got-kept id (enters conn js) (is_in peer) w w' s = Perm.refl []
    got-kept id (enters conn js) (is_out ms) w w' (u, listed, fs, gs, p, o) = Perm.append_right [] p
    got-kept id (leaves conn js) (is_in peer) w w' s = Perm.refl []
    got-kept id (leaves conn js) (is_out ms) w w' s =
        subst (λ l. Perm ms l) (sym (append-nil ms)) (Perm.refl ms)
    got-kept id (drops conn) (is_in peer) w w' s =
        subst (λ l. Perm l []) (sym (kept-dropped (peer == conn) peer)) (Perm.refl [])
    got-kept id (drops conn) (is_out ms) w w' s =
        subst (λ l. Perm ms l) (sym (append-nil ms)) (Perm.refl ms)

    turn-kept :
        (j id : ℤ) (act : Act J) (accounts : ℤ → Account) (w w' : World State)
        (s : Shows id act (accounts id) w w')
        → Perm
            ((if int_eq id j then got id act (accounts id) w w' s else [])
              ++ kept (after_turn (id, act) accounts j))
            (kept (accounts j) ++ (if int_eq id j then addressed act else []))
    turn-kept j id act accounts w w' s = elim (Bool-cases (int_eq id j)) [
      | inl same ↦ rw same (
          subst
            (λ k.
              Perm (got id act (accounts id) w w' s ++ kept (after act (accounts k)))
                (kept (accounts k) ++ addressed act))
            ((int_eq_iff id j).0 same) (got-kept id act (accounts id) w w' s))
      | inr other ↦ rw other (
          subst (λ l. Perm (kept (accounts j)) l) (sym (append-nil (kept (accounts j))))
            (Perm.refl (kept (accounts j))))
    ]

    -- Nothing is lost and nothing comes twice.
    pub delivered-kept :
        (j : ℤ) (turns : List Turn) (accounts : ℤ → Account) (w w' : World State)
        (t : Trace turns accounts w w')
        → Perm
            (delivered j t ++ kept (after_turns turns accounts j))
            (kept (accounts j) ++ addressed_to j turns)
    delivered-kept j _ _ _ _ (ended accounts w) =
        subst (λ l. Perm (kept (accounts j)) l) (sym (append-nil (kept (accounts j))))
          (Perm.refl (kept (accounts j)))
    delivered-kept j _ _ _ _ (followed id act turns accounts w w1 w2 s t) =
        let now = if int_eq id j then got id act (accounts id) w w1 s else [] in
        let sent_now = if int_eq id j then addressed act else [] in
        let later = after_turn (id, act) accounts in
        let behind : Perm (now ++ (delivered j t ++ kept (after_turns turns later j)))
            (now ++ (kept (later j) ++ addressed_to j turns)) =
          Perm.append_left now (delivered-kept j turns later w1 w2 t) in
        let first : Perm ((now ++ kept (later j)) ++ addressed_to j turns)
            ((kept (accounts j) ++ sent_now) ++ addressed_to j turns) =
          Perm.append_right (addressed_to j turns) (turn-kept j id act accounts w w1 s) in
        subst (λ l. Perm l (kept (accounts j) ++ (sent_now ++ addressed_to j turns)))
          (sym (append_assoc now (delivered j t) (kept (after_turns turns later j))))
          (Perm.trans behind (
            subst (λ l. Perm l (kept (accounts j) ++ (sent_now ++ addressed_to j turns)))
              (append_assoc now (kept (later j)) (addressed_to j turns))
              (subst (λ l. Perm ((now ++ kept (later j)) ++ addressed_to j turns) l)
                (append_assoc (kept (accounts j)) sent_now (addressed_to j turns)) first)))
