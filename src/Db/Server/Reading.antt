-- ===== src/Db/Server/Reading.antt =====
-- A clean statement is read back from its text.
use chat_server_c.Base.{
  suc, drop, ℕ, ◌≡◌, refl, List, [], ◌∷◌, ◌++◌, none, some, arith, All, zero, suc,
}
use chat_server_c.Base.Int.{pos}
use chat_server_c.Base.Bytes.{Bytes, codes}
use chat_server_c.Base.Decimal.{NotDigit, read_int-show_int}
use chat_server_c.Db.Statement.{
  Statement, insert_user, select_user, update_state, reset_state, insert_friend, select_friends,
  insert_offline, delete_offline, select_offline, insert_group, insert_member, select_groups,
  select_members, select_member_ids, Piece, lit, dec, txt, pieces, print, render, IsClean, IsPlain,
  PieceIsPlain,
}
use chat_server_c.Db.Statement.Bounds.{c_str-IsPlain}
use chat_server_c.Db.Server.{
  strip, until_quote, read_pieces, with_arguments, read_as, or_else, first_of_kinds, parse, kinds,
}

strip-append : (s t : Bytes) → strip s (s ++ t) ≡ some t
unfolding strip
strip-append [] t = refl
strip-append (c ∷ s) t = ground (arith, strip-append s t)

abbrev AtQuote : Bytes → Type 0
AtQuote [] = ⊥
AtQuote (c ∷ t) = c ≡ b'\''

until_quote-append : (s t : Bytes) → IsPlain s → AtQuote t → until_quote (s ++ t) ≡ (s, t)
unfolding until_quote
until_quote-append [] [] h q = absurd q
until_quote-append [] (c ∷ t) h q = ground arith
until_quote-append (c ∷ s) t h q = ground (arith, until_quote-append s t h.1 q)

-- Two formats differ in their arguments only, and the texts can be told from what follows them.
abbrev Fitting : List Piece → List Piece → Type 0
Fitting [] [] = Unit {0}
Fitting (lit s ∷ ps) (lit t ∷ qs) = (s ≡ t) × Fitting ps qs
Fitting (dec _ ∷ ps) (dec _ ∷ qs) = NotDigit (print qs) × Fitting ps qs
Fitting (txt _ ∷ ps) (txt _ ∷ qs) = AtQuote (print qs) × Fitting ps qs
Fitting _ _ = ⊥

read_pieces-print :
    (ps qs : List Piece) → Fitting ps qs → All PieceIsPlain qs → read_pieces ps (print qs) ≡ some qs
unfolding read_pieces
read_pieces-print [] [] f h = refl
read_pieces-print (lit s ∷ ps) (lit t ∷ qs) f h =
    rw (f.0, strip-append (codes t) (print qs), read_pieces-print ps qs f.1 h.1)
read_pieces-print (dec _ ∷ ps) (dec z ∷ qs) f h =
    rw (read_int-show_int z (print qs) f.0, read_pieces-print ps qs f.1 h.1)
read_pieces-print (txt _ ∷ ps) (txt s ∷ qs) f h =
    rw (
      c_str-IsPlain s h.0,
      until_quote-append s (print qs) h.0 f.0,
      read_pieces-print ps qs f.1 h.1,
    )
read_pieces-print _ _ f h = absurd f

read_as-render :
    (k s : Statement)
    → Fitting (pieces k) (pieces s)
    → IsClean s
    → with_arguments k (pieces s) ≡ some s
    → read_as k (render s) ≡ some s
unfolding read_as render
read_as-render k s f h e = rw (read_pieces-print (pieces k) (pieces s) f h) e

first_miss :
    (k : Statement) (ks : List Statement) (t : Bytes) {s : Statement}
    → read_as k t ≡ none
    → first_of_kinds ks t ≡ some s
    → first_of_kinds (k ∷ ks) t ≡ some s
unfolding first_of_kinds or_else
first_miss k ks t e h = rw e h

first_hit :
    (k : Statement) (ks : List Statement) (t : Bytes) {s : Statement}
    → read_as k t ≡ some s
    → first_of_kinds (k ∷ ks) t ≡ some s
unfolding first_of_kinds or_else
first_hit k ks t e = rw e

-- A kind behind `n` others that do not read the text.
abbrev Misses : ℕ → List Statement → Bytes → Type 0
Misses zero ks t = Unit {0}
Misses (suc n) [] t = Unit {0}
Misses (suc n) (k ∷ ks) t = (read_as k t ≡ none) × Misses n ks t

first_at :
    (n : ℕ) (ks : List Statement) (t : Bytes) {s : Statement}
    → Misses n ks t
    → first_of_kinds (drop n ks) t ≡ some s
    → first_of_kinds ks t ≡ some s
first_at zero ks t m h = h
first_at (suc n) [] t m h = h
first_at (suc n) (k ∷ ks) t m h = first_miss k ks t m.0 (first_at n ks t m.1 h)

-- The text of a clean statement is read back as that statement.
pub parse-render : (s : Statement) → IsClean s → parse (render s) ≡ some s
unfolding parse read_as read_pieces strip render with_arguments until_quote
parse-render (insert_user n p u) h = first_hit (insert_user [] [] []) _ _ (
    read_as-render (insert_user [] [] []) (insert_user n p u)
      (refl, (refl, (refl, (refl, (refl, (refl, (refl, tt))))))) h refl)
parse-render (select_user i) h =
    first_at 1 kinds _ (refl, tt)
      (first_hit (select_user (pos 0)) _ _
        (read_as-render (select_user (pos 0)) (select_user i) (refl, (tt, tt)) h refl))
parse-render (update_state u i) h =
    first_at 2 kinds _ (refl, (refl, tt))
      (first_hit (update_state [] (pos 0)) _ _ (
        read_as-render (update_state [] (pos 0)) (update_state u i) (refl, (refl, (refl, (tt, tt))))
          h refl))
parse-render reset_state h =
    first_at 3 kinds _ (refl, (refl, (refl, tt)))
      (first_hit reset_state _ _ (read_as-render reset_state reset_state (refl, tt) h refl))
parse-render (insert_friend i j) h =
    first_at 4 kinds _ (refl, (refl, (refl, (refl, tt))))
      (first_hit (insert_friend (pos 0) (pos 0)) _ _ (
        read_as-render (insert_friend (pos 0) (pos 0)) (insert_friend i j)
          (refl, (refl, (refl, (refl, (refl, tt))))) h refl))
parse-render (select_friends i) h =
    first_at 5 kinds _ (refl, (refl, (refl, (refl, (refl, tt)))))
      (first_hit (select_friends (pos 0)) _ _
        (read_as-render (select_friends (pos 0)) (select_friends i) (refl, (tt, tt)) h refl))
parse-render (insert_offline i m) h =
    first_at 6 kinds _ (refl, (refl, (refl, (refl, (refl, (refl, tt))))))
      (first_hit (insert_offline (pos 0) []) _ _ (
        read_as-render (insert_offline (pos 0) []) (insert_offline i m)
          (refl, (refl, (refl, (refl, (refl, tt))))) h refl))
parse-render (delete_offline i) h =
    first_at 7 kinds _ (refl, (refl, (refl, (refl, (refl, (refl, (refl, tt)))))))
      (first_hit (delete_offline (pos 0)) _ _
        (read_as-render (delete_offline (pos 0)) (delete_offline i) (refl, (tt, tt)) h refl))
parse-render (select_offline i) h =
    first_at 8 kinds _ (refl, (refl, (refl, (refl, (refl, (refl, (refl, (refl, tt))))))))
      (first_hit (select_offline (pos 0)) _ _
        (read_as-render (select_offline (pos 0)) (select_offline i) (refl, (tt, tt)) h refl))
parse-render (insert_group n d) h =
    first_at 9 kinds _ (refl, (refl, (refl, (refl, (refl, (refl, (refl, (refl, (refl, tt)))))))))
      (first_hit (insert_group [] []) _ _ (
        read_as-render (insert_group [] []) (insert_group n d)
          (refl, (refl, (refl, (refl, (refl, tt))))) h refl))
parse-render (insert_member g i r) h =
    first_at 10 kinds _
      (refl, (refl, (refl, (refl, (refl, (refl, (refl, (refl, (refl, (refl, tt))))))))))
      (first_hit (insert_member (pos 0) (pos 0) []) _ _ (
        read_as-render (insert_member (pos 0) (pos 0) []) (insert_member g i r)
          (refl, (refl, (refl, (refl, (refl, (refl, (refl, tt))))))) h refl))
parse-render (select_groups i) h =
    first_at 11 kinds _
      (refl, (refl, (refl, (refl, (refl, (refl, (refl, (refl, (refl, (refl, (refl, tt)))))))))))
      (first_hit (select_groups (pos 0)) _ _
        (read_as-render (select_groups (pos 0)) (select_groups i) (refl, (tt, tt)) h refl))
parse-render (select_members g) h =
    first_at 12 kinds _
      (
        refl,
        (refl, (refl, (refl, (refl, (refl, (refl, (refl, (refl, (refl, (refl, (refl, tt))))))))))),
      )
      (first_hit (select_members (pos 0)) _ _
        (read_as-render (select_members (pos 0)) (select_members g) (refl, (tt, tt)) h refl))
parse-render (select_member_ids g i) h =
    first_at 13 kinds _
      (
        refl,
        (
          refl,
          (
            refl,
            (refl, (refl, (refl, (refl, (refl, (refl, (refl, (refl, (refl, (refl, tt)))))))))),
          ),
        ),
      )
      (first_hit (select_member_ids (pos 0) (pos 0)) _ _ (
        read_as-render (select_member_ids (pos 0) (pos 0)) (select_member_ids g i)
          (refl, (refl, (refl, (tt, tt)))) h refl))

-- Two statements whose arguments need no escaping and whose texts are the same are the same
-- statement with the same arguments.
pub render-injective : (s t : Statement) → IsClean s → IsClean t → render s ≡ render t → s ≡ t
render-injective s t clean_s clean_t e = cc (parse-render s clean_s, parse-render t clean_t, e)
