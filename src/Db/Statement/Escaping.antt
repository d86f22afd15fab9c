-- ===== src/Db/Statement/Escaping.antt =====
-- What the arguments of a statement may do to it: nothing escapes them.
use chat_server_c.Base.Bytes.{codes, Bytes, HasNoNul, c_str-HasNoNul}
use chat_server_c.Base.{sym, ◌∙◌, ap, [], ◌∷◌, All-append, ◌≡◌, ◌++◌, refl, append_assoc}
use chat_server_c.Db.Statement.{insert_user, render, txt, lit, print}

-- What ends a name and begins a password.
abbrev pub middle : Bytes
middle = codes "' , '"

middle-HasNoNul : HasNoNul middle
middle-HasNoNul = (refl, (refl, (refl, (refl, (refl, tt)))))

join-HasNoNul : (a b : Bytes) → HasNoNul a → HasNoNul b → HasNoNul (a ++ middle ++ b)
join-HasNoNul a b ha hb = All-append _ (a ++ middle) b (All-append _ a middle ha middle-HasNoNul) hb

in_three : (a b r : Bytes) → (a ++ middle ++ b) ++ r ≡ a ++ (middle ++ (b ++ r))
in_three a b r = append_assoc (a ++ middle) b r ∙ append_assoc a middle (b ++ r)

-- For any name, middle part and password without NUL: the registration of the name followed by a
-- quote, a comma, a quote and the part, and that of the name alone with the part, a quote, a
-- comma, a quote and the password as password, send the same text.
pub insert_user_collides :
    (name part password : Bytes)
    → HasNoNul name
    → HasNoNul part
    → HasNoNul password
    → (state : Bytes)
    → render (insert_user (name ++ middle ++ part) password state)
      ≡ render (insert_user name (part ++ middle ++ password) state)
unfolding render
insert_user_collides name part password hn hp hw state =
    rw
      (
        c_str-HasNoNul (name ++ middle ++ part) (join-HasNoNul name part hn hp),
        c_str-HasNoNul (part ++ middle ++ password) (join-HasNoNul part password hp hw),
        c_str-HasNoNul name hn,
        c_str-HasNoNul password hw,
      )
      (ap (λ x. codes "insert into user(name,password,state) values('" ++ x)
        (in_three name part (middle ++ (password ++ end))
          ∙ sym (ap (λ x. name ++ (middle ++ x)) (in_three part password end))))
  where
    end : Bytes
    end = print (lit "' , '" ∷ txt state ∷ lit "')" ∷ [])
