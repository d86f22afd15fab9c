-- ===== src/Service/Social/Groups.antt =====
-- What `createGroup`, `addGroup` and `addFriend` do to the tables.
use chat_server_c.Db.Calls.Effects.{Sent-apply}
use chat_server_c.Db.Statement.Bounds.{insert_member-Fits, insert_group-Fits}
use chat_server_c.Protocol.{new_group}
use chat_server_c.Base.Outcome.{Returns}
use chat_server_c.Base.Decimal.{IsInt}
use chat_server_c.Service.World.{on_store-last, on_store-Returns, World, Conn}
use chat_server_c.Db.Tables.{apply, Tables}
use chat_server_c.Db.Backend.{IsHealthy, Backend}
use chat_server_c.Base.Bytes.{codes, Bytes}
use chat_server_c.Json.{get_str_lem, get_int_lem, str, int, JsonLib}
use chat_server_c.Db.Statement.{insert_group, insert_member, IsClean, IsPlain}
use chat_server_c.Base.Int.{to_int_small, minus_one, pos, ℤ}
use chat_server_c.Base.{append-nil, sym, arith, [], ◌^◌, ◌<◌, ◌≤◌, ◌+◌, length, ◌≡◌, refl, some}
use chat_server_c.Service.Effects.{After}
use chat_server_c.Model.GroupModel
use chat_server_c.Model.GroupModel.Effects.{create_group-Written, add_group-Sent}
use chat_server_c.Service.Social.{create_group}

-- The tables with a new group and its creator in it.
abbrev pub with_group : ℤ → Bytes → Bytes → Tables → Tables
with_group userid name desc t =
    apply (insert_member (pos t.next_group) userid (codes "creator"))
      (apply (insert_group name desc) t)

insert_member-IsClean : (a b : ℤ) (role : Bytes) → IsPlain role → IsClean (insert_member a b role)
insert_member-IsClean a b role plain = (tt, (tt, (tt, (tt, (tt, (plain, (tt, tt)))))))

creator-IsPlain : IsPlain (codes "creator")
creator-IsPlain = (refl, (refl, (refl, (refl, (refl, (refl, (refl, tt)))))))

module _ ⦃J : JsonLib⦄ ⦃B : Backend⦄ where
  open J use {Json, get, put, dump}
  open B use {State, tables}

  -- On a backend where nothing fails, for an `int` id, a name and a description that need no
  -- escaping and have at most 963 bytes together, and a next key below 2^31: `createGroup`
  -- returns, and there is one more group, with the next key, and one more member, its creator;
  -- nothing is sent.
  pub create_group-Made :
      (conn : Conn) (js : Json) (userid : ℤ) (name desc : Bytes) (w : World State)
      → IsHealthy B
      → get js "id" ≡ some (int userid)
      → get js "groupname" ≡ some (str name)
      → get js "groupdesc" ≡ some (str desc)
      → IsInt userid
      → IsPlain name
      → IsPlain desc
      → length name + length desc ≤ 963
      → (tables w.store).next_group < 2 ^ 31
      → Returns
          (λ _ w'. After w (with_group userid name desc (tables w.store)) [] w')
          (create_group conn js w)
  unfolding create_group
  create_group-Made conn js userid name desc w healthy has_id has_name has_desc small plain_name
        plain_desc short room =
      let t = tables w.store in
      rw
        (
          get_int_lem js "id" userid has_id,
          get_str_lem js "groupname" name has_name,
          get_str_lem js "groupdesc" desc has_desc,
        )
        (on_store-Returns _ _ _ w (GroupModel.create_group (new_group minus_one name desc) w.store)
          (create_group-Written (new_group minus_one name desc) t w.store
            (tt, (plain_name, (tt, (plain_desc, (tt, tt))))) (insert_group-Fits name desc short)
            refl)
          (λ r st h.
            rw (h.1, h.0.healthy healthy, to_int_small t.next_group room)
              (on_store-last (λ _ _. ⊥) _ (record w { store = st })
                (GroupModel.add_group userid (pos t.next_group) (codes "creator") st)
                (add_group-Sent userid (pos t.next_group) (codes "creator")
                  (apply (insert_group name desc) t) st
                  (insert_member-IsClean (pos t.next_group) userid (codes "creator")
                    creator-IsPlain)
                  (insert_member-Fits (pos t.next_group) userid (codes "creator") room small
                    (omega arith))
                  (h.0.applied (h.0.healthy healthy)))
                (λ _ st' s. record {
                  conns_now = refl;
                  tables_now = Sent-apply _ _ _ healthy s;
                  out_now = sym (append-nil w.out);
                }))))
