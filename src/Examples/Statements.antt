-- ===== src/Examples/Statements.antt =====
-- Statements, groups and the table of handlers, in the server of Examples.
use chat_server_c.Model.GroupModel.Effects.{query_group-Groups}
use chat_server_c.Db.Backend.{IsHealthy}
use chat_server_c.Db.Statement.Escaping.{insert_user_collides}
use chat_server_c.Db.Server.Reading.{render-injective}
use chat_server_c.Service.Social.Groups.{create_group-Made, with_group}
use chat_server_c.Model.UserModel
use chat_server_c.Model.GroupModel
use chat_server_c.Model.UserModel.Effects.{query-Ends, Finds, NoRow}
use chat_server_c.Base.{◌⊎◌}
use chat_server_c.Service.Effects.{After}
use chat_server_c.Service.Social
use chat_server_c.Db.Statement.Bounds.{
  select_groups-Fits, select_user-Fits, insert_user-IsClean, select_members-Fits,
}
use chat_server_c.Db.Statement.{render, insert_user}
use chat_server_c.Base.Outcome.{Returns, Ends}
use chat_server_c.Json.{str, int}
use chat_server_c.Base.Bytes.{bytes_eq, codes}
use chat_server_c.Protocol.{new_group, offline}
use chat_server_c.Base.Int.{pos}
use chat_server_c.Base.{Perm, inr, arith, ◌≡◌, [], ◌∷◌}
use chat_server_c.Base.{refl}
use chat_server_c.Json.Sample.{sample_json, Doc}
use chat_server_c.Db.Server.Sample.{running, running-IsHealthy}
use chat_server_c.Examples.{ann, three_users, world, request, IsPlain-by_test}

abbrev new_club : Doc
new_club = request (pos 9) (
    ("id", int (pos 1)) ∷ ("groupname", str (codes "club")) ∷ ("groupdesc", str (codes "new")) ∷ [])

create_group-Made_example :
    Returns
      (λ _ w'. After world (with_group (pos 1) (codes "club") (codes "new") three_users) [] w')
      (Social.create_group 10 new_club world)
unfolding bytes_eq
create_group-Made_example =
    create_group-Made 10 new_club (pos 1) (codes "club") (codes "new") world running-IsHealthy refl
      refl refl (omega arith) (IsPlain-by_test (codes "club") refl)
      (IsPlain-by_test (codes "new") refl) (omega arith) (omega arith)

render-injective_example :
    insert_user (codes "dan") (codes "pd") offline ≡ insert_user (codes "dan") (codes "pd") offline
render-injective_example =
    render-injective (insert_user (codes "dan") (codes "pd") offline)
      (insert_user (codes "dan") (codes "pd") offline)
      (insert_user-IsClean (codes "dan") (codes "pd") (IsPlain-by_test (codes "dan") refl)
        (IsPlain-by_test (codes "pd") refl))
      (insert_user-IsClean (codes "dan") (codes "pd") (IsPlain-by_test (codes "dan") refl)
        (IsPlain-by_test (codes "pd") refl))
      refl

insert_user_collides_example :
    render (insert_user (codes "a' , 'b") (codes "c") offline)
    ≡ render (insert_user (codes "a") (codes "b' , 'c") offline)
insert_user_collides_example =
    insert_user_collides (codes "a") (codes "b") (codes "c") (refl, tt) (refl, tt) (refl, tt)
      offline

query-Ends_example :
    Ends
      (λ v st'. Finds (pos 1) three_users v × (st'.tables ≡ three_users))
      (λ f st'. NoRow (pos 1) three_users f st'.tables)
      (UserModel.query (pos 1) world.store)
query-Ends_example =
    query-Ends (pos 1) three_users world.store (select_user-Fits (pos 1) (omega arith))
      (inr (ann, refl)) refl

query_group-Groups_example :
    Returns
      (λ gs st'.
        (Perm gs (new_group (pos 1) (codes "g") (codes "all") ∷ [])
          ⊎ ((gs ≡ []) × ¬ IsHealthy running))
        × (st'.tables ≡ three_users))
      (GroupModel.query_group (pos 1) world.store)
query_group-Groups_example =
    query_group-Groups (pos 1) three_users world.store (select_groups-Fits (pos 1) (omega arith))
      (select_members-Fits (pos 1) (omega arith), tt) refl
