-- ===== src/Groups/Tests.antt =====
-- Two groups with a member, and runs of the properties of groups on them.
use xolo_api.Base.{◌≡◌, refl, true, false, ◌||◌, [], ◌∷◌, count, ℕ, Bool, leb, ◌&&◌}
use xolo_api.Errors.{database}
use xolo_api.Exec.{err}
use xolo_api.Platform.Mongo.{in_memory}
use xolo_api.Platform.Text.{caseless}
use xolo_api.World.{Database, empty, World}
use xolo_api.Groups.Repository as Repository
use xolo_api.Groups.Repository.{Server, is_membership}
use xolo_api.Groups.Invariant.{IsTidy, has_name}
use xolo_api.Groups.Requests.{Request, handle, Reached, start, next, Reached-IsTidy}
use xolo_api.Groups.Requests as Requests

abbrev calm_world : Database → World
calm_world db = record { db = db; calls = 0; outage = λ _. false }

abbrev replica_set : Server
replica_set = record { has_transactions = true; reruns = λ _. false }

abbrev make_team : Request
make_team = Requests.create_group "1" "acme" "ann" "  Red   Team " ""

abbrev with_team : World
with_team =
    handle ⦃mongo = in_memory⦄ ⦃unicode = caseless⦄ false true replica_set make_team
      (calm_world empty)

abbrev invite : Request
invite = Requests.add_members "acme" "ann" "g-1" ("bob" ∷ "cal" ∷ "bob" ∷ []) []

abbrev with_members : World
with_members =
    handle ⦃mongo = in_memory⦄ ⦃unicode = caseless⦄ false true replica_set invite with_team

test_create : count (has_name "acme" "Red Team") with_team.db.groups ≡ 1
unfolding handle xolo_api.Groups.Service.create_group xolo_api.Exec.◌>>=◌ xolo_api.World.query
    xolo_api.World.command
test_create = refl

test_create_again :
    count
      (has_name "acme" "Red Team")
      (handle ⦃mongo = in_memory⦄ ⦃unicode = caseless⦄ false true replica_set
        (Requests.create_group "2" "acme" "bob" "Red Team" "")
        with_team).db.groups
    ≡ 1
unfolding handle xolo_api.Groups.Service.create_group xolo_api.Exec.◌>>=◌ xolo_api.World.query
    xolo_api.World.command
test_create_again = refl

test_invite : count (is_membership "acme" "g-1" "bob") with_members.db.members ≡ 1
unfolding handle xolo_api.Groups.Members.add_members xolo_api.Exec.◌>>=◌ xolo_api.World.query
    xolo_api.Groups.Service.create_group xolo_api.World.command
test_invite = refl

test_not_owner :
    (handle ⦃mongo = in_memory⦄ ⦃unicode = caseless⦄ false true replica_set
      (Requests.add_members "acme" "bob" "g-1" ("bob" ∷ []) [])
      with_team).db.members
    ≡ []
unfolding handle xolo_api.Groups.Members.add_members xolo_api.Exec.◌>>=◌ xolo_api.World.query
    xolo_api.Groups.Service.create_group xolo_api.World.command
test_not_owner = refl

Reached-IsTidy_example : IsTidy with_members.db
Reached-IsTidy_example =
    Reached-IsTidy ⦃mongo = in_memory⦄ ⦃unicode = caseless⦄ false true replica_set
      (next invite with_team (next make_team (calm_world empty) (start empty refl refl)))

abbrev is_call : ℕ → ℕ → Bool
is_call m n = leb m n && leb n m

-- an outage at the second call of the transaction, which is made again, and one at the second call then
abbrev troubled : World
troubled = record with_members { calls = 0; outage = λ n. is_call 1 n || is_call 3 n }

test_made_again :
    (Repository.add_members_atomic ⦃mongo = in_memory⦄
      (record { has_transactions = true; reruns = is_call 2 })
      "acme"
      "g-1"
      ("dan" ∷ "eve" ∷ [])
      troubled).0
    ≡ err database
unfolding Repository.add_members_atomic xolo_api.Exec.◌>>=◌ xolo_api.World.command
test_made_again = refl

test_first_stays :
    count
      (is_membership "acme" "g-1" "dan")
      (Repository.add_members_atomic ⦃mongo = in_memory⦄
        (record { has_transactions = true; reruns = is_call 2 })
        "acme"
        "g-1"
        ("dan" ∷ "eve" ∷ [])
        troubled).1.db.members
    ≡ 1
unfolding Repository.add_members_atomic xolo_api.Exec.◌>>=◌ xolo_api.World.command handle
    xolo_api.Groups.Members.add_members xolo_api.World.query xolo_api.Groups.Service.create_group
test_first_stays = refl
