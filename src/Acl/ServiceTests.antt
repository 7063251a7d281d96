-- ===== src/Acl/ServiceTests.antt =====
-- A database with one policy and one group, and runs of the properties of the service on it.
use native.Mathlib.Omega.{arith}
use xolo_api.Base.{
  String, ◌≡◌, ◌≤◌, refl, ◌↔◌, Bool, true, false, [], ◌∷◌, filter, count, none, some,
}
use xolo_api.Exec.{ok}
use xolo_api.Platform.Collections.{All}
use xolo_api.Platform.Mongo.{in_memory}
use xolo_api.Platform.Pages.{PageResult}
use xolo_api.Platform.Text.{caseless}
use xolo_api.World.{Database, empty, World}
use xolo_api.Groups.Types.{SecurityGroup, GroupMember}
use xolo_api.Acl.Types.{user_principal, group_principal, manage, has, nothing, ResourcePolicy}
use xolo_api.Acl.Policy.{owner_grant, effective_permissions}
use xolo_api.Acl.Policy.Ownership.{IsValid}
use xolo_api.Acl.Repository.{is_policy, is_owned_by, is_shared_with}
use xolo_api.Acl.Principals.{permissions_of}
use xolo_api.Acl.Reading.{check, get_owned_resources_page, get_shared_resources_page}
use xolo_api.Acl.Effects.{policy_at, callers_of, Change}
use xolo_api.Acl.Requests.{
  Request, handle, handle-Change, Reached, start, next, Reached-IsOrderly, handle-elsewhere,
}
use xolo_api.Acl.Requests as Requests
use xolo_api.Acl.Deciding.{IsAllowed, check-IsAllowed}
use xolo_api.Acl.Guards.{handle-unmanaged}
use xolo_api.Acl.Listing.{IsPageOf, get_page-IsPageOf}

abbrev team : SecurityGroup
team = record {
  account_id = "acme";
  group_id = "team";
  name = "Team";
  owner_id = "ann";
  description = none;
  normalized_name = "team";
  is_active = true;
}

abbrev cal_in_team : GroupMember
cal_in_team = record { account_id = "acme"; group_id = "team"; user_id = "cal" }

abbrev start_db : Database
start_db = record empty { groups = team ∷ []; members = cal_in_team ∷ [] }

abbrev calm_world : Database → World
calm_world db = record { db = db; calls = 0; outage = λ _. false }

abbrev claim_doc : Request
claim_doc = record {
  account_id = "acme";
  resource_id = "doc";
  caller_id = "ann";
  is_admin = false;
  fresh = "g1";
  action = Requests.claim_resource "ann";
}

abbrev share_doc : Request
share_doc = record {
  account_id = "acme";
  resource_id = "doc";
  caller_id = "ann";
  is_admin = false;
  fresh = "g2";
  action = Requests.grant (some "team") group_principal ("read" ∷ []) none none;
}

-- the same request from one who may only read
abbrev widen_doc : Request
widen_doc = record share_doc {
  caller_id = "cal";
  fresh = "g3";
  action = Requests.update_grant_permissions "g2" ("read" ∷ "sys:manage" ∷ []);
}

-- the policy after the first two requests
abbrev doc : ResourcePolicy
doc = record {
  account_id = "acme";
  resource_id = "doc";
  grants =
      owner_grant "g1" (record { type = user_principal; id = "ann" })
      ∷ record {
        grant_id = "g2";
        principal = record { type = group_principal; id = "team" };
        permissions = record nothing { has_read = true };
        is_owner = false;
      }
      ∷ [];
}

abbrev shared_db : Database
shared_db = record start_db { policies = doc ∷ [] }

after_claim : World
after_claim = handle ⦃mongo = in_memory⦄ ⦃unicode = caseless⦄ false claim_doc (calm_world start_db)

after_share : World
after_share = handle ⦃mongo = in_memory⦄ ⦃unicode = caseless⦄ false share_doc after_claim

shared_now : after_share.db ≡ shared_db
unfolding after_share handle xolo_api.Acl.Service.grant xolo_api.Exec.◌>>=◌ xolo_api.World.query
    after_claim xolo_api.Acl.Service.claim_resource xolo_api.Acl.Policy.claim xolo_api.World.command
    xolo_api.Platform.Text.strip xolo_api.Acl.Policy.grant
shared_now = refl

handle-Change_example :
    Change ⦃mongo = in_memory⦄ "g2" "acme" "doc" "ann" false after_claim.db after_share.db
unfolding after_share handle
handle-Change_example =
    handle-Change ⦃mongo = in_memory⦄ ⦃unicode = caseless⦄ false share_doc after_claim

Reached-IsOrderly_example :
    All (λ p. IsValid p.grants) after_share.db.policies
    × ((account_id resource_id : String)
        → count (is_policy account_id resource_id) after_share.db.policies ≤ 1)
unfolding handle after_claim xolo_api.Acl.Service.claim_resource xolo_api.Exec.◌>>=◌
    xolo_api.World.query xolo_api.Acl.Policy.claim xolo_api.World.command after_share
    xolo_api.Acl.Service.grant
Reached-IsOrderly_example = Reached-IsOrderly ⦃mongo = in_memory⦄ ⦃unicode = caseless⦄ false (
    next share_doc after_claim (next claim_doc (calm_world start_db) (start start_db refl) tt)
      (refl, tt))

handle-elsewhere_example :
    policy_at
      (handle ⦃mongo = in_memory⦄ ⦃unicode = caseless⦄ false
        (record claim_doc { resource_id = "plan" })
        (calm_world shared_db)).db
      "acme"
      "doc"
    ≡ policy_at shared_db "acme" "doc"
handle-elsewhere_example =
    handle-elsewhere ⦃mongo = in_memory⦄ ⦃unicode = caseless⦄ false
      (record claim_doc { resource_id = "plan" }) (calm_world shared_db) "acme" "doc" refl

cal_reads :
    (check ⦃mongo = in_memory⦄ "acme" "cal" "doc"
      ("read" ∷ [])
      user_principal
      (calm_world shared_db)).0
    ≡ ok true
unfolding check xolo_api.Exec.◌>>=◌ xolo_api.World.query xolo_api.Acl.Policy.check
cal_reads = refl

read_known : permissions_of ("read" ∷ []) ≡ some (record nothing { has_read = true })
unfolding permissions_of
read_known = refl

check-IsAllowed_example :
    (b : Bool) × ((check ⦃mongo = in_memory⦄ "acme" "cal" "doc"
        ("read" ∷ [])
        user_principal
        (calm_world shared_db)).0
      ≡ ok b)
    × ((b ≡ true) ↔ IsAllowed "acme" "cal" "doc" (record nothing { has_read = true }) shared_db)
check-IsAllowed_example =
    check-IsAllowed ⦃mongo = in_memory⦄ "acme" "cal" "doc" ("read" ∷ [])
      (record nothing { has_read = true }) read_known (calm_world shared_db) (λ _. refl)

cal_only :
    has manage
      (effective_permissions (callers_of ⦃mongo = in_memory⦄ false "acme" "cal" doc shared_db) doc)
    ≡ false
unfolding effective_permissions
cal_only = refl

cal_reads_only :
    (policy : ResourcePolicy)
    → policy_at shared_db "acme" "doc" ≡ some policy
    → has manage (
        effective_permissions
          (callers_of ⦃mongo = in_memory⦄ false "acme" "cal" policy shared_db)
          policy)
      ≡ false
cal_reads_only policy e = let same : policy ≡ doc = ground (arith, e) in rw same cal_only

handle-unmanaged_example :
    (handle ⦃mongo = in_memory⦄ ⦃unicode = caseless⦄ false widen_doc (calm_world shared_db)).db
    ≡ shared_db
handle-unmanaged_example =
    handle-unmanaged ⦃mongo = in_memory⦄ ⦃unicode = caseless⦄ false widen_doc (calm_world shared_db)
      refl refl cal_reads_only

get_page-IsPageOf_example :
    ((r : PageResult ResourcePolicy) × ((get_owned_resources_page ⦃mongo = in_memory⦄ "acme" "ann" 1
          10
          (calm_world shared_db)).0
        ≡ ok r)
      × IsPageOf (filter (is_owned_by "acme" "ann") shared_db.policies) 0 10 r)
    × ((r : PageResult ResourcePolicy) × ((get_shared_resources_page ⦃mongo = in_memory⦄ "acme"
            ("cal" ∷ "team" ∷ [])
            []
            1
            10
            (calm_world shared_db)).0
          ≡ ok r)
        × IsPageOf
            (filter (is_shared_with "acme" ("cal" ∷ "team" ∷ []) []) shared_db.policies)
            0
            10
            r)
get_page-IsPageOf_example =
    get_page-IsPageOf ⦃mongo = in_memory⦄ "acme" "ann" ("cal" ∷ "team" ∷ []) [] 0 9
      (calm_world shared_db) (λ _. refl)
