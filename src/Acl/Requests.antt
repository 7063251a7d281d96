-- ===== src/Acl/Requests.antt =====
-- The requests that change resource policies, one after the other, and what holds after all of them.
use xolo_api.Base.{String, ◌≤◌, count, ◌==◌, arith, ◌≡◌, refl, Bool, false, ◌&&◌, List, [], Option}
use xolo_api.Platform.Mongo.{Mongo}
use xolo_api.Platform.Text.{Unicode, strip}
use xolo_api.World.{Database, World}
use xolo_api.Platform.Collections.{All, All-map}
use xolo_api.Acl.Types.{PrincipalType}
use xolo_api.Acl.Policy.Ownership.{IsValid}
use xolo_api.Acl.Policy.Lifecycle as Lifecycle
use xolo_api.Acl.Repository.{is_policy}
use xolo_api.Acl.Invariant.{IsGoverned, IsFresh, Change-IsGoverned, Change-elsewhere}
use xolo_api.Acl.Service as Service
use xolo_api.Acl.Effects.{policy_at, Change}
use xolo_api.Acl.Effects.Operations as Operations
use xolo_api.Acl.Effects.Lifetime as Lifetime

-- the arguments of an operation, in its order, without the caller
pub data Action : Type 0 where
  create_resource : PrincipalType → String → Action
  claim_resource : String → Action
  claim_resource_for_principal : String → PrincipalType → Action
  transfer_owner : String → PrincipalType → Option (List String) → Action
  grant : Option String → PrincipalType → List String → Option String → Option String → Action
  revoke : Option String → List String → PrincipalType → Option String → Option String → Action
  revoke_grant : String → Action
  update_grant_permissions : String → List String → Action
  delete_resource : Action

-- what is asked of one resource, and by whom
pub record Request : Type 0 where
  pub account_id : String
  pub resource_id : String
  pub caller_id : String
  pub is_admin : Bool
  -- the grant id that the operation draws, if it adds a grant
  pub fresh : String
  pub action : Action

-- a creation cleans the resource id that it is given
abbrev pub resource_of : Action → String → String
resource_of (create_resource _ _) resource_id = strip resource_id
resource_of _ resource_id = resource_id

module _ ⦃mongo : Mongo⦄ ⦃unicode : Unicode⦄ (users : Bool) where
  unfoldable pub act : Action → String → String → String → String → Bool → World → World
  act (create_resource t o) fresh a r c m w = (Service.create_resource users fresh a r t o w).1
  act (claim_resource u) fresh a r c m w = (Service.claim_resource fresh a u r w).1
  act (claim_resource_for_principal p t) fresh a r c m w =
      (Service.claim_resource_for_principal fresh a p t r w).1
  act (transfer_owner p t k) fresh a r c m w = (Service.transfer_owner fresh a r p t k w).1
  act (grant p t ps u i) fresh a r c m w = (Service.grant users fresh a c r p t ps u i m w).1
  act (revoke p ps t u i) fresh a r c m w = (Service.revoke users a c r p ps t u i m w).1
  act (revoke_grant g) fresh a r c m w = (Service.revoke_grant a r g c m w).1
  act (update_grant_permissions g ps) fresh a r c m w =
      (Service.update_grant_permissions a r g ps c m w).1
  act delete_resource fresh a r c m w = (Service.delete_resource a r c m w).1

  -- the world after a request, whatever the answer
  unfoldable pub handle : Request → World → World
  unfolding act
  handle q w = act q.action q.fresh q.account_id q.resource_id q.caller_id q.is_admin w

  act-Change :
      (x : Action) (fresh a r c : String) (m : Bool) (w : World)
      → Change fresh a (resource_of x r) c m w.db (act x fresh a r c m w).db
  unfolding act
  act-Change (create_resource t o) fresh a r c m w =
      (Lifetime.create_resource-Ends users fresh a c m w.db r t o).at w refl
  act-Change (claim_resource u) fresh a r c m w =
      (Operations.claim_resource-Ends fresh a r c m w.db u).at w refl
  act-Change (claim_resource_for_principal p t) fresh a r c m w =
      (Operations.claim_resource_for_principal-Ends fresh a r c m w.db p t).at w refl
  act-Change (transfer_owner p t k) fresh a r c m w =
      (Operations.transfer_owner-Ends fresh a r c m w.db p t k).at w refl
  act-Change (grant p t ps u i) fresh a r c m w =
      (Operations.grant-Ends fresh a r c m w.db users p t ps u i).at w refl
  act-Change (revoke p ps t u i) fresh a r c m w =
      (Operations.revoke-Ends fresh a r c m w.db users p ps t u i).at w refl
  act-Change (revoke_grant g) fresh a r c m w =
      (Operations.revoke_grant-Ends fresh a r c m w.db g).at w refl
  act-Change (update_grant_permissions g ps) fresh a r c m w =
      (Operations.update_grant_permissions-Ends fresh a r c m w.db g ps).at w refl
  act-Change delete_resource fresh a r c m w =
      (Lifetime.delete_resource-Ends fresh a r c m w.db).at w refl

  -- Whatever a request is answered, and wherever an outage strikes, it leaves the stored policies
  -- alone, puts what one method of the aggregate makes of the policy of its resource in its place, for
  -- the principals of the caller, or takes that policy out for an administrator or a caller who manages
  -- it. That a creation adds no second policy of a resource rests on the unique index that
  -- scripts/migrate_authorization.py creates.
  pub handle-Change :
      (q : Request) (w : World)
      → Change q.fresh q.account_id
          (resource_of q.action q.resource_id)
          q.caller_id
          q.is_admin
          w.db
          (handle q w).db
  unfolding handle
  handle-Change q w =
      act-Change q.action q.fresh q.account_id q.resource_id q.caller_id q.is_admin w

  -- The databases that requests lead to from one without policies, each request drawing a grant id
  -- that no stored policy has. Between two requests the outages to come may change, and so may all that
  -- is no policy.
  pub data Reached : Database → Type 0 where
    start : (db : Database) → db.policies ≡ [] → Reached db
    next : (q : Request) (w : World) → Reached w.db → IsFresh q.fresh w.db → Reached (handle q w).db
    elsewhere : (db db' : Database) → Reached db → db'.policies ≡ db.policies → Reached db'

  Reached-IsGoverned : {db : Database} → Reached db → IsGoverned db
  Reached-IsGoverned (start db none_yet) = record {
    reached = rw none_yet tt;
    single = λ a r. rw none_yet (omega arith);
  }
  Reached-IsGoverned (next q w before free) =
      Change-IsGoverned q.fresh q.account_id (resource_of q.action q.resource_id) q.caller_id
        q.is_admin w.db (handle-Change q w) free (Reached-IsGoverned before)
  Reached-IsGoverned (elsewhere db db' before e) =
      let h = Reached-IsGoverned before in
      record { reached = rw e h.reached; single = λ a r. rw e (h.single a r) }

  -- Whatever the requests, and wherever outages strike, each drawing a grant id that no stored policy
  -- has: in every stored policy either nothing is granted or exactly one grant is an owner's, that grant
  -- has the manage permission and no grant id stands twice; and no resource of an account has two
  -- policies. The last rests on the unique index that scripts/migrate_authorization.py creates.
  pub Reached-IsOrderly :
      {db : Database}
      → Reached db
      → All (λ p. IsValid p.grants) db.policies
        × ((account_id resource_id : String)
            → count (is_policy account_id resource_id) db.policies ≤ 1)
  Reached-IsOrderly {db} r =
      let h = Reached-IsGoverned r in
      (
        All-map Lifecycle.Reached (λ p. IsValid p.grants) db.policies
            (λ p. Lifecycle.Reached-IsValid p) h.reached,
        h.single,
      )

  -- A request leaves the policy of every other resource, and of every other account, as it is,
  -- whatever the answer and wherever an outage strikes.
  pub handle-elsewhere :
      (q : Request) (w : World) (account_id resource_id : String)
      → (q.account_id == account_id && resource_of q.action q.resource_id == resource_id) ≡ false
      → policy_at (handle q w).db account_id resource_id ≡ policy_at w.db account_id resource_id
  handle-elsewhere q w account_id resource_id other =
      Change-elsewhere q.fresh q.account_id (resource_of q.action q.resource_id) q.caller_id
        q.is_admin w.db account_id resource_id other (handle-Change q w)
