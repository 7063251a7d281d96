-- ===== src/Acl/Effects/Keys.antt =====
-- A method of the aggregate keeps the account and the resource of a policy.
use xolo_api.Base.{String, ◌≡◌, ap, Bool, true, List, arith, eq_iff, inl, inr}
use xolo_api.Exec.{ok}
use xolo_api.Platform.Collections.{find_first-fits}
use xolo_api.Platform.Mongo.{Mongo}
use xolo_api.World.{Database}
use xolo_api.Acl.Types.{Principal, Permissions, ResourcePolicy}
use xolo_api.Acl.Policy.{
  claim_unowned, claim, claim_principal, transfer_owner, grant, revoke_from, revoke,
  update_grant_permissions,
}
use xolo_api.Acl.Repository.{is_policy}
use xolo_api.Acl.Effects.{
  Method, claims, claims_principal, transfers, grants, revokes, edits, IsCurrent,
}

abbrev pub IsAt : String → String → ResourcePolicy → Type 0
IsAt account_id resource_id p = (p.account_id ≡ account_id) × (p.resource_id ≡ resource_id)

module _ (fresh : String) (old after : ResourcePolicy) where
  claim-key :
      (user_id : String)
      → claim fresh user_id old ≡ ok after
      → IsAt old.account_id old.resource_id after
  unfolding claim claim_unowned
  claim-key user_id e = (ground arith, ground arith)

  claim_principal-key :
      (principal : Principal)
      → claim_principal fresh principal old ≡ ok after
      → IsAt old.account_id old.resource_id after
  unfolding claim_principal claim_unowned
  claim_principal-key principal e = (ground arith, ground arith)

  transfer_owner-key :
      (principal : Principal) (keep : Permissions)
      → transfer_owner fresh principal keep old ≡ ok after
      → IsAt old.account_id old.resource_id after
  unfolding transfer_owner
  transfer_owner-key principal keep e = (ground arith, ground arith)

  grant-key :
      (principal : Principal) (permissions : Permissions) (callers : List String)
      → grant fresh principal permissions callers old ≡ ok after
      → IsAt old.account_id old.resource_id after
  unfolding grant
  grant-key principal permissions callers e = (ground arith, ground arith)

module _ (old after : ResourcePolicy) where
  revoke-key :
      (principal_id : String) (permissions : Permissions) (caller_id : String)
      (callers : List String)
      → revoke principal_id permissions caller_id callers old ≡ ok after
      → IsAt old.account_id old.resource_id after
  unfolding revoke revoke_from
  revoke-key principal_id permissions caller_id callers e = (ground arith, ground arith)

  update_grant_permissions-key :
      (grant_id : String) (permissions : Permissions) (callers : List String)
      → update_grant_permissions grant_id permissions callers old ≡ ok after
      → IsAt old.account_id old.resource_id after
  unfolding update_grant_permissions
  update_grant_permissions-key grant_id permissions callers e = (ground arith, ground arith)

module _ ⦃mongo : Mongo⦄ (fresh account_id caller_id : String) (is_admin : Bool) (db : Database)
    (old : ResourcePolicy) where
  pub Method-key :
      {after : ResourcePolicy}
      → Method fresh account_id caller_id is_admin db old after
      → IsAt old.account_id old.resource_id after
  Method-key (claims after user_id e) = claim-key fresh old after user_id e
  Method-key (claims_principal after principal e) = claim_principal-key fresh old after principal e
  Method-key (transfers after principal keep e) =
      transfer_owner-key fresh old after principal keep e
  Method-key (grants after principal permissions e) =
      grant-key fresh old after principal permissions _ e
  Method-key (revokes after principal_id permissions e) =
      revoke-key old after principal_id permissions _ _ e
  Method-key (edits after grant_id permissions e) =
      update_grant_permissions-key old after grant_id permissions _ e

is_policy-IsAt :
    (account_id resource_id : String) (p : ResourcePolicy)
    → is_policy account_id resource_id p ≡ true
    → IsAt account_id resource_id p
is_policy-IsAt account_id resource_id p h = (
  (eq_iff p.account_id account_id).0 (ground arith),
  (eq_iff p.resource_id resource_id).0 (ground arith),
)

pub IsCurrent-IsAt :
    (db : Database) (account_id resource_id : String) (old : ResourcePolicy)
    → IsCurrent db account_id resource_id old
    → IsAt account_id resource_id old
IsCurrent-IsAt db account_id resource_id old (inl found) =
    is_policy-IsAt account_id resource_id old
      (find_first-fits (is_policy account_id resource_id) old db.policies found)
IsCurrent-IsAt db account_id resource_id old (inr (absent, new)) =
    (ap (λ p. p.account_id) new, ap (λ p. p.resource_id) new)
