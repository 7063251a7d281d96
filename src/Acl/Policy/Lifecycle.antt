-- ===== src/Acl/Policy/Lifecycle.antt =====
-- The policies that the operations of `ResourcePolicy` make of a new one. Each operation that adds a
-- grant draws an id that no grant of the policy has.
use xolo_api.Base.{String, ◌≡◌, refl, List, [], inl, inr, arith}
use xolo_api.Exec.{ok}
use xolo_api.Acl.Types.{Permissions, Principal, ResourcePolicy}
use xolo_api.Acl.Policy.{
  claim, claim_principal, transfer_owner, grant, revoke, update_grant_permissions,
  effective_permissions, effective_from,
}
use xolo_api.Acl.Policy.Ownership.{IsUnused, IsValid, Keeps}
use xolo_api.Acl.Policy.Keeping.{
  claim-IsOwned, claim_principal-IsOwned, grant-IsOwned, revoke-IsOwned,
  update_grant_permissions-IsOwned,
}
use xolo_api.Acl.Policy.Transfer.{transfer_owner-IsOwnedBy}

pub data Reached : ResourcePolicy → Type 0 where
  fresh :
      (account_id resource_id : String)
      → Reached (record { account_id = account_id; resource_id = resource_id; grants = [] })
  claimed :
      (policy after : ResourcePolicy) (new user_id : String)
      → Reached policy
      → IsUnused new policy
      → claim new user_id policy ≡ ok after
      → Reached after
  claimed_principal :
      (policy after : ResourcePolicy) (new : String) (principal : Principal)
      → Reached policy
      → IsUnused new policy
      → claim_principal new principal policy ≡ ok after
      → Reached after
  transferred_owner :
      (policy after : ResourcePolicy) (new : String) (principal : Principal) (keep : Permissions)
      → Reached policy
      → IsUnused new policy
      → transfer_owner new principal keep policy ≡ ok after
      → Reached after
  granted :
      (policy after : ResourcePolicy) (new : String) (principal : Principal)
      (permissions : Permissions) (caller : List String)
      → Reached policy
      → IsUnused new policy
      → grant new principal permissions caller policy ≡ ok after
      → Reached after
  revoked :
      (policy after : ResourcePolicy) (principal_id : String) (permissions : Permissions)
      (caller_id : String) (caller : List String)
      → Reached policy
      → revoke principal_id permissions caller_id caller policy ≡ ok after
      → Reached after
  edited :
      (policy after : ResourcePolicy) (grant_id : String) (permissions : Permissions)
      (caller : List String)
      → Reached policy
      → update_grant_permissions grant_id permissions caller policy ≡ ok after
      → Reached after

kept : (r : _) (after : ResourcePolicy) → r ≡ ok after → Keeps r → IsValid after.grants
kept r after e k = inr (rw e at k)

-- Nobody can act on a policy without grants, except by a claim.
module _ (policy after : ResourcePolicy) (bare : policy.grants ≡ []) where
  transfer-bare :
      (new : String) (principal : Principal) (keep : Permissions)
      → ¬ (transfer_owner new principal keep policy ≡ ok after)
  unfolding transfer_owner
  transfer-bare new principal keep e = let h = rw bare at e in ground (arith, h)

  grant-bare :
      (new : String) (principal : Principal) (permissions : Permissions) (caller : List String)
      → ¬ (grant new principal permissions caller policy ≡ ok after)
  unfolding grant effective_permissions effective_from
  grant-bare new principal permissions caller e = let h = rw bare at e in ground (arith, h)

  revoke-bare :
      (principal_id : String) (permissions : Permissions) (caller_id : String)
      (caller : List String)
      → revoke principal_id permissions caller_id caller policy ≡ ok after
      → after.grants ≡ []
  unfolding revoke
  revoke-bare principal_id permissions caller_id caller e =
      let h = rw bare at e in ground (arith, h, bare)

  edit-bare :
      (grant_id : String) (permissions : Permissions) (caller : List String)
      → ¬ (update_grant_permissions grant_id permissions caller policy ≡ ok after)
  unfolding update_grant_permissions effective_permissions effective_from
  edit-bare grant_id permissions caller e = let h = rw bare at e in ground (arith, h)

-- In every policy that the operations reach, each drawing an unused grant id where it adds one, either nothing is granted or exactly one grant is an
-- owner's, that grant has the manage permission, and no grant id stands twice.
pub Reached-IsValid : (policy : ResourcePolicy) → Reached policy → IsValid policy.grants
Reached-IsValid _ (fresh _ _) = inl refl
Reached-IsValid _ (claimed policy after new user_id r free e) =
    kept _ after e (claim-IsOwned new user_id policy free (Reached-IsValid policy r))
Reached-IsValid _ (claimed_principal policy after new principal r free e) =
    kept _ after e (claim_principal-IsOwned new principal policy free (Reached-IsValid policy r))
Reached-IsValid _ (transferred_owner policy after new principal keep r free e) =
    elim (Reached-IsValid policy r) [
      | inl bare ↦ absurd (transfer-bare policy after bare new principal keep e)
      | inr o ↦
          let (made, same, by) = transfer_owner-IsOwnedBy new principal keep policy free o in
          kept _ after e (rw same by.owned)
    ]
Reached-IsValid _ (granted policy after new principal permissions caller r free e) =
    elim (Reached-IsValid policy r) [
      | inl bare ↦ absurd (grant-bare policy after bare new principal permissions caller e)
      | inr o ↦ kept _ after e (grant-IsOwned new principal permissions caller policy free o)
    ]
Reached-IsValid _ (revoked policy after principal_id permissions caller_id caller r e) =
    elim (Reached-IsValid policy r) [
      | inl bare ↦ inl (revoke-bare policy after bare principal_id permissions caller_id caller e)
      | inr o ↦ kept _ after e (revoke-IsOwned principal_id permissions caller_id caller policy o)
    ]
Reached-IsValid _ (edited policy after grant_id permissions caller r e) =
    elim (Reached-IsValid policy r) [
      | inl bare ↦ absurd (edit-bare policy after bare grant_id permissions caller e)
      | inr o ↦
          kept _ after e (update_grant_permissions-IsOwned grant_id permissions caller policy o)
    ]
