-- ===== src/Acl/Policy.antt =====
-- `ResourcePolicy` of xoloapi/acl/domain/aggregates.py. A fresh grant id is an argument
-- (`generate` of `nanoid`). A method returns a new policy or an error; none changes its receiver.
pub mod Grants
pub mod Ownership
pub mod Keeping
pub mod Transfer
pub mod Access
pub mod Sharing
pub mod Lifecycle
use xolo_api.Base.{
  String, ℕ, suc, Bool, true, false, not, ◌&&◌, ◌||◌, List, [], ◌∷◌, ◌++◌, map, filter, any, Option,
  none, some, elem, leb, ◌==◌, if◌then◌else◌,
}
use xolo_api.Errors.{access_denied, conflict, not_found, validation}
use xolo_api.Exec.{Result, ok, err}
use xolo_api.Platform.Collections.{find_first}
use xolo_api.Acl.Types.{
  user_principal, manage, Principal, same_principal, Permissions, has, every, nothing, union, minus,
  inhabited, subset, AccessGrant, ResourcePolicy,
}

-- `_find_grant`
abbrev pub is_of : String → AccessGrant → Bool
is_of principal_id g = g.principal.id == principal_id

abbrev pub find_grant : String → List AccessGrant → Option AccessGrant
find_grant principal_id grants = find_first (is_of principal_id) grants

-- `next((g for g in self.grants if g.is_owner), None)`
abbrev pub find_owner : List AccessGrant → Option AccessGrant
find_owner grants = find_first (λ g. g.is_owner) grants

abbrev pub find_by_grant_id : String → List AccessGrant → Option AccessGrant
find_by_grant_id grant_id grants = find_first (λ g. g.grant_id == grant_id) grants

abbrev pub owns_it : Option AccessGrant → Bool
owns_it none = false
owns_it (some g) = g.is_owner

-- the full set for an owner, the stored set for any other
abbrev pub power : AccessGrant → Permissions
power g = if g.is_owner then every else g.permissions

unfoldable pub effective_from : Permissions → List String → List AccessGrant → Permissions
effective_from granted principal_ids [] = granted
effective_from granted principal_ids (g ∷ gs) =
    effective_from (if elem g.principal.id principal_ids then union granted (power g) else granted)
      principal_ids gs

unfoldable pub effective_permissions : List String → ResourcePolicy → Permissions
unfolding effective_from
effective_permissions principal_ids policy = effective_from nothing principal_ids policy.grants

unfoldable pub check : List String → Permissions → ResourcePolicy → Bool
unfolding effective_permissions
check principal_ids required policy = subset required (effective_permissions principal_ids policy)

unfoldable pub is_owned_by_any : List String → ResourcePolicy → Bool
is_owned_by_any principal_ids policy =
    any (λ g. g.is_owner && elem g.principal.id principal_ids) policy.grants

abbrev pub owner_grant : String → Principal → AccessGrant
owner_grant fresh principal = record {
  grant_id = fresh;
  principal = principal;
  permissions = every;
  is_owner = true;
}

abbrev pub already_owned : String
already_owned = "Resource is already owned by another principal"

-- the part of a claim that follows when the caller does not own the resource yet
unfoldable pub claim_unowned : String → Principal → ResourcePolicy → Result ResourcePolicy
claim_unowned fresh principal policy = elim (find_owner policy.grants) [
  | some _ ↦ err (conflict already_owned)
  | none ↦ ok (record policy { grants = policy.grants ++ owner_grant fresh principal ∷ [] })
]

unfoldable pub claim : String → String → ResourcePolicy → Result ResourcePolicy
unfolding claim_unowned
claim fresh user_id policy =
    if owns_it (find_grant user_id policy.grants)
    then ok policy
    else claim_unowned fresh (record { type = user_principal; id = user_id }) policy

-- `[new if g.grant_id == grant_id else g for g in grants]`
abbrev pub replace_grant : String → AccessGrant → List AccessGrant → List AccessGrant
replace_grant grant_id new grants = map (λ g. if g.grant_id == grant_id then new else g) grants

unfoldable pub claim_principal : String → Principal → ResourcePolicy → Result ResourcePolicy
unfolding claim_unowned
claim_principal fresh principal policy = elim (find_grant principal.id policy.grants) [
  | some existing ↦
      if existing.is_owner
      then ok (record policy {
        grants =
            replace_grant existing.grant_id (record existing { permissions = every }) policy.grants;
      })
      else claim_unowned fresh principal policy
  | none ↦ claim_unowned fresh principal policy
]

-- the loop of `transfer_owner` over the grants
unfoldable pub transferred :
    AccessGrant → Principal → Permissions → List AccessGrant → List AccessGrant
transferred current principal keep [] = []
transferred current principal keep (g ∷ gs) =
    let rest = transferred current principal keep gs in
    if g.grant_id == current.grant_id
    then (if same_principal g.principal principal
        then record g { permissions = every; is_owner = true } ∷ rest
        else if inhabited keep
        then record g { permissions = keep; is_owner = false } ∷ rest
        else rest)
    else if same_principal g.principal principal
    then rest
    else g ∷ rest

-- no set and the empty set are both false, so `keep` stands for either
unfoldable pub transfer_owner :
    String → Principal → Permissions → ResourcePolicy → Result ResourcePolicy
unfolding transferred
transfer_owner fresh principal keep policy = elim (find_owner policy.grants) [
  | none ↦ err (not_found "Resource owner" policy.resource_id)
  | some current ↦ ok (record policy {
    grants =
        transferred current principal keep policy.grants
        ++ (if same_principal current.principal principal
            then []
            else owner_grant fresh principal ∷ []);
  })
]

unfoldable pub grant :
    String → Principal → Permissions → List String → ResourcePolicy → Result ResourcePolicy
unfolding effective_permissions
grant fresh principal permissions caller_principal_ids policy =
    if has manage (effective_permissions caller_principal_ids policy)
    then (elim (find_grant principal.id policy.grants) [
      | some existing ↦ ok (record policy {
        grants =
            replace_grant existing.grant_id
              (record existing { permissions = union existing.permissions permissions })
              policy.grants;
      })
      | none ↦ ok (record policy {
        grants =
            policy.grants
            ++ record {
              grant_id = fresh;
              principal = principal;
              permissions = permissions;
              is_owner = false;
            }
              ∷ [];
      })
    ])
    else err (access_denied "You do not have permission to share this resource")

-- `sum(1 for g in self.grants if g.is_owner)`
unfoldable pub owner_count : List AccessGrant → ℕ
owner_count [] = 0
owner_count (g ∷ gs) = if g.is_owner then suc (owner_count gs) else owner_count gs

-- what is left after the last permission of a grant goes: nothing of it
unfoldable pub revoke_from : AccessGrant → Permissions → ResourcePolicy → ResourcePolicy
revoke_from existing permissions policy =
    let remaining = minus existing.permissions permissions in
    record policy {
      grants =
          if inhabited remaining
          then replace_grant existing.grant_id (record existing { permissions = remaining })
              policy.grants
          else filter (λ g. not (g.grant_id == existing.grant_id)) policy.grants;
    }

unfoldable pub revoke :
    String → Permissions → String → List String → ResourcePolicy → Result ResourcePolicy
unfolding effective_permissions revoke_from owner_count
revoke principal_id permissions caller_id caller_principal_ids policy =
    if not (caller_id == principal_id)
      && not (has manage (effective_permissions caller_principal_ids policy))
    then err (access_denied "You do not have permission to revoke this access")
    else elim (find_grant principal_id policy.grants) [
      | none ↦ ok policy
      | some existing ↦
          if (has manage permissions && existing.is_owner) && leb (owner_count policy.grants) 1
          then err (conflict "Cannot remove the last owner of the resource")
          else ok (revoke_from existing permissions policy)
    ]

unfoldable pub update_grant_permissions :
    String → Permissions → List String → ResourcePolicy → Result ResourcePolicy
unfolding effective_permissions
update_grant_permissions grant_id permissions caller_principal_ids policy =
    if not (has manage (effective_permissions caller_principal_ids policy))
    then err (access_denied "You do not have permission to update this access grant")
    else if not (inhabited permissions)
    then err (validation "At least one permission is required")
    else elim (find_by_grant_id grant_id policy.grants) [
      | none ↦ err (not_found "AccessGrant" grant_id)
      | some existing ↦
          if existing.is_owner
          then err
              (conflict "The protected owner grant cannot be edited; transfer ownership instead")
          else ok (record policy {
            grants =
                replace_grant grant_id (record existing { permissions = permissions })
                  policy.grants;
          })
    ]
