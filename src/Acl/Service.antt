-- ===== src/Acl/Service.antt =====
-- The operations of `ACLService`, xoloapi/acl/application/acl_service.py: each reads a policy,
-- applies a method of the aggregate and saves what it returns. A fresh grant id is an argument.
use xolo_api.Base.{String, Bool, true, false, not, List, [], Option, none, some, ◌==◌}
use xolo_api.Errors.{XoloException, not_found, conflict, access_denied, validation, uncaught}
use xolo_api.Exec.{Exec, pure, raise, or_raise, raise_if, from_result, recover, ◌>>=◌, ◌>>◌}
use xolo_api.Platform.Mongo.{Mongo}
use xolo_api.Platform.Text.{Unicode, strip}
use xolo_api.World.{World}
use xolo_api.Acl.Types.{
  PrincipalType, user_principal, group_principal, manage, Permissions, has, nothing, AccessGrant,
  ResourcePolicy,
}
use xolo_api.Acl.Policy as Policy
use xolo_api.Acl.Repository as Repository
use xolo_api.Acl.Reading.{get_policy}
use xolo_api.Acl.Principals.{
  truthy, parse_permissions, principal_ids, caller_ids, resolve_principal,
}

-- `ResourcePolicy(account_id=..., resource_id=...)`
abbrev pub new_policy : String → String → ResourcePolicy
new_policy account_id resource_id = record {
  account_id = account_id;
  resource_id = resource_id;
  grants = [];
}

-- `find.unwrap().unwrap_or(ResourcePolicy(...))`
abbrev pub or_new : String → String → Option ResourcePolicy → ResourcePolicy
or_new account_id resource_id none = new_policy account_id resource_id
or_new account_id resource_id (some policy) = policy

-- `None if keep is None else {Permission(p) for p in keep}`: no set and the empty set are both false
unfoldable pub parse_kept : Option (List String) → Exec World Permissions
unfolding parse_permissions
parse_kept none = pure nothing
parse_kept (some ps) = parse_permissions ps

abbrev pub when_user : PrincipalType → String → Option String
when_user user_principal id = some id
when_user group_principal id = none

abbrev pub when_group : PrincipalType → String → Option String
when_group user_principal id = none
when_group group_principal id = some id

module _ ⦃mongo : Mongo⦄ where
  -- the end of each operation
  unfoldable pub saved : ResourcePolicy → Exec World Bool
  unfolding Repository.save
  saved policy = do Repository.save policy; pure true

  -- the owner grant is no grant to revoke
  unfoldable pub revoke_grant : String → String → String → String → Bool → Exec World Bool
  unfolding get_policy caller_ids saved
  revoke_grant account_id resource_id grant_id caller_id is_admin = do
    policy ← get_policy account_id resource_id
    grant ←
        or_raise (Policy.find_by_grant_id grant_id policy.grants) (not_found "AccessGrant" grant_id)
    raise_if grant.is_owner (conflict "The protected owner grant cannot be revoked")
    callers ← caller_ids is_admin account_id caller_id policy
    updated ←
        from_result (Policy.revoke grant.principal.id grant.permissions caller_id callers policy)
    saved updated

  unfoldable pub update_grant_permissions :
      String → String → String → List String → String → Bool → Exec World AccessGrant
  unfolding get_policy caller_ids parse_permissions Repository.save
  update_grant_permissions account_id resource_id grant_id permissions caller_id is_admin = do
    policy ← get_policy account_id resource_id
    callers ← caller_ids is_admin account_id caller_id policy
    wanted ← parse_permissions permissions
    updated ← from_result (Policy.update_grant_permissions grant_id wanted callers policy)
    Repository.save updated
    or_raise (Policy.find_by_grant_id grant_id updated.grants) uncaught

  unfoldable pub claim_resource : String → String → String → String → Exec World Bool
  unfolding Repository.find_by_resource saved
  claim_resource fresh account_id user_id resource_id = do
    found ← Repository.find_by_resource account_id resource_id
    claimed ← from_result (Policy.claim fresh user_id (or_new account_id resource_id found))
    saved claimed

  unfoldable pub claim_resource_for_principal :
      String → String → String → PrincipalType → String → Exec World Bool
  unfolding Repository.find_by_resource saved
  claim_resource_for_principal fresh account_id principal_id principal_type resource_id = do
    found ← Repository.find_by_resource account_id resource_id
    claimed ← from_result (
        Policy.claim_principal fresh (record { type = principal_type; id = principal_id })
          (or_new account_id resource_id found))
    saved claimed

  unfoldable pub transfer_owner :
      String → String → String → String → PrincipalType → Option (List String) → Exec World Bool
  unfolding get_policy parse_kept saved
  transfer_owner fresh account_id resource_id principal_id principal_type kept = do
    policy ← get_policy account_id resource_id
    keep ← parse_kept kept
    updated ← from_result (
        Policy.transfer_owner fresh (record { type = principal_type; id = principal_id }) keep
          policy)
    saved updated

  -- what a caller who is no administrator needs for a deletion
  unfoldable pub may_delete : Bool → String → String → String → Exec World (Unit {0})
  unfolding principal_ids get_policy
  may_delete true account_id resource_id caller_id = pure tt
  may_delete false account_id resource_id caller_id = do
    callers ← principal_ids account_id caller_id
    policy ← get_policy account_id resource_id
    raise_if (not (has manage (Policy.effective_permissions callers policy)))
        (access_denied "You do not have permission to delete this resource policy")

  unfoldable pub delete_resource : String → String → String → Bool → Exec World Bool
  unfolding may_delete Repository.delete
  delete_resource account_id resource_id caller_id is_admin = do
    may_delete is_admin account_id resource_id caller_id
    Repository.delete account_id resource_id

module _ ⦃mongo : Mongo⦄ ⦃unicode : Unicode⦄ (users : Bool) where
  unfoldable pub create_resource :
      String → String → String → PrincipalType → String → Exec World ResourcePolicy
  unfolding resolve_principal Repository.create
  create_resource fresh account_id resource_id owner_type owner_identifier = do
    raise_if (strip resource_id == "") (validation "resource_id is required")
    owner ←
        resolve_principal users account_id owner_type (when_group owner_type owner_identifier) none
          (when_user owner_type owner_identifier)
    claimed ←
        from_result (Policy.claim_principal fresh owner (new_policy account_id (strip resource_id)))
    Repository.create claimed

  -- the arguments after the account are the caller, the resource, the principal's id and type, the
  -- permissions, the principal's user name and identifier, and whether the caller is an administrator
  unfoldable pub grant :
      String
      → String
      → String
      → String
      → Option String
      → PrincipalType
      → List String
      → Option String
      → Option String
      → Bool
      → Exec World Bool
  unfolding get_policy caller_ids parse_permissions resolve_principal saved
  grant fresh account_id caller_id resource_id principal_id principal_type permissions username
        identifier is_admin =
      do
        policy ← get_policy account_id resource_id
        callers ← caller_ids is_admin account_id caller_id policy
        given ← parse_permissions permissions
        principal ←
            resolve_principal users account_id principal_type principal_id username identifier
        updated ← from_result (Policy.grant fresh principal given callers policy)
        saved updated

  -- `revoke` falls back on the id as it was sent
  unfoldable pub stored_id : Option String → XoloException → Exec World String
  stored_id principal_id e = elim (truthy principal_id) [
    | some given ↦ pure (strip given)
    | none ↦ raise e
  ]

  unfoldable pub revoked_id :
      String → PrincipalType → Option String → Option String → Option String → Exec World String
  unfolding resolve_principal stored_id
  revoked_id account_id principal_type principal_id username identifier =
      recover
        (do
          principal ←
              resolve_principal users account_id principal_type principal_id username identifier
          pure principal.id)
        (stored_id principal_id)

  unfoldable pub revoke :
      String
      → String
      → String
      → Option String
      → List String
      → PrincipalType
      → Option String
      → Option String
      → Bool
      → Exec World Bool
  unfolding get_policy caller_ids parse_permissions revoked_id saved
  revoke account_id caller_id resource_id principal_id permissions principal_type username
        identifier is_admin =
      do
        policy ← get_policy account_id resource_id
        callers ← caller_ids is_admin account_id caller_id policy
        taken ← parse_permissions permissions
        id ← revoked_id account_id principal_type principal_id username identifier
        updated ← from_result (Policy.revoke id taken caller_id callers policy)
        saved updated
