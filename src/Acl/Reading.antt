-- ===== src/Acl/Reading.antt =====
-- The operations of `ACLService`, xoloapi/acl/application/acl_service.py, that only read: checks,
-- inspection and listings.
use xolo_api.Base.{String, ℕ, Bool, true, false, not, List, ◌∷◌, Option, none, some, map}
use xolo_api.Errors.{not_found, access_denied}
use xolo_api.Exec.{Exec, pure, or_raise, raise_if, ◌>>=◌, ◌>>◌}
use xolo_api.Platform.Mongo.{Mongo}
use xolo_api.Platform.Pages.{PageResult}
use xolo_api.World.{World}
use xolo_api.Groups.Types.{SecurityGroup}
use xolo_api.Groups.Repository.{find_groups_for_user}
use xolo_api.Acl.Types.{PrincipalType, manage, Permissions, has, nothing, ResourcePolicy}
use xolo_api.Acl.Policy as Policy
use xolo_api.Acl.Repository as Repository
use xolo_api.Acl.Principals.{parse_permissions, group_ids, principal_ids, checked_ids}

module _ ⦃mongo : Mongo⦄ where
  unfoldable pub get_policy : String → String → Exec World ResourcePolicy
  unfolding Repository.find_by_resource
  get_policy account_id resource_id = do
    found ← Repository.find_by_resource account_id resource_id
    or_raise found (not_found "ResourcePolicy" resource_id)

  -- the answer of `check` for the policy that was found, if any
  unfoldable pub check_in : Option ResourcePolicy → List String → List String → Exec World Bool
  unfolding parse_permissions
  check_in none callers permissions = pure false
  check_in (some policy) callers permissions = do
    required ← parse_permissions permissions
    pure (Policy.check callers required policy)

  unfoldable pub check : String → String → String → List String → PrincipalType → Exec World Bool
  unfolding checked_ids Repository.find_by_resource check_in
  check account_id user_id resource_id permissions principal_type = do
    callers ← checked_ids principal_type account_id user_id
    found ← Repository.find_by_resource account_id resource_id
    check_in found callers permissions

  abbrev pub access_to :
      List String → List String → Option ResourcePolicy → Permissions × Bool × List String
  access_to callers groups none = (nothing, false, groups)
  access_to callers groups (some policy) =
      (Policy.effective_permissions callers policy, Policy.is_owned_by_any callers policy, groups)

  unfoldable pub effective_access :
      String → String → String → Exec World (Permissions × Bool × List String)
  unfolding group_ids Repository.find_by_resource
  effective_access account_id user_id resource_id = do
    groups ← group_ids account_id user_id
    found ← Repository.find_by_resource account_id resource_id
    pure (access_to (user_id ∷ groups) groups found)

  -- an administrator inspects every policy
  unfoldable pub inspected : Bool → String → String → ResourcePolicy → Exec World ResourcePolicy
  unfolding principal_ids
  inspected true account_id caller_id policy = pure policy
  inspected false account_id caller_id policy = do
    callers ← principal_ids account_id caller_id
    raise_if (not (has manage (Policy.effective_permissions callers policy)))
        (access_denied "You do not have permission to inspect this resource policy")
    pure policy

  unfoldable pub get_policy_for_caller : String → String → String → Bool → Exec World ResourcePolicy
  unfolding get_policy inspected
  get_policy_for_caller account_id resource_id caller_id is_admin = do
    policy ← get_policy account_id resource_id
    inspected is_admin account_id caller_id policy

  unfoldable pub list_policies : String → Exec World (List ResourcePolicy)
  unfolding Repository.list_all
  list_policies account_id = Repository.list_all account_id

  unfoldable pub get_user_groups : String → String → Exec World (List SecurityGroup)
  unfolding find_groups_for_user
  get_user_groups account_id user_id = find_groups_for_user account_id user_id false

  unfoldable pub get_owned_resources_page :
      String → String → ℕ → ℕ → Exec World (PageResult ResourcePolicy)
  unfolding Repository.find_owned_by
  get_owned_resources_page account_id user_id page size = do
    found ← Repository.find_owned_by account_id user_id page size
    pure (record { items = found.0; total = found.1; page = page; size = size })

  unfoldable pub get_shared_resources_page :
      String → List String → List String → ℕ → ℕ → Exec World (PageResult ResourcePolicy)
  unfolding Repository.find_shared_with
  get_shared_resources_page account_id callers exclude_ids page size = do
    found ← Repository.find_shared_with account_id callers exclude_ids page size
    pure (record { items = found.0; total = found.1; page = page; size = size })

  -- ids with their names, which are the ids
  unfoldable pub list_resources : String → Exec World (List (String × String))
  unfolding Repository.list_all
  list_resources account_id = do
    policies ← Repository.list_all account_id
    pure (map (λ (p : ResourcePolicy). (p.resource_id, p.resource_id)) policies)
