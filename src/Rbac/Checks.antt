-- ===== src/Rbac/Checks.antt =====
-- The checks of `RBACService`, xoloapi/rbac/application/rbac_service.py: the roles of a user, directly
-- and through the groups, and what they allow.
pub mod Reading
pub mod Meaning
pub mod Decides
use xolo_api.Base.{
  String, Bool, true, false, not, List, [], ◌∷◌, ◌++◌, map, Option, none, some, is_empty,
  if◌then◌else◌,
}
use xolo_api.Errors.{validation, uncaught}
use xolo_api.Exec.{Exec, pure, raise, or_raise, ◌>>=◌, ◌>>◌}
use xolo_api.Platform.Mongo.{Mongo}
use xolo_api.World.{World}
use xolo_api.Groups.Repository.{find_group_ids_for_user}
use xolo_api.Rbac.Types.{SubjectType, user_subject, group_subject, Role, RoleAssignment}
use xolo_api.Rbac.Permission.{RbacPermission, from_string, matches}
use xolo_api.Rbac.Hierarchy.{by_id, resolve_effective_permissions}
use xolo_api.Rbac.Repository.Roles as Roles
use xolo_api.Rbac.Repository.Assignments as Assignments
use xolo_api.Rbac.Repository.Catalog.{sorted_set}
use xolo_api.Rbac.Service.{bad_permission}

abbrev pub role_ids_of : List RoleAssignment → List String
role_ids_of ras = map (λ ra. ra.role_id) ras

-- the permissions that match; none where a parse raises
unfoldable pub matching : RbacPermission → List String → Option (List String)
unfolding from_string matches
matching required [] = some []
matching required (p ∷ ps) =
    let rest = matching required ps in
    elim (from_string p) [
      | none ↦ none
      | some perm ↦ elim rest [
        | none ↦ none
        | some found ↦ some (if matches perm required then p ∷ found else found)
      ]
    ]

-- `matches[0] if matches else None`
abbrev pub head : List String → Option String
head [] = none
head (x ∷ _) = some x

module _ ⦃mongo : Mongo⦄ where
  -- the loop over the groups
  unfoldable pub group_role_ids : String → List String → Exec World (List String)
  unfolding Assignments.find_by_subject
  group_role_ids account_id [] = pure []
  group_role_ids account_id (gid ∷ gids) = do
    ras ← Assignments.find_by_subject account_id gid (some group_subject)
    rest ← group_role_ids account_id gids
    pure (role_ids_of ras ++ rest)

  -- `if not role_ids: return Ok([])`
  unfoldable pub roles_with : String → List String → Exec World (List Role)
  unfolding Roles.find_many
  roles_with account_id [] = pure []
  roles_with account_id (r ∷ rs) = Roles.find_many account_id (r ∷ rs)

  unfoldable pub get_subject_roles : String → String → Exec World (List Role)
  unfolding group_role_ids roles_with find_group_ids_for_user Assignments.find_by_subject
  get_subject_roles account_id subject_id = do
    direct ← Assignments.find_by_subject account_id subject_id (some user_subject)
    group_ids ← find_group_ids_for_user account_id subject_id
    through_groups ← group_role_ids account_id group_ids
    roles_with account_id (role_ids_of direct ++ through_groups)

  unfoldable pub effective_permissions_of : String → String → Exec World (List String)
  unfolding get_subject_roles resolve_effective_permissions by_id Roles.find_all
  effective_permissions_of account_id subject_id = do
    roles ← get_subject_roles account_id subject_id
    all_roles ← Roles.find_all account_id
    pure (resolve_effective_permissions roles (by_id [] all_roles))

  unfoldable pub get_effective_permissions : String → String → Exec World (List String)
  unfolding effective_permissions_of sorted_set
  get_effective_permissions account_id subject_id = do
    effective ← effective_permissions_of account_id subject_id
    pure (sorted_set effective)

  unfoldable pub check_explained : String → String → String → Exec World (Bool × Option String)
  unfolding effective_permissions_of from_string matching sorted_set
  check_explained account_id subject_id required_permission = do
    required ←
        or_raise (from_string required_permission) (validation (bad_permission required_permission))
    effective ← effective_permissions_of account_id subject_id
    found ← or_raise (matching required effective) uncaught
    pure (not (is_empty (sorted_set found)), head (sorted_set found))

  unfoldable pub check : String → String → String → Exec World Bool
  unfolding check_explained
  check account_id subject_id required_permission = do
    explained ← check_explained account_id subject_id required_permission
    pure explained.0
