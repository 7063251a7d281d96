-- ===== src/Rbac/Service.antt =====
-- The role operations of `RBACService`, xoloapi/rbac/application/rbac_service.py. A fresh id is an
-- argument (`generate` of `nanoid`), and so is whether the service was built with the catalog.
use Prim.Native.String.{◌++◌ as concat}
use xolo_api.Base.{
  String, Bool, true, false, not, ◌&&◌, ◌||◌, List, [], ◌∷◌, ◌++◌, Option, none, some, elem, filter,
  ◌==◌, if◌then◌else◌,
}
use xolo_api.Errors.{not_found, conflict, validation}
use xolo_api.Exec.{Exec, pure, or_raise, raise_if, ◌>>=◌, ◌>>◌}
use xolo_api.Platform.Collections.{is_some}
use xolo_api.Platform.Mongo.{Mongo}
use xolo_api.World.{World}
use xolo_api.Rbac.Types.{Role, add_permission, remove_permission}
use xolo_api.Rbac.Permission.{from_string}
use xolo_api.Rbac.Hierarchy.{by_id, would_create_cycle}
use xolo_api.Rbac.Repository.Roles as Roles
use xolo_api.Rbac.Repository.Assignments as Assignments
use xolo_api.Rbac.Repository.Catalog as Catalog

-- the message of the `ValueError` of `from_string`
abbrev pub bad_permission : String → String
bad_permission p =
    concat "Invalid permission format '" (concat p "' — expected 'resource_type:action'")

abbrev pub taken_name : String → String
taken_name name = concat "Role '" (concat name "' already exists")

unfoldable pub validate : List String → Exec World (Unit {0})
unfolding from_string
validate [] = pure tt
validate (p ∷ ps) = or_raise (from_string p) (validation (bad_permission p)) >> validate ps

-- `name and name != role.name`
abbrev pub renames : Option String → Role → Bool
renames none role = false
renames (some name) role = not (name == "") && not (name == role.name)

abbrev pub new_name : Option String → Role → Role
new_name none role = role
new_name (some name) role = record role { name = name }

-- `role.model_copy(update=updates)`
unfoldable pub updated_role : Option String → Option String → Bool → Role → Role
updated_role name description description_set role =
    let named = if renames name role then new_name name role else role in
    if description_set || is_some description
    then record named { description = description }
    else named

-- `[p for p in parent_role_ids if p != role_id]`
abbrev pub without_parent : String → Role → Role
without_parent role_id role = record role {
  parent_role_ids = filter (λ p. not (p == role_id)) role.parent_role_ids;
}

module _ ⦃mongo : Mongo⦄ (catalog : Bool) where
  -- `if self._catalog is not None`
  unfoldable pub register : String → List String → Exec World (Unit {0})
  unfolding Catalog.register
  register account_id permissions =
      if catalog then Catalog.register account_id permissions else pure tt

  unfoldable pub create_role :
      String → String → String → Option String → List String → Exec World Role
  unfolding validate register Roles.find_by_name Roles.save
  create_role account_id fresh name description permissions = do
    validate permissions
    existing ← Roles.find_by_name account_id name
    raise_if (is_some existing) (conflict (taken_name name))
    let role : Role = record {
      account_id = account_id;
      role_id = concat "role-" fresh;
      name = name;
      description = description;
      permissions = permissions;
      parent_role_ids = [];
    }
    Roles.save role
    register account_id permissions
    pure role

  unfoldable pub get_role : String → String → Exec World Role
  unfolding Roles.find_by_id
  get_role account_id role_id = do
    found ← Roles.find_by_id account_id role_id
    or_raise found (not_found "Role" role_id)

  -- the check of a new name against the others
  unfoldable pub unnamed : String → Option String → Role → Exec World (Unit {0})
  unfolding Roles.find_by_name
  unnamed account_id none role = pure tt
  unnamed account_id (some name) role =
      if renames (some name) role
      then (do
        existing ← Roles.find_by_name account_id name
        raise_if (is_some existing) (conflict (taken_name name)))
      else pure tt

  -- `if not updates: return Ok(role)`, and the save
  unfoldable pub save_changes : Bool → Role → Role → Exec World Role
  unfolding Roles.save
  save_changes false role updated = pure role
  save_changes true role updated = do Roles.save updated; pure updated

  unfoldable pub update_role :
      String → String → Option String → Option String → Bool → Exec World Role
  unfolding get_role unnamed save_changes
  update_role account_id role_id name description description_set = do
    role ← get_role account_id role_id
    unnamed account_id name role
    save_changes (renames name role || (description_set || is_some description)) role
        (updated_role name description description_set role)

  -- the body of the loop of `delete_role`
  unfoldable pub detach_one : String → Role → Bool → Exec World (Unit {0})
  unfolding Roles.save
  detach_one role_id role true = Roles.save (without_parent role_id role)
  detach_one role_id role false = pure tt

  -- the loop of `delete_role` over the roles of the account
  unfoldable pub detach : String → List Role → Exec World (Unit {0})
  unfolding detach_one
  detach role_id [] = pure tt
  detach role_id (role ∷ rest) =
      detach_one role_id role (elem role_id role.parent_role_ids) >> detach role_id rest

  unfoldable pub delete_role : String → String → Exec World (Unit {0})
  unfolding get_role detach Assignments.delete_by_role Roles.find_all Roles.delete
  delete_role account_id role_id = do
    _ ← get_role account_id role_id
    Assignments.delete_by_role account_id role_id
    all_roles ← Roles.find_all account_id
    detach role_id all_roles
    Roles.delete account_id role_id

  unfoldable pub add_permission_to : String → String → String → Exec World Role
  unfolding get_role register from_string Roles.save add_permission
  add_permission_to account_id role_id permission = do
    role ← get_role account_id role_id
    or_raise (from_string permission) (validation (bad_permission permission))
    let updated = add_permission permission role
    Roles.save updated
    register account_id (permission ∷ [])
    pure updated

  unfoldable pub remove_permission_from : String → String → String → Exec World Role
  unfolding get_role Roles.save remove_permission
  remove_permission_from account_id role_id permission = do
    role ← get_role account_id role_id
    let updated = remove_permission permission role
    Roles.save updated
    pure updated

  -- what `add_parent` does after `if parent_role_id in role.parent_role_ids: return Ok(role)`
  unfoldable pub join_parent : String → String → String → Role → Bool → Exec World Role
  unfolding Roles.find_all Roles.save would_create_cycle by_id
  join_parent account_id role_id parent_role_id role true = pure role
  join_parent account_id role_id parent_role_id role false = do
    all_roles ← Roles.find_all account_id
    raise_if (would_create_cycle role_id parent_role_id (by_id [] all_roles))
        (conflict "Adding this parent would create a role hierarchy cycle")
    let updated = record role { parent_role_ids = role.parent_role_ids ++ parent_role_id ∷ [] }
    Roles.save updated
    pure updated

  unfoldable pub add_parent : String → String → String → Exec World Role
  unfolding get_role join_parent
  add_parent account_id role_id parent_role_id = do
    raise_if (role_id == parent_role_id) (validation "A role cannot be its own parent")
    role ← get_role account_id role_id
    _ ← get_role account_id parent_role_id
    join_parent account_id role_id parent_role_id role (elem parent_role_id role.parent_role_ids)

  unfoldable pub remove_parent : String → String → String → Exec World Role
  unfolding get_role Roles.save
  remove_parent account_id role_id parent_role_id = do
    role ← get_role account_id role_id
    let updated = without_parent parent_role_id role
    Roles.save updated
    pure updated
