-- ===== src/Acl/Principals.antt =====
-- The part of `ACLService`, xoloapi/acl/application/acl_service.py, that says who acts and who is
-- acted on. Whether the service was built with the users repository is an argument.
use xolo_api.Base.{
  String, Bool, true, false, not, List, [], ◌∷◌, map, filter, Option, none, some, ◌==◌,
  if◌then◌else◌,
}
use xolo_api.Errors.{not_found, validation, uncaught}
use xolo_api.Exec.{Exec, pure, raise, or_raise, raise_if, recover, ◌>>=◌, ◌>>◌}
use xolo_api.Platform.Mongo.{Mongo}
use xolo_api.Platform.Text.{Unicode, strip}
use xolo_api.World.{World}
use xolo_api.Users.Resolution.{find_by_id, resolve_user_identifier}
use xolo_api.Groups.Types.{SecurityGroup}
use xolo_api.Groups.Repository.{find_group, find_groups_for_user}
use xolo_api.Acl.Types.{
  PrincipalType, user_principal, group_principal, Permission, read, write, delete, update, manage,
  Principal, Permissions, nothing, union, ResourcePolicy,
}

-- `a or b`
abbrev pub or_text : Option String → String → String
or_text none b = b
or_text (some a) b = if a == "" then b else a

-- the value, where it is true of a text
abbrev pub truthy : Option String → Option String
truthy none = none
truthy (some a) = if a == "" then none else some a

-- `Permission(p)`
unfoldable pub permission_of : String → Option Permission
permission_of p =
    if p == "read"
    then some read
    else if p == "write"
    then some write
    else if p == "delete"
    then some delete
    else if p == "update"
    then some update
    else if p == "sys:manage"
    then some manage
    else none

-- `{p}`
abbrev pub just : Permission → Permissions
just read = record nothing { has_read = true }
just write = record nothing { has_write = true }
just delete = record nothing { has_delete = true }
just update = record nothing { has_update = true }
just manage = record nothing { has_manage = true }

abbrev pub with_permission : Option Permission → Option Permissions → Option Permissions
with_permission none s = none
with_permission (some p) none = none
with_permission (some p) (some s) = some (union (just p) s)

-- `{Permission(p) for p in permissions}`, or its `ValueError`
unfoldable pub permissions_of : List String → Option Permissions
unfolding permission_of
permissions_of [] = some nothing
permissions_of (p ∷ ps) = with_permission (permission_of p) (permissions_of ps)

unfoldable pub parse_permissions : List String → Exec World Permissions
unfolding permissions_of
parse_permissions ps = or_raise (permissions_of ps) uncaught

-- `_admin_principal_ids`
unfoldable pub admin_principal_ids : ResourcePolicy → List String
admin_principal_ids policy = map (λ g. g.principal.id) (filter (λ g. g.is_owner) policy.grants)

module _ ⦃mongo : Mongo⦄ where
  -- `_group_ids`
  unfoldable pub group_ids : String → String → Exec World (List String)
  unfolding find_groups_for_user
  group_ids account_id user_id = do
    groups ← find_groups_for_user account_id user_id false
    pure (map (λ g. g.group_id) groups)

  -- `_principal_ids`
  unfoldable pub principal_ids : String → String → Exec World (List String)
  unfolding group_ids
  principal_ids account_id user_id = do ids ← group_ids account_id user_id; pure (user_id ∷ ids)

  -- an administrator acts as the owners do
  unfoldable pub caller_ids : Bool → String → String → ResourcePolicy → Exec World (List String)
  unfolding principal_ids admin_principal_ids
  caller_ids true account_id caller_id policy = pure (admin_principal_ids policy)
  caller_ids false account_id caller_id policy = principal_ids account_id caller_id

  -- `check` takes the id of a group alone
  unfoldable pub checked_ids : PrincipalType → String → String → Exec World (List String)
  unfolding principal_ids
  checked_ids group_principal account_id user_id = pure (user_id ∷ [])
  checked_ids user_principal account_id user_id = principal_ids account_id user_id

  -- the second half of `resolve_principal`
  unfoldable pub resolve_group : String → Option String → Exec World Principal
  unfolding find_group
  resolve_group account_id principal_id = do
    given ← or_raise (truthy principal_id) (not_found "SecurityGroup" "")
    found ← find_group account_id (strip given)
    group ← or_raise found (not_found "SecurityGroup" given)
    raise_if (not group.is_active) (validation "Disabled groups cannot own or receive ACL grants")
    pure (record { type = group_principal; id = strip given })

  -- the name of a group, or the id; an error of the lookup counts as a miss
  abbrev pub name_of : String → Option SecurityGroup → String
  name_of id none = id
  name_of id (some group) = group.name

  unfoldable pub group_name : String → Principal → Exec World String
  unfolding find_group
  group_name account_id principal =
      recover (do found ← find_group account_id principal.id; pure (name_of principal.id found))
        (λ _. pure principal.id)

module _ ⦃mongo : Mongo⦄ ⦃unicode : Unicode⦄ where
  -- the first half of `resolve_principal`, by whether there is a users repository
  unfoldable pub resolve_user :
      Bool → String → Option String → Option String → Option String → Exec World Principal
  unfolding resolve_user_identifier
  resolve_user false account_id principal_id principal_username principal_identifier =
      elim (truthy principal_id) [
        | some given ↦ pure (record { type = user_principal; id = strip given })
        | none ↦ raise (not_found "User" (or_text principal_username (or_text principal_id "")))
      ]
  resolve_user true account_id principal_id principal_username principal_identifier = do
    user ←
        resolve_user_identifier account_id
          (or_text principal_identifier (or_text principal_username (or_text principal_id "")))
    pure (record { type = user_principal; id = user.user_id })

  -- the arguments are the account, the type, the id, the user name and the identifier
  unfoldable pub resolve_principal :
      Bool
      → String
      → PrincipalType
      → Option String
      → Option String
      → Option String
      → Exec World Principal
  unfolding resolve_user resolve_group
  resolve_principal users account_id user_principal principal_id principal_username identifier =
      resolve_user users account_id principal_id principal_username identifier
  resolve_principal users account_id group_principal principal_id principal_username identifier =
      resolve_group account_id principal_id

  unfoldable pub principal_name : Bool → String → Principal → Exec World String
  unfolding find_by_id group_name
  principal_name users account_id principal = elim principal.type [
    | group_principal ↦ group_name account_id principal
    | user_principal ↦ elim users [
      | false ↦ pure principal.id
      | true ↦ do
        found ← find_by_id principal.id account_id
        elim found [ some user ↦ pure user.username | none ↦ pure principal.id ]
    ]
  ]
