-- ===== src/PlatformUsers/Types.antt =====
-- xoloapi/platform_users/domain, without time stamps: the users of the platform console and what they may
-- do. A set of permissions is a list.
use xolo_api.Base.{
  String, Bool, true, false, not, List, [], ◌∷◌, filter, any, elem, Option, none, some, ◌==◌,
  if◌then◌else◌,
}
use xolo_api.Platform.Text.{ends_with}

pub data PlatformRole : Type 0 where
  admin user guest : PlatformRole

pub data PlatformPermission : Type 0 where
  accounts_read accounts_manage platform_users_read platform_users_manage api_keys_read
        api_keys_manage :
      PlatformPermission
  users_read users_manage scopes_read scopes_manage licenses_read licenses_manage :
      PlatformPermission
  acl_read acl_manage groups_read groups_manage rbac_read rbac_manage : PlatformPermission
  abac_read abac_manage ngac_read ngac_manage audit_read : PlatformPermission

unfoldable pub value : PlatformPermission → String
value accounts_read = "accounts.read"
value accounts_manage = "accounts.manage"
value platform_users_read = "platform_users.read"
value platform_users_manage = "platform_users.manage"
value api_keys_read = "api_keys.read"
value api_keys_manage = "api_keys.manage"
value users_read = "users.read"
value users_manage = "users.manage"
value scopes_read = "scopes.read"
value scopes_manage = "scopes.manage"
value licenses_read = "licenses.read"
value licenses_manage = "licenses.manage"
value acl_read = "acl.read"
value acl_manage = "acl.manage"
value groups_read = "groups.read"
value groups_manage = "groups.manage"
value rbac_read = "rbac.read"
value rbac_manage = "rbac.manage"
value abac_read = "abac.read"
value abac_manage = "abac.manage"
value ngac_read = "ngac.read"
value ngac_manage = "ngac.manage"
value audit_read = "audit.read"

-- `PlatformPermission.read_only`
unfoldable pub read_only : PlatformPermission → Bool
unfolding value ends_with
read_only p = ends_with ".read" (value p)

-- `p == q` of two permissions
unfoldable pub is_permission : PlatformPermission → PlatformPermission → Bool
unfolding value
is_permission p q = value p == value q

pub record PlatformUser : Type 0 where
  pub user_id : String
  pub username : String
  pub password_hash : String
  pub role : PlatformRole
  pub permissions : List PlatformPermission
  pub allowed_account_ids : List String
  pub is_active : Bool
  pub must_change_password : Bool

abbrev pub every_permission : List PlatformPermission
every_permission =
    accounts_read ∷ accounts_manage ∷ platform_users_read ∷ platform_users_manage ∷ api_keys_read
    ∷ api_keys_manage ∷ users_read ∷ users_manage ∷ scopes_read ∷ scopes_manage ∷ licenses_read
    ∷ licenses_manage ∷ acl_read ∷ acl_manage ∷ groups_read ∷ groups_manage ∷ rbac_read
    ∷ rbac_manage ∷ abac_read ∷ abac_manage ∷ ngac_read ∷ ngac_manage ∷ audit_read ∷ []

abbrev pub is_admin : PlatformRole → Bool
is_admin admin = true
is_admin _ = false

abbrev pub is_guest : PlatformRole → Bool
is_guest guest = true
is_guest _ = false

abbrev permissions_under : PlatformRole → List PlatformPermission → List PlatformPermission
permissions_under admin ps = every_permission
permissions_under guest ps = filter read_only ps
permissions_under user ps = ps

-- `PlatformUser.effective_permissions`
abbrev pub effective_permissions : PlatformUser → List PlatformPermission
effective_permissions u = permissions_under u.role u.permissions

abbrev is_allowed_in : Option String → PlatformUser → Bool
is_allowed_in none u = true
is_allowed_in (some account_id) u = elem account_id u.allowed_account_ids

-- `PlatformUser.can`
unfoldable pub can : PlatformPermission → Option String → PlatformUser → Bool
unfolding is_permission read_only
can permission account_id u =
    if not u.is_active
    then false
    else if is_admin u.role
    then true
    else if not (any (is_permission permission) (effective_permissions u))
    then false
    else is_allowed_in account_id u
