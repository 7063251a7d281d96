-- ===== src/PlatformUsers/Service.antt =====
-- `PlatformUserService` of xoloapi/platform_users/application/platform_user_service.py. The hash of a
-- password, with its salt, and its test (`bcrypt`) are arguments, as is a fresh id (`nanoid`).
use xolo_api.Base.{
  String, Bool, true, false, not, ◌&&◌, ◌||◌, List, [], filter, leb, ltb, Option, none, some,
}
use xolo_api.Errors.{
  not_found, already_exists, conflict, unauthorized, access_denied, validation, uncaught,
}
use xolo_api.Exec.{Exec, pure, or_raise, raise_if, ◌>>=◌, ◌>>◌}
use xolo_api.Platform.Collections.{is_some}
use xolo_api.Platform.Mongo.{Mongo}
use xolo_api.Platform.Text.{Unicode, strip, size, compare_digest}
use xolo_api.World.{World}
use xolo_api.PlatformUsers.Types.{
  PlatformRole, admin, user, guest, PlatformPermission, PlatformUser, is_admin, is_guest, read_only,
}
use xolo_api.PlatformUsers.Repository as Repository
use xolo_api.PlatformUsers.Repository.{is_active_admin}

-- `_permissions_for_role`
unfoldable pub permissions_for_role :
    PlatformRole → List PlatformPermission → List PlatformPermission
permissions_for_role admin ps = []
permissions_for_role guest ps = filter read_only ps
permissions_for_role user ps = ps

-- `x if x is not None else y`
abbrev pub or_kept {ℓ} : {A : Type ℓ} → Option A → A → A
or_kept none y = y
or_kept (some x) y = x

-- the permissions that an update leaves
unfoldable pub next_permissions :
    PlatformRole
    → Option (List PlatformPermission)
    → List PlatformPermission
    → List PlatformPermission
unfolding permissions_for_role
next_permissions role none guest_only = elim (is_guest role) [
  | true ↦ permissions_for_role role guest_only
  | false ↦ guest_only
]
next_permissions role (some ps) _ = permissions_for_role role ps

-- the test of `_validate_password`
unfoldable pub is_short : String → Bool
unfolding size
is_short password = ltb (size password) 12

unfoldable pub is_short_name : String → Bool
unfolding size
is_short_name username = ltb (size username) 3

module _ ⦃mongo : Mongo⦄ where
  unfoldable pub get : String → Exec World PlatformUser
  unfolding Repository.find_by_id
  get user_id = do
    found ← Repository.find_by_id user_id
    or_raise found (not_found "Platform user" user_id)

  -- `_ensure_another_admin`, if the change takes an active administrator away
  unfoldable pub ensure_another_admin : Bool → Exec World (Unit {0})
  unfolding Repository.count_active_admins
  ensure_another_admin false = pure tt
  ensure_another_admin true = do
    n ← Repository.count_active_admins
    raise_if (leb n 1)
        (conflict "The last active platform administrator cannot be removed, disabled, or demoted")

  unfoldable pub updated :
      Option PlatformRole
      → Option (List PlatformPermission)
      → Option (List String)
      → Option Bool
      → PlatformUser
      → PlatformUser
  unfolding next_permissions
  updated role permissions allowed_account_ids is_active u = record u {
    role = or_kept role u.role;
    is_active = or_kept is_active u.is_active;
    permissions = next_permissions (or_kept role u.role) permissions u.permissions;
    allowed_account_ids = or_kept allowed_account_ids u.allowed_account_ids;
  }

  -- the change takes an active administrator away
  abbrev pub loses_admin : Option PlatformRole → Option Bool → PlatformUser → Bool
  loses_admin role is_active u =
      (is_admin u.role && u.is_active)
      && (not (is_admin (or_kept role u.role)) || not (or_kept is_active u.is_active))

  unfoldable pub update :
      String
      → Option PlatformRole
      → Option (List PlatformPermission)
      → Option (List String)
      → Option Bool
      → Exec World PlatformUser
  unfolding get ensure_another_admin Repository.save updated
  update user_id role permissions allowed_account_ids is_active = do
    u ← get user_id
    ensure_another_admin (loses_admin role is_active u)
    Repository.save (updated role permissions allowed_account_ids is_active u)

  unfoldable pub delete : String → Exec World Bool
  unfolding get ensure_another_admin Repository.delete
  delete user_id = do
    u ← get user_id
    ensure_another_admin (is_active_admin u)
    Repository.delete user_id

module _ ⦃mongo : Mongo⦄ (hash_value : String → String) (verify : String → String → Bool) where
  unfoldable pub change_password : String → String → String → Exec World PlatformUser
  unfolding get is_short Repository.save
  change_password user_id current_password new_password = do
    u ← get user_id
    raise_if (not (verify u.password_hash current_password))
        (unauthorized "Current password is incorrect")
    raise_if (is_short new_password) (validation "Password must contain at least 12 characters")
    repeated ← or_raise (compare_digest current_password new_password) uncaught
    raise_if repeated (validation "The new password must be different")
    Repository.save
        (record u { password_hash = hash_value new_password; must_change_password = false })

  unfoldable pub reset_password : String → String → Exec World PlatformUser
  unfolding get is_short Repository.save
  reset_password user_id password = do
    u ← get user_id
    raise_if (is_short password) (validation "Password must contain at least 12 characters")
    Repository.save (record u { password_hash = hash_value password; must_change_password = true })

module _ ⦃mongo : Mongo⦄ ⦃unicode : Unicode⦄ (hash_value : String → String)
    (verify : String → String → Bool) where
  -- `_normalize_username`
  unfoldable pub normalize_username : String → String
  unfolding strip
  normalize_username username = unicode.lower (strip username)

  -- the user is saved with the time of the login, which is not modelled
  unfoldable pub authenticate : String → String → Exec World PlatformUser
  unfolding normalize_username is_short_name Repository.find_by_username Repository.save
  authenticate username password = do
    raise_if (is_short_name (normalize_username username))
        (unauthorized "Invalid username or password")
    found ← Repository.find_by_username (normalize_username username)
    u ← or_raise found (unauthorized "Invalid username or password")
    raise_if (not u.is_active) (access_denied "Platform user is disabled")
    raise_if (not (verify u.password_hash password)) (unauthorized "Invalid username or password")
    Repository.save u

  unfoldable pub new_user :
      String
      → String
      → String
      → PlatformRole
      → List PlatformPermission
      → List String
      → Bool
      → PlatformUser
  unfolding permissions_for_role
  new_user fresh username password role permissions allowed_account_ids must_change = record {
    user_id = fresh;
    username = username;
    password_hash = hash_value password;
    role = role;
    permissions = permissions_for_role role permissions;
    allowed_account_ids = allowed_account_ids;
    is_active = true;
    must_change_password = must_change;
  }

  unfoldable pub create :
      String
      → String
      → String
      → PlatformRole
      → List PlatformPermission
      → List String
      → Bool
      → Exec World PlatformUser
  unfolding normalize_username is_short is_short_name Repository.find_by_username Repository.save
      new_user
  create fresh username password role permissions allowed_account_ids must_change = do
    raise_if (is_short_name (normalize_username username))
        (validation "Username must contain at least 3 characters")
    raise_if (is_short password) (validation "Password must contain at least 12 characters")
    existing ← Repository.find_by_username (normalize_username username)
    raise_if (is_some existing) (already_exists "Platform user" (normalize_username username))
    Repository.save (
        new_user fresh (normalize_username username) password role permissions allowed_account_ids
          must_change)
