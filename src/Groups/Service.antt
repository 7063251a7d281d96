-- ===== src/Groups/Service.antt =====
-- The operations of `GroupService`, xoloapi/groups/application/group_service.py, on groups. Whether the
-- service was built with the users repository and with the resolver of usages is an argument, as is a
-- fresh id (`uuid4`). `usage` is the one of xoloapi/groups/controller.py, `_usage`.
use Prim.Native.String.{◌++◌ as concat}
use xolo_api.Base.{
  String, Bool, true, false, not, ◌&&◌, ◌||◌, List, [], ◌∷◌, any, is_empty, Option, none, some,
  ◌==◌, if◌then◌else◌,
}
use xolo_api.Errors.{not_found, already_exists, access_denied, conflict, validation}
use xolo_api.Exec.{Exec, pure, raise, or_raise, raise_if, ◌>>=◌, ◌>>◌}
use xolo_api.Platform.Collections.{is_some}
use xolo_api.Platform.Mongo.{Mongo}
use xolo_api.Platform.Text.{Unicode, strip, one_spaced}
use xolo_api.World.{World, query}
use xolo_api.Users.Resolution.{find_by_id, resolve_user_identifier}
use xolo_api.Acl.Types.{AccessGrant, ResourcePolicy}
use xolo_api.Rbac.Types.{group_subject}
use xolo_api.Rbac.Repository.Assignments.{is_for_subject}
use xolo_api.Groups.Types.{SecurityGroup, is_owned_by}
use xolo_api.Groups.Repository as Repository
use xolo_api.Groups.Repository.{normalize_name}

-- `xs[0]`
abbrev pub first : List String → Option String
first [] = none
first (x ∷ _) = some x

-- `changes` of `update_group`
abbrev pub described : Option String → SecurityGroup → SecurityGroup
described none group = group
described (some text) group = record group {
  description = if strip text == "" then none else some (strip text);
}

abbrev pub grants_to : String → String → ResourcePolicy → Bool
grants_to account_id group_id p =
    p.account_id == account_id && any (λ (g : AccessGrant). g.principal.id == group_id) p.grants

module _ ⦃mongo : Mongo⦄ where
  unfoldable pub get_group : String → String → Exec World SecurityGroup
  unfolding Repository.find_group
  get_group account_id group_id = do
    found ← Repository.find_group account_id group_id
    or_raise found (not_found "SecurityGroup" group_id)

  unfoldable pub set_status : String → String → Bool → Exec World SecurityGroup
  unfolding get_group Repository.save
  set_status account_id group_id is_active = do
    group ← get_group account_id group_id
    Repository.save (record group { is_active = is_active })

  -- whether the group is still named by a grant, and by a role assignment
  unfoldable pub usage : Bool → String → String → Exec World (Bool × Bool)
  usage false account_id group_id = pure (false, false)
  usage true account_id group_id = do
    policies ← query λ db. mongo.find (grants_to account_id group_id) db.policies
    assignments ← query λ db.
        mongo.find (is_for_subject account_id group_id (some group_subject)) db.role_assignments
    pure (not (is_empty policies), not (is_empty assignments))

  -- the end of both deletions
  unfoldable pub delete_unused : Bool → String → String → Exec World Bool
  unfolding usage Repository.delete
  delete_unused resolver account_id group_id = do
    used ← usage resolver account_id group_id
    raise_if (used.0 || used.1) (conflict "Group is still referenced")
    Repository.delete account_id group_id

  unfoldable pub delete_group : Bool → String → String → String → Exec World Bool
  unfolding get_group delete_unused
  delete_group resolver account_id caller_id group_id = do
    group ← get_group account_id group_id
    raise_if (not (is_owned_by caller_id group))
        (access_denied "Only the group owner can delete this group")
    delete_unused resolver account_id group_id

  unfoldable pub delete_group_admin : Bool → String → String → Exec World Bool
  unfolding get_group delete_unused
  delete_group_admin resolver account_id group_id = do
    _ ← get_group account_id group_id
    delete_unused resolver account_id group_id

module _ ⦃mongo : Mongo⦄ ⦃unicode : Unicode⦄ where
  -- the loop of `resolve_usernames`
  unfoldable pub resolve_each : String → List String → Exec World (List String)
  unfolding resolve_user_identifier
  resolve_each account_id [] = pure []
  resolve_each account_id (u ∷ us) = do
    user ← resolve_user_identifier account_id u
    ids ← resolve_each account_id us
    pure (user.user_id ∷ ids)

  unfoldable pub resolve_usernames : Bool → String → List String → Exec World (List String)
  unfolding resolve_each
  resolve_usernames users account_id [] = pure []
  resolve_usernames false account_id (u ∷ us) = raise (not_found "User" u)
  resolve_usernames true account_id (u ∷ us) = resolve_each account_id (u ∷ us)

  -- the loop of `validate_user_ids`
  unfoldable pub validate_each : String → List String → Exec World (Unit {0})
  unfolding find_by_id
  validate_each account_id [] = pure tt
  validate_each account_id (u ∷ us) = do
    found ← find_by_id u account_id
    raise_if (not (is_some found)) (not_found "User" u)
    validate_each account_id us

  unfoldable pub validate_user_ids : Bool → String → List String → Exec World (List String)
  unfolding validate_each
  validate_user_ids false account_id user_ids = pure user_ids
  validate_user_ids true account_id user_ids = do validate_each account_id user_ids; pure user_ids

  abbrev pub new_group : String → String → String → String → String → SecurityGroup
  new_group fresh account_id owner_id name description = record {
    account_id = account_id;
    group_id = concat "g-" fresh;
    name = (normalize_name name).0;
    owner_id = owner_id;
    description = if description == "" then none else some description;
    normalized_name = (normalize_name name).1;
    is_active = true;
  }

  unfoldable pub create_group : String → String → String → String → String → Exec World String
  unfolding Repository.find_by_name Repository.save one_spaced
  create_group fresh account_id owner_id name description = do
    raise_if ((normalize_name name).0 == "") (validation "Group name cannot be empty")
    exists ← Repository.find_by_name account_id (normalize_name name).0
    raise_if (is_some exists) (already_exists "SecurityGroup" name)
    Repository.save (new_group fresh account_id owner_id name description)
    pure (concat "g-" fresh)

  unfoldable pub create_group_for_username :
      Bool → String → String → String → String → String → Exec World String
  unfolding resolve_usernames create_group
  create_group_for_username users fresh account_id owner_username name description = do
    ids ← resolve_usernames users account_id (owner_username ∷ [])
    owner ← or_raise (first ids) (not_found "User" owner_username)
    create_group fresh account_id owner name description

  abbrev pub is_other : String → Option SecurityGroup → Bool
  is_other group_id none = false
  is_other group_id (some duplicate) = not (duplicate.group_id == group_id)

  -- the group with its new name, if one is given and no other group has it
  unfoldable pub renamed :
      String → String → Option String → SecurityGroup → Exec World SecurityGroup
  unfolding Repository.find_by_name one_spaced
  renamed account_id group_id none group = pure group
  renamed account_id group_id (some name) group = do
    raise_if ((normalize_name name).0 == "") (validation "Group name cannot be empty")
    duplicate ← Repository.find_by_name account_id (normalize_name name).0
    raise_if (is_other group_id duplicate) (already_exists "SecurityGroup" (normalize_name name).0)
    pure
        (record group { name = (normalize_name name).0; normalized_name = (normalize_name name).1 })

  unfoldable pub update_group :
      String → String → String → Option String → Option String → Bool → Exec World SecurityGroup
  unfolding get_group renamed Repository.save
  update_group account_id group_id caller_id name description is_admin = do
    group ← get_group account_id group_id
    raise_if (not is_admin && not (is_owned_by caller_id group))
        (access_denied "Only the group owner or groups.manage may update the group")
    changed ← renamed account_id group_id name group
    Repository.save (described description changed)
