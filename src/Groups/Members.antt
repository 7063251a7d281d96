-- ===== src/Groups/Members.antt =====
-- The operations of `GroupService`, xoloapi/groups/application/group_service.py, on the members and the
-- owner of a group.
use xolo_api.Base.{
  String, Bool, true, false, not, ◌&&◌, List, [], ◌∷◌, ◌++◌, any, elem, ◌==◌, if◌then◌else◌,
}
use xolo_api.Errors.{XoloException, not_found, access_denied}
use xolo_api.Exec.{Exec, pure, raise, or_raise, raise_if, recover, ◌>>=◌, ◌>>◌}
use xolo_api.Platform.Mongo.{Mongo}
use xolo_api.Platform.Text.{Unicode}
use xolo_api.World.{World}
use xolo_api.Groups.Types.{SecurityGroup, GroupMember, is_owned_by}
use xolo_api.Groups.Repository as Repository
use xolo_api.Groups.Repository.{Server}
use xolo_api.Groups.Service.{first, get_group, resolve_usernames, validate_user_ids}

-- `list(dict.fromkeys(xs))`, after those that were seen
unfoldable pub unseen : List String → List String → List String
unseen seen [] = []
unseen seen (x ∷ xs) = let rest = unseen (x ∷ seen) xs in if elem x seen then rest else x ∷ rest

module _ ⦃mongo : Mongo⦄ (server : Server) where
  unfoldable pub is_member : String → String → String → Exec World Bool
  unfolding get_group Repository.is_member
  is_member account_id user_id group_id = do
    _ ← get_group account_id group_id
    Repository.is_member account_id group_id user_id

  unfoldable pub list_members_authorized :
      String → String → String → Bool → Exec World (List GroupMember)
  unfolding get_group Repository.list_members
  list_members_authorized account_id group_id caller_id is_admin = do
    group ← get_group account_id group_id
    raise_if (not is_admin && not (is_owned_by caller_id group))
        (access_denied "Only the group owner can list members")
    Repository.list_members account_id group_id

  unfoldable pub add_members_admin : String → String → List String → Exec World Bool
  unfolding get_group Repository.add_members_atomic
  add_members_admin account_id group_id user_ids = do
    _ ← get_group account_id group_id
    Repository.add_members_atomic server account_id group_id user_ids

  unfoldable pub remove_members_admin : String → String → List String → Exec World Bool
  unfolding get_group Repository.remove_members_atomic
  remove_members_admin account_id group_id user_ids = do
    _ ← get_group account_id group_id
    Repository.remove_members_atomic server account_id group_id user_ids

  -- the compensation for a save that failed
  unfoldable pub take_back :
      Bool → String → SecurityGroup → XoloException → Exec World SecurityGroup
  unfolding Repository.remove_members_atomic
  take_back false account_id group e = raise e
  take_back true account_id group e =
      recover
        (Repository.remove_members_atomic server account_id group.group_id (group.owner_id ∷ []))
        (λ _. pure false)
      >> raise e

  unfoldable pub handed_over : Bool → String → String → SecurityGroup → Exec World Bool
  unfolding Repository.save take_back
  handed_over added account_id new_owner_id group = do
    recover (Repository.save (record group { owner_id = new_owner_id }))
        (take_back added account_id group)
    pure true

  -- the previous owner becomes a member, if it was none
  unfoldable pub joined : Bool → String → SecurityGroup → Exec World Bool
  unfolding Repository.add_members_atomic
  joined true account_id group = pure false
  joined false account_id group =
      Repository.add_members_atomic server account_id group.group_id (group.owner_id ∷ [])

  -- whether the previous owner was added
  unfoldable pub kept_as_member : Bool → String → SecurityGroup → Exec World Bool
  unfolding Repository.is_member joined
  kept_as_member false account_id group = pure false
  kept_as_member true account_id group = do
    was_member ← Repository.is_member account_id group.group_id group.owner_id
    joined was_member account_id group

  -- nothing is to be done for the owner
  unfoldable pub transferred : Bool → Bool → String → String → SecurityGroup → Exec World Bool
  unfolding kept_as_member handed_over
  transferred true keep account_id new_owner_id group = pure true
  transferred false keep account_id new_owner_id group = do
    added ← kept_as_member keep account_id group
    handed_over added account_id new_owner_id group

module _ ⦃mongo : Mongo⦄ ⦃unicode : Unicode⦄ (users : Bool) (server : Server) where
  -- the ids and the user names, each id once
  unfoldable pub targets : String → List String → List String → Exec World (List String)
  unfolding resolve_usernames validate_user_ids unseen
  targets account_id user_ids usernames = do
    resolved ← resolve_usernames users account_id usernames
    validated ← validate_user_ids users account_id user_ids
    pure (unseen [] (validated ++ resolved))

  unfoldable pub add_members :
      String → String → String → List String → List String → Exec World Bool
  unfolding get_group targets Repository.add_members_atomic
  add_members account_id caller_id group_id user_ids usernames = do
    group ← get_group account_id group_id
    raise_if (not (is_owned_by caller_id group))
        (access_denied "Only the group owner can add members")
    ids ← targets account_id user_ids usernames
    Repository.add_members_atomic server account_id group_id ids

  unfoldable pub remove_members :
      String → String → String → List String → List String → Exec World Bool
  unfolding get_group targets Repository.remove_members_atomic
  remove_members account_id caller_id group_id user_ids usernames = do
    group ← get_group account_id group_id
    ids ← targets account_id user_ids usernames
    raise_if (any (λ u. not (caller_id == u) && not (is_owned_by caller_id group)) ids)
        (access_denied "Only the group owner can remove other members")
    Repository.remove_members_atomic server account_id group_id ids

  unfoldable pub transfer_owner_admin : String → String → String → Bool → Exec World Bool
  unfolding get_group validate_user_ids transferred
  transfer_owner_admin account_id group_id new_owner_id keep = do
    group ← get_group account_id group_id
    validate_user_ids users account_id (new_owner_id ∷ [])
    transferred server (group.owner_id == new_owner_id) keep account_id new_owner_id group

  unfoldable pub transfer_owner : String → String → String → String → Bool → Exec World Bool
  unfolding get_group resolve_usernames transfer_owner_admin
  transfer_owner account_id group_id caller_id owner_username is_admin = do
    group ← get_group account_id group_id
    raise_if (not is_admin && not (is_owned_by caller_id group))
        (access_denied "Only the current owner or groups.manage may transfer ownership")
    ids ← resolve_usernames users account_id (owner_username ∷ [])
    owner ← or_raise (first ids) (not_found "User" owner_username)
    transfer_owner_admin account_id group_id owner true
