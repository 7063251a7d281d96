-- ===== src/Groups/Repository.antt =====
-- `MongoSecurityGroupRepository` of xoloapi/groups/infrastructure/mongo_security_group_repository.py.
-- The text of its `DatabaseError` is left out. Whether the server is a replica set, which has
-- transactions, is an argument.
use xolo_api.Base.{
  String, ℕ, Bool, true, false, not, ◌&&◌, ◌||◌, List, [], ◌∷◌, map, Option, none, some, elem,
  is_empty, ◌==◌,
}
use xolo_api.Errors.{conflict, database}
use xolo_api.Exec.{Result, ok, err, Exec, pure, raise_if, ◌>>=◌, ◌>>◌}
use xolo_api.Platform.Collections.{find_first, is_some}
use xolo_api.Platform.Text.{Unicode, one_spaced}
use xolo_api.Platform.Mongo.{Mongo}
use xolo_api.World.{Database, World, query, command, transaction}
use xolo_api.Groups.Types.{SecurityGroup, GroupMember}

-- the query for a group by its id
abbrev pub is_group : String → String → SecurityGroup → Bool
is_group account_id group_id g = g.account_id == account_id && g.group_id == group_id

-- the query for a membership
abbrev pub is_membership : String → String → String → GroupMember → Bool
is_membership account_id group_id user_id m =
    m.account_id == account_id && m.group_id == group_id && m.user_id == user_id

abbrev pub new_member : String → String → String → GroupMember
new_member account_id group_id user_id = record {
  account_id = account_id;
  group_id = group_id;
  user_id = user_id;
}

-- What `_run_batch` meets: whether the server has transactions, as a replica set, and which failures of
-- a transaction, by how many calls were made up to them, have the code 20 or 251, or a text with
-- "replica set", so that the calls are made again without a transaction.
pub record Server : Type 0 where
  pub has_transactions : Bool
  pub reruns : ℕ → Bool

-- the `except` branches of `_run_batch`
unfoldable pub rerun :
    (ℕ → Bool) → Exec World (Unit {0}) → Result (Unit {0}) × World → Result (Unit {0}) × World
rerun reruns operation (ok a, w) = (ok a, w)
rerun reruns operation (err e, w) = elim (reruns w.calls) [
  | true ↦ operation w
  | false ↦ (err e, w)
]

-- without transactions the first attempt fails before a write, and the calls are made one by one
unfoldable pub run_with : Bool → (ℕ → Bool) → Exec World (Unit {0}) → Exec World (Unit {0})
unfolding rerun transaction
run_with true reruns operation w = rerun reruns operation (transaction operation w)
run_with false reruns operation w = operation w

module _ ⦃mongo : Mongo⦄ where
  unfoldable pub find_group : String → String → Exec World (Option SecurityGroup)
  find_group account_id group_id =
      query λ db. mongo.find_one (is_group account_id group_id) db.groups

  -- the ids of the groups that list the user as a member
  abbrev pub memberships : String → String → Database → List String
  memberships account_id user_id db =
      map (λ (m : GroupMember). m.group_id)
        (mongo.find (λ (m : GroupMember). m.account_id == account_id && m.user_id == user_id)
          db.members)

  abbrev pub wanted : String → List String → Bool → SecurityGroup → Bool
  wanted account_id group_ids include_disabled g =
      g.account_id == account_id && elem g.group_id group_ids && (include_disabled || g.is_active)

  -- `if group_ids: ...`
  unfoldable pub groups_with : String → List String → Bool → Exec World (List SecurityGroup)
  groups_with account_id group_ids include_disabled = elim (is_empty group_ids) [
    | true ↦ pure []
    | false ↦ query λ db. mongo.find (wanted account_id group_ids include_disabled) db.groups
  ]

  unfoldable pub find_groups_for_user : String → String → Bool → Exec World (List SecurityGroup)
  unfolding groups_with
  find_groups_for_user account_id user_id include_disabled = do
    group_ids ← query (memberships account_id user_id)
    groups_with account_id group_ids include_disabled

  unfoldable pub find_group_ids_for_user : String → String → Exec World (List String)
  unfolding find_groups_for_user
  find_group_ids_for_user account_id user_id = do
    groups ← find_groups_for_user account_id user_id false
    pure (map (λ g. g.group_id) groups)

  unfoldable pub list_all : String → Exec World (List SecurityGroup)
  list_all account_id = query λ db.
      mongo.sort (λ (g : SecurityGroup). g.name)
        (mongo.find (λ (g : SecurityGroup). g.account_id == account_id) db.groups)

  unfoldable pub save : SecurityGroup → Exec World SecurityGroup
  save group = do
    command λ db. (
      tt {0},
      record db {
        groups = mongo.upsert_one (is_group group.account_id group.group_id) group db.groups;
      },
    )
    pure group

  unfoldable pub delete : String → String → Exec World Bool
  delete account_id group_id = do
    found ← command λ db.
        let (hit, c) = mongo.delete_one (is_group account_id group_id) db.groups in
        (hit, record db { groups = c })
    raise_if (not found) database
    command λ db. (
      tt {0},
      record db {
        members =
            (mongo.delete_many
              (λ (m : GroupMember). m.account_id == account_id && m.group_id == group_id)
              db.members).1;
      },
    )
    pure true

  -- a member is added but once
  unfoldable pub added : Bool → GroupMember → Exec World Bool
  added true member = pure true
  added false member = do
    command λ db. (tt {0}, record db { members = mongo.insert_one member db.members })
    pure true

  unfoldable pub add_member : String → String → String → Exec World Bool
  unfolding added
  add_member account_id group_id user_id = do
    existing ← query λ db. mongo.find_one (is_membership account_id group_id user_id) db.members
    added (is_some existing) (new_member account_id group_id user_id)

  unfoldable pub remove_member : String → String → String → Exec World Bool
  remove_member account_id group_id user_id = do
    command λ db. (
      tt {0},
      record db {
        members = (mongo.delete_one (is_membership account_id group_id user_id) db.members).1;
      },
    )
    pure true

  -- the loop of `add_members_atomic`
  unfoldable pub add_each : String → String → List String → Exec World (Unit {0})
  add_each account_id group_id [] = pure tt
  add_each account_id group_id (user_id ∷ user_ids) = do
    command λ db. (
      tt {0},
      record db {
        members =
            mongo.insert_missing (is_membership account_id group_id user_id)
              (new_member account_id group_id user_id) db.members;
      },
    )
    add_each account_id group_id user_ids

  unfoldable pub run_batch : Server → Exec World (Unit {0}) → Exec World (Unit {0})
  unfolding run_with
  run_batch server operation = run_with server.has_transactions server.reruns operation

  unfoldable pub add_members_atomic : Server → String → String → List String → Exec World Bool
  unfolding run_batch add_each
  add_members_atomic server account_id group_id user_ids = do
    run_batch server (add_each account_id group_id user_ids)
    pure true

  unfoldable pub remove_each : String → String → List String → Exec World (Unit {0})
  remove_each account_id group_id user_ids = command λ db. (
    tt,
    record db {
      members =
          (mongo.delete_many
            (λ (m : GroupMember).
              m.account_id == account_id && m.group_id == group_id && elem m.user_id user_ids)
            db.members).1;
    },
  )

  unfoldable pub remove_members_atomic : Server → String → String → List String → Exec World Bool
  unfolding run_batch remove_each
  remove_members_atomic server account_id group_id user_ids = do
    run_batch server (remove_each account_id group_id user_ids)
    pure true

  unfoldable pub list_members : String → String → Exec World (List GroupMember)
  list_members account_id group_id = query λ db.
      mongo.find (λ (m : GroupMember). m.account_id == account_id && m.group_id == group_id)
        db.members

  unfoldable pub is_member : String → String → String → Exec World Bool
  is_member account_id group_id user_id =
      query λ db. is_some (mongo.find_one (is_membership account_id group_id user_id) db.members)

  unfoldable pub find_owned_by_user : String → String → Exec World (List SecurityGroup)
  find_owned_by_user account_id user_id = query λ db.
      mongo.find (λ (g : SecurityGroup). g.account_id == account_id && g.owner_id == user_id)
        db.groups

  unfoldable pub delete_all_for_user : String → String → Exec World ℕ
  unfolding find_owned_by_user
  delete_all_for_user account_id user_id = do
    owned ← find_owned_by_user account_id user_id
    raise_if (not (is_empty owned))
        (conflict "User owns groups that must be transferred before deletion")
    command λ db.
        let (n, c) =
          mongo.delete_many
            (λ (m : GroupMember). m.account_id == account_id && m.user_id == user_id) db.members in
        (n, record db { members = c })

module _ ⦃mongo : Mongo⦄ ⦃unicode : Unicode⦄ where
  -- `SecurityGroup.normalize_name`: the name to display, and the one to compare
  abbrev pub normalize_name : String → String × String
  normalize_name name = (one_spaced name, unicode.casefold (one_spaced name))

  -- the scan of `find_by_name` for older documents
  unfoldable pub scan_for :
      String → String → Option SecurityGroup → Exec World (Option SecurityGroup)
  unfolding one_spaced
  scan_for account_id normalized (some group) = pure (some group)
  scan_for account_id normalized none = query λ db.
      find_first (λ (g : SecurityGroup). (normalize_name g.name).1 == normalized)
        (mongo.find (λ (g : SecurityGroup). g.account_id == account_id) db.groups)

  unfoldable pub find_by_name : String → String → Exec World (Option SecurityGroup)
  unfolding scan_for one_spaced
  find_by_name account_id name = do
    found ← query λ db.
        mongo.find_one
          (λ (g : SecurityGroup).
            g.account_id == account_id && g.normalized_name == (normalize_name name).1)
          db.groups
    scan_for account_id (normalize_name name).1 found
