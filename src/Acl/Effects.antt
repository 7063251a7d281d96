-- ===== src/Acl/Effects.antt =====
-- What an operation of the service leaves in the database: nothing new, a policy that one method of
-- the aggregate made of the stored one, or a policy less.
pub mod Callers
pub mod Keys
pub mod Operations
pub mod Lifetime
use xolo_api.Base.{
  String, ◌⊎◌, ◌≡◌, refl, Bool, true, false, List, ◌∷◌, ◌++◌, [], Option, none, some,
}
use xolo_api.Exec.{ok}
use xolo_api.Platform.Collections.{find_first, delete_first, replace_or_append}
use xolo_api.Platform.Mongo.{Mongo}
use xolo_api.World.{Database}
use xolo_api.Groups.Reading.{group_ids_of}
use xolo_api.Acl.Types.{manage, has, Principal, Permissions, ResourcePolicy}
use xolo_api.Acl.Policy as Policy
use xolo_api.Acl.Repository.{is_policy}
use xolo_api.Acl.Principals.{admin_principal_ids}
use xolo_api.Acl.Service.{new_policy}

-- the policy that is stored for a resource
abbrev pub policy_at : Database → String → String → Option ResourcePolicy
policy_at db account_id resource_id = find_first (is_policy account_id resource_id) db.policies

-- with the policy put in its place
abbrev pub with_policy : String → String → ResourcePolicy → Database → Database
with_policy account_id resource_id policy db = record db {
  policies = replace_or_append (is_policy account_id resource_id) policy db.policies;
}

abbrev pub without_policy : String → String → Database → Database
without_policy account_id resource_id db = record db {
  policies = delete_first (is_policy account_id resource_id) db.policies;
}

module _ ⦃mongo : Mongo⦄ where
  -- the principals that a caller acts for: the owners, or the user and its active groups
  abbrev pub callers_of : Bool → String → String → ResourcePolicy → Database → List String
  callers_of true account_id caller_id policy db = admin_principal_ids policy
  callers_of false account_id caller_id policy db = caller_id ∷ group_ids_of account_id caller_id db

module _ ⦃mongo : Mongo⦄ (fresh account_id caller_id : String) (is_admin : Bool) (db : Database)
    (old : ResourcePolicy) where
  -- one method of the aggregate, for a caller where the method asks for one
  pub data Method : ResourcePolicy → Type 0 where
    claims :
        (after : ResourcePolicy) (user_id : String)
        → Policy.claim fresh user_id old ≡ ok after
        → Method after
    claims_principal :
        (after : ResourcePolicy) (principal : Principal)
        → Policy.claim_principal fresh principal old ≡ ok after
        → Method after
    transfers :
        (after : ResourcePolicy) (principal : Principal) (keep : Permissions)
        → Policy.transfer_owner fresh principal keep old ≡ ok after
        → Method after
    grants :
        (after : ResourcePolicy) (principal : Principal) (permissions : Permissions)
        → Policy.grant fresh principal permissions
            (callers_of is_admin account_id caller_id old db)
            old
          ≡ ok after
        → Method after
    revokes :
        (after : ResourcePolicy) (principal_id : String) (permissions : Permissions)
        → Policy.revoke principal_id permissions caller_id
            (callers_of is_admin account_id caller_id old db)
            old
          ≡ ok after
        → Method after
    edits :
        (after : ResourcePolicy) (grant_id : String) (permissions : Permissions)
        → Policy.update_grant_permissions grant_id permissions
            (callers_of is_admin account_id caller_id old db)
            old
          ≡ ok after
        → Method after

-- the stored policy of the resource, or a new one where none is stored
abbrev pub IsCurrent : Database → String → String → ResourcePolicy → Type 0
IsCurrent db account_id resource_id old =
    (policy_at db account_id resource_id ≡ some old)
    ⊎ ((policy_at db account_id resource_id ≡ none) × (old ≡ new_policy account_id resource_id))

module _ ⦃mongo : Mongo⦄ (fresh account_id resource_id caller_id : String) (is_admin : Bool)
    (db : Database) where
  -- what a request about one resource may make of the database
  pub data Change : Database → Type 0 where
    same : (db' : Database) → db' ≡ db → Change db'
    stored :
        (db' : Database) (old after : ResourcePolicy)
        → IsCurrent db account_id resource_id old
        → Method fresh account_id caller_id is_admin db old after
        → db' ≡ with_policy account_id resource_id after db
        → Change db'
    dropped :
        (db' : Database) (old : ResourcePolicy)
        → policy_at db account_id resource_id ≡ some old
        → (is_admin ≡ true)
          ⊎ (has manage
                (Policy.effective_permissions (callers_of false account_id caller_id old db) old)
              ≡ true)
        → db' ≡ without_policy account_id resource_id db
        → Change db'
