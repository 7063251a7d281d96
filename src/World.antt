-- ===== src/World.antt =====
-- The state that the services share: the collections of the database, and when it is out of reach.
-- A call of the database that meets an outage raises, and the repositories answer a
-- `DatabaseError`. One request runs at a time.
pub mod Rules
pub mod Calm
pub mod Reads
pub mod Ends
pub mod Does
pub mod Told
pub mod Passes
use xolo_api.Base.{String, ℕ, ◌+◌, ◌≡◌, Bool, true, false, List, []}
use xolo_api.Errors.{XoloException, database, uncaught}
use xolo_api.Exec.{Result, ok, err, Exec}
use xolo_api.Ngac.Types.{Node, Assignment, Association}
use xolo_api.Acl.Types.{ResourcePolicy}
use xolo_api.Groups.Types.{SecurityGroup, GroupMember}
use xolo_api.Rbac.Types.{Role, RoleAssignment}
use xolo_api.Users.Types.{User}
use xolo_api.Abac.Types.{PolicyDoc}
use xolo_api.ApiKeys.Types.{ApiKey}
use xolo_api.PlatformUsers.Types.{PlatformUser}

pub record Database : Type 0 where
  pub nodes : List Node
  pub assignments : List Assignment
  pub associations : List Association
  pub policies : List ResourcePolicy
  pub groups : List SecurityGroup
  pub members : List GroupMember
  pub roles : List Role
  pub role_assignments : List RoleAssignment
  -- `permission_catalog`: an account and a permission
  pub catalog : List (String × String)
  pub users : List User
  pub abac_policies : List PolicyDoc
  pub api_keys : List ApiKey
  pub platform_users : List PlatformUser

abbrev pub empty : Database
empty = record {
  nodes = [];
  assignments = [];
  associations = [];
  policies = [];
  groups = [];
  members = [];
  roles = [];
  role_assignments = [];
  catalog = [];
  users = [];
  abac_policies = [];
  api_keys = [];
  platform_users = [];
}

pub record World : Type 0 where
  pub db : Database
  -- how many calls have been made, and which of them fail
  pub calls : ℕ
  pub outage : ℕ → Bool

module _ {A : Type 0} where
  -- a call that only reads
  unfoldable pub query : (Database → A) → Exec World A
  query f w = elim (w.outage w.calls) [
    | true ↦ (err database, record w { calls = w.calls + 1 })
    | false ↦ (ok (f w.db), record w { calls = w.calls + 1 })
  ]

  -- a call that writes
  unfoldable pub command : (Database → A × Database) → Exec World A
  command f w = elim (w.outage w.calls) [
    | true ↦ (err database, record w { calls = w.calls + 1 })
    | false ↦ let (a, db') = f w.db in (ok a, record w { db = db'; calls = w.calls + 1 })
  ]

  -- a call that only reads, outside any `try`: the exception escapes
  unfoldable pub query_uncaught : (Database → A) → Exec World A
  query_uncaught f w = elim (w.outage w.calls) [
    | true ↦ (err uncaught, record w { calls = w.calls + 1 })
    | false ↦ (ok (f w.db), record w { calls = w.calls + 1 })
  ]

  -- a call that writes, outside any `try`
  unfoldable pub command_uncaught : (Database → A × Database) → Exec World A
  command_uncaught f w = elim (w.outage w.calls) [
    | true ↦ (err uncaught, record w { calls = w.calls + 1 })
    | false ↦ let (a, db') = f w.db in (ok a, record w { db = db'; calls = w.calls + 1 })
  ]

-- a transaction: what was written in it is undone if a call in it, or its commit, fails
unfoldable pub transaction : {A : Type 0} → Exec World A → Exec World A
transaction m w =
    let (r, w') = m w in
    elim r [
      | err e ↦ (err e, record w' { db = w.db })
      | ok a ↦ elim (w'.outage w'.calls) [
        | true ↦ (err database, record w' { db = w.db; calls = w'.calls + 1 })
        | false ↦ (ok a, record w' { calls = w'.calls + 1 })
      ]
    ]

-- no call fails
abbrev pub IsCalm : World → Type 0
IsCalm w = (n : ℕ) → w.outage n ≡ false
