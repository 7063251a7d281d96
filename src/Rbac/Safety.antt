-- ===== src/Rbac/Safety.antt =====
-- The role operations keep the hierarchies of roles: no role id stands twice, and the parents of an
-- account's roles form no cycle.
pub mod Edges
pub mod Operations
pub mod Deleting
pub mod Assignments
use xolo_api.Base.{String, ◌≤◌, ◌≡◌, Bool, true, ◌&&◌, List, elem, any, count, ◌==◌}
use xolo_api.Traversal.Reach.{IsAcyclic}
use xolo_api.World.{Database}
use xolo_api.Rbac.Types.{Role}
use xolo_api.Rbac.Repository.Roles.{has_role_id}

-- a role of the account names the parent
abbrev pub names_parent : String → String → String → Role → Bool
names_parent account_id u v r =
    r.account_id == account_id && (r.role_id == u && elem v r.parent_role_ids)

abbrev pub hierarchy : List Role → String → String → String → Bool
hierarchy roles account_id u v = any (names_parent account_id u v) roles

pub record IsHierarchical (roles : List Role) : Type 0 where
  pub single : (role_id : String) → count (has_role_id role_id) roles ≤ 1
  pub acyclic : (account_id : String) → IsAcyclic (hierarchy roles account_id)

abbrev pub IsSound : Database → Type 0
IsSound db = IsHierarchical db.roles
