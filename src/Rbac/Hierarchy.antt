-- ===== src/Rbac/Hierarchy.antt =====
-- `RBACDomainService` of xoloapi/rbac/domain/services.py: its loops on fuel. A set is a list
-- without order.
pub mod Walks
use xolo_api.Base.{
  String, ℕ, zero, suc, ◌+◌, Bool, true, false, not, ◌||◌, List, [], ◌∷◌, ◌++◌, map, any, filter,
  elem, length, Option, none, some, ◌==◌, if◌then◌else◌, Dict, lookup, insert,
}
use xolo_api.Traversal.Graph.{Adjacency}
use xolo_api.Traversal.Loop.{pending}
use xolo_api.Rbac.Types.{Role}
use xolo_api.Rbac.Permission.{RbacPermission, from_string, matches}

-- `{r.role_id: r for r in roles}`
unfoldable pub by_id : Dict Role → List Role → Dict Role
by_id d [] = d
by_id d (r ∷ rest) = by_id (insert r.role_id r d) rest

-- the edges of the hierarchy
abbrev pub parents : Dict Role → Adjacency
parents all_roles = map (λ e. (e.0, e.1.parent_role_ids)) all_roles

-- `result.update(permissions)`
abbrev pub join : List String → List String → List String
join result permissions = filter (λ p. not (elem p permissions)) result ++ permissions

-- the `while queue` of `resolve_effective_permissions`; `none` means that the fuel ran out
unfoldable pub resolve :
    Dict Role → ℕ → List String → List String → List String → Option (List String)
resolve all_roles zero visited result [] = some result
resolve all_roles zero visited result (_ ∷ _) = none
resolve all_roles (suc n) visited result [] = some result
resolve all_roles (suc n) visited result (role_id ∷ queue) = elim (elem role_id visited) [
  | true ↦ resolve all_roles n visited result queue
  | false ↦ elim (lookup role_id all_roles) [
    | none ↦ resolve all_roles n (role_id ∷ visited) result queue
    | some role ↦
        resolve all_roles n (role_id ∷ visited) (join result role.permissions)
          (queue ++ filter (λ pid. not (elem pid (role_id ∷ visited))) role.parent_role_ids)
  ]
]

-- Every round takes a name from the queue, and only as many come in as the hierarchy has edges.
unfoldable pub resolve_effective_permissions : List Role → Dict Role → List String
unfolding resolve
resolve_effective_permissions roles all_roles =
    let queue = map (λ r. r.role_id) roles in
    elim (resolve all_roles (length queue + pending [] (parents all_roles)) [] [] queue) [
      | some result ↦ result
      | none ↦ []
    ]

abbrev grants : RbacPermission → String → Option Bool
grants required p = elim (from_string p) [ none ↦ none | some perm ↦ some (matches perm required) ]

-- the `any` over the effective permissions; none where a parse raises before a match is found
unfoldable pub any_grants : RbacPermission → List String → Option Bool
any_grants required [] = some false
any_grants required (p ∷ ps) = elim (grants required p) [
  | none ↦ none
  | some true ↦ some true
  | some false ↦ any_grants required ps
]

-- none where the source raises `ValueError`
unfoldable pub check : List String → String → Option Bool
unfolding any_grants
check effective_permissions required = elim (from_string required) [
  | none ↦ none
  | some req ↦ any_grants req effective_permissions
]

-- the `while queue` of `would_create_cycle`
unfoldable pub seek : Dict Role → String → ℕ → List String → List String → Option Bool
seek all_roles role_id zero visited [] = some false
seek all_roles role_id zero visited (_ ∷ _) = none
seek all_roles role_id (suc n) visited [] = some false
seek all_roles role_id (suc n) visited (current ∷ queue) = elim (current == role_id) [
  | true ↦ some true
  | false ↦ elim (elem current visited) [
    | true ↦ seek all_roles role_id n visited queue
    | false ↦ elim (lookup current all_roles) [
      | none ↦ seek all_roles role_id n (current ∷ visited) queue
      | some role ↦ seek all_roles role_id n (current ∷ visited) (queue ++ role.parent_role_ids)
    ]
  ]
]

unfoldable pub would_create_cycle : String → String → Dict Role → Bool
unfolding seek
would_create_cycle role_id new_parent_id all_roles =
    elim (seek all_roles role_id (length (new_parent_id ∷ []) + pending [] (parents all_roles)) []
      (new_parent_id ∷ [])) [ some found ↦ found | none ↦ false ]
