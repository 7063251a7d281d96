-- ===== src/Rbac/Tests.antt =====
-- Roles, a hierarchy built by requests, and runs of the properties on them.
use xolo_api.Base.{
  Bool, arith, Bool-cases, inl, inr, eq_iff, sym, ap, ◌==◌, String, ◌≡◌, refl, ◌↔◌, true, false,
  ◌&&◌, List, [], ◌∷◌, map, none, some, elem, Dict,
}
use xolo_api.Platform.Mongo.{in_memory}
use xolo_api.Exec.{ok}
use xolo_api.Platform.Collections.{is_some}
use xolo_api.Platform.Text.{caseless}
use xolo_api.Rbac.Assigning.{assign_role}
use xolo_api.Rbac.Checks.{check}
use xolo_api.Rbac.Checks.Decides.{IsReadable, Allowed, check-Allowed}
use xolo_api.Rbac.Safety.Assignments.{IsSingle, assign_role-IsSingle}
use xolo_api.World.{Database, empty, World}
use xolo_api.Traversal.Reach.{Reach}
use xolo_api.Traversal.Correct.{edge}
use xolo_api.Rbac.Types.{Role, RoleAssignment, user_subject}
use xolo_api.Rbac.Permission.{
  RbacPermission, from_string, to_string, is_part, from_string-to_string,
}
use xolo_api.Rbac.Hierarchy.{by_id, parents, resolve_effective_permissions, would_create_cycle}
use xolo_api.Rbac.Hierarchy.Walks.{
  permissions_of, resolve_effective_permissions_iff, would_create_cycle_iff,
}
use xolo_api.Rbac.Safety.{IsSound}
use xolo_api.Rbac.Requests as Requests
use xolo_api.Rbac.Requests.{Request, handle, Reached, start, next, Reached-IsSound}

abbrev read_documents : RbacPermission
read_documents = record { resource_type = "document"; action = "read" }

reads : from_string "document:read" ≡ some read_documents
unfolding from_string xolo_api.Platform.Text.is_space
reads = refl

refuses : from_string "document:read:all" ≡ none
unfolding from_string xolo_api.Platform.Text.is_space
refuses = refl

from_string-to_string_example :
    (from_string (to_string read_documents) ≡ some read_documents)
    ↔ ((is_part "document" && is_part "read") ≡ true)
from_string-to_string_example = from_string-to_string read_documents

abbrev role : String → List String → List String → Role
role id permissions parents = record {
  account_id = "acme";
  role_id = id;
  name = id;
  description = none;
  permissions = permissions;
  parent_role_ids = parents;
}

abbrev editor : Role
editor = role "editor" ("document:write" ∷ []) ("viewer" ∷ [])

abbrev viewer : Role
viewer = role "viewer" ("document:read" ∷ []) []

abbrev office : Dict Role
office = ("editor", editor) ∷ ("viewer", viewer) ∷ []

inherits :
    resolve_effective_permissions (editor ∷ []) office ≡ "document:write" ∷ "document:read" ∷ []
unfolding resolve_effective_permissions
inherits = refl

resolve_effective_permissions_iff_example :
    (elem "document:read" (resolve_effective_permissions (editor ∷ []) office) ≡ true) ↔ (
      (k : String) × Reach (edge (parents office)) ("editor" ∷ []) k
      × (elem "document:read" (permissions_of office k) ≡ true))
resolve_effective_permissions_iff_example =
    resolve_effective_permissions_iff (editor ∷ []) office "document:read"

closes : would_create_cycle "viewer" "editor" office ≡ true
unfolding would_create_cycle
closes = refl

would_create_cycle_iff_example :
    (would_create_cycle "viewer" "editor" office ≡ true)
    ↔ Reach (edge (parents office)) ("editor" ∷ []) "viewer"
would_create_cycle_iff_example = would_create_cycle_iff "viewer" "editor" office

abbrev before : World
before = record { db = empty; calls = 0; outage = λ _. false }

abbrev step : Request → World → World
step r w = handle ⦃mongo = in_memory⦄ true r w

abbrev with_viewer : World
with_viewer = step (Requests.create_role "acme" "v" "viewer" none ("document:read" ∷ [])) before

abbrev with_editor : World
with_editor = step (Requests.create_role "acme" "e" "editor" none []) with_viewer

abbrev joined : World
joined = step (Requests.add_parent "acme" "role-e" "role-v") with_editor

-- the second parent would close a cycle, so it is refused
abbrev refused : World
refused = step (Requests.add_parent "acme" "role-v" "role-e") joined

parents_kept : map (λ r. r.parent_role_ids) refused.db.roles ≡ [] ∷ ("role-v" ∷ []) ∷ []
unfolding handle xolo_api.Rbac.Service.add_parent xolo_api.Exec.◌>>=◌ xolo_api.World.query
    xolo_api.Rbac.Service.create_role xolo_api.Platform.Text.is_space xolo_api.World.command
    xolo_api.World.command_uncaught
parents_kept = refl

Reached-IsSound_example : IsSound refused.db
Reached-IsSound_example = Reached-IsSound ⦃mongo = in_memory⦄ true (
    next (Requests.add_parent "acme" "role-v" "role-e") joined (
      next (Requests.add_parent "acme" "role-e" "role-v") with_editor (
        next (Requests.create_role "acme" "e" "editor" none []) with_viewer (
          next (Requests.create_role "acme" "v" "viewer" none ("document:read" ∷ [])) before
            start))))

-- bob is a viewer, and the editors' group has no members
abbrev bob_views : RoleAssignment
bob_views = record {
  account_id = "acme";
  assignment_id = "ra-1";
  subject_id = "bob";
  subject_type = user_subject;
  role_id = "viewer";
}

abbrev office_db : Database
office_db = record empty { roles = viewer ∷ []; role_assignments = bob_views ∷ [] }

abbrev office_world : World
office_world = record { db = office_db; calls = 0; outage = λ _. false }

bob_reads : (check ⦃mongo = in_memory⦄ "acme" "bob" "document:read" office_world).0 ≡ ok true
unfolding check xolo_api.Exec.◌>>=◌ xolo_api.Platform.Text.is_space xolo_api.World.query
    xolo_api.Rbac.Types.same_subject_type
bob_reads = refl

office-IsReadable : IsReadable ⦃mongo = in_memory⦄ "acme" "bob" office_db
unfolding by_id
office-IsReadable k p m = elim (Bool-cases ("viewer" == k)) [
  | inl here ↦ rw (sym ((eq_iff "document:read" p).0 (ground (arith, m, here)))) parsed
  | inr other ↦ absurd (ground (arith, m, other))
]
  where
    parsed : is_some (from_string "document:read") ≡ true
    parsed = ap is_some reads

check-Allowed_example :
    (b : Bool) × ((check ⦃mongo = in_memory⦄ "acme" "bob" "document:read" office_world).0 ≡ ok b)
    × ((b ≡ true) ↔ Allowed ⦃mongo = in_memory⦄ "acme" "bob" office_db read_documents)
check-Allowed_example =
    check-Allowed ⦃mongo = in_memory⦄ "acme" "bob" "document:read" read_documents office_world
      (λ _. refl) reads office-IsReadable

bob_once : IsSingle office_db
bob_once account_id subject_id subject_type role_id = ground arith

abbrev after_second : World
after_second =
    (assign_role ⦃mongo = in_memory⦄ ⦃unicode = caseless⦄ true false "acme" "2" (some "bob")
      "viewer" "USER" none none office_world).1

assign_role-IsSingle_example : IsSingle after_second.db
assign_role-IsSingle_example =
    assign_role-IsSingle ⦃mongo = in_memory⦄ ⦃unicode = caseless⦄ true false "acme" "2" (some "bob")
      "viewer" "USER" none none office_world bob_once
