-- ===== src/Acl/Tests.antt =====
-- A policy with an owner and two readers, and runs of the properties on it.
use native.Mathlib.Omega.{arith}
use xolo_api.Base.{
  String, ◌≡◌, ◌≤◌, refl, ◌↔◌, true, false, not, ◌&&◌, ◌||◌, List, [], ◌∷◌, any, count, elem,
  eq_iff, ◌==◌, Bool-cases, inl, inr, sym,
}
use xolo_api.Exec.{ok}
use xolo_api.Acl.Types.{
  user_principal, group_principal, write, manage, Permission, Principal, Permissions, has, nothing,
  AccessGrant, ResourcePolicy,
}
use xolo_api.Acl.Policy.{
  is_of, owner_grant, effective_permissions, check, claim, transfer_owner, grant, revoke,
}
use xolo_api.Acl.Policy.Grants.{IsDistinct}
use xolo_api.Acl.Policy.Ownership.{IsOwned, IsValid}
use xolo_api.Acl.Policy.Transfer.{IsOwnedBy, transfer_owner-IsOwnedBy}
use xolo_api.Acl.Policy.Access.{gives, has-effective_permissions, check-gives}
use xolo_api.Acl.Policy.Sharing.{grant-effective_permissions, revoke-others, revoke-taken}
use xolo_api.Acl.Policy.Lifecycle.{fresh, claimed, granted, Reached-IsValid}

abbrev reader : Permissions
reader = record nothing { has_read = true }

abbrev editor : Permissions
editor = record nothing { has_read = true; has_write = true }

abbrev person : String → Principal
person id = record { type = user_principal; id = id }

abbrev team : Principal
team = record { type = group_principal; id = "team" }

abbrev to_grant : String → Principal → Permissions → AccessGrant
to_grant id principal permissions = record {
  grant_id = id;
  principal = principal;
  permissions = permissions;
  is_owner = false;
}

abbrev bare : ResourcePolicy
bare = record { account_id = "acme"; resource_id = "doc"; grants = [] }

-- ann owns it
abbrev owned : ResourcePolicy
owned = record bare { grants = owner_grant "g1" (person "ann") ∷ [] }

-- and bob may read and write
abbrev shared : ResourcePolicy
shared = record bare {
  grants = owner_grant "g1" (person "ann") ∷ to_grant "g2" (person "bob") editor ∷ [];
}

-- what a revocation of `write` leaves
abbrev narrowed : ResourcePolicy
narrowed = record bare {
  grants = owner_grant "g1" (person "ann") ∷ to_grant "g2" (person "bob") reader ∷ [];
}

claims : claim "g1" "ann" bare ≡ ok owned
unfolding claim
claims = refl

shares : grant "g2" (person "bob") editor ("ann" ∷ []) owned ≡ ok shared
unfolding grant
shares = refl

revokes : revoke "bob" (record nothing { has_write = true }) "ann" ("ann" ∷ []) shared ≡ ok narrowed
unfolding revoke
revokes = refl

shared-IsDistinct : IsDistinct shared.grants
shared-IsDistinct k = elim (Bool-cases ("g1" == k)) [
  | inl same ↦ rw (sym ((eq_iff "g1" k).0 same)) (omega arith)
  | inr other ↦ rw other (ground arith)
]

shared-IsOwned : IsOwned shared.grants
shared-IsOwned = record { one_owner = refl; managing = refl; distinct = shared-IsDistinct }

may_manage : has manage (effective_permissions ("ann" ∷ []) shared) ≡ true
unfolding effective_permissions
may_manage = refl

Reached-IsValid_example : IsValid shared.grants
Reached-IsValid_example = Reached-IsValid shared (
    granted owned shared "g2" (person "bob") editor ("ann" ∷ [])
      (claimed bare owned "g1" "ann" (fresh "acme" "doc") refl claims) refl shares)

transfer_owner-IsOwnedBy_example :
    (after : ResourcePolicy) × (transfer_owner "g3" (person "bob") reader shared ≡ ok after)
    × IsOwnedBy (person "bob") after.grants
transfer_owner-IsOwnedBy_example =
    transfer_owner-IsOwnedBy "g3" (person "bob") reader shared refl shared-IsOwned

has-effective_permissions_example :
    has write (effective_permissions ("bob" ∷ []) shared)
    ≡ any (gives ("bob" ∷ []) write) shared.grants
has-effective_permissions_example = has-effective_permissions write ("bob" ∷ []) shared

check-gives_example :
    (check ("bob" ∷ []) editor shared ≡ true)
    ↔ ((p : Permission) → has p editor ≡ true → any (gives ("bob" ∷ []) p) shared.grants ≡ true)
check-gives_example = check-gives ("bob" ∷ []) editor shared

grant-effective_permissions_example :
    (after : ResourcePolicy) × (grant "g3" team reader ("ann" ∷ []) shared ≡ ok after)
    × ((principal_ids : List String) (p : Permission)
        → has p (effective_permissions principal_ids after) ≡ (
            has p (effective_permissions principal_ids shared)
            || (elem "team" principal_ids && has p reader)))
grant-effective_permissions_example =
    grant-effective_permissions "g3" team reader ("ann" ∷ []) shared shared-IsDistinct may_manage

revoke-others_example :
    has manage (effective_permissions ("ann" ∷ []) narrowed)
    ≡ has manage (effective_permissions ("ann" ∷ []) shared)
revoke-others_example =
    revoke-others "bob" (record nothing { has_write = true }) "ann" ("ann" ∷ []) shared narrowed
      shared-IsDistinct revokes ("ann" ∷ []) manage refl

revoke-taken_example :
    has write (effective_permissions ("bob" ∷ []) narrowed)
    ≡ (has write (effective_permissions ("bob" ∷ []) shared) && not true)
revoke-taken_example =
    revoke-taken "bob" (record nothing { has_write = true }) "ann" ("ann" ∷ []) shared narrowed
      shared-IsDistinct revokes write one_grant refl
  where
    one_grant : count (is_of "bob") shared.grants ≤ 1
    one_grant = omega arith
