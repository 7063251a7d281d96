-- ===== src/Acl/Policy/Access.antt =====
-- `check` and what the operations change of it: who may do what after a grant or a revocation.
use xolo_api.Base.{
  String, ◌≡◌, refl, sym, ◌∙◌, Bool, true, false, not, ◌&&◌, ◌||◌, List, [], ◌∷◌, any, elem, ◌↔◌,
  if◌then◌else◌, arith, Bool-cases, inl, inr,
}
use xolo_api.Acl.Types.{
  read, write, delete, update, manage, Permission, Permissions, has, every, nothing, union, minus,
  inhabited, subset, AccessGrant, ResourcePolicy,
}
use xolo_api.Acl.Policy.{power, effective_from, effective_permissions, check}

-- a grant to one of the principals that gives the permission, as its owner or by its set
abbrev pub gives : List String → Permission → AccessGrant → Bool
gives principal_ids p g = elem g.principal.id principal_ids && (g.is_owner || has p g.permissions)

pub has-union : (p : Permission) (s t : Permissions) → has p (union s t) ≡ (has p s || has p t)
has-union read s t = refl
has-union write s t = refl
has-union delete s t = refl
has-union update s t = refl
has-union manage s t = refl

pub has-minus :
    (p : Permission) (s t : Permissions) → has p (minus s t) ≡ (has p s && not (has p t))
has-minus read s t = refl
has-minus write s t = refl
has-minus delete s t = refl
has-minus update s t = refl
has-minus manage s t = refl

has-nothing : (p : Permission) → has p nothing ≡ false
has-nothing read = refl
has-nothing write = refl
has-nothing delete = refl
has-nothing update = refl
has-nothing manage = refl

has-every : (p : Permission) → has p every ≡ true
has-every read = refl
has-every write = refl
has-every delete = refl
has-every update = refl
has-every manage = refl

pub has-inhabited : (p : Permission) (s : Permissions) → has p s ≡ true → inhabited s ≡ true
has-inhabited read s h = ground arith
has-inhabited write s h = ground arith
has-inhabited delete s h = ground arith
has-inhabited update s h = ground arith
has-inhabited manage s h = ground arith

subset-has :
    (s t : Permissions) → (subset s t ≡ true) ↔ ((p : Permission) → has p s ≡ true → has p t ≡ true)
subset-has s t = (
  (λ h. elim [
    | read ↦ (λ r. ground arith)
    | write ↦ (λ r. ground arith)
    | delete ↦ (λ r. ground arith)
    | update ↦ (λ r. ground arith)
    | manage ↦ (λ r. ground arith)
  ]),
  (λ h. ground (arith, h read, h write, h delete, h update, h manage)),
)

step :
    (p : Permission) (acc : Permissions) (principal_ids : List String) (g : AccessGrant)
    → has p (if elem g.principal.id principal_ids then union acc (power g) else acc)
      ≡ (has p acc || gives principal_ids p g)
step p acc principal_ids g = elim (Bool-cases (elem g.principal.id principal_ids)) [
  | inr other ↦ rw other (ground arith)
  | inl ours ↦ rw (ours) (elim (Bool-cases g.is_owner) [
    | inl owner ↦ rw (owner, has-union p acc every, has-every p) refl
    | inr plain ↦ rw (plain, has-union p acc g.permissions) refl
  ])
]

effective_from-any :
    (p : Permission) (principal_ids : List String) (gs : List AccessGrant) (acc : Permissions)
    → has p (effective_from acc principal_ids gs) ≡ (has p acc || any (gives principal_ids p) gs)
unfolding effective_from
effective_from-any p principal_ids [] acc = ground arith
effective_from-any p principal_ids (g ∷ gs) acc =
    let next : Permissions =
      if elem g.principal.id principal_ids then union acc (power g) else acc in
    ground (arith, effective_from-any p principal_ids gs next, step p acc principal_ids g)

-- A permission is effective when a grant to one of the principals gives it: an owner's grant
-- gives every permission.
pub has-effective_permissions :
    (p : Permission) (principal_ids : List String) (policy : ResourcePolicy)
    → has p (effective_permissions principal_ids policy) ≡ any (gives principal_ids p) policy.grants
unfolding effective_permissions
has-effective_permissions p principal_ids policy =
    rw (effective_from-any p principal_ids policy.grants nothing, has-nothing p) refl

-- `check` answers true exactly when each required permission is given by a grant to one of the
-- principals, as its owner or by its set.
pub check-gives :
    (principal_ids : List String) (required : Permissions) (policy : ResourcePolicy)
    → (check principal_ids required policy ≡ true) ↔ (
        (p : Permission) → has p required ≡ true → any (gives principal_ids p) policy.grants ≡ true)
unfolding check
check-gives principal_ids required policy =
    let (f, g) = subset-has required (effective_permissions principal_ids policy) in
    (
      (λ h p r. sym (has-effective_permissions p principal_ids policy) ∙ f h p r),
      (λ h. g (λ p r. has-effective_permissions p principal_ids policy ∙ h p r)),
    )
