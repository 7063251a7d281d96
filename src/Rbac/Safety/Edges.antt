-- ===== src/Rbac/Safety/Edges.antt =====
-- The edges of the hierarchies after a role is saved or deleted, and those that the dict of roles has.
use xolo_api.Base.{
  String, ◌≤◌, ◌≡◌, refl, sym, ap, ◌∙◌, inl, inr, Bool, true, false, ◌||◌, ◌&&◌, List, [], ◌∷◌,
  ◌++◌, some, elem, any, any-append, filter, elem-append, count, count-append, count-filter, ◌==◌,
  if◌then◌else◌, Dict, insert, arith, eq_iff, Bool-cases, or_cases,
}
use xolo_api.Platform.Collections.{
  find_first, find_first-fits, is_some, replace_first, replace_or_append, delete_first,
}
use xolo_api.Traversal.Graph.{targets}
use xolo_api.Traversal.Correct.{edge}
use xolo_api.Traversal.Reach.{Reach, IsAcyclic-mono, IsAcyclic-with_edge, with_edge}
use xolo_api.Rbac.Types.{Role}
use xolo_api.Rbac.Hierarchy.{by_id, parents}
use xolo_api.Rbac.Repository.Roles.{has_role_id, is_role}
use xolo_api.Rbac.Safety.{names_parent, hierarchy, IsHierarchical}

targets-insert :
    (r : Role) (d : Dict Role) (u : String)
    → targets (parents (insert r.role_id r d)) u
      ≡ (if r.role_id == u then r.parent_role_ids else targets (parents d) u)
targets-insert r [] u = refl
targets-insert r ((k, s) ∷ d) u =
    ground (arith, targets-insert r d u, eq_iff k r.role_id, eq_iff k u, eq_iff r.role_id u)

abbrev names : String → String → Role → Bool
names u v r = r.role_id == u && elem v r.parent_role_ids

-- Where no id stands twice, the dict has the edges of the list.
edge-by_id :
    (rs : List Role) (d : Dict Role) (u v : String)
    → count (has_role_id u) rs ≤ 1
    → edge (parents (by_id d rs)) u v
      ≡ (if any (has_role_id u) rs then any (names u v) rs else edge (parents d) u v)
unfolding by_id
edge-by_id [] d u v h = refl
edge-by_id (r ∷ rs) d u v h = elim (Bool-cases (r.role_id == u)) [
  | inl same ↦
      ground (
        arith,
        edge-by_id rs (insert r.role_id r d) u v,
        targets-insert r d u,
        h,
        same,
        none_left rs,
      )
  | inr other ↦
      ground (arith, edge-by_id rs (insert r.role_id r d) u v, targets-insert r d u, h, other)
]
  where
    none_left :
        (rs : List Role)
        → count (has_role_id u) rs ≡ 0
        → (any (has_role_id u) rs ≡ false) × (any (names u v) rs ≡ false)
    none_left [] k = (refl, refl)
    none_left (s ∷ rs) k = ground (arith, none_left rs)

any-names :
    (rs : List Role) (u v : String) → any (names u v) rs ≡ true → any (has_role_id u) rs ≡ true
any-names [] u v h = absurd (cc h)
any-names (r ∷ rs) u v h = ground (arith, any-names rs u v)

in_account :
    (roles : List Role) (account_id u v : String)
    → hierarchy roles account_id u v
      ≡ any (names u v) (filter (λ r. r.account_id == account_id) roles)
in_account [] account_id u v = refl
in_account (r ∷ roles) account_id u v = ground (arith, in_account roles account_id u v)

-- The dict that the cycle test looks at has every edge of the account.
pub edge-account :
    (roles : List Role) (account_id u v : String)
    → ((role_id : String) → count (has_role_id role_id) roles ≤ 1)
    → hierarchy roles account_id u v ≡ true
    → edge (parents (by_id [] (filter (λ r. r.account_id == account_id) roles))) u v ≡ true
edge-account roles account_id u v single h = ground (
  arith,
  edge-by_id (filter (λ r. r.account_id == account_id) roles) [] u v,
  single u,
  count-filter (has_role_id u) (λ r. r.account_id == account_id) roles,
  in_account roles account_id u v,
  h,
  any-names (filter (λ r. r.account_id == account_id) roles) u v,
)

-- `replace_one(..., upsert=True)` of a role
abbrev pub saved : Role → List Role → List Role
saved role roles = replace_or_append (has_role_id role.role_id) role roles

any-replace :
    (q p : Role → Bool) (role : Role) (roles : List Role)
    → any q (replace_first p role roles) ≡ true
    → (any q roles || q role) ≡ true
any-replace q p role [] h = absurd (cc h)
any-replace q p role (r ∷ roles) h = ground (arith, h, any-replace q p role roles)

-- A save brings no edge but those of the role saved.
pub hierarchy-saved :
    (role : Role) (roles : List Role) (account_id u v : String)
    → hierarchy (saved role roles) account_id u v ≡ true
    → (hierarchy roles account_id u v || names_parent account_id u v role) ≡ true
hierarchy-saved role roles account_id u v h = ground (
  arith,
  h,
  any-replace (names_parent account_id u v) (has_role_id role.role_id) role roles,
  any-append (names_parent account_id u v) roles (role ∷ []),
)

single-replace :
    (role : Role) (roles : List Role) (k : String)
    → count (has_role_id k) (replace_first (has_role_id role.role_id) role roles)
      ≡ count (has_role_id k) roles
single-replace role [] k = refl
single-replace role (r ∷ roles) k =
    ground (arith, single-replace role roles k, eq_iff r.role_id role.role_id)

absent :
    (k : String) (roles : List Role)
    → is_some (find_first (has_role_id k) roles) ≡ false
    → count (has_role_id k) roles ≡ 0
absent k [] h = refl
absent k (r ∷ roles) h = ground (arith, absent k roles)

pub single-saved :
    (role : Role) (roles : List Role)
    → ((k : String) → count (has_role_id k) roles ≤ 1)
    → (k : String) → count (has_role_id k) (saved role roles) ≤ 1
single-saved role roles h k = elim (Bool-cases (role.role_id == k)) [
  | inl same ↦
      let e = (eq_iff role.role_id k).0 same in
      rw (sym e) (
        ground (
          arith,
          h role.role_id,
          single-replace role roles role.role_id,
          absent role.role_id roles,
          count-append (has_role_id role.role_id) roles (role ∷ []),
        ))
  | inr other ↦ ground (
    arith,
    h k,
    single-replace role roles k,
    count-append (has_role_id k) roles (role ∷ []),
    other,
  )
]

-- the edges of one list of roles are among those of another
abbrev pub IsWithin : List Role → List Role → Type 0
IsWithin roles bound =
    (account_id u v : String)
    → hierarchy roles account_id u v ≡ true
    → hierarchy bound account_id u v ≡ true

-- the parents that the role names are edges of the list
abbrev pub IsPart : Role → List Role → Type 0
IsPart role bound =
    (account_id u v : String)
    → names_parent account_id u v role ≡ true
    → hierarchy bound account_id u v ≡ true

any-found :
    (q p : Role → Bool) (roles : List Role) (role : Role)
    → find_first p roles ≡ some role
    → q role ≡ true
    → any q roles ≡ true
any-found q p [] role h k = absurd (cc h)
any-found q p (r ∷ roles) role h k = elim (Bool-cases (p r)) [
  | inl here ↦ let same : r ≡ role = ground (arith, h, here) in ground (arith, here, ap q same ∙ k)
  | inr later ↦ ground (arith, any-found q p roles role, h, k)
]

-- a role that stands in for one found, with no more parents
pub IsPart-shrunk :
    (p : Role → Bool) (roles : List Role) (role new : Role)
    → find_first p roles ≡ some role
    → new.account_id ≡ role.account_id
    → new.role_id ≡ role.role_id
    → ((v : String) → elem v new.parent_role_ids ≡ true → elem v role.parent_role_ids ≡ true)
    → IsPart new roles
IsPart-shrunk p roles role new found same_account same_id fewer account_id u v h =
    any-found (names_parent account_id u v) p roles role found
      (rw (sym same_account, sym same_id) (ground (arith, h, fewer v)))

pub IsWithin-saved :
    (role : Role) (roles bound : List Role)
    → IsWithin roles bound
    → IsPart role bound
    → IsWithin (saved role roles) bound
IsWithin-saved role roles bound within part account_id u v h =
    elim (or_cases (hierarchy roles account_id u v) (names_parent account_id u v role)
      (hierarchy-saved role roles account_id u v h)) [
        | inl old ↦ within account_id u v old
        | inr new ↦ part account_id u v new
      ]

-- a deletion only takes edges away
pub IsWithin-deleted : (p : Role → Bool) (roles : List Role) → IsWithin (delete_first p roles) roles
IsWithin-deleted p [] account_id u v h = h
IsWithin-deleted p (r ∷ roles) account_id u v h =
    ground (arith, IsWithin-deleted p roles account_id u v, h)

pub single-deleted :
    (p : Role → Bool) (roles : List Role) (k : String)
    → count (has_role_id k) (delete_first p roles) ≤ count (has_role_id k) roles
single-deleted p [] k = omega arith
single-deleted p (r ∷ roles) k = ground (arith, single-deleted p roles k)

pub IsHierarchical-within :
    (roles bound : List Role)
    → ((k : String) → count (has_role_id k) roles ≤ 1)
    → IsWithin roles bound
    → IsHierarchical bound
    → IsHierarchical roles
IsHierarchical-within roles bound single within h = record {
  single = single;
  acyclic = λ account_id.
      IsAcyclic-mono (hierarchy roles account_id) (hierarchy bound account_id) (within account_id)
        (h.acyclic account_id);
}

pub IsHierarchical-saved :
    (role : Role) (roles : List Role)
    → IsPart role roles
    → IsHierarchical roles
    → IsHierarchical (saved role roles)
IsHierarchical-saved role roles part h =
    IsHierarchical-within (saved role roles) roles (single-saved role roles h.single)
      (IsWithin-saved role roles roles (λ account_id u v e. e) part) h

module _ (roles : List Role) (role : Role) (account_id role_id parent_role_id : String)
    (found : find_first (is_role account_id role_id) roles ≡ some role) where
  abbrev extended : Role
  extended = record role { parent_role_ids = role.parent_role_ids ++ parent_role_id ∷ [] }

  fits : (role.role_id ≡ role_id) × (role.account_id ≡ account_id)
  fits =
      let h = find_first-fits (is_role account_id role_id) role roles found in
      (
        (eq_iff role.role_id role_id).0 (ground (arith, h)),
        (eq_iff role.account_id account_id).0 (ground (arith, h)),
      )

  -- in the role's account: the old edges and the new one
  same_account :
      (u v : String)
      → hierarchy (saved extended roles) account_id u v ≡ true
      → with_edge (hierarchy roles account_id) role_id parent_role_id u v ≡ true
  same_account u v e =
      elim (or_cases (hierarchy roles account_id u v) (names_parent account_id u v extended)
        (hierarchy-saved extended roles account_id u v e)) [
          | inl old ↦ ground (arith, old)
          | inr new ↦ ground (
            arith,
            new,
            elem-append v role.parent_role_ids (parent_role_id ∷ []),
            any-found (names_parent account_id u v) (is_role account_id role_id) roles role found,
            ap (λ i. i == u) fits.0,
          )
        ]

  -- in any other account: the old edges
  other_account :
      (account' u v : String)
      → (account_id == account') ≡ false
      → hierarchy (saved extended roles) account' u v ≡ true
      → hierarchy roles account' u v ≡ true
  other_account account' u v other e =
      ground (
        arith,
        hierarchy-saved extended roles account' u v e,
        ap (λ i. i == account') fits.1,
        other,
      )

  -- One more parent, from which no chain leads back to the role, closes no cycle.
  pub IsHierarchical-parent :
      ¬ Reach (hierarchy roles account_id) (parent_role_id ∷ []) role_id
      → IsHierarchical roles
      → IsHierarchical (
          saved
            (record role { parent_role_ids = role.parent_role_ids ++ parent_role_id ∷ [] })
            roles)
  IsHierarchical-parent apart h = record {
    single = single-saved extended roles h.single;
    acyclic = λ account'. elim (Bool-cases (account_id == account')) [
      | inl same ↦ rw (sym ((eq_iff account_id account').0 same)) (
          IsAcyclic-mono (hierarchy (saved extended roles) account_id)
            (with_edge (hierarchy roles account_id) role_id parent_role_id) same_account
            (IsAcyclic-with_edge (hierarchy roles account_id) role_id parent_role_id
              (h.acyclic account_id) apart))
      | inr other ↦
          IsAcyclic-mono (hierarchy (saved extended roles) account') (hierarchy roles account')
            (λ u v. other_account account' u v other) (h.acyclic account')
    ];
  }
