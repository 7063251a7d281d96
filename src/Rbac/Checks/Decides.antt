-- ===== src/Rbac/Checks/Decides.antt =====
-- A check decides its meaning, where no outage strikes.
use xolo_api.Base.{
  String, ◌≡◌, refl, sym, ap, ◌∙◌, ◌↔◌, Bool, true, false, not, ◌&&◌, List, [], ◌∷◌, map, elem,
  is_empty, Option, some, if◌then◌else◌, ◌==◌, arith, eq_iff, Bool-cases, Option-cases, inl, inr,
}
use xolo_api.Errors.{XoloException}
use xolo_api.Exec.{Result, ok, err, Exec, pure, or_raise, ◌>>=◌}
use xolo_api.Platform.Mongo.{Mongo}
use xolo_api.Platform.Collections.{is_some}
use xolo_api.World.{Database, World, IsCalm}
use xolo_api.Traversal.Reach.{Reach, here, step}
use xolo_api.Traversal.Correct.{edge}
use xolo_api.Rbac.Types.{Role}
use xolo_api.Rbac.Permission.{RbacPermission, from_string, matches}
use xolo_api.Rbac.Hierarchy.{parents, resolve_effective_permissions}
use xolo_api.Rbac.Hierarchy.Walks.{permissions_of, resolve_effective_permissions_iff}
use xolo_api.Rbac.Repository.Catalog.{put_sorted, sorted_set}
use xolo_api.Rbac.Checks.{head, matching, effective_permissions_of, check_explained, check}
use xolo_api.Rbac.Checks.Reading.{subject_roles, role_map, effective_permissions_of-Yields}
use xolo_api.Rbac.Checks.Meaning.{is_assigned, is_role_of, covers, elem-subject_roles}

-- A chain starts at one of the roots.
one_root :
    (e : String → String → Bool) (roots : List String) {v : String}
    → Reach e roots v
    → (r : String) × (elem r roots ≡ true) × Reach e (r ∷ []) v
one_root e roots (here {v} m) = (v, m, here (ground (arith, eq_iff v v)))
one_root e roots (step r s) = let (root, m, p) = one_root e roots r in (root, m, step p s)

from_root :
    (e : String → String → Bool) (roots : List String) (r : String) {v : String}
    → elem r roots ≡ true
    → Reach e (r ∷ []) v
    → Reach e roots v
from_root e roots r m (here {v} k) = here (rw (sym ((eq_iff r v).0 (ground (arith, k)))) m)
from_root e roots r m (step p s) = step (from_root e roots r m p) s

covers-parsed :
    (required : RbacPermission) (q : String) (perm : RbacPermission)
    → from_string q ≡ some perm
    → covers required q ≡ matches perm required
covers-parsed required q perm parsed = rw (covers, parsed) refl

-- the texts that cover the required permission are found, and each text is read
matching-covers :
    (required : RbacPermission) (ps : List String)
    → ((p : String) → elem p ps ≡ true → is_some (from_string p) ≡ true)
    → (found : List String) × (matching required ps ≡ some found)
      × ((p : String) → elem p found ≡ (elem p ps && covers required p))
unfolding matching
matching-covers required [] read = ([], refl, λ p. refl)
matching-covers required (q ∷ qs) read =
    let (found, e, is) = matching-covers required qs (λ p m. read p (ground (arith, m))) in
    elim (Option-cases (from_string q)) [
      | inl unread ↦ absurd (cc (read q (ground (arith, eq_iff q q)), ap is_some unread))
      | inr (perm, parsed) ↦ (
        (if matches perm required then q ∷ found else found),
        rw (matching, parsed, e) refl,
        λ p. elim (Bool-cases (q == p)) [
          | inl same ↦
              rw (sym ((eq_iff q p).0 same))
                (ground (arith, is q, covers-parsed required q perm parsed, eq_iff q q))
          | inr other ↦ ground (arith, is p, other)
        ],
      )
    ]

put-nonempty : (x : String) (ys : List String) → is_empty (put_sorted x ys) ≡ false
put-nonempty x [] = refl
put-nonempty x (y ∷ ys) = ground arith

sorted-empty : (xs : List String) → is_empty (sorted_set xs) ≡ is_empty xs
unfolding sorted_set
sorted-empty [] = refl
sorted-empty (x ∷ xs) = put-nonempty x (sorted_set xs)

nonempty-member :
    (xs : List String) → (not (is_empty xs) ≡ true) ↔ ((x : String) × (elem x xs ≡ true))
nonempty-member [] = ((λ h. cc h), (λ (x, m). cc m))
nonempty-member (y ∷ ys) = ((λ h. (y, ground (arith, eq_iff y y))), (λ h. refl))

bind-ok :
    {A B : Type 0} (m : Exec World A) (k : A → Exec World B) (a : A) (w w' : World)
    → m w ≡ (ok a, w')
    → (m >>= k) w ≡ k a w'
unfolding ◌>>=◌
bind-ok {A} {B} m k a w w' e =
    let f : Result A × World → Result B × World =
      λ r. elim r.0 [ ok b ↦ k b r.1 | err x ↦ (err x, r.1) ] in
    ap f e

or_raise-some :
    {A : Type 0} (o : Option A) (x : XoloException) (a : A) (w : World)
    → o ≡ some a
    → or_raise o x w ≡ (ok a, w)
unfolding or_raise
or_raise-some o x a w e = rw (or_raise, e) refl

module _ ⦃mongo : Mongo⦄ (account_id user_id : String) where
  -- the permissions of a role of the account
  abbrev pub carried_by : Database → String → List String
  carried_by db k = permissions_of (role_map account_id db) k

  -- every permission that a role of the account carries is well formed
  abbrev pub IsReadable : Database → Type 0
  IsReadable db = (k p : String) → elem p (carried_by db k) ≡ true → is_some (from_string p) ≡ true

  -- A role that is assigned to the user, directly or through an active group, a role that parents
  -- lead to from it, and a permission of that role that covers the required one.
  abbrev pub Allowed : Database → RbacPermission → Type 0
  Allowed db required =
      (root : String) × (k : String) × (p : String) × (is_assigned account_id user_id db root
        ≡ true)
      × (is_role_of account_id db root ≡ true)
      × Reach (edge (parents (role_map account_id db))) (root ∷ []) k
      × (elem p (carried_by db k) ≡ true)
      × (covers required p ≡ true)

  effective : Database → List String
  effective db =
      resolve_effective_permissions (subject_roles account_id user_id db) (role_map account_id db)

  Allowed-iff :
      (db : Database) (required : RbacPermission)
      → ((p : String) × (elem p (effective db) ≡ true) × (covers required p ≡ true))
        ↔ Allowed db required
  unfolding effective
  Allowed-iff db required =
      let roots = map (λ (r : Role). r.role_id) (subject_roles account_id user_id db) in
      let e = edge (parents (role_map account_id db)) in
      (
        λ (p, m, c).
            let (k, reached, carries) =
              (resolve_effective_permissions_iff (subject_roles account_id user_id db)
                  (role_map account_id db) p).0
                m in
            let (root, is_root, from) = one_root e roots reached in
            let both = sym (elem-subject_roles account_id user_id db root) ∙ is_root in
            (root, k, p, ground (arith, both), ground (arith, both), from, carries, c),
        λ (root, k, p, assigned, exists, from, carries, c).
            let is_root : elem root roots ≡ true =
              elem-subject_roles account_id user_id db root ∙ ground (arith, assigned, exists) in
            (
              p,
              (resolve_effective_permissions_iff (subject_roles account_id user_id db)
                    (role_map account_id db) p).1
                  (k, from_root e roots root is_root from, carries),
              c,
            ),
      )

  answered :
      (required_permission : String) (required : RbacPermission) (w : World)
      (ps found : List String)
      → from_string required_permission ≡ some required
      → (effective_permissions_of account_id user_id w).0 ≡ ok ps
      → matching required ps ≡ some found
      → (check account_id user_id required_permission w).0 ≡ ok (not (is_empty (sorted_set found)))
  unfolding check check_explained pure
  answered required_permission required w ps found parsed read matched =
      go (effective_permissions_of account_id user_id w) refl
    where
      go :
          (r : Result (List String) × World)
          → effective_permissions_of account_id user_id w ≡ r
          → (check account_id user_id required_permission w).0
            ≡ ok (not (is_empty (sorted_set found)))
      go (ok qs, w') e =
          let same : qs ≡ ps = ground (arith, ap (λ r. r.0) e, read) in
          let hit : matching required qs ≡ some found = ap (matching required) same ∙ matched in
          let explained : check_explained account_id user_id required_permission w
              ≡ (ok (not (is_empty (sorted_set found)), head (sorted_set found)), w') =
            bind-ok _ _ required w w (or_raise-some _ _ required w parsed)
            ∙ bind-ok _ _ qs w w' e
            ∙ bind-ok _ _ found w' w' (or_raise-some _ _ found w' hit) in
          ap (λ r. r.0)
            (bind-ok _ _ (not (is_empty (sorted_set found)), head (sorted_set found)) w w'
              explained)
      go (err x, w') e = absurd (cc (ap (λ r. r.0) e, read))

  -- Without an outage, and where the account's roles carry only well-formed permissions, `check`
  -- returns an answer for every well-formed request, and answers true exactly when the user is allowed:
  -- a role that is assigned to the user, or to an active group that the user is a member of, leads
  -- along parents to a role with a permission that covers the required one.
  pub check-Allowed :
      (required_permission : String) (required : RbacPermission) (w : World)
      → IsCalm w
      → from_string required_permission ≡ some required
      → IsReadable w.db
      → (b : Bool) × ((check account_id user_id required_permission w).0 ≡ ok b)
        × ((b ≡ true) ↔ Allowed w.db required)
  unfolding effective
  check-Allowed required_permission required w calm parsed readable =
      let ps = effective w.db in
      let (read, _, _) = (effective_permissions_of-Yields account_id user_id).at w calm in
      let (found, matched, is) = matching-covers required ps (λ p m.
        let (k, _, carries) =
          (resolve_effective_permissions_iff (subject_roles account_id user_id w.db)
              (role_map account_id w.db) p).0
            m in
        readable k p carries) in
      (
        not (is_empty (sorted_set found)),
        answered required_permission required w ps found parsed read matched,
        (
          (λ h.
              let (p, m) = (nonempty-member found).0 (ap not (sym (sorted-empty found)) ∙ h) in
              (Allowed-iff w.db required).0 (p, ground (arith, is p, m), ground (arith, is p, m))),
          (λ h.
              let (p, m, c) = (Allowed-iff w.db required).1 h in
              ap not (sorted-empty found)
              ∙ (nonempty-member found).1 (p, is p ∙ ground (arith, m, c))),
        ),
      )
