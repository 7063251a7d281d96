-- ===== src/Rbac/Checks/Meaning.antt =====
-- The meaning of a check: an assignment to the user, or to an active group that the user is a member
-- of, leads along parents to a role with a permission that matches.
use xolo_api.Base.{
  String, ◌≡◌, refl, sym, ap, Bool, false, ◌&&◌, ◌||◌, List, [], ◌∷◌, map, filter, any, elem,
  elem-append, none, some, ◌==◌, arith, eq_iff, Bool-cases, inl, inr,
}
use xolo_api.Platform.Mongo.{Mongo}
use xolo_api.World.{Database}
use xolo_api.Groups.Reading.{group_ids_of}
use xolo_api.Groups.Meaning.{in_group, elem-group_ids_of}
use xolo_api.Rbac.Types.{user_subject, group_subject, same_subject_type, Role, RoleAssignment}
use xolo_api.Rbac.Permission.{RbacPermission, from_string, matches}
use xolo_api.Rbac.Repository.Assignments.{is_for_subject}
use xolo_api.Rbac.Checks.{role_ids_of}
use xolo_api.Rbac.Checks.Reading.{through, assigned_ids, roles_in, subject_roles}

-- the assignment is to the user or to one of the groups
abbrev pub is_to : String → String → Database → RoleAssignment → Bool
is_to account_id user_id db ra =
    (same_subject_type ra.subject_type user_subject && ra.subject_id == user_id)
    || (same_subject_type ra.subject_type group_subject
        && in_group account_id user_id db ra.subject_id)

abbrev pub is_assigned : String → String → Database → String → Bool
is_assigned account_id user_id db root =
    any (λ ra. ra.account_id == account_id && ra.role_id == root && is_to account_id user_id db ra)
      db.role_assignments

abbrev pub is_role_of : String → Database → String → Bool
is_role_of account_id db root = any (λ r. r.account_id == account_id && r.role_id == root) db.roles

-- the text is a permission that covers the required one
abbrev pub covers : RbacPermission → String → Bool
covers required p = elim (from_string p) [ none ↦ false | some perm ↦ matches perm required ]

module _ ⦃mongo : Mongo⦄ (account_id user_id : String) (db : Database) where
  by_user :
      (root : String) (ras : List RoleAssignment)
      → elem root (role_ids_of (filter (is_for_subject account_id user_id (some user_subject)) ras))
        ≡ any
            (λ ra.
              ra.account_id == account_id
              && ra.role_id == root
              && (same_subject_type ra.subject_type user_subject && ra.subject_id == user_id))
            ras
  by_user root [] = refl
  by_user root (ra ∷ ras) = ground (arith, by_user root ras)

  one_group :
      (gid root : String) (ras : List RoleAssignment)
      → elem root (role_ids_of (filter (is_for_subject account_id gid (some group_subject)) ras))
        ≡ any
            (λ ra.
              ra.account_id == account_id
              && ra.role_id == root
              && (same_subject_type ra.subject_type group_subject && ra.subject_id == gid))
            ras
  one_group gid root [] = refl
  one_group gid root (ra ∷ ras) = ground (arith, one_group gid root ras)

  to_groups : List String → String → RoleAssignment → Bool
  to_groups gids root ra =
      ra.account_id == account_id
      && ra.role_id == root
      && (same_subject_type ra.subject_type group_subject && elem ra.subject_id gids)

  none_to : (root : String) (ras : List RoleAssignment) → any (to_groups [] root) ras ≡ false
  unfolding to_groups
  none_to root [] = refl
  none_to root (ra ∷ ras) = ground (arith, none_to root ras)

  one_more :
      (gid : String) (gids : List String) (root : String) (ras : List RoleAssignment)
      → any (to_groups (gid ∷ gids) root) ras ≡ (
          any
            (λ ra.
              ra.account_id == account_id
              && ra.role_id == root
              && (same_subject_type ra.subject_type group_subject && ra.subject_id == gid))
            ras
          || any (to_groups gids root) ras)
  unfolding to_groups
  one_more gid gids root [] = refl
  one_more gid gids root (ra ∷ ras) =
      ground (arith, one_more gid gids root ras, eq_iff gid ra.subject_id, eq_iff ra.subject_id gid)

  elem-through :
      (gids : List String) (root : String)
      → elem root (through account_id gids db) ≡ any (to_groups gids root) db.role_assignments
  elem-through [] root = sym (none_to root db.role_assignments)
  elem-through (gid ∷ gids) root =
      rw
        (
          elem-append root
              (role_ids_of (
                mongo.find (is_for_subject account_id gid (some group_subject))
                  db.role_assignments))
              (through account_id gids db),
          mongo.find_law (is_for_subject account_id gid (some group_subject)) db.role_assignments,
          one_group gid root db.role_assignments,
          elem-through gids root,
          one_more gid gids root db.role_assignments,
        )
        refl

  either :
      (root : String) (ras : List RoleAssignment)
      → (any
            (λ ra.
              ra.account_id == account_id
              && ra.role_id == root
              && (same_subject_type ra.subject_type user_subject && ra.subject_id == user_id))
            ras
          || any (to_groups (group_ids_of account_id user_id db) root) ras)
        ≡ any
            (λ ra.
              ra.account_id == account_id && ra.role_id == root && is_to account_id user_id db ra)
            ras
  unfolding to_groups
  either root [] = refl
  either root (ra ∷ ras) =
      ground (arith, either root ras, elem-group_ids_of account_id user_id db ra.subject_id)

  elem-assigned_ids :
      (root : String)
      → elem root (assigned_ids account_id user_id db) ≡ is_assigned account_id user_id db root
  elem-assigned_ids root =
      rw
        (
          elem-append root
              (role_ids_of (
                mongo.find (is_for_subject account_id user_id (some user_subject))
                  db.role_assignments))
              (through account_id (group_ids_of account_id user_id db) db),
          mongo.find_law (is_for_subject account_id user_id (some user_subject))
              db.role_assignments,
          by_user root db.role_assignments,
          elem-through (group_ids_of account_id user_id db) root,
        )
        (either root db.role_assignments)

  elem-roles_in :
      (ids : List String) (root : String)
      → elem root (map (λ r. r.role_id) (roles_in account_id ids db))
        ≡ (elem root ids && is_role_of account_id db root)
  elem-roles_in [] root = refl
  elem-roles_in (i ∷ ids) root =
      rw
        (mongo.find_law (λ (x : Role). x.account_id == account_id && elem x.role_id (i ∷ ids))
          db.roles)
        (go db.roles)
    where
      go :
          (rs : List Role)
          → elem root (
              map
                (λ r. r.role_id)
                (filter (λ (x : Role). x.account_id == account_id && elem x.role_id (i ∷ ids)) rs))
            ≡ (elem root (i ∷ ids) && any (λ r. r.account_id == account_id && r.role_id == root) rs)
      go [] = ground arith
      go (r ∷ rs) = elim (Bool-cases (r.role_id == root)) [
        | inl same ↦
            ground (arith, go rs, same, ap (λ x. elem x (i ∷ ids)) ((eq_iff r.role_id root).0 same))
        | inr other ↦ ground (arith, go rs, other)
      ]

  -- The roles of a user are the roles of the account that are assigned to the user.
  pub elem-subject_roles :
      (root : String)
      → elem root (map (λ r. r.role_id) (subject_roles account_id user_id db))
        ≡ (is_assigned account_id user_id db root && is_role_of account_id db root)
  elem-subject_roles root =
      rw (elem-roles_in (assigned_ids account_id user_id db) root, elem-assigned_ids root) refl
