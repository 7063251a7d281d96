-- ===== src/Rbac/Safety/Assignments.antt =====
-- The operations on assignments never leave two assignments of one role to one subject.
use xolo_api.Base.{
  String, ◌+◌, ◌≤◌, ◌≡◌, refl, sym, ap, ◌∙◌, inl, inr, Bool, true, false, ◌&&◌, List, [], ◌∷◌,
  Option, some, count, count-append, ◌==◌, if◌then◌else◌, arith, eq_iff, Bool-cases,
}
use xolo_api.Exec.{◌>>=◌}
use xolo_api.Platform.Collections.{
  find_first, is_some, replace_first, replace_or_append, delete_first,
}
use xolo_api.Platform.Mongo.{Mongo}
use xolo_api.Platform.Text.{Unicode}
use xolo_api.World.{Database, World, query, query_uncaught}
use xolo_api.World.Rules.{
  Runs-pure, Runs-or_raise, Runs-query, Runs-command, Runs-read, Runs-left, Runs-check,
  Runs-raise_if, Runs-bind,
}
use xolo_api.Users.Resolution.{resolve_user_identifier}
use xolo_api.Rbac.Types.{
  SubjectType, user_subject, group_subject, same_subject_type, RoleAssignment,
}
use xolo_api.Rbac.Repository.Assignments.{is_for_subject}
use xolo_api.Rbac.Repository.Assignments as Assignments
use xolo_api.Rbac.Service.{get_role}
use xolo_api.Rbac.Assigning.{group_subject_id, user_subject_id, subject_id_of, assign_role}

-- the assignment is of the role to the subject
abbrev pub is_same : String → String → SubjectType → String → RoleAssignment → Bool
is_same account_id subject_id subject_type role_id ra =
    is_for_subject account_id subject_id (some subject_type) ra && ra.role_id == role_id

abbrev pub IsSingle : Database → Type 0
IsSingle db =
    (account_id subject_id : String) (subject_type : SubjectType) (role_id : String)
    → count (is_same account_id subject_id subject_type role_id) db.role_assignments ≤ 1

-- a save adds at most one
saved_count :
    (p q : RoleAssignment → Bool) (ra : RoleAssignment) (ras : List RoleAssignment)
    → count p (replace_or_append q ra ras) ≤ count p ras + (if p ra then 1 else 0)
saved_count p q ra ras = ground (arith, replaced ras, count-append p ras (ra ∷ []))
  where
    replaced :
        (ras : List RoleAssignment)
        → count p (replace_first q ra ras) ≤ count p ras + (if p ra then 1 else 0)
    replaced [] = omega arith
    replaced (r ∷ rs) = ground (arith, replaced rs)

deleted_count :
    (p q : RoleAssignment → Bool) (ras : List RoleAssignment)
    → count p (delete_first q ras) ≤ count p ras
deleted_count p q [] = omega arith
deleted_count p q (r ∷ rs) = ground (arith, deleted_count p q rs)

none_found :
    (p : RoleAssignment → Bool) (ras : List RoleAssignment)
    → is_some (find_first p ras) ≡ false
    → count p ras ≡ 0
none_found p [] h = refl
none_found p (r ∷ rs) h = ground (arith, none_found p rs)

same_type_eq : (s t : SubjectType) → same_subject_type s t ≡ true → s ≡ t
unfolding same_subject_type
same_type_eq user_subject user_subject h = refl
same_type_eq user_subject group_subject h = absurd (cc h)
same_type_eq group_subject user_subject h = absurd (cc h)
same_type_eq group_subject group_subject h = refl

-- An assignment of which there is none yet may be saved.
IsSingle-saved :
    (ra : RoleAssignment) (q : RoleAssignment → Bool) (ras : List RoleAssignment)
    → count (is_same ra.account_id ra.subject_id ra.subject_type ra.role_id) ras ≡ 0
    → ((account_id subject_id : String) (subject_type : SubjectType) (role_id : String)
        → count (is_same account_id subject_id subject_type role_id) ras ≤ 1)
    → (account_id subject_id : String) (subject_type : SubjectType) (role_id : String)
    → count (is_same account_id subject_id subject_type role_id) (replace_or_append q ra ras) ≤ 1
IsSingle-saved ra q ras none_yet h account_id subject_id subject_type role_id =
    elim (Bool-cases (is_same account_id subject_id subject_type role_id ra)) [
      | inr other ↦ ground (
        arith,
        saved_count (is_same account_id subject_id subject_type role_id) q ra ras,
        other,
        h account_id subject_id subject_type role_id,
      )
      | inl same ↦
          let a = (eq_iff ra.account_id account_id).0 (ground (arith, same)) in
          let s = (eq_iff ra.subject_id subject_id).0 (ground (arith, same)) in
          let r = (eq_iff ra.role_id role_id).0 (ground (arith, same)) in
          let t = same_type_eq ra.subject_type subject_type (ground (arith, same)) in
          let zero_now : count (is_same account_id subject_id subject_type role_id) ras ≡ 0 =
            rw (sym a, sym s, sym r, sym t) none_yet in
          ground (
            arith,
            saved_count (is_same account_id subject_id subject_type role_id) q ra ras,
            same,
            zero_now,
          )
    ]

module _ ⦃mongo : Mongo⦄ ⦃unicode : Unicode⦄ (catalog users : Bool) where
  role_reads :
      (account_id role_id : String) (w : World)
      → (get_role catalog account_id role_id w).1.db ≡ w.db
  unfolding get_role query ◌>>=◌
  role_reads account_id role_id w = ground arith

  user_reads :
      (b : Bool) (account_id : String) (identifier subject_id : Option String) (w : World)
      → (user_subject_id catalog users b account_id identifier subject_id w).1.db ≡ w.db
  unfolding user_subject_id resolve_user_identifier query_uncaught ◌>>=◌
  user_reads true account_id identifier subject_id w = ground arith
  user_reads false account_id identifier subject_id w = refl

  group_reads :
      (account_id : String) (subject_id : Option String) (w : World)
      → (group_subject_id catalog users account_id subject_id w).1.db ≡ w.db
  unfolding group_subject_id query ◌>>=◌
  group_reads account_id subject_id w = ground arith

  subject_reads :
      (type : SubjectType) (account_id : String)
      (subject_id subject_username user_identifier : Option String) (w : World)
      → (subject_id_of catalog users type account_id subject_id subject_username user_identifier
          w).1.db
        ≡ w.db
  unfolding subject_id_of
  subject_reads user_subject account_id subject_id subject_username user_identifier =
      user_reads users account_id _ subject_id
  subject_reads group_subject account_id subject_id subject_username user_identifier =
      group_reads account_id subject_id

  -- Where no role is assigned to a subject twice, that is so after `assign_role`, wherever an outage
  -- strikes it.
  pub assign_role-IsSingle :
      (account_id fresh : String) (subject_id : Option String) (role_id subject_type : String)
      (subject_username user_identifier : Option String) (w : World)
      → IsSingle w.db
      → IsSingle
          (assign_role catalog users account_id fresh subject_id role_id subject_type
            subject_username user_identifier w).1.db
  unfolding assign_role Assignments.find_assignment Assignments.save
  assign_role-IsSingle account_id fresh subject_id role_id subject_type subject_username
        user_identifier =
      Runs-left _ (
        Runs-bind _ _ _ (Runs-read _ (role_reads account_id role_id)) λ _.
          Runs-bind (λ _. IsSingle) _ _ (Runs-or_raise _ _ (λ db h. h) (λ _ _ db h. h))
            λ type.
              Runs-bind _ _ _
                (Runs-read _
                  (subject_reads type account_id subject_id subject_username user_identifier))
                λ subject. Runs-bind _ _ _ (Runs-check _ _ (λ db h. h)) λ _.
                  Runs-bind
                    (λ o db.
                      IsSingle db
                      × (o
                          ≡ find_first (is_same account_id subject type role_id)
                              db.role_assignments))
                    _ _
                    (Runs-query _
                      (λ db h. (
                        h,
                        mongo.find_one_law (is_same account_id subject type role_id)
                            db.role_assignments,
                      ))
                      (λ db h. h))
                    λ existing. Runs-bind _ _ _ (Runs-raise_if _ _ (λ db h. h.0)) λ _.
                      Runs-bind (λ _. IsSingle) _ _
                        (Runs-command _
                          (λ db h. rw (mongo.upsert_one_law _ _ db.role_assignments) (
                            IsSingle-saved _ _ db.role_assignments
                              (none_found _ db.role_assignments (ap is_some (sym h.0.1) ∙ h.1))
                              h.0.0))
                          (λ db h. h.0.0))
                        λ _. Runs-pure _ (λ db h. h))
