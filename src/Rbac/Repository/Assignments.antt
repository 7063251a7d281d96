-- ===== src/Rbac/Repository/Assignments.antt =====
-- `MongoRoleAssignmentRepository` of
-- xoloapi/rbac/infrastructure/mongo_role_assignment_repository.py.
use xolo_api.Base.{String, Bool, true, ◌&&◌, List, Option, none, some, ◌==◌}
use xolo_api.Exec.{Exec}
use xolo_api.Platform.Mongo.{Mongo}
use xolo_api.World.{World, query, command}
use xolo_api.Rbac.Types.{SubjectType, same_subject_type, RoleAssignment}

-- `if subject_type: query["subject_type"] = subject_type.upper()`
abbrev pub of_type : Option SubjectType → SubjectType → Bool
of_type none t = true
of_type (some wanted) t = same_subject_type t wanted

abbrev pub is_for_subject : String → String → Option SubjectType → RoleAssignment → Bool
is_for_subject account_id subject_id subject_type ra =
    ra.account_id == account_id
    && (ra.subject_id == subject_id && of_type subject_type ra.subject_type)

module _ ⦃mongo : Mongo⦄ where
  unfoldable pub find_by_id : String → String → Exec World (Option RoleAssignment)
  find_by_id account_id assignment_id = query λ db.
      mongo.find_one (λ ra. ra.assignment_id == assignment_id && ra.account_id == account_id)
        db.role_assignments

  unfoldable pub find_all : String → Exec World (List RoleAssignment)
  find_all account_id =
      query λ db. mongo.find (λ ra. ra.account_id == account_id) db.role_assignments

  unfoldable pub find_by_subject :
      String → String → Option SubjectType → Exec World (List RoleAssignment)
  find_by_subject account_id subject_id subject_type =
      query λ db. mongo.find (is_for_subject account_id subject_id subject_type) db.role_assignments

  unfoldable pub find_by_role : String → String → Exec World (List RoleAssignment)
  find_by_role account_id role_id = query λ db.
      mongo.find (λ ra. ra.account_id == account_id && ra.role_id == role_id) db.role_assignments

  unfoldable pub find_assignment :
      String → String → String → Option SubjectType → Exec World (Option RoleAssignment)
  find_assignment account_id subject_id role_id subject_type = query λ db.
      mongo.find_one
        (λ ra. is_for_subject account_id subject_id subject_type ra && ra.role_id == role_id)
        db.role_assignments

  unfoldable pub save : RoleAssignment → Exec World (Unit {0})
  save ra = command λ db. (
    tt,
    record db {
      role_assignments =
          mongo.upsert_one (λ r. r.assignment_id == ra.assignment_id) ra db.role_assignments;
    },
  )

  unfoldable pub delete : String → String → Exec World (Unit {0})
  delete account_id assignment_id = command λ db. (
    tt,
    record db {
      role_assignments =
          (mongo.delete_one (λ ra. ra.assignment_id == assignment_id && ra.account_id == account_id)
            db.role_assignments).1;
    },
  )

  unfoldable pub delete_by_subject : String → String → Exec World (Unit {0})
  delete_by_subject account_id subject_id = command λ db. (
    tt,
    record db {
      role_assignments =
          (mongo.delete_many (λ ra. ra.account_id == account_id && ra.subject_id == subject_id)
            db.role_assignments).1;
    },
  )

  unfoldable pub delete_by_role : String → String → Exec World (Unit {0})
  delete_by_role account_id role_id = command λ db. (
    tt,
    record db {
      role_assignments =
          (mongo.delete_many (λ ra. ra.account_id == account_id && ra.role_id == role_id)
            db.role_assignments).1;
    },
  )
