-- ===== src/Rbac/Assigning.antt =====
-- The operations of `RBACService` on assignments, xoloapi/rbac/application/rbac_service.py. Whether
-- the service was built with the repository of users is the argument `users`.
use Prim.Native.String.{◌++◌ as concat}
use xolo_api.Base.{String, Bool, true, false, not, Option, none, some, ◌==◌, if◌then◌else◌}
use xolo_api.Errors.{XoloException, not_found, conflict, validation}
use xolo_api.Exec.{ok, err, Exec, pure, raise, or_raise, raise_if, ◌>>=◌, ◌>>◌}
use xolo_api.Platform.Collections.{is_some}
use xolo_api.Platform.Mongo.{Mongo}
use xolo_api.Platform.Text.{Unicode}
use xolo_api.World.{World}
use xolo_api.Users.Resolution.{resolve_user_identifier}
use xolo_api.Groups.Repository.{find_group}
use xolo_api.Rbac.Types.{SubjectType, user_subject, group_subject, RoleAssignment}
use xolo_api.Rbac.Repository.Assignments as Assignments
use xolo_api.Rbac.Service.{get_role}

abbrev pub text_of : Option String → String
text_of none = ""
text_of (some s) = s

-- `a or b`
abbrev pub or_else : Option String → Option String → Option String
or_else a b = if text_of a == "" then b else a

-- `Err(e)` in place of whatever error it was
unfoldable pub masked {ℓ} : {S A : Type ℓ} → XoloException → Exec S A → Exec S A
masked e m s = let (r, s') = m s in elim r [ ok a ↦ (ok a, s') | err _ ↦ (err e, s') ]

abbrev pub is_other : String → Option RoleAssignment → Bool
is_other assignment_id none = false
is_other assignment_id (some ra) = not (ra.assignment_id == assignment_id)

-- `subject_type not in {"USER", "GROUP"}`, on the text in upper case
abbrev pub subject_type_of : String → Option SubjectType
subject_type_of text =
    if text == "USER"
    then some user_subject
    else if text == "GROUP"
    then some group_subject
    else none

module _ ⦃mongo : Mongo⦄ ⦃unicode : Unicode⦄ (catalog users : Bool) where
  -- the group of an assignment exists and is active
  unfoldable pub group_subject_id : String → Option String → Exec World String
  unfolding find_group
  group_subject_id account_id subject_id = do
    raise_if (text_of subject_id == "") (validation "subject_id is required for GROUP assignments")
    found ← find_group account_id (text_of subject_id)
    group ← or_raise found (not_found "SecurityGroup" (text_of subject_id))
    raise_if (not group.is_active) (validation "Disabled groups cannot receive RBAC assignments")
    pure (text_of subject_id)

  -- the user of an assignment, resolved where the service can look
  unfoldable pub user_subject_id : Bool → String → Option String → Option String → Exec World String
  user_subject_id true account_id identifier subject_id = do
    resolved ← resolve_user_identifier account_id (text_of identifier)
    pure resolved.user_id
  user_subject_id false account_id identifier subject_id = pure (text_of subject_id)

  unfoldable pub subject_id_of :
      SubjectType → String → Option String → Option String → Option String → Exec World String
  unfolding group_subject_id user_subject_id
  subject_id_of user_subject account_id subject_id subject_username user_identifier =
      user_subject_id users account_id
        (or_else (or_else user_identifier subject_username) subject_id) subject_id
  subject_id_of group_subject account_id subject_id subject_username user_identifier =
      group_subject_id account_id subject_id

  unfoldable pub assign_role :
      String
      → String
      → Option String
      → String
      → String
      → Option String
      → Option String
      → Exec World RoleAssignment
  unfolding get_role subject_id_of Assignments.find_assignment Assignments.save
  assign_role account_id fresh subject_id role_id subject_type subject_username user_identifier = do
    _ ← get_role catalog account_id role_id
    type ←
        or_raise (subject_type_of (unicode.upper subject_type))
          (validation "subject_type must be USER or GROUP")
    subject ← subject_id_of type account_id subject_id subject_username user_identifier
    raise_if (subject == "") (validation "subject_id is required")
    existing ← Assignments.find_assignment account_id subject role_id (some type)
    raise_if (is_some existing) (conflict "Role assignment already exists")
    let assignment : RoleAssignment = record {
      account_id = account_id;
      assignment_id = concat "ra-" fresh;
      subject_id = subject;
      subject_type = type;
      role_id = role_id;
    }
    Assignments.save assignment
    pure assignment

  -- `if opt.is_none: return Ok(None)`
  unfoldable pub delete_found : String → Option RoleAssignment → Exec World (Unit {0})
  unfolding Assignments.delete
  delete_found account_id none = pure tt
  delete_found account_id (some ra) = Assignments.delete account_id ra.assignment_id

  -- the type is one of the two, or none
  unfoldable pub unassign_role :
      String → String → String → Option SubjectType → Exec World (Unit {0})
  unfolding delete_found Assignments.find_assignment
  unassign_role account_id subject_id role_id subject_type = do
    existing ← Assignments.find_assignment account_id subject_id role_id subject_type
    delete_found account_id existing

  unfoldable pub resolve_user : Bool → String → String → Exec World String
  resolve_user false account_id user_identifier =
      raise (validation "User resolution is unavailable")
  resolve_user true account_id user_identifier = do
    resolved ← resolve_user_identifier account_id user_identifier
    pure resolved.user_id

  unfoldable pub canonical_subject_id :
      SubjectType → String → Option String → Option String → Exec World String
  unfolding resolve_user group_subject_id
  canonical_subject_id user_subject account_id user_identifier subject_id =
      resolve_user users account_id (text_of (or_else user_identifier subject_id))
  canonical_subject_id group_subject account_id user_identifier subject_id =
      group_subject_id account_id subject_id

  unfoldable pub update_assignment :
      String → String → String → String → Option String → Option String → Exec World RoleAssignment
  unfolding get_role masked canonical_subject_id Assignments.find_by_id Assignments.find_assignment
      Assignments.save
  update_assignment account_id assignment_id role_id subject_type user_identifier subject_id = do
    found ← Assignments.find_by_id account_id assignment_id
    current ← or_raise found (not_found "RoleAssignment" assignment_id)
    _ ← masked (not_found "Role" role_id) (get_role catalog account_id role_id)
    type ←
        or_raise (subject_type_of (unicode.upper subject_type))
          (validation "subject_type must be USER or GROUP")
    subject ← canonical_subject_id type account_id user_identifier subject_id
    duplicate ← Assignments.find_assignment account_id subject role_id (some type)
    raise_if (is_other assignment_id duplicate) (conflict "Role assignment already exists")
    let updated = record current { subject_id = subject; subject_type = type; role_id = role_id }
    Assignments.save updated
    pure updated

  unfoldable pub delete_assignment : String → String → Exec World (Unit {0})
  unfolding Assignments.delete
  delete_assignment account_id assignment_id = Assignments.delete account_id assignment_id
