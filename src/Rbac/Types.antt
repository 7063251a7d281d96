-- ===== src/Rbac/Types.antt =====
-- xoloapi/rbac/domain/aggregates.py, without time stamps.
use xolo_api.Base.{
  String, List, Option, Bool, true, false, elem, filter, not, ◌++◌, ◌∷◌, [], ◌==◌, if◌then◌else◌,
}

pub record Role : Type 0 where
  pub account_id : String
  pub role_id : String
  pub name : String
  pub description : Option String
  pub permissions : List String
  pub parent_role_ids : List String

pub data SubjectType : Type 0 where
  user_subject group_subject : SubjectType

unfoldable pub same_subject_type : SubjectType → SubjectType → Bool
same_subject_type user_subject user_subject = true
same_subject_type group_subject group_subject = true
same_subject_type _ _ = false

pub record RoleAssignment : Type 0 where
  pub account_id : String
  pub assignment_id : String
  pub subject_id : String
  pub subject_type : SubjectType
  pub role_id : String

-- `Role.add_permission`
unfoldable pub add_permission : String → Role → Role
add_permission perm role =
    if elem perm role.permissions
    then role
    else record role { permissions = role.permissions ++ perm ∷ [] }

-- `Role.remove_permission`
unfoldable pub remove_permission : String → Role → Role
remove_permission perm role =
    if elem perm role.permissions
    then record role { permissions = filter (λ p. not (p == perm)) role.permissions }
    else role
