-- ===== src/Rbac/Checks/Reading.antt =====
-- What the checks read, where no outage strikes.
use xolo_api.Base.{String, ◌&&◌, List, [], ◌∷◌, ◌++◌, some, elem, Dict, ◌==◌}
use xolo_api.Platform.Mongo.{Mongo}
use xolo_api.World.{Database}
use xolo_api.World.Calm.{Yields, Yields-pure, Yields-query, Yields-bind}
use xolo_api.Groups.Reading.{group_ids_of, find_group_ids-Yields}
use xolo_api.Rbac.Types.{user_subject, group_subject, Role}
use xolo_api.Rbac.Hierarchy.{by_id, resolve_effective_permissions}
use xolo_api.Rbac.Repository.Roles as Roles
use xolo_api.Rbac.Repository.Assignments.{is_for_subject}
use xolo_api.Rbac.Repository.Assignments as Assignments
use xolo_api.Rbac.Checks.{
  role_ids_of, group_role_ids, roles_with, get_subject_roles, effective_permissions_of,
}

module _ ⦃mongo : Mongo⦄ where
  abbrev pub through : String → List String → Database → List String
  through account_id [] db = []
  through account_id (gid ∷ gids) db =
      role_ids_of
        (mongo.find (is_for_subject account_id gid (some group_subject)) db.role_assignments)
      ++ through account_id gids db

  abbrev pub assigned_ids : String → String → Database → List String
  assigned_ids account_id subject_id db =
      role_ids_of
        (mongo.find (is_for_subject account_id subject_id (some user_subject)) db.role_assignments)
      ++ through account_id (group_ids_of account_id subject_id db) db

  abbrev pub roles_in : String → List String → Database → List Role
  roles_in account_id [] db = []
  roles_in account_id (r ∷ rs) db =
      mongo.find (λ (x : Role). x.account_id == account_id && elem x.role_id (r ∷ rs)) db.roles

  abbrev pub subject_roles : String → String → Database → List Role
  subject_roles account_id subject_id db =
      roles_in account_id (assigned_ids account_id subject_id db) db

  -- the dict of the roles of the account
  abbrev pub role_map : String → Database → Dict Role
  role_map account_id db = by_id [] (mongo.find (λ (x : Role). x.account_id == account_id) db.roles)

  group_role_ids-Yields :
      (account_id : String) (gids : List String)
      → Yields (group_role_ids account_id gids) (through account_id gids)
  unfolding group_role_ids Assignments.find_by_subject
  group_role_ids-Yields account_id [] = Yields-pure []
  group_role_ids-Yields account_id (gid ∷ gids) =
      Yields-bind _
        (λ db. mongo.find (is_for_subject account_id gid (some group_subject)) db.role_assignments)
        _ (λ ras db. role_ids_of ras ++ through account_id gids db) (Yields-query _)
        (λ ras.
          Yields-bind _ (through account_id gids) _ (λ rest _. role_ids_of ras ++ rest)
            (group_role_ids-Yields account_id gids) (λ rest. Yields-pure _))

  roles_with-Yields :
      (account_id : String) (ids : List String)
      → Yields (roles_with account_id ids) (roles_in account_id ids)
  unfolding roles_with Roles.find_many
  roles_with-Yields account_id [] = Yields-pure []
  roles_with-Yields account_id (r ∷ rs) = Yields-query _

  get_subject_roles-Yields :
      (account_id subject_id : String)
      → Yields (get_subject_roles account_id subject_id) (subject_roles account_id subject_id)
  unfolding get_subject_roles Assignments.find_by_subject
  get_subject_roles-Yields account_id subject_id =
      Yields-bind _
        (λ db.
          mongo.find (is_for_subject account_id subject_id (some user_subject)) db.role_assignments)
        _
        (λ direct db.
          roles_in account_id
            (role_ids_of direct ++ through account_id (group_ids_of account_id subject_id db) db)
            db)
        (Yields-query _)
        (λ direct.
          Yields-bind _ (group_ids_of account_id subject_id) _
            (λ gids db. roles_in account_id (role_ids_of direct ++ through account_id gids db) db)
            (find_group_ids-Yields account_id subject_id)
            (λ gids.
              Yields-bind _ (through account_id gids) _
                (λ ids db. roles_in account_id (role_ids_of direct ++ ids) db)
                (group_role_ids-Yields account_id gids)
                (λ ids. roles_with-Yields account_id (role_ids_of direct ++ ids))))

  -- the effective permissions are those of the user's roles over the dict of the account
  pub effective_permissions_of-Yields :
      (account_id subject_id : String)
      → Yields (effective_permissions_of account_id subject_id) (λ db.
        resolve_effective_permissions
          (subject_roles account_id subject_id db)
          (role_map account_id db))
  unfolding effective_permissions_of Roles.find_all
  effective_permissions_of-Yields account_id subject_id =
      Yields-bind _ (subject_roles account_id subject_id) _
        (λ roles db. resolve_effective_permissions roles (role_map account_id db))
        (get_subject_roles-Yields account_id subject_id)
        (λ roles.
          Yields-bind _ (λ db. mongo.find (λ (x : Role). x.account_id == account_id) db.roles) _
            (λ all _. resolve_effective_permissions roles (by_id [] all)) (Yields-query _)
            (λ all. Yields-pure _))
