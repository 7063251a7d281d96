-- ===== src/Rbac/Repository/Roles.antt =====
-- `MongoRoleRepository` of xoloapi/rbac/infrastructure/mongo_role_repository.py. The key of a document
-- is the id of its role, whatever the account.
use xolo_api.Base.{String, Bool, ◌&&◌, List, Option, elem, ◌==◌}
use xolo_api.Exec.{Exec}
use xolo_api.Platform.Mongo.{Mongo}
use xolo_api.World.{World, query, command}
use xolo_api.Rbac.Types.{Role}

abbrev pub has_role_id : String → Role → Bool
has_role_id role_id r = r.role_id == role_id

abbrev pub is_role : String → String → Role → Bool
is_role account_id role_id r = r.role_id == role_id && r.account_id == account_id

module _ ⦃mongo : Mongo⦄ where
  unfoldable pub find_by_id : String → String → Exec World (Option Role)
  find_by_id account_id role_id = query λ db. mongo.find_one (is_role account_id role_id) db.roles

  unfoldable pub find_by_name : String → String → Exec World (Option Role)
  find_by_name account_id name =
      query λ db. mongo.find_one (λ r. r.account_id == account_id && r.name == name) db.roles

  unfoldable pub find_many : String → List String → Exec World (List Role)
  find_many account_id role_ids =
      query λ db. mongo.find (λ r. r.account_id == account_id && elem r.role_id role_ids) db.roles

  unfoldable pub find_all : String → Exec World (List Role)
  find_all account_id = query λ db. mongo.find (λ r. r.account_id == account_id) db.roles

  unfoldable pub save : Role → Exec World (Unit {0})
  save role =
      command
        λ db. (tt, record db { roles = mongo.upsert_one (has_role_id role.role_id) role db.roles })

  unfoldable pub delete : String → String → Exec World (Unit {0})
  delete account_id role_id =
      command
        λ db. (tt, record db { roles = (mongo.delete_one (is_role account_id role_id) db.roles).1 })
