-- ===== src/Rbac/Repository/Catalog.antt =====
-- `MongoPermissionCatalogRepository` of
-- xoloapi/rbac/infrastructure/mongo_permission_catalog_repository.py, without time stamps.
use Prim.Native.String.{compare}
use text.Mathlib.Text.{is_lt}
use xolo_api.Base.{String, ◌&&◌, List, [], ◌∷◌, ◌==◌, if◌then◌else◌}
use xolo_api.Exec.{Exec, pure, ◌>>◌}
use xolo_api.Platform.Mongo.{Mongo}
use xolo_api.World.{World, command_uncaught}

abbrev pub put_sorted : String → List String → List String
put_sorted x [] = x ∷ []
put_sorted x (y ∷ ys) =
    let rest = put_sorted x ys in
    if x == y then y ∷ ys else if is_lt (compare x y) then x ∷ y ∷ ys else y ∷ rest

-- `sorted(set(xs))`
unfoldable pub sorted_set : List String → List String
sorted_set [] = []
sorted_set (x ∷ xs) = put_sorted x (sorted_set xs)

module _ ⦃mongo : Mongo⦄ where
  unfoldable pub register_one : String → String → Exec World (Unit {0})
  register_one account_id permission = command_uncaught λ db. (
    tt,
    record db {
      catalog =
          mongo.insert_missing (λ e. e.0 == account_id && e.1 == permission)
            (account_id, permission) db.catalog;
    },
  )

  unfoldable pub register_each : String → List String → Exec World (Unit {0})
  unfolding register_one
  register_each account_id [] = pure tt
  register_each account_id (p ∷ ps) = register_one account_id p >> register_each account_id ps

  unfoldable pub register : String → List String → Exec World (Unit {0})
  unfolding register_each sorted_set
  register account_id permissions = register_each account_id (sorted_set permissions)
