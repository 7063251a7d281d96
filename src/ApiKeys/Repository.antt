-- ===== src/ApiKeys/Repository.antt =====
-- `MongoAPIKeyRepository` of xoloapi/apikeys/infrastructure/mongo_repository.py.
use xolo_api.Base.{String, ℕ, Bool, true, not, ◌==◌, List, Option, some}
use xolo_api.Errors.{database}
use xolo_api.Exec.{Exec, pure, raise_if, recover, ◌>>=◌, ◌>>◌}
use xolo_api.Platform.Mongo.{Mongo}
use xolo_api.World.{World, query, command}
use xolo_api.ApiKeys.Types.{ApiKey}

abbrev pub has_id : String → ApiKey → Bool
has_id key_id key = key.key_id == key_id

abbrev pub has_hash : String → ApiKey → Bool
has_hash key_hash key = key.key_hash == key_hash

abbrev pub used_at : ℕ → ApiKey → ApiKey
used_at now key = record key { last_used_at = some now }

module _ ⦃mongo : Mongo⦄ where
  unfoldable pub find_by_hash : String → Exec World (Option ApiKey)
  find_by_hash key_hash = query λ db. mongo.find_one (has_hash key_hash) db.api_keys

  unfoldable pub find_by_id : String → Exec World (Option ApiKey)
  find_by_id key_id = query λ db. mongo.find_one (has_id key_id) db.api_keys

  unfoldable pub find_all : Exec World (List ApiKey)
  find_all = query λ db. mongo.find (λ (k : ApiKey). true) db.api_keys

  unfoldable pub find_all_for_account : String → Exec World (List ApiKey)
  find_all_for_account account_id =
      query λ db. mongo.find (λ (k : ApiKey). k.account_id == account_id) db.api_keys

  unfoldable pub save : ApiKey → Exec World ApiKey
  save key = do
    command λ db.
        (tt {0}, record db { api_keys = mongo.upsert_one (has_id key.key_id) key db.api_keys })
    pure key

  unfoldable pub delete : String → Exec World Bool
  delete key_id = do
    found ← command λ db.
        let (hit, c) = mongo.delete_one (has_id key_id) db.api_keys in
        (hit, record db { api_keys = c })
    raise_if (not found) database
    pure true

  -- at best effort: a failure is logged
  unfoldable pub update_last_used : ℕ → String → Exec World (Unit {0})
  update_last_used now key_id =
      recover
        (command λ db. (
          tt {0},
          record db { api_keys = mongo.update_one (has_id key_id) (used_at now) db.api_keys },
        ))
        (λ _. pure tt)
