-- ===== src/Abac/Repository.antt =====
-- `MongoABACRepository` of xoloapi/abac/infrastructure/mongo_abac_repository.py. The time of a save is
-- an argument; a document that the validators refuse raises inside the `try`.
use xolo_api.Base.{String, ℕ, Bool, true, not, ◌&&◌, List, Option, none, some, ◌==◌}
use xolo_api.Errors.{not_found, database}
use xolo_api.Exec.{Exec, pure, or_raise, raise_if, ◌>>=◌, ◌>>◌}
use xolo_api.Platform.Mongo.{Mongo}
use xolo_api.World.{World, query, command}
use xolo_api.Abac.Types.{Policy, PolicyDoc}
use xolo_api.Abac.Events.{Calendar}
use xolo_api.Abac.Documents.{policy_from_doc, policies_from_docs, policy_to_doc}

-- `{"_id": ...}`
abbrev pub has_id : String → PolicyDoc → Bool
has_id policy_id d = d.policy_id == policy_id

-- `{"_id": ..., "account_id": ...}`
abbrev pub is_policy_doc : String → String → PolicyDoc → Bool
is_policy_doc account_id policy_id d = d.policy_id == policy_id && d.account_id == account_id

abbrev pub is_of_account : String → PolicyDoc → Bool
is_of_account account_id d = d.account_id == account_id

-- the time of creation is that of the stored document, where it has one
abbrev pub keep_created : Option PolicyDoc → PolicyDoc → PolicyDoc
keep_created none doc = doc
keep_created (some existing) doc = elim existing.created_at [
  | none ↦ doc
  | some created ↦ record doc { created_at = some created }
]

module _ ⦃mongo : Mongo⦄ where
  unfoldable pub save : ℕ → Policy → Exec World String
  unfolding policy_to_doc
  save now policy = do
    existing ← query λ db. mongo.find_one (has_id policy.policy_id) db.abac_policies
    command λ db. (
      tt {0},
      record db {
        abac_policies =
            mongo.upsert_one (has_id policy.policy_id)
              (keep_created existing (policy_to_doc now policy)) db.abac_policies;
      },
    )
    pure policy.policy_id

  unfoldable pub delete : String → String → Exec World Bool
  delete account_id policy_id = do
    found ← command λ db.
        let (hit, c) = mongo.delete_one (is_policy_doc account_id policy_id) db.abac_policies in
        (hit, record db { abac_policies = c })
    raise_if (not found) (not_found "ABACPolicy" policy_id)
    pure true

module _ ⦃mongo : Mongo⦄ (calendar : Calendar) where
  -- the conversion of the document that was found, if any
  unfoldable pub converted : Option PolicyDoc → Exec World (Option Policy)
  unfolding policy_from_doc
  converted none = pure none
  converted (some doc) = do
    policy ← or_raise (policy_from_doc calendar doc) database
    pure (some policy)

  unfoldable pub find_by_id : String → String → Exec World (Option Policy)
  unfolding converted
  find_by_id account_id policy_id = do
    doc ← query λ db. mongo.find_one (is_policy_doc account_id policy_id) db.abac_policies
    converted doc

  unfoldable pub find_all : String → Exec World (List Policy)
  unfolding policies_from_docs
  find_all account_id = do
    docs ← query λ db. mongo.find (is_of_account account_id) db.abac_policies
    or_raise (policies_from_docs calendar docs) database
