-- ===== src/ApiKeys/Keeping.antt =====
-- A property of the database survives an operation on API keys, wherever an outage strikes, if the
-- single write of the operation keeps it.
use xolo_api.Base.{String, ℕ, ◌≡◌, sym, ◌∙◌, List, Option, some}
use xolo_api.Platform.Collections.{find_first}
use xolo_api.Platform.Mongo.{Mongo}
use xolo_api.Platform.Text.{Unicode, prefix}
use xolo_api.World.{Database}
use xolo_api.World.Ends.{Ends, Ends-command, Ends-bind, Ends-then, Ends-recover}
use xolo_api.World.Reads.{
  Reads, Anything, Reads-pure, Reads-or_raise, Reads-raise_if, Reads-query, Reads-bind,
  Reads-weaken,
}
use xolo_api.ApiKeys.Types.{ApiKeyScope, ApiKey, revoked, rotated}
use xolo_api.ApiKeys.Repository.{
  has_id, has_hash, used_at, find_by_hash, find_by_id, update_last_used,
}
use xolo_api.ApiKeys.Repository as Repository
use xolo_api.ApiKeys.Service.{raw_key_of, new_key, create, delete, revoke, rotate, validate}
use xolo_api.ApiKeys.Invariant.{with_key}

-- the key that an id finds
abbrev pub StoredKey : String → ApiKey → Database → Type 0
StoredKey key_id key db = find_first (has_id key_id) db.api_keys ≡ some key

module _ ⦃mongo : Mongo⦄ where
  pub find_by_id-Reads :
      (i : String) → Reads (find_by_id i) (λ found db. found ≡ find_first (has_id i) db.api_keys)
  unfolding find_by_id
  find_by_id-Reads i =
      Reads-weaken (Reads-query _) (λ found db e. e ∙ mongo.find_one_law (has_id i) db.api_keys)

module _ ⦃mongo : Mongo⦄ (C : Database → Type 0) (db : Database) (same : C db) where
  save-Ends : (key : ApiKey) → C (with_key key db) → Ends db (Repository.save key) C
  unfolding Repository.save
  save-Ends key written =
      Ends-then
        (Ends-command _ same
          (rw (mongo.upsert_one_law (has_id key.key_id) key db.api_keys) written))
        (λ _. Reads-pure _ _ (λ db. tt))

  pub delete-Ends :
      (i : String)
      → C (record db { api_keys = (mongo.delete_one (has_id i) db.api_keys).1 })
      → Ends db (delete i) C
  unfolding delete Repository.delete
  delete-Ends i written =
      Ends-then
        (Ends-then (Ends-command _ same written)
          (λ found. Reads-bind Anything (Reads-raise_if _ _) (λ _. Reads-pure _ _ (λ db h. tt))))
        (λ _. Reads-pure _ _ (λ db. tt))

  pub revoke-Ends :
      (i : String)
      → ((key : ApiKey) → StoredKey i key db → C (with_key (revoked key) db))
      → Ends db (revoke i) C
  unfolding revoke
  revoke-Ends i written = Ends-bind same (find_by_id-Reads i) λ found e.
      Ends-bind same (Reads-or_raise found _) λ key f.
        Ends-then (save-Ends (revoked key) (written key (sym e ∙ f)))
          (λ _. Reads-pure _ _ (λ db. tt))

module _ ⦃mongo : Mongo⦄ ⦃unicode : Unicode⦄ (sha256 : String → String) (C : Database → Type 0)
    (db : Database) (same : C db) where
  pub create-Ends :
      (fresh token account_id name : String) (scopes_of : List ApiKeyScope) (expires_at : Option ℕ)
      → C (with_key (new_key sha256 fresh token account_id name scopes_of expires_at) db)
      → Ends db (create sha256 fresh token account_id name scopes_of expires_at) C
  unfolding create
  create-Ends fresh token account_id name scopes_of expires_at written =
      Ends-then (save-Ends C db same _ written) (λ _. Reads-pure _ _ (λ db. tt))

  pub rotate-Ends :
      (token i : String)
      → ((key : ApiKey)
          → StoredKey i key db
          → C (
              with_key (rotated (sha256 (raw_key_of token)) (prefix 16 (raw_key_of token)) key) db))
      → Ends db (rotate sha256 token i) C
  unfolding rotate
  rotate-Ends token i written = Ends-bind same (find_by_id-Reads i) λ found e.
      Ends-bind same (Reads-or_raise found _) λ key f.
        Ends-then (save-Ends C db same _ (written key (sym e ∙ f))) (λ _. Reads-pure _ _ (λ db. tt))

  pub validate-Ends :
      (now : ℕ) (raw_key scope : String)
      → ((i : String)
          → C (record db { api_keys = mongo.update_one (has_id i) (used_at now) db.api_keys }))
      → Ends db (validate sha256 now raw_key scope) C
  unfolding validate find_by_hash update_last_used
  validate-Ends now raw_key scope written = Ends-bind same (Reads-query _) λ found _.
      Ends-bind same (Reads-or_raise found _) λ key _. Ends-bind same (Reads-raise_if _ _) λ _ _.
        Ends-bind same (Reads-or_raise _ _) λ allowed _. Ends-bind same (Reads-raise_if _ _) λ _ _.
          Ends-then
            (Ends-recover (Ends-command _ same (written key.key_id))
              (λ _. Reads-pure _ _ (λ db. tt)))
            (λ _. Reads-pure _ _ (λ db. tt))
