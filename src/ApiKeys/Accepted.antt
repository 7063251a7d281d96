-- ===== src/ApiKeys/Accepted.antt =====
-- What is known of a key that is let through, wherever an outage strikes.
use xolo_api.Base.{
  String, ℕ, ◌≡◌, refl, sym, ◌∙◌, Bool, true, false, not, Option, some, arith, none, ◌==◌,
}
use xolo_api.Exec.{ok}
use xolo_api.Platform.Collections.{find_first}
use xolo_api.Platform.Mongo.{Mongo}
use xolo_api.Platform.Text.{Unicode}
use xolo_api.World.{Database, World}
use xolo_api.World.Reads.{Reads-query, Reads-or_raise, Reads-raise_if}
use xolo_api.World.Told.{
  Told, Told-bind, Told-then, Told-always, Always-pure, Always-raise_if, Always-or_raise,
  Always-bind, Always-then,
}
use xolo_api.ApiKeys.Types.{ApiKey, service, is_valid, allows, lists, scope_of, allows_scope}
use xolo_api.ApiKeys.Repository.{has_hash, find_by_hash}
use xolo_api.ApiKeys.Service.{validate}
use xolo_api.ApiKeys.Access.{is_foreign, require_service_api_key}

-- The key is stored under the hash, valid at the time, and allows the scope.
pub record IsAccepted (now : ℕ) (hash scope : String) (db : Database) (key : ApiKey) : Type 0 where
  pub stored : find_first (has_hash hash) db.api_keys ≡ some key
  pub valid : is_valid now key ≡ true
  pub allowed : allows scope key ≡ some true

-- the key belongs to the account, if there is one
abbrev pub is_at_home : Option String → ApiKey → Bool
is_at_home none key = true
is_at_home (some account_id) key = key.account_id == account_id

pub not-is_foreign :
    (account_id : Option String) (key : ApiKey)
    → not (is_foreign account_id key) ≡ is_at_home account_id key
not-is_foreign none key = refl
not-is_foreign (some account_id) key = ground arith

-- for a service, in the account of the request
pub record IsService (now : ℕ) (hash scope : String) (account_id : Option String) (db : Database)
    (key : ApiKey) : Type 0 where
  pub stored : find_first (has_hash hash) db.api_keys ≡ some key
  pub valid : is_valid now key ≡ true
  pub listed : lists service key ≡ true
  pub allowed : allows scope key ≡ some true
  pub at_home : is_at_home account_id key ≡ true

is_true : (o : Option Bool) (b : Bool) → o ≡ some b → not b ≡ false → o ≡ some true
is_true o true h _ = h
is_true o false h e = absurd (cc e)

allows-service : (key : ApiKey) → allows "service" key ≡ some (lists service key)
unfolding allows scope_of allows_scope
allows-service key = refl

module _ ⦃mongo : Mongo⦄ ⦃unicode : Unicode⦄ (sha256 : String → String) where
  pub validate-IsAccepted :
      (now : ℕ) (raw_key scope : String) (db : Database)
      → Told db (validate sha256 now raw_key scope) (IsAccepted now (sha256 raw_key) scope db)
  unfolding validate find_by_hash
  validate-IsAccepted now raw_key scope db = Told-bind (Reads-query _) λ found e.
      Told-bind (Reads-or_raise found _) λ key f. Told-bind (Reads-raise_if _ _) λ _ v.
        Told-bind (Reads-or_raise (allows scope key) _) λ allowed g.
          Told-bind (Reads-raise_if _ _) λ _ t. Told-always (
            Always-then _ λ _. Always-pure key _ (record {
              stored = sym (mongo.find_one_law (has_hash (sha256 raw_key)) db.api_keys) ∙ sym e ∙ f;
              valid = ground (arith, v);
              allowed = is_true (allows scope key) allowed g t;
            }))

  require_service_api_key-Told :
      (now : ℕ) (scope : String) (account_id : Option String) (x_api_key : String) (db : Database)
      → Told db
          (require_service_api_key sha256 now scope account_id x_api_key)
          (IsService now (sha256 x_api_key) scope account_id db)
  unfolding require_service_api_key
  require_service_api_key-Told now scope account_id x_api_key db =
      Told-then (validate-IsAccepted now x_api_key "service" db) λ key a.
        Always-bind (Always-or_raise (allows scope key) _) λ allowed g.
          Always-bind (Always-raise_if _ _) λ _ t. Always-bind (Always-raise_if _ _) λ _ f.
            Always-pure key _ (record {
              stored = a.stored;
              valid = a.valid;
              listed = same (sym (allows-service key) ∙ a.allowed);
              allowed = is_true (allows scope key) allowed g t;
              at_home = ground (arith, f, not-is_foreign account_id key);
            })
    where
      same : {b : Bool} → some b ≡ some true → b ≡ true
      same h = cc h

  -- Wherever outages strike, a key that `require_service_api_key` returns is the one that the database
  -- stores under the hash of the secret; it is active and not expired, its scopes list "service" by name
  -- ("all" is not enough), it allows the scope, and it belongs to the account of the path, if there is one.
  pub require_service_api_key-IsService :
      (now : ℕ) (scope : String) (account_id : Option String) (x_api_key : String) (w : World)
      (key : ApiKey)
      → (require_service_api_key sha256 now scope account_id x_api_key w).0 ≡ ok key
      → IsService now (sha256 x_api_key) scope account_id w.db key
  require_service_api_key-IsService now scope account_id x_api_key w key is =
      rw is at ((require_service_api_key-Told now scope account_id x_api_key w.db).at w refl)
