-- ===== src/ApiKeys/Service.antt =====
-- `APIKeyService` of xoloapi/apikeys/application/apikey_service.py. The digest, SHA-256, is an
-- argument, as is a fresh token (`secrets.token_urlsafe`) or id (`nanoid`).
use Prim.Native.String.{◌++◌ as concat}
use xolo_api.Base.{String, ℕ, Bool, true, not, List, Option, none}
use xolo_api.Errors.{not_found, unauthorized, access_denied, uncaught}
use xolo_api.Exec.{Exec, pure, or_raise, raise_if, ◌>>=◌, ◌>>◌}
use xolo_api.Platform.Mongo.{Mongo}
use xolo_api.Platform.Text.{Unicode, prefix}
use xolo_api.World.{World}
use xolo_api.ApiKeys.Types.{ApiKeyScope, ApiKey, is_valid, allows, revoked, rotated}
use xolo_api.ApiKeys.Repository as Repository

module _ ⦃mongo : Mongo⦄ where
  unfoldable pub delete : String → Exec World Bool
  unfolding Repository.delete
  delete key_id = do Repository.delete key_id; pure true

  unfoldable pub revoke : String → Exec World Bool
  unfolding Repository.find_by_id Repository.save
  revoke key_id = do
    found ← Repository.find_by_id key_id
    key ← or_raise found (not_found "APIKey" key_id)
    Repository.save (revoked key)
    pure true

module _ ⦃unicode : Unicode⦄ where
  -- `_generate_raw_key`
  abbrev pub raw_key_of : String → String
  raw_key_of token = unicode.upper (concat "XOLO_" token)

module _ ⦃mongo : Mongo⦄ ⦃unicode : Unicode⦄ (sha256 : String → String) where
  unfoldable pub new_key : String → String → String → String → List ApiKeyScope → Option ℕ → ApiKey
  unfolding prefix
  new_key fresh token account_id name scopes_of expires_at = record {
    key_id = concat "ak-" fresh;
    key_hash = sha256 (raw_key_of token);
    key_prefix = prefix 16 (raw_key_of token);
    account_id = account_id;
    name = name;
    scopes_of = scopes_of;
    created_by = "admin";
    is_active = true;
    expires_at = expires_at;
    last_used_at = none;
  }

  unfoldable pub create :
      String → String → String → String → List ApiKeyScope → Option ℕ → Exec World (ApiKey × String)
  unfolding Repository.save prefix new_key
  create fresh token account_id name scopes_of expires_at = do
    key ← Repository.save (new_key fresh token account_id name scopes_of expires_at)
    pure (key, raw_key_of token)

  unfoldable pub rotate : String → String → Exec World (ApiKey × String)
  unfolding Repository.find_by_id Repository.save prefix
  rotate token key_id = do
    found ← Repository.find_by_id key_id
    old ← or_raise found (not_found "APIKey" key_id)
    key ← Repository.save (rotated (sha256 (raw_key_of token)) (prefix 16 (raw_key_of token)) old)
    pure (key, raw_key_of token)

  unfoldable pub validate : ℕ → String → String → Exec World ApiKey
  unfolding Repository.find_by_hash Repository.update_last_used allows
  validate now raw_key required_scope = do
    found ← Repository.find_by_hash (sha256 raw_key)
    key ← or_raise found (unauthorized "Invalid API key")
    raise_if (not (is_valid now key)) (unauthorized "API key is revoked or expired")
    allowed ← or_raise (allows required_scope key) uncaught
    raise_if (not allowed)
        (access_denied (concat "API key does not have the '" (concat required_scope "' scope")))
    Repository.update_last_used now key.key_id
    pure key
