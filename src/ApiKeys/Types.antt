-- ===== src/ApiKeys/Types.antt =====
-- xoloapi/apikeys/domain: the scopes of an API key, and `APIKey` without the time of its creation.
-- Times are instants: `is_valid` reads a time without zone as UTC.
use xolo_api.Base.{
  String, ℕ, Bool, false, not, ◌&&◌, ◌||◌, List, Option, none, some, any, ltb, ◌==◌, if◌then◌else◌,
}

pub data ApiKeyScope : Type 0 where
  users acl groups rbac abac ngac audit scopes licenses service all : ApiKeyScope

unfoldable pub scope_value : ApiKeyScope → String
scope_value users = "users"
scope_value acl = "acl"
scope_value groups = "groups"
scope_value rbac = "rbac"
scope_value abac = "abac"
scope_value ngac = "ngac"
scope_value audit = "audit"
scope_value scopes = "scopes"
scope_value licenses = "licenses"
scope_value service = "service"
scope_value all = "all"

-- whether it is the scope with that value
unfoldable pub is_scope : ApiKeyScope → ApiKeyScope → Bool
unfolding scope_value
is_scope s t = scope_value s == scope_value t

pub record ApiKey : Type 0 where
  pub key_id : String
  pub key_hash : String
  pub key_prefix : String
  pub account_id : String
  pub name : String
  pub scopes_of : List ApiKeyScope
  pub created_by : String
  pub is_active : Bool
  pub expires_at : Option ℕ
  pub last_used_at : Option ℕ

-- `APIKeyScope(value)`; none stands for the `ValueError`
unfoldable pub scope_of : String → Option ApiKeyScope
scope_of value =
    if value == "users"
    then some users
    else if value == "acl"
    then some acl
    else if value == "groups"
    then some groups
    else if value == "rbac"
    then some rbac
    else if value == "abac"
    then some abac
    else if value == "ngac"
    then some ngac
    else if value == "audit"
    then some audit
    else if value == "scopes"
    then some scopes
    else if value == "licenses"
    then some licenses
    else if value == "service"
    then some service
    else if value == "all"
    then some all
    else none

abbrev pub is_over : ℕ → Option ℕ → Bool
is_over now none = false
is_over now (some expires) = ltb expires now

-- `APIKey.is_valid`
abbrev pub is_valid : ℕ → ApiKey → Bool
is_valid now key = key.is_active && not (is_over now key.expires_at)

abbrev pub lists : ApiKeyScope → ApiKey → Bool
lists scope key = any (is_scope scope) key.scopes_of

-- `APIKey.allows` of a scope
unfoldable pub allows_scope : ApiKeyScope → ApiKey → Bool
allows_scope service key = lists service key
allows_scope scope key = lists all key || lists scope key

-- `APIKey.allows`; none stands for the `ValueError`
unfoldable pub allows : String → ApiKey → Option Bool
unfolding scope_of allows_scope
allows scope key = elim (scope_of scope) [
  | none ↦ none
  | some requested ↦ some (allows_scope requested key)
]

-- `APIKey.revoke`
abbrev pub revoked : ApiKey → ApiKey
revoked key = record key { is_active = false }

-- `APIKey.rotate`
abbrev pub rotated : String → String → ApiKey → ApiKey
rotated new_hash new_prefix key = record key {
  key_hash = new_hash;
  key_prefix = new_prefix;
  last_used_at = none;
}
