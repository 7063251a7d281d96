-- ===== src/ApiKeys/Tests.antt =====
-- A database with one key, and runs of the properties of API keys on it. The digest keeps the text.
use xolo_api.Base.{
  String, ◌≡◌, ◌⊎◌, refl, true, false, not, ◌&&◌, ◌||◌, [], ◌∷◌, all as all_of, any, none, some,
  ◌==◌,
}
use xolo_api.Errors.{XoloException, uncaught, unauthorized, access_denied}
use xolo_api.Exec.{ok, err}
use xolo_api.Platform.Mongo.{in_memory}
use xolo_api.Platform.Text.{caseless, is_ascii}
use xolo_api.World.{Database, empty, World}
use xolo_api.ApiKeys.Types as Types
use xolo_api.ApiKeys.Types.{ApiKey, acl, service, all}
use xolo_api.ApiKeys.Service as Service
use xolo_api.ApiKeys.Access.{
  is_valid_admin_token, require_service_api_key, require_any_api_key, require_admin_or_api_key,
}
use xolo_api.ApiKeys.AdminTokens.{is_admin_token}
use xolo_api.ApiKeys.Accepted.{IsService, require_service_api_key-IsService}
use xolo_api.ApiKeys.Requests.{Request, handle, Reached, start, next}
use xolo_api.ApiKeys.Requests as Requests
use xolo_api.ApiKeys.Retired.{Since, at_once, later, retired_refused}
use xolo_api.ApiKeys.Deciding.{is_ok, entitles, require_admin_or_api_key_decides}

abbrev kept : String → String
kept s = s

abbrev calm_world : Database → World
calm_world db = record { db = db; calls = 0; outage = λ _. false }

abbrev first_key : ApiKey
first_key = record {
  key_id = "ak-1";
  key_hash = "XOLO_1";
  key_prefix = "XOLO_1";
  account_id = "acme";
  name = "ci";
  scopes_of = acl ∷ service ∷ [];
  created_by = "admin";
  is_active = true;
  expires_at = some 10;
  last_used_at = none;
}

abbrev make : Request
make = Requests.create "1" "1" "acme" "ci" (acl ∷ service ∷ []) (some 10)

abbrev made : World
made = (handle ⦃mongo = in_memory⦄ ⦃unicode = caseless⦄ kept make (calm_world empty)).1

abbrev stored : Database
stored = record empty { api_keys = first_key ∷ [] }

test_make : made.db.api_keys ≡ first_key ∷ []
unfolding handle xolo_api.Exec.◌>>=◌ Service.create xolo_api.World.command
test_make = refl

test_expired :
    (Service.validate ⦃mongo = in_memory⦄ ⦃unicode = caseless⦄ kept 11 "XOLO_1" "acl"
      (calm_world stored)).0
    ≡ err (unauthorized "API key is revoked or expired")
unfolding Service.validate xolo_api.Exec.◌>>=◌ xolo_api.World.query
test_expired = refl

test_other_scope :
    (Service.validate ⦃mongo = in_memory⦄ ⦃unicode = caseless⦄ kept 9 "XOLO_1" "ngac"
      (calm_world stored)).0
    ≡ err (access_denied "API key does not have the 'ngac' scope")
unfolding Service.validate Types.is_scope xolo_api.Exec.◌>>=◌ xolo_api.World.query
test_other_scope = refl

test_any :
    is_ok
      (require_any_api_key ⦃mongo = in_memory⦄ ⦃unicode = caseless⦄ kept 9
        ("ngac" ∷ "acl" ∷ [])
        (some "acme")
        "XOLO_1"
        (calm_world stored)).0
    ≡ true
unfolding require_any_api_key Types.is_scope xolo_api.Exec.◌>>=◌ xolo_api.World.query
    xolo_api.World.command
test_any = refl

reached : Reached ⦃mongo = in_memory⦄ ⦃unicode = caseless⦄ kept made.db
unfolding Requests.mints
reached = next make (calm_world empty) (start empty refl) refl

retired_refused_example :
    (e : XoloException) × ((Service.validate ⦃mongo = in_memory⦄ ⦃unicode = caseless⦄ kept 5
        "XOLO_1" "acl"
        (handle ⦃mongo = in_memory⦄ ⦃unicode = caseless⦄ kept (Requests.revoke "ak-1") made).1).0
      ≡ err e)
unfolding handle xolo_api.Exec.◌>>=◌ Service.create xolo_api.World.command
    xolo_api.ApiKeys.Retired.retires Requests.mints Service.revoke xolo_api.World.query
retired_refused_example =
    retired_refused ⦃mongo = in_memory⦄ ⦃unicode = caseless⦄ kept (Requests.revoke "ak-1") made
      first_key reached refl refl refl refl
      (handle ⦃mongo = in_memory⦄ ⦃unicode = caseless⦄ kept (Requests.revoke "ak-1") made).1 at_once
      5 "XOLO_1" "acl" refl

require_service_api_key-IsService_example :
    IsService 5 "XOLO_1" "acl" (some "acme") stored first_key
unfolding require_service_api_key Types.is_scope xolo_api.Exec.◌>>=◌ xolo_api.World.query
    xolo_api.World.command
require_service_api_key-IsService_example =
    require_service_api_key-IsService ⦃mongo = in_memory⦄ ⦃unicode = caseless⦄ kept 5 "acl"
      (some "acme") "XOLO_1" (calm_world stored) first_key refl

-- a token outside ASCII is no answer, with a valid key or without
test_token :
    (require_admin_or_api_key ⦃mongo = in_memory⦄ ⦃unicode = caseless⦄ kept
      ("root" ∷ [])
      5
      "acl"
      (some "acme")
      "é"
      "XOLO_1"
      (calm_world stored)).0
    ≡ err uncaught
unfolding require_admin_or_api_key xolo_api.Exec.◌>>=◌
test_token = refl

require_admin_or_api_key_decides_example :
    ((is_valid_admin_token ("root" ∷ []) "" ≡ none)
      × ((is_ascii "" && all_of is_ascii ("root" ∷ [])) ≡ false)
      × ((require_admin_or_api_key ⦃mongo = in_memory⦄ ⦃unicode = caseless⦄ kept
            ("root" ∷ [])
            5
            "acl"
            (some "acme")
            ""
            "XOLO_1"
            (calm_world made.db)).0
          ≡ err uncaught))
    ⊎ ((is_valid_admin_token ("root" ∷ []) "" ≡ some (is_admin_token ("root" ∷ []) ""))
        × (is_ok
              (require_admin_or_api_key ⦃mongo = in_memory⦄ ⦃unicode = caseless⦄ kept
                ("root" ∷ [])
                5
                "acl"
                (some "acme")
                ""
                "XOLO_1"
                (calm_world made.db)).0
            ≡ (is_admin_token ("root" ∷ []) ""
                || (not ("XOLO_1" == "")
                    && any (entitles 5 "acl" (some "acme") "XOLO_1") made.db.api_keys))))
require_admin_or_api_key_decides_example =
    require_admin_or_api_key_decides ⦃mongo = in_memory⦄ ⦃unicode = caseless⦄ kept ("root" ∷ []) 5
      "acl" (some "acme") "" "XOLO_1" (calm_world made.db) (λ n. refl) reached
