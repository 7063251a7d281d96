-- ===== src/ApiKeys/Access.antt =====
-- The dependencies of xoloapi/middleware/apikey.py that admit a request, for one without the cookie of
-- a platform session. An HTTP exception is the error with its status. The configured admin tokens are
-- an argument. A header that is missing is the empty text.
use Prim.Native.String.{◌++◌ as concat}
use xolo_api.Base.{String, ℕ, Bool, true, false, not, List, [], ◌∷◌, Option, none, some, ◌==◌}
use xolo_api.Errors.{XoloException, unauthorized, access_denied, uncaught}
use xolo_api.Exec.{Result, ok, err, Exec, pure, raise, or_raise, raise_if, attempt, ◌>>=◌, ◌>>◌}
use xolo_api.Platform.Mongo.{Mongo}
use xolo_api.Platform.Text.{Unicode, compare_digest}
use xolo_api.World.{World}
use xolo_api.ApiKeys.Types.{ApiKey, allows}
use xolo_api.ApiKeys.Service.{validate}

-- `account_id is not None and api_key.account_id != account_id`
abbrev pub is_foreign : Option String → ApiKey → Bool
is_foreign none key = false
is_foreign (some account_id) key = not (key.account_id == account_id)

-- `or` of a test that may raise
unfoldable pub or_next : Option Bool → Option Bool → Option Bool
or_next none rest = none
or_next (some true) rest = some true
or_next (some false) rest = rest

-- `any` of the comparisons with the configured tokens
unfoldable pub is_configured : String → List String → Option Bool
unfolding compare_digest or_next
is_configured token [] = some false
is_configured token (configured_token ∷ tokens) =
    or_next (compare_digest token configured_token) (is_configured token tokens)

-- `is_valid_admin_token` of xoloapi/middleware/admin.py; none stands for the `TypeError` of a comparison
unfoldable pub is_valid_admin_token : List String → String → Option Bool
unfolding is_configured
is_valid_admin_token tokens token = elim (token == "") [
  | true ↦ some false
  | false ↦ is_configured token tokens
]

-- `api_key.account_id != request.path_params.get("account_id")`
abbrev pub is_elsewhere : Option String → ApiKey → Bool
is_elsewhere none key = true
is_elsewhere (some account_id) key = not (key.account_id == account_id)

module _ ⦃mongo : Mongo⦄ ⦃unicode : Unicode⦄ (sha256 : String → String) where
  -- a key of the account for the scope
  unfoldable pub checked : ℕ → String → Option String → String → Exec World ApiKey
  unfolding validate
  checked now scope account_id x_api_key = do
    key ← validate sha256 now x_api_key scope
    raise_if (is_foreign account_id key)
        (access_denied "API key does not belong to the requested account")
    pure key

  unfoldable pub require_api_key : ℕ → String → Option String → String → Exec World ApiKey
  unfolding checked
  require_api_key now scope account_id x_api_key = do
    raise_if (x_api_key == "") (unauthorized "X-API-Key or platform session required")
    checked now scope account_id x_api_key

  -- the way on in the loop
  unfoldable pub first_of :
      Option String → (XoloException → Exec World ApiKey) → Result ApiKey → Exec World ApiKey
  first_of account_id next (ok key) =
      raise_if (is_elsewhere account_id key)
        (access_denied "API key does not belong to the requested account")
      >> pure key
  first_of account_id next (err e) = next e

  -- the loop over the scopes, after the last error
  unfoldable pub any_of :
      ℕ → Option String → String → List String → XoloException → Exec World ApiKey
  unfolding validate first_of
  any_of now account_id x_api_key [] last_error = raise last_error
  any_of now account_id x_api_key (scope ∷ scopes) last_error =
      attempt (validate sha256 now x_api_key scope)
      >>= first_of account_id (λ e. any_of now account_id x_api_key scopes e)

  -- without scopes, `None.to_http_exception()`
  unfoldable pub require_any_api_key : ℕ → List String → Option String → String → Exec World ApiKey
  unfolding any_of
  require_any_api_key now scopes account_id x_api_key = do
    raise_if (x_api_key == "") (unauthorized "X-API-Key or platform session required")
    any_of now account_id x_api_key scopes uncaught

  unfoldable pub require_service_api_key : ℕ → String → Option String → String → Exec World ApiKey
  unfolding validate allows
  require_service_api_key now scope account_id x_api_key = do
    key ← validate sha256 now x_api_key "service"
    allowed ← or_raise (allows scope key) uncaught
    raise_if (not allowed)
        (access_denied (concat "API key does not have required scope '" (concat scope "'")))
    raise_if (is_foreign account_id key)
        (access_denied "API key does not belong to the requested account")
    pure key

  -- by the key, if there is one
  unfoldable pub by_key : Bool → ℕ → String → Option String → String → Exec World (Option ApiKey)
  unfolding checked
  by_key true now scope account_id x_api_key = raise (
      unauthorized
        "Invalid or missing authentication (X-Admin-Token, X-API-Key header, or admin session required)")
  by_key false now scope account_id x_api_key = do
    key ← checked now scope account_id x_api_key
    pure (some key)

  -- by the admin token, or else by the key
  unfoldable pub unless_admin :
      Bool → ℕ → String → Option String → String → Exec World (Option ApiKey)
  unfolding by_key
  unless_admin true now scope account_id x_api_key = pure none
  unless_admin false now scope account_id x_api_key =
      by_key (x_api_key == "") now scope account_id x_api_key

  unfoldable pub require_admin_or_api_key :
      List String → ℕ → String → Option String → String → String → Exec World (Option ApiKey)
  unfolding is_valid_admin_token unless_admin
  require_admin_or_api_key tokens now scope account_id x_admin_token x_api_key = do
    admin ← or_raise (is_valid_admin_token tokens x_admin_token) uncaught
    unless_admin admin now scope account_id x_api_key
