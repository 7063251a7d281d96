-- ===== src/ApiKeys/Deciding.antt =====
-- Which requests are let through where no outage strikes.
use xolo_api.Base.{
  String, ℕ, ◌≡◌, ◌⊎◌, refl, sym, ap, ◌∙◌, Bool, true, false, not, ◌&&◌, ◌||◌, List, [], ◌∷◌, all,
  any, Option, none, some, ◌==◌, arith, Bool-cases, Option-cases, inl, inr,
}
use xolo_api.Errors.{uncaught}
use xolo_api.Exec.{Result, ok, err, pure, or_raise, ◌>>=◌}
use xolo_api.Platform.Collections.{find_first}
use xolo_api.Platform.Mongo.{Mongo}
use xolo_api.Platform.Text.{Unicode, is_ascii}
use xolo_api.World.{World, IsCalm}
use xolo_api.World.Passes.{
  passes, if_some, Passes-pure, Passes-test, Passes-noted, Passes-option, passes-bind, passes-query,
  recover-command,
}
use xolo_api.ApiKeys.Types.{ApiKey, is_valid, allows}
use xolo_api.ApiKeys.Repository.{has_hash, find_by_hash, update_last_used}
use xolo_api.ApiKeys.Service.{validate}
use xolo_api.ApiKeys.Access.{
  is_foreign, is_valid_admin_token, checked, by_key, unless_admin, require_admin_or_api_key,
}
use xolo_api.ApiKeys.Accepted.{is_at_home, not-is_foreign}
use xolo_api.ApiKeys.AdminTokens.{
  is_admin_token, is_valid_admin_token-some, is_valid_admin_token-none,
}
use xolo_api.ApiKeys.Lists.{any-first, any-missing}
use xolo_api.ApiKeys.Requests.{Reached, Reached-IsKeyring}

abbrev pub is_ok : {A : Type 0} → Result A → Bool
is_ok (ok _) = true
is_ok (err _) = false

-- the text is a scope, and the key has it
abbrev pub has_scope : Option Bool → Bool
has_scope none = false
has_scope (some b) = b

-- the key with the hash is active, not expired, has the scope and belongs to the account
abbrev pub entitles : ℕ → String → Option String → String → ApiKey → Bool
entitles now scope account_id hash key =
    has_hash hash key
    && (is_valid now key && (has_scope (allows scope key) && is_at_home account_id key))

-- the same, by the tests of the code
abbrev accepts : ℕ → String → Option String → String → ApiKey → Bool
accepts now scope account_id hash key =
    has_hash hash key
    && (is_valid now key && (has_scope (allows scope key) && not (is_foreign account_id key)))

any-accepts :
    (now : ℕ) (scope : String) (account_id : Option String) (hash : String) (keys : List ApiKey)
    → any (accepts now scope account_id hash) keys ≡ any (entitles now scope account_id hash) keys
any-accepts now scope account_id hash [] = refl
any-accepts now scope account_id hash (key ∷ keys) =
    ground (arith, any-accepts now scope account_id hash keys, not-is_foreign account_id key)

module _ ⦃mongo : Mongo⦄ ⦃unicode : Unicode⦄ (sha256 : String → String) where
  -- the note of the use is made at best effort
  noted : (now : ℕ) (key_id : String) (w : World) → (update_last_used now key_id w).0 ≡ ok tt
  unfolding update_last_used
  noted now key_id w = recover-command _ w

  passes-validate :
      (g : ApiKey → Bool) (now : ℕ) (raw_key scope : String) (w : World)
      → IsCalm w
      → passes g (validate sha256 now raw_key scope w).0
        ≡ if_some
            (λ key.
              not (not (is_valid now key))
              && if_some (λ b. not (not b) && g key) (allows scope key))
            (mongo.find_one (has_hash (sha256 raw_key)) w.db.api_keys)
  unfolding validate find_by_hash
  passes-validate g now raw_key scope w calm =
      passes-bind g _ _ _ w (λ found. Passes-option g found _ _ _ λ key. Passes-test g _ _ _ (
        Passes-option g (allows scope key) _ _ _ λ allowed.
          Passes-test g _ _ _ (Passes-noted g _ _ (noted now key.key_id) (Passes-pure g key))))
      ∙ passes-query _ _ w (calm w.calls)

  checked_decides :
      (now : ℕ) (scope : String) (account_id : Option String) (x_api_key : String) (w : World)
      → IsCalm w
      → Reached sha256 w.db
      → is_ok (checked sha256 now scope account_id x_api_key w).0
        ≡ any (accepts now scope account_id (sha256 x_api_key)) w.db.api_keys
  unfolding checked
  checked_decides now scope account_id x_api_key w calm reached =
      let own : ApiKey → Bool = λ key. not (is_foreign account_id key) in
      let hash : String = sha256 x_api_key in
      all_pass (checked sha256 now scope account_id x_api_key w).0
      ∙ passes-bind (λ _. true) _ _ (λ key. own key && true) w
          (λ key. Passes-test (λ _. true) _ _ _ (Passes-pure (λ _. true) key))
      ∙ passes-validate (λ key. own key && true) now x_api_key scope w calm
      ∙ ap
          (if_some (λ key.
            not (not (is_valid now key))
            && if_some (λ b. not (not b) && (own key && true)) (allows scope key)))
          (mongo.find_one_law (has_hash hash) w.db.api_keys)
      ∙ elim (Option-cases (find_first (has_hash hash) w.db.api_keys)) [
        | inl absent ↦ rw absent (
            sym (
              any-missing (has_hash hash)
                (λ k. is_valid now k && (has_scope (allows scope k) && own k)) w.db.api_keys
                absent))
        | inr (key, found) ↦ rw found (
            same (is_valid now key) (own key) (allows scope key)
            ∙ sym (
                any-first (has_hash hash)
                  (λ k. is_valid now k && (has_scope (allows scope k) && own k)) key w.db.api_keys
                  found ((Reached-IsKeyring sha256 reached).hashes hash)))
      ]
    where
      all_pass : (x : Result ApiKey) → is_ok x ≡ passes (λ _. true) x
      all_pass (ok a) = refl
      all_pass (err e) = refl

      same :
          (v o : Bool) (a : Option Bool)
          → (not (not v) && if_some (λ b. not (not b) && (o && true)) a) ≡ (v && (has_scope a && o))
      same v o none = ground arith
      same v o (some b) = ground arith

  unless_decides :
      (admin : Bool) (now : ℕ) (scope : String) (account_id : Option String) (x_api_key : String)
      (w : World)
      → IsCalm w
      → Reached sha256 w.db
      → is_ok (unless_admin sha256 admin now scope account_id x_api_key w).0 ≡ (
          admin
          || (not (x_api_key == "")
              && any (entitles now scope account_id (sha256 x_api_key)) w.db.api_keys))
  unfolding unless_admin by_key pure ◌>>=◌
  unless_decides true now scope account_id x_api_key w calm reached = refl
  unless_decides false now scope account_id x_api_key w calm reached =
      elim (Bool-cases (x_api_key == "")) [
        | inl missing ↦ rw (missing, unless_admin, by_key) refl
        | inr given ↦
            rw (given, unless_admin, by_key)
              (tried (checked sha256 now scope account_id x_api_key w)
                ∙ checked_decides now scope account_id x_api_key w calm reached
                ∙ any-accepts now scope account_id (sha256 x_api_key) w.db.api_keys)
      ]
    where
      tried :
          (x : Result ApiKey × World)
          → let y : Result (Option ApiKey) × World = elim x.0 [
            | ok a ↦ (ok (some a), x.1)
            | err e ↦ (err e, x.1)
          ] in
            is_ok y.0 ≡ is_ok x.0
      tried (ok a, w) = refl
      tried (err e, w) = refl

  -- In a database that requests on API keys lead to, where no drawn secret has a hash that is stored, and
  -- without a database failure: `require_admin_or_api_key`, for a request without a platform session,
  -- raises where the test of its admin token does, which takes a character outside ASCII in it or in a
  -- configured token. Else it lets the request through exactly when its admin token is one of those configured, or it has a key, and some
  -- stored key with its hash is active, not expired, has the scope, and belongs to the account of the path,
  -- if there is one.
  pub require_admin_or_api_key_decides :
      (tokens : List String) (now : ℕ) (scope : String) (account_id : Option String)
      (x_admin_token x_api_key : String) (w : World)
      → IsCalm w
      → Reached sha256 w.db
      → ((is_valid_admin_token tokens x_admin_token ≡ none)
          × ((is_ascii x_admin_token && all is_ascii tokens) ≡ false)
          × ((require_admin_or_api_key sha256 tokens now scope account_id x_admin_token x_api_key
                w).0
              ≡ err uncaught))
        ⊎ ((is_valid_admin_token tokens x_admin_token ≡ some (is_admin_token tokens x_admin_token))
            × (is_ok
                  (require_admin_or_api_key sha256 tokens now scope account_id x_admin_token
                    x_api_key w).0
                ≡ (is_admin_token tokens x_admin_token
                    || (not (x_api_key == "")
                        && any (entitles now scope account_id (sha256 x_api_key)) w.db.api_keys))))
  unfolding require_admin_or_api_key or_raise ◌>>=◌
  require_admin_or_api_key_decides tokens now scope account_id x_admin_token x_api_key w calm
        reached =
      elim (Option-cases (is_valid_admin_token tokens x_admin_token)) [
        | inl raised ↦ inl (
          raised,
          is_valid_admin_token-none tokens x_admin_token raised,
          rw (raised, require_admin_or_api_key, or_raise) refl,
        )
        | inr (admin, answered) ↦
            let meant : admin ≡ is_admin_token tokens x_admin_token =
              is_valid_admin_token-some tokens x_admin_token admin answered in
            inr (
              answered ∙ ap some meant,
              rw (answered, require_admin_or_api_key, or_raise) (unless admin)
                  ∙ ap
                      (λ a.
                        a
                        || (not (x_api_key == "")
                            && any (entitles now scope account_id (sha256 x_api_key))
                                w.db.api_keys))
                      meant,
            )
      ]
    where
      unless :
          (admin : Bool)
          → is_ok (unless_admin sha256 admin now scope account_id x_api_key w).0 ≡ (
              admin
              || (not (x_api_key == "")
                  && any (entitles now scope account_id (sha256 x_api_key)) w.db.api_keys))
      unless admin = unless_decides admin now scope account_id x_api_key w calm reached
