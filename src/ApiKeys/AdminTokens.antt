-- ===== src/ApiKeys/AdminTokens.antt =====
-- What `is_valid_admin_token` of xoloapi/middleware/admin.py answers, and where it raises.
use xolo_api.Base.{
  String, ◌≡◌, refl, Bool, false, not, ◌&&◌, List, [], ◌∷◌, all, any, Option, none, some, ◌==◌,
  arith, Bool-cases, inl, inr, sym,
}
use xolo_api.Platform.Text.{is_ascii, compare_digest}
use xolo_api.ApiKeys.Access.{or_next, is_configured, is_valid_admin_token}

-- it is given, and is one of the configured tokens
abbrev pub is_admin_token : List String → String → Bool
is_admin_token tokens token =
    not (token == "") && any (λ configured_token. token == configured_token) tokens

-- The test answers whether the token is one of those that are configured; or it raises, and then the
-- token or one of those has a character outside ASCII.
Tells : List String → String → Option Bool → Type 0
Tells tokens token none = (is_ascii token && all is_ascii tokens) ≡ false
Tells tokens token (some b) = b ≡ any (λ configured_token. token == configured_token) tokens

or_next-Tells :
    (token configured_token : String) (tokens : List String) (rest : Option Bool)
    → Tells tokens token rest
    → Tells (configured_token ∷ tokens) token (or_next (compare_digest token configured_token) rest)
unfolding Tells or_next compare_digest
or_next-Tells token configured_token tokens rest told =
    elim (Bool-cases (is_ascii token && is_ascii configured_token)) [
      | inr foreign ↦ rw foreign (ground (arith, foreign))
      | inl plain ↦ rw plain (elim (Bool-cases (token == configured_token)) [
        | inl same ↦ rw same (ground arith)
        | inr other ↦ rw other (later rest told other)
      ])
    ]
  where
    later :
        (r : Option Bool)
        → Tells tokens token r
        → (token == configured_token) ≡ false
        → Tells (configured_token ∷ tokens) token r
    later none h other = ground (arith, h)
    later (some b) h other = ground (arith, h, other)

is_configured-Tells :
    (token : String) (tokens : List String) → Tells tokens token (is_configured token tokens)
unfolding Tells is_configured
is_configured-Tells token [] = refl
is_configured-Tells token (configured_token ∷ tokens) =
    or_next-Tells token configured_token tokens (is_configured token tokens)
      (is_configured-Tells token tokens)

is_valid_admin_token-is_configured :
    (tokens : List String) (token : String)
    → (token == "") ≡ false
    → is_valid_admin_token tokens token ≡ is_configured token tokens
unfolding is_valid_admin_token
is_valid_admin_token-is_configured tokens token given = rw (given, is_valid_admin_token) refl

-- a token that is given tells so by the answer
is_valid_admin_token-Tells :
    (tokens : List String) (token : String) (answer : Option Bool)
    → (token == "") ≡ false
    → is_valid_admin_token tokens token ≡ answer
    → Tells tokens token answer
is_valid_admin_token-Tells tokens token answer given h =
    rw (sym h, is_valid_admin_token-is_configured tokens token given)
      (is_configured-Tells token tokens)

pub is_valid_admin_token-some :
    (tokens : List String) (token : String) (b : Bool)
    → is_valid_admin_token tokens token ≡ some b
    → b ≡ is_admin_token tokens token
unfolding is_valid_admin_token Tells
is_valid_admin_token-some tokens token b h = elim (Bool-cases (token == "")) [
  | inl missing ↦ ground (arith, h, missing)
  | inr there ↦ ground (arith, there, is_valid_admin_token-Tells tokens token (some b) there h)
]

pub is_valid_admin_token-none :
    (tokens : List String) (token : String)
    → is_valid_admin_token tokens token ≡ none
    → (is_ascii token && all is_ascii tokens) ≡ false
unfolding is_valid_admin_token Tells
is_valid_admin_token-none tokens token h = elim (Bool-cases (token == "")) [
  | inl missing ↦ absurd (cc (h, missing))
  | inr there ↦ is_valid_admin_token-Tells tokens token none there h
]
