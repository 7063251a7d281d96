-- ===== src/Users/Resolution.antt =====
-- xoloapi/users/application/user_resolution.py, and the two lookups of
-- xoloapi/users/infrastructure/mongo_repository.py that it makes. The lookups re-raise what the
-- database raises, so an outage escapes from here.
use xolo_api.Base.{String, ◌&&◌, ◌||◌, Option, none, some, ◌==◌}
use xolo_api.Errors.{not_found, validation}
use xolo_api.Exec.{Exec, pure, raise, raise_if, ◌>>=◌, ◌>>◌}
use xolo_api.Platform.Mongo.{Mongo}
use xolo_api.Platform.Text.{Unicode, strip}
use xolo_api.World.{World, query_uncaught}
use xolo_api.World.Reads.{
  Reads, Anything, Reads-pure, Reads-raise, Reads-raise_if, Reads-query_uncaught, Reads-bind,
  Reads-option,
}
use xolo_api.Users.Types.{User}

pub record ResolvedUser : Type 0 where
  pub user_id : String
  pub username : String

abbrev pub resolved : User → ResolvedUser
resolved user = record { user_id = user.key; username = user.username }

module _ ⦃mongo : Mongo⦄ ⦃unicode : Unicode⦄ where
  unfoldable pub find_by_id : String → String → Exec World (Option User)
  find_by_id user_id account_id =
      query_uncaught
        λ db. mongo.find_one (λ u. u.key == user_id && u.account_id == account_id) db.users

  unfoldable pub find_by_username : String → String → Exec World (Option User)
  find_by_username account_id username = query_uncaught λ db.
      mongo.find_one
        (λ u.
          u.account_id == account_id
          && (u.normalized_username == unicode.casefold (strip username)
              || unicode.same_ignoring_case (strip username) u.username))
        db.users

  -- by canonical id first, then by user name
  unfoldable pub resolve_user_identifier : String → String → Exec World ResolvedUser
  unfolding find_by_id find_by_username
  resolve_user_identifier account_id identifier = do
    let value = strip identifier
    raise_if (value == "") (validation "user_identifier is required")
    by_id ← find_by_id value account_id
    elim by_id [
      | some user ↦ pure (resolved user)
      | none ↦ do
        by_username ← find_by_username account_id value
        elim by_username [
          | some user ↦ pure (resolved user)
          | none ↦ raise (not_found "User" value)
        ]
    ]

  -- the resolution only reads
  pub resolve_user_identifier-Reads :
      (account_id identifier : String)
      → Reads (resolve_user_identifier account_id identifier) Anything
  unfolding resolve_user_identifier
  resolve_user_identifier-Reads account_id identifier = Reads-bind _ (Reads-raise_if _ _) λ _.
      Reads-bind _ (Reads-query_uncaught _) λ by_id.
        Reads-option by_id _ _
          (Reads-bind _ (Reads-query_uncaught _) λ by_username.
            Reads-option by_username _ _ (Reads-raise _ _)
              (λ user. Reads-pure _ _ (λ db _ _ _. tt)))
          (λ user. Reads-pure _ _ (λ db _ _. tt))
