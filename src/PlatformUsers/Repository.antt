-- ===== src/PlatformUsers/Repository.antt =====
-- `MongoPlatformUserRepository` of xoloapi/platform_users/infrastructure/mongo_repository.py. The unique
-- indexes are written out: a document whose user name another user has is refused.
use xolo_api.Base.{String, ℕ, Bool, true, false, not, ◌&&◌, ◌==◌, List, Option, if◌then◌else◌}
use xolo_api.Errors.{database}
use xolo_api.Exec.{Exec, pure, raise_if, ◌>>=◌, ◌>>◌}
use xolo_api.Platform.Collections.{is_some}
use xolo_api.Platform.Mongo.{Mongo}
use xolo_api.Platform.Text.{Unicode}
use xolo_api.World.{Database, World, query, command}
use xolo_api.PlatformUsers.Types.{PlatformUser, is_admin}

abbrev pub has_id : String → PlatformUser → Bool
has_id user_id u = u.user_id == user_id

abbrev pub is_active_admin : PlatformUser → Bool
is_active_admin u = is_admin u.role && u.is_active

-- another user with the name
abbrev pub takes_name : PlatformUser → PlatformUser → Bool
takes_name user u = u.username == user.username && not (has_id user.user_id u)

module _ ⦃mongo : Mongo⦄ where
  unfoldable pub count : Exec World ℕ
  count = query λ db. mongo.count_documents (λ (u : PlatformUser). true) db.platform_users

  unfoldable pub count_active_admins : Exec World ℕ
  count_active_admins = query λ db. mongo.count_documents is_active_admin db.platform_users

  unfoldable pub find_by_id : String → Exec World (Option PlatformUser)
  find_by_id user_id = query λ db. mongo.find_one (has_id user_id) db.platform_users

  unfoldable pub list_all : Exec World (List PlatformUser)
  list_all = query λ db.
      mongo.sort (λ (u : PlatformUser). u.username)
        (mongo.find (λ (u : PlatformUser). true) db.platform_users)

  abbrev pub stored : PlatformUser → Database → Bool × Database
  stored user db =
      if is_some (mongo.find_one (takes_name user) db.platform_users) then (false, db) else (
        true,
        record db {
          platform_users = mongo.upsert_one (has_id user.user_id) user db.platform_users;
        },
      )

  unfoldable pub save : PlatformUser → Exec World PlatformUser
  save user = do done ← command (stored user); raise_if (not done) database; pure user

  unfoldable pub delete : String → Exec World Bool
  delete user_id = command λ db.
      let (hit, c) = mongo.delete_one (has_id user_id) db.platform_users in
      (hit, record db { platform_users = c })

module _ ⦃mongo : Mongo⦄ ⦃unicode : Unicode⦄ where
  unfoldable pub find_by_username : String → Exec World (Option PlatformUser)
  find_by_username username = query λ db.
      mongo.find_one (λ (u : PlatformUser). u.username == unicode.lower username) db.platform_users
