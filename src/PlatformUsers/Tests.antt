-- ===== src/PlatformUsers/Tests.antt =====
-- A console with one administrator, and a run of the property of platform users on it.
use native.Mathlib.Omega.{arith}
use xolo_api.Base.{◌≡◌, refl, true, false, [], ◌∷◌, none, ◌==◌}
use xolo_api.Errors.{conflict}
use xolo_api.Exec.{ok, err}
use xolo_api.Platform.Mongo.{in_memory}
use xolo_api.Platform.Text.{caseless}
use xolo_api.World.{Database, empty, World}
use xolo_api.PlatformUsers.Types.{admin, guest, PlatformUser, acl_read, acl_manage, can}
use xolo_api.PlatformUsers.Service as Service
use xolo_api.PlatformUsers.Keeping.{IsStaffed}
use xolo_api.PlatformUsers.Requests.{Request, handle, Since, at_once, later, Since-IsStaffed}
use xolo_api.PlatformUsers.Requests as Requests

abbrev root : PlatformUser
root = record {
  user_id = "u1";
  username = "root";
  password_hash = "long enough password";
  role = admin;
  permissions = [];
  allowed_account_ids = [];
  is_active = true;
  must_change_password = false;
}

abbrev visitor : PlatformUser
visitor = record root { user_id = "u2"; role = guest; permissions = acl_read ∷ acl_manage ∷ [] }

abbrev console : World
console = record {
  db = record empty { platform_users = root ∷ [] };
  calls = 0;
  outage = λ _. false;
}

test_can : can acl_manage none root ≡ true
unfolding can
test_can = refl

test_guest : can acl_manage none visitor ≡ false
unfolding can
test_guest = refl

test_last :
    (Service.delete ⦃mongo = in_memory⦄ "u1" console).0
    ≡ err
        (conflict "The last active platform administrator cannot be removed, disabled, or demoted")
unfolding Service.delete xolo_api.Exec.◌>>=◌ xolo_api.World.query
test_last = refl

console-IsStaffed : IsStaffed console.db
console-IsStaffed = record { ids = λ i. ground arith; staffed = omega arith }

Since-IsStaffed_example :
    IsStaffed
      (handle ⦃mongo = in_memory⦄ ⦃unicode = caseless⦄
        (λ s. s)
        (λ s t. s == t)
        (Requests.delete "u1")
        console).db
unfolding Requests.DrawsNew
Since-IsStaffed_example =
    Since-IsStaffed ⦃mongo = in_memory⦄ ⦃unicode = caseless⦄ (λ s. s) (λ s t. s == t) console.db
      (handle ⦃mongo = in_memory⦄ ⦃unicode = caseless⦄ (λ s. s) (λ s t. s == t)
        (Requests.delete "u1") console).db
      console-IsStaffed (later (Requests.delete "u1") console at_once tt)
