-- ===== src/Abac/Service.antt =====
-- `ABACService`, xoloapi/abac/application/abac_service.py. A fresh id (`generate` of `nanoid`) and the
-- time are arguments.
use Prim.Native.Char.{Char}
use Prim.Native.String.{◌++◌ as concat}
use xolo_api.Base.{String, ℕ, Bool, List, Option, none, some, ◌==◌, if◌then◌else◌}
use xolo_api.Errors.{not_found, uncaught}
use xolo_api.Exec.{Exec, or_raise, ◌>>=◌}
use xolo_api.Platform.Mongo.{Mongo}
use xolo_api.Platform.Text.{Unicode}
use xolo_api.World.{World}
use xolo_api.Abac.Types.{Effect, glob_v2, AccessRequest, Event, Policy, Decision}
use xolo_api.Abac.Events.{Calendar}
use xolo_api.Abac.Evaluator.{decide}
use xolo_api.Abac.Repository as Repository

-- `timezone or existing.unwrap().timezone`
abbrev pub or_zone : Option String → String → String
or_zone none zone = zone
or_zone (some given) zone = if given == "" then zone else given

-- the policy of a creation
abbrev pub new_policy : String → String → String → Effect → List Event → String → Policy
new_policy fresh account_id name effect events timezone = record {
  account_id = account_id;
  policy_id = concat "ap-" fresh;
  name = name;
  effect = effect;
  events = events;
  matcher_version = glob_v2;
  timezone = timezone;
}

-- the policy of an update
abbrev pub updated_policy :
    String → String → String → Effect → List Event → Option String → Policy → Policy
updated_policy account_id policy_id name effect events timezone existing = record {
  account_id = account_id;
  policy_id = policy_id;
  name = name;
  effect = effect;
  events = events;
  matcher_version = existing.matcher_version;
  timezone = or_zone timezone existing.timezone;
}

-- `model_copy(update={"matcher_version": MatcherVersion.GLOB_V2})`
abbrev pub upgraded : Policy → Policy
upgraded existing = record existing { matcher_version = glob_v2 }

module _ ⦃mongo : Mongo⦄ where
  unfoldable pub create_policy :
      String → ℕ → String → String → Effect → List Event → String → Exec World String
  unfolding Repository.save
  create_policy fresh now account_id name effect events timezone =
      Repository.save now (new_policy fresh account_id name effect events timezone)

  unfoldable pub delete_policy : String → String → Exec World Bool
  unfolding Repository.delete
  delete_policy account_id policy_id = Repository.delete account_id policy_id

module _ ⦃mongo : Mongo⦄ (calendar : Calendar) where
  unfoldable pub get_policy : String → String → Exec World Policy
  unfolding Repository.find_by_id
  get_policy account_id policy_id = do
    found ← Repository.find_by_id calendar account_id policy_id
    or_raise found (not_found "ABACPolicy" policy_id)

  unfoldable pub list_policies : String → Exec World (List Policy)
  unfolding Repository.find_all
  list_policies account_id = Repository.find_all calendar account_id

  unfoldable pub update_policy :
      ℕ → String → String → String → Effect → List Event → Option String → Exec World String
  unfolding get_policy Repository.save
  update_policy now account_id policy_id name effect events timezone = do
    existing ← get_policy account_id policy_id
    Repository.save now (updated_policy account_id policy_id name effect events timezone existing)

  unfoldable pub upgrade_matcher : ℕ → String → String → Exec World String
  unfolding get_policy Repository.save
  upgrade_matcher now account_id policy_id = do
    existing ← get_policy account_id policy_id
    Repository.save now (upgraded existing)

  -- an exception of a test escapes; `same` says which characters a match without regard to case identifies
  unfoldable pub evaluate :
      ⦃unicode : Unicode⦄ → (Char → Char → Bool) → String → AccessRequest → Exec World Decision
  unfolding Repository.find_all decide
  evaluate ⦃unicode = unicode⦄ same account_id request = do
    policies ← Repository.find_all calendar account_id
    or_raise (decide ⦃unicode = unicode⦄ calendar same request policies) uncaught
