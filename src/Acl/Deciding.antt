-- ===== src/Acl/Deciding.antt =====
-- What a check of the service decides, where no outage strikes.
use xolo_api.Base.{
  String, ◌≡◌, refl, sym, ◌∙◌, ◌↔◌, Bool, true, false, ◌&&◌, ◌||◌, List, [], ◌∷◌, map, any, Option,
  none, some, ◌==◌, arith,
}
use xolo_api.Exec.{ok, or_raise, ◌>>=◌}
use xolo_api.Platform.Mongo.{Mongo}
use xolo_api.World.{Database, World, IsCalm}
use xolo_api.World.Calm.{Yields, Yields-pure, Yields-query, Yields-bind}
use xolo_api.Groups.Repository.{memberships, find_groups_for_user}
use xolo_api.Groups.Reading.{groups_in, group_ids_of, groups_with-Yields}
use xolo_api.Groups.Meaning.{in_group, elem-group_ids_of}
use xolo_api.Acl.Types.{user_principal, Permission, Permissions, has, AccessGrant, ResourcePolicy}
use xolo_api.Acl.Policy as Policy
use xolo_api.Acl.Policy.Access.{gives, check-gives}
use xolo_api.Acl.Repository.{is_policy, find_by_resource}
use xolo_api.Acl.Principals.{
  permissions_of, parse_permissions, group_ids, principal_ids, checked_ids,
}
use xolo_api.Acl.Reading.{check_in, check}
use xolo_api.Acl.Effects.{policy_at}

-- the grant reaches the user, itself or through an active group of the account, and gives the
-- permission
abbrev pub reaches : String → String → Database → Permission → AccessGrant → Bool
reaches account_id user_id db p g =
    (user_id == g.principal.id || in_group account_id user_id db g.principal.id)
    && (g.is_owner || has p g.permissions)

-- every required permission is given by a grant of the stored policy that reaches the user
abbrev pub IsAllowed : String → String → String → Permissions → Database → Type 0
IsAllowed account_id user_id resource_id required db =
    (policy : ResourcePolicy) × (policy_at db account_id resource_id ≡ some policy)
    × ((p : Permission)
        → has p required ≡ true
        → any (reaches account_id user_id db p) policy.grants ≡ true)

-- the answer for the policy that was found, if any
abbrev answer : Option ResourcePolicy → List String → Permissions → Bool
answer none callers required = false
answer (some policy) callers required = Policy.check callers required policy

module _ ⦃mongo : Mongo⦄ (account_id user_id : String) where
  principal_ids-Yields :
      Yields (principal_ids account_id user_id) (λ db. user_id ∷ group_ids_of account_id user_id db)
  unfolding principal_ids group_ids find_groups_for_user
  principal_ids-Yields =
      Yields-bind _ (group_ids_of account_id user_id) _ (λ ids _. user_id ∷ ids)
        (Yields-bind _ (λ db. groups_in account_id (memberships account_id user_id db) db) _
          (λ gs _. map (λ g. g.group_id) gs)
          (Yields-bind _ (memberships account_id user_id) _ (groups_in account_id) (Yields-query _)
            (groups_with-Yields account_id))
          (λ gs. Yields-pure _))
        (λ ids. Yields-pure _)

  module _ (resource_id : String) (permissions : List String) (required : Permissions)
      (read : permissions_of permissions ≡ some required) where
    check_in-Yields :
        (found : Option ResourcePolicy) (callers : List String)
        → Yields (check_in found callers permissions) (λ _. answer found callers required)
    unfolding check_in parse_permissions or_raise ◌>>=◌
    check_in-Yields none callers = Yields-pure _
    check_in-Yields (some policy) callers = record { at = λ w calm. rw read (refl, refl, refl) }

    check-Yields : Yields (check account_id user_id resource_id permissions user_principal) (λ db.
        answer
          (mongo.find_one (is_policy account_id resource_id) db.policies)
          (user_id ∷ group_ids_of account_id user_id db)
          required)
    unfolding check checked_ids find_by_resource
    check-Yields =
        Yields-bind _ (λ db. user_id ∷ group_ids_of account_id user_id db) _
          (λ callers db.
            answer (mongo.find_one (is_policy account_id resource_id) db.policies) callers required)
          principal_ids-Yields
          (λ callers.
            Yields-bind _ (λ db. mongo.find_one (is_policy account_id resource_id) db.policies) _
              (λ found db. answer found callers required) (Yields-query _)
              (λ found. check_in-Yields found callers))

    gives-reaches :
        (db : Database) (p : Permission) (gs : List AccessGrant)
        → any (gives (user_id ∷ group_ids_of account_id user_id db) p) gs
          ≡ any (reaches account_id user_id db p) gs
    gives-reaches db p [] = refl
    gives-reaches db p (g ∷ gs) =
        ground
          (arith, gives-reaches db p gs, elem-group_ids_of account_id user_id db g.principal.id)

    answer_iff :
        (db : Database) (found : Option ResourcePolicy)
        → policy_at db account_id resource_id ≡ found
        → (answer found (user_id ∷ group_ids_of account_id user_id db) required ≡ true)
          ↔ IsAllowed account_id user_id resource_id required db
    answer_iff db none e = ((λ h. cc h), (λ (policy, found, all). cc (e, found)))
    answer_iff db (some policy) e =
        let (f, g) = check-gives (user_id ∷ group_ids_of account_id user_id db) required policy in
        (
          (λ h. (policy, e, λ p r. sym (gives-reaches db p policy.grants) ∙ f h p r)),
          (λ (q, found, all).
              let same : q ≡ policy = ground (arith, e, found) in
              g (λ p r. gives-reaches db p policy.grants ∙ (rw same at all) p r)),
        )

    -- Where no outage strikes and the permissions are all known, a check for a user answers; and it
    -- answers true exactly when a policy is stored for the resource and each required permission is
    -- given by one of its grants that is to the user, or to an active group of the account that lists
    -- the user as a member.
    pub check-IsAllowed :
        (w : World)
        → IsCalm w
        → (b : Bool) × ((check account_id user_id resource_id permissions user_principal w).0
            ≡ ok b)
          × ((b ≡ true) ↔ IsAllowed account_id user_id resource_id required w.db)
    check-IsAllowed w calm =
        let (value, same, still) = check-Yields.at w calm in
        (
          answer (mongo.find_one (is_policy account_id resource_id) w.db.policies)
              (user_id ∷ group_ids_of account_id user_id w.db) required,
          value,
          rw (mongo.find_one_law (is_policy account_id resource_id) w.db.policies)
              (answer_iff w.db (policy_at w.db account_id resource_id) refl),
        )
