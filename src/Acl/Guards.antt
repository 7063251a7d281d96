-- ===== src/Acl/Guards.antt =====
-- Who may change the policy of a resource through the guarded operations of the service.
use xolo_api.Base.{
  String, ◌≡◌, refl, ap, ◌∙◌, Bool, true, false, List, Option, some, arith, inl, inr,
}
use xolo_api.Exec.{ok}
use xolo_api.Platform.Mongo.{Mongo}
use xolo_api.Platform.Text.{Unicode}
use xolo_api.World.{Database, World}
use xolo_api.World.Ends.{Ends, Ends-bind, Ends-result}
use xolo_api.Acl.Types.{manage, has, PrincipalType, Principal, Permissions, ResourcePolicy}
use xolo_api.Acl.Policy as Policy
use xolo_api.Acl.Service as Service
use xolo_api.Acl.Effects.{policy_at, callers_of}
use xolo_api.Acl.Effects.Callers.{
  caller_ids-Reads, get_policy-Reads, parse_permissions-Reads, resolve_principal-Reads,
}
use xolo_api.Acl.Effects.Lifetime.{may_delete-Reads}
use xolo_api.Acl.Requests.{
  Action, create_resource, claim_resource, claim_resource_for_principal, transfer_owner, grant,
  revoke, revoke_grant, update_grant_permissions, delete_resource, Request, act, handle,
}

module _ (fresh : String) (policy after : ResourcePolicy) (callers : List String)
    (denied : has manage (Policy.effective_permissions callers policy) ≡ false) where
  grant-denied :
      (principal : Principal) (permissions : Permissions)
      → ¬ (Policy.grant fresh principal permissions callers policy ≡ ok after)
  unfolding Policy.grant
  grant-denied principal permissions e = ground arith

  update-denied :
      (grant_id : String) (permissions : Permissions)
      → ¬ (Policy.update_grant_permissions grant_id permissions callers policy ≡ ok after)
  unfolding Policy.update_grant_permissions
  update-denied grant_id permissions e = ground arith

-- the operations that ask for the manage permission, whoever is acted on
abbrev pub is_guarded : Action → Bool
is_guarded (grant _ _ _ _ _) = true
is_guarded (update_grant_permissions _ _) = true
is_guarded delete_resource = true
is_guarded _ = false

module _ ⦃mongo : Mongo⦄ ⦃unicode : Unicode⦄ (users : Bool)
    (fresh account_id resource_id caller_id : String) (db : Database)
    (denied : (policy : ResourcePolicy)
      → policy_at db account_id resource_id ≡ some policy
      → has manage
          (Policy.effective_permissions (callers_of false account_id caller_id policy db) policy)
        ≡ false) where
  abbrev Untouched : Database → Type 0
  Untouched db' = db' ≡ db

  grant-Untouched :
      (principal_id : Option String) (type : PrincipalType) (permissions : List String)
      (username identifier : Option String)
      → Ends db
          (Service.grant users fresh account_id caller_id resource_id principal_id type permissions
            username identifier false)
          Untouched
  unfolding Service.grant
  grant-Untouched principal_id type permissions username identifier =
      Ends-bind refl (get_policy-Reads account_id resource_id) λ policy found.
        Ends-bind refl (caller_ids-Reads false account_id caller_id policy) λ callers who.
          Ends-bind refl (parse_permissions-Reads permissions) λ given _.
            Ends-bind refl
              (resolve_principal-Reads users account_id type principal_id username identifier)
              λ principal _. Ends-result _ refl λ updated e. absurd (
                grant-denied fresh policy updated callers (rw who (denied policy found)) principal
                  given e)

  update-Untouched :
      (grant_id : String) (permissions : List String)
      → Ends db
          (Service.update_grant_permissions account_id resource_id grant_id permissions caller_id
            false)
          Untouched
  unfolding Service.update_grant_permissions
  update-Untouched grant_id permissions =
      Ends-bind refl (get_policy-Reads account_id resource_id) λ policy found.
        Ends-bind refl (caller_ids-Reads false account_id caller_id policy) λ callers who.
          Ends-bind refl (parse_permissions-Reads permissions) λ wanted _.
            Ends-result _ refl λ updated e. absurd (
              update-denied fresh policy updated callers (rw who (denied policy found)) grant_id
                wanted e)

  delete-Untouched :
      Ends db (Service.delete_resource account_id resource_id caller_id false) Untouched
  unfolding Service.delete_resource
  delete-Untouched =
      Ends-bind refl (may_delete-Reads fresh account_id resource_id caller_id false db) λ _ may.
        absurd (elim (may refl) [
          | inl admin ↦ cc admin
          | inr (policy, found, manages) ↦ cc (manages, denied policy found)
        ])

  act-Untouched :
      (x : Action) (w : World)
      → is_guarded x ≡ true
      → w.db ≡ db
      → (act users x fresh account_id resource_id caller_id false w).db ≡ db
  unfolding act
  act-Untouched (grant p t ps u i) w guarded e = (grant-Untouched p t ps u i).at w e
  act-Untouched (update_grant_permissions g ps) w guarded e = (update-Untouched g ps).at w e
  act-Untouched delete_resource w guarded e = delete-Untouched.at w e
  act-Untouched (create_resource _ _) w guarded e = absurd (cc guarded)
  act-Untouched (claim_resource _) w guarded e = absurd (cc guarded)
  act-Untouched (claim_resource_for_principal _ _) w guarded e = absurd (cc guarded)
  act-Untouched (transfer_owner _ _ _) w guarded e = absurd (cc guarded)
  act-Untouched (revoke _ _ _ _ _) w guarded e = absurd (cc guarded)
  act-Untouched (revoke_grant _) w guarded e = absurd (cc guarded)

-- A request of a caller who is no administrator to share a resource, to edit a grant or to delete a
-- policy leaves the whole database as it is, where the stored policy, if any, gives the manage
-- permission to neither the caller nor one of its active groups.
pub handle-unmanaged :
    ⦃mongo : Mongo⦄ ⦃unicode : Unicode⦄ (users : Bool) (q : Request) (w : World)
    → is_guarded q.action ≡ true
    → q.is_admin ≡ false
    → ((policy : ResourcePolicy)
        → policy_at w.db q.account_id q.resource_id ≡ some policy
        → has manage (
            Policy.effective_permissions
              (callers_of false q.account_id q.caller_id policy w.db)
              policy)
          ≡ false)
    → (handle users q w).db ≡ w.db
unfolding handle
handle-unmanaged users q w guarded plain denied =
    ap (λ m. (act users q.action q.fresh q.account_id q.resource_id q.caller_id m w).db) plain
    ∙ act-Untouched users q.fresh q.account_id q.resource_id q.caller_id w.db denied q.action w
        guarded refl
