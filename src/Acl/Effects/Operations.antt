-- ===== src/Acl/Effects/Operations.antt =====
-- Each operation of the service makes a change that its request allows.
use xolo_api.Base.{String, ◌≡◌, refl, sym, ◌∙◌, Bool, List, Option, none, some, inl, inr}
use xolo_api.Platform.Mongo.{Mongo}
use xolo_api.Platform.Text.{Unicode}
use xolo_api.World.{Database}
use xolo_api.World.Reads.{Reads-pure, Reads-or_raise, Reads-raise_if, Reads-weaken}
use xolo_api.World.Ends.{Ends, Ends-command, Ends-bind, Ends-result, Ends-then}
use xolo_api.Acl.Types.{PrincipalType, ResourcePolicy}
use xolo_api.Acl.Repository.{is_policy}
use xolo_api.Acl.Repository as Repository
use xolo_api.Acl.Service as Service
use xolo_api.Acl.Service.{or_new}
use xolo_api.Acl.Effects.{
  policy_at, Method, claims, claims_principal, transfers, grants, revokes, edits, IsCurrent, Change,
  same, stored,
}
use xolo_api.Acl.Effects.Keys.{Method-key, IsCurrent-IsAt}
use xolo_api.Acl.Effects.Callers.{
  caller_ids-Reads, find_by_resource-Reads, get_policy-Reads, parse_permissions-Reads,
  parse_kept-Reads, resolve_principal-Reads, revoked_id-Reads,
}

module _ ⦃mongo : Mongo⦄ (fresh account_id resource_id caller_id : String) (is_admin : Bool)
    (db : Database) where
  abbrev Allowed : Database → Type 0
  Allowed = Change fresh account_id resource_id caller_id is_admin db

  abbrev Makes : ResourcePolicy → ResourcePolicy → Type 0
  Makes = Method fresh account_id caller_id is_admin db

  -- the upsert of a policy that a method made of the current one
  save-Ends :
      (old after : ResourcePolicy)
      → IsCurrent db account_id resource_id old
      → Makes old after
      → Ends db (Repository.save after) Allowed
  unfolding Repository.save
  save-Ends old after current made =
      let (a, r) = Method-key fresh account_id caller_id is_admin db old made in
      let (oa, or) = IsCurrent-IsAt db account_id resource_id old current in
      Ends-then
        (Ends-command _ (same db refl) (
          stored _ old after current made (
            rw
              (
                mongo.upsert_one_law (is_policy after.account_id after.resource_id) after
                    db.policies,
                sym (a ∙ oa),
                sym (r ∙ or),
              )
              refl)))
        (λ _. Reads-pure _ _ (λ db. tt))

  saved-Ends :
      (old after : ResourcePolicy)
      → IsCurrent db account_id resource_id old
      → Makes old after
      → Ends db (Service.saved after) Allowed
  unfolding Service.saved
  saved-Ends old after current made =
      Ends-then (save-Ends old after current made) (λ _. Reads-pure _ _ (λ db. tt))

  or_new-IsCurrent :
      (found : Option ResourcePolicy)
      → policy_at db account_id resource_id ≡ found
      → IsCurrent db account_id resource_id (or_new account_id resource_id found)
  or_new-IsCurrent none e = inr (e, refl)
  or_new-IsCurrent (some policy) e = inl e

  pub revoke_grant-Ends :
      (grant_id : String)
      → Ends db (Service.revoke_grant account_id resource_id grant_id caller_id is_admin) Allowed
  unfolding Service.revoke_grant
  revoke_grant-Ends grant_id =
      Ends-bind (same db refl) (get_policy-Reads account_id resource_id) λ policy found.
        Ends-bind (same db refl) (Reads-or_raise _ _) λ grant _.
          Ends-bind (same db refl) (Reads-raise_if _ _) λ _ _.
            Ends-bind (same db refl) (caller_ids-Reads is_admin account_id caller_id policy)
              λ callers who. Ends-result _ (same db refl) λ updated e.
                saved-Ends policy updated (inl found)
                  (revokes updated grant.principal.id grant.permissions (rw who at e))

  pub update_grant_permissions-Ends :
      (grant_id : String) (permissions : List String)
      → Ends db
          (Service.update_grant_permissions account_id resource_id grant_id permissions caller_id
            is_admin)
          Allowed
  unfolding Service.update_grant_permissions
  update_grant_permissions-Ends grant_id permissions =
      Ends-bind (same db refl) (get_policy-Reads account_id resource_id) λ policy found.
        Ends-bind (same db refl) (caller_ids-Reads is_admin account_id caller_id policy)
          λ callers who. Ends-bind (same db refl) (parse_permissions-Reads permissions) λ wanted _.
            Ends-result _ (same db refl) λ updated e.
              Ends-then
                (save-Ends policy updated (inl found) (edits updated grant_id wanted (rw who at e)))
                (λ _. Reads-weaken (Reads-or_raise _ _) (λ _ _ _. tt))

  pub claim_resource-Ends :
      (user_id : String)
      → Ends db (Service.claim_resource fresh account_id user_id resource_id) Allowed
  unfolding Service.claim_resource
  claim_resource-Ends user_id =
      Ends-bind (same db refl) (find_by_resource-Reads account_id resource_id) λ found at.
        Ends-result _ (same db refl)
          λ claimed e. saved-Ends _ claimed (or_new-IsCurrent found at) (claims claimed user_id e)

  pub claim_resource_for_principal-Ends :
      (principal_id : String) (type : PrincipalType)
      → Ends db
          (Service.claim_resource_for_principal fresh account_id principal_id type resource_id)
          Allowed
  unfolding Service.claim_resource_for_principal
  claim_resource_for_principal-Ends principal_id type =
      Ends-bind (same db refl) (find_by_resource-Reads account_id resource_id) λ found at.
        Ends-result _ (same db refl) λ claimed e.
          saved-Ends _ claimed (or_new-IsCurrent found at) (claims_principal claimed _ e)

  pub transfer_owner-Ends :
      (principal_id : String) (type : PrincipalType) (kept : Option (List String))
      → Ends db (Service.transfer_owner fresh account_id resource_id principal_id type kept) Allowed
  unfolding Service.transfer_owner
  transfer_owner-Ends principal_id type kept =
      Ends-bind (same db refl) (get_policy-Reads account_id resource_id) λ policy found.
        Ends-bind (same db refl) (parse_kept-Reads kept) λ keep _.
          Ends-result _ (same db refl)
            λ updated e. saved-Ends policy updated (inl found) (transfers updated _ keep e)

  module _ ⦃unicode : Unicode⦄ (users : Bool) where
    pub grant-Ends :
        (principal_id : Option String) (type : PrincipalType) (permissions : List String)
        (username identifier : Option String)
        → Ends db
            (Service.grant users fresh account_id caller_id resource_id principal_id type
              permissions username identifier is_admin)
            Allowed
    unfolding Service.grant
    grant-Ends principal_id type permissions username identifier =
        Ends-bind (same db refl) (get_policy-Reads account_id resource_id) λ policy found.
          Ends-bind (same db refl) (caller_ids-Reads is_admin account_id caller_id policy)
            λ callers who. Ends-bind (same db refl) (parse_permissions-Reads permissions) λ given _.
              Ends-bind (same db refl)
                (resolve_principal-Reads users account_id type principal_id username identifier)
                λ principal _. Ends-result _ (same db refl) λ updated e.
                  saved-Ends policy updated (inl found)
                    (grants updated principal given (rw who at e))

    pub revoke-Ends :
        (principal_id : Option String) (permissions : List String) (type : PrincipalType)
        (username identifier : Option String)
        → Ends db
            (Service.revoke users account_id caller_id resource_id principal_id permissions type
              username identifier is_admin)
            Allowed
    unfolding Service.revoke
    revoke-Ends principal_id permissions type username identifier =
        Ends-bind (same db refl) (get_policy-Reads account_id resource_id) λ policy found.
          Ends-bind (same db refl) (caller_ids-Reads is_admin account_id caller_id policy)
            λ callers who. Ends-bind (same db refl) (parse_permissions-Reads permissions) λ taken _.
              Ends-bind (same db refl)
                (revoked_id-Reads users account_id type principal_id username identifier)
                λ id _. Ends-result _ (same db refl) λ updated e.
                  saved-Ends policy updated (inl found) (revokes updated id taken (rw who at e))
