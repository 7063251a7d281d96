-- ===== src/Acl/Effects/Lifetime.antt =====
-- The creation and the deletion of a policy, as the change that their request allows.
use xolo_api.Base.{
  String, ◌≡◌, ◌⊎◌, refl, Bool, true, false, none, some, arith, Bool-cases, Option-cases, inl, inr,
}
use xolo_api.Platform.Collections.{delete_first-absent}
use xolo_api.Platform.Mongo.{Mongo}
use xolo_api.Platform.Text.{Unicode, strip}
use xolo_api.World.{Database}
use xolo_api.World.Reads.{Reads, Reads-pure, Reads-raise_if, Reads-bind, Reads-weaken}
use xolo_api.World.Ends.{Ends, Ends-command, Ends-bind, Ends-result, Ends-then}
use xolo_api.Acl.Types.{manage, has, PrincipalType, ResourcePolicy}
use xolo_api.Acl.Policy as Policy
use xolo_api.Acl.Repository.{is_policy}
use xolo_api.Acl.Repository as Repository
use xolo_api.Acl.Service as Service
use xolo_api.Acl.Service.{new_policy, may_delete}
use xolo_api.Acl.Effects.{
  policy_at, callers_of, Method, claims_principal, Change, same, stored, dropped,
}
use xolo_api.Acl.Effects.Keys.{Method-key}
use xolo_api.Acl.Effects.Callers.{principal_ids-Reads, get_policy-Reads, resolve_principal-Reads}

module _ ⦃mongo : Mongo⦄ (fresh account_id resource_id caller_id : String) (is_admin : Bool)
    (db : Database) where
  abbrev Allowed : Database → Type 0
  Allowed = Change fresh account_id resource_id caller_id is_admin db

  -- the caller manages the stored policy
  abbrev pub Manages : Type 0
  Manages =
      (policy : ResourcePolicy) × (policy_at db account_id resource_id ≡ some policy)
      × (has manage
            (Policy.effective_permissions (callers_of false account_id caller_id policy db) policy)
          ≡ true)

  -- the unique index refuses a second policy
  create-Ends :
      (after : ResourcePolicy)
      → Method fresh account_id caller_id is_admin db (new_policy account_id resource_id) after
      → Ends db (Repository.create after) Allowed
  unfolding Repository.create
  create-Ends after made =
      let (a, r) =
        Method-key fresh account_id caller_id is_admin db (new_policy account_id resource_id)
          made in
      Ends-then
        (Ends-command _ (same db refl)
          (written a r (Option-cases (policy_at db account_id resource_id))))
        (λ _. Reads-bind _ (Reads-raise_if _ _) λ _. Reads-pure _ _ (λ db _. tt))
    where
      written :
          after.account_id ≡ account_id
          → after.resource_id ≡ resource_id
          → (policy_at db account_id resource_id ≡ none)
            ⊎ ((p : ResourcePolicy) × (policy_at db account_id resource_id ≡ some p))
          → Allowed (record db {
            policies =
                (mongo.insert_unique
                  (is_policy after.account_id after.resource_id)
                  after
                  db.policies).1;
          })
      written a r (inl absent) =
          stored _ (new_policy account_id resource_id) after (inr (absent, refl)) made (
            rw
              (
                mongo.insert_unique_law (is_policy after.account_id after.resource_id) after
                    db.policies,
                a,
                r,
                absent,
              )
              refl)
      written a r (inr (p, found)) = same _ (
          rw
            (
              mongo.insert_unique_law (is_policy after.account_id after.resource_id) after
                  db.policies,
              a,
              r,
              found,
            )
            refl)

  pub may_delete-Reads :
      Reads
        (may_delete is_admin account_id resource_id caller_id)
        (λ _ d. d ≡ db → (is_admin ≡ true) ⊎ Manages)
  unfolding may_delete
  may_delete-Reads = elim (Bool-cases is_admin) [
    | inl yes_admin ↦ rw (yes_admin, may_delete) (Reads-pure _ _ (λ _ _. inl refl))
    | inr no_admin ↦
        rw (no_admin, may_delete)
          (Reads-bind _ (principal_ids-Reads account_id caller_id) λ callers.
            Reads-bind _ (get_policy-Reads account_id resource_id) λ policy.
              Reads-weaken (Reads-raise_if _ _)
                λ _ d may found who same_db. inr (policy, rw same_db at found, ground arith))
  ]

  delete-Ends :
      (is_admin ≡ true) ⊎ Manages → Ends db (Repository.delete account_id resource_id) Allowed
  unfolding Repository.delete
  delete-Ends may =
      Ends-then
        (Ends-command _ (same db refl) (gone (Option-cases (policy_at db account_id resource_id))))
        (λ _. Reads-bind _ (Reads-raise_if _ _) λ _. Reads-pure _ _ (λ db _. tt))
    where
      allowed :
          (p : ResourcePolicy)
          → policy_at db account_id resource_id ≡ some p
          → (is_admin ≡ true) ⊎ Manages
          → (is_admin ≡ true)
            ⊎ (has manage
                  (Policy.effective_permissions (callers_of false account_id caller_id p db) p)
                ≡ true)
      allowed p found (inl admin) = inl admin
      allowed p found (inr (q, there, manages)) =
          let e : q ≡ p = ground (arith, there, found) in inr (rw e at manages)

      gone :
          (policy_at db account_id resource_id ≡ none)
            ⊎ ((p : ResourcePolicy) × (policy_at db account_id resource_id ≡ some p))
          → Allowed (record db {
            policies = (mongo.delete_one (is_policy account_id resource_id) db.policies).1;
          })
      gone (inl absent) = same _ (
          rw
            (
              mongo.delete_one_law (is_policy account_id resource_id) db.policies,
              delete_first-absent (is_policy account_id resource_id) db.policies absent,
            )
            refl)
      gone (inr (p, found)) =
          dropped _ p found (allowed p found may)
            (rw (mongo.delete_one_law (is_policy account_id resource_id) db.policies) refl)

  pub delete_resource-Ends :
      Ends db (Service.delete_resource account_id resource_id caller_id is_admin) Allowed
  unfolding Service.delete_resource
  delete_resource-Ends = Ends-bind (same db refl) may_delete-Reads λ _ may. delete-Ends (may refl)

module _ ⦃mongo : Mongo⦄ ⦃unicode : Unicode⦄ (users : Bool) (fresh account_id caller_id : String)
    (is_admin : Bool) (db : Database) where
  pub create_resource-Ends :
      (resource_id : String) (type : PrincipalType) (identifier : String)
      → Ends db
          (Service.create_resource users fresh account_id resource_id type identifier)
          (Change fresh account_id (strip resource_id) caller_id is_admin db)
  unfolding Service.create_resource
  create_resource-Ends resource_id type identifier =
      Ends-bind (same db refl) (Reads-raise_if _ _) λ _ _.
        Ends-bind (same db refl) (resolve_principal-Reads users account_id type _ _ _) λ owner _.
          Ends-result _ (same db refl) λ claimed e.
            create-Ends fresh account_id (strip resource_id) caller_id is_admin db claimed
              (claims_principal claimed owner e)
