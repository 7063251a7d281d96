-- ===== src/Acl/Effects/Callers.antt =====
-- What the operations learn before they write: who the caller acts for, who is acted on, and the
-- stored policy.
use xolo_api.Base.{
  String, ◌≡◌, refl, sym, ap, ◌∙◌, Bool, true, false, List, ◌∷◌, map, Option, none, some,
}
use xolo_api.Platform.Mongo.{Mongo}
use xolo_api.Platform.Text.{Unicode}
use xolo_api.World.Reads.{
  Reads, Anything, Reads-pure, Reads-raise, Reads-or_raise, Reads-raise_if, Reads-query, Reads-bind,
  Reads-weaken, Reads-recover, Reads-option,
}
use xolo_api.Users.Resolution.{resolve_user_identifier-Reads}
use xolo_api.Groups.Reading.{group_ids_of, find_groups_for_user-Reads}
use xolo_api.Groups.Repository.{find_group}
use xolo_api.Acl.Types.{PrincipalType, user_principal, group_principal, ResourcePolicy}
use xolo_api.Acl.Repository.{is_policy}
use xolo_api.Acl.Repository as Repository
use xolo_api.Acl.Reading.{get_policy}
use xolo_api.Acl.Principals.{
  truthy, parse_permissions, group_ids, principal_ids, caller_ids, resolve_group, resolve_user,
  resolve_principal,
}
use xolo_api.Acl.Service.{parse_kept, stored_id, revoked_id}
use xolo_api.Acl.Effects.{policy_at, callers_of}

module _ ⦃mongo : Mongo⦄ where
  pub group_ids-Reads :
      (account_id user_id : String)
      → Reads (group_ids account_id user_id) (λ ids db. ids ≡ group_ids_of account_id user_id db)
  unfolding group_ids
  group_ids-Reads account_id user_id =
      Reads-bind _ (find_groups_for_user-Reads account_id user_id)
        λ gs. Reads-pure _ _ (λ db e. ap (map (λ g. g.group_id)) e)

  pub principal_ids-Reads :
      (account_id user_id : String)
      → Reads
          (principal_ids account_id user_id)
          (λ ids db. ids ≡ user_id ∷ group_ids_of account_id user_id db)
  unfolding principal_ids
  principal_ids-Reads account_id user_id =
      Reads-bind _ (group_ids-Reads account_id user_id)
        λ ids. Reads-pure _ _ (λ db e. ap (λ l. user_id ∷ l) e)

  pub caller_ids-Reads :
      (is_admin : Bool) (account_id caller_id : String) (policy : ResourcePolicy)
      → Reads
          (caller_ids is_admin account_id caller_id policy)
          (λ ids db. ids ≡ callers_of is_admin account_id caller_id policy db)
  unfolding caller_ids
  caller_ids-Reads true account_id caller_id policy = Reads-pure _ _ (λ db. refl)
  caller_ids-Reads false account_id caller_id policy = principal_ids-Reads account_id caller_id

  pub find_by_resource-Reads :
      (account_id resource_id : String)
      → Reads
          (Repository.find_by_resource account_id resource_id)
          (λ found db. policy_at db account_id resource_id ≡ found)
  unfolding Repository.find_by_resource
  find_by_resource-Reads account_id resource_id =
      Reads-weaken (Reads-query _)
        λ found db e. sym (e ∙ mongo.find_one_law (is_policy account_id resource_id) db.policies)

  pub get_policy-Reads :
      (account_id resource_id : String)
      → Reads
          (get_policy account_id resource_id)
          (λ policy db. policy_at db account_id resource_id ≡ some policy)
  unfolding get_policy
  get_policy-Reads account_id resource_id =
      Reads-bind _ (find_by_resource-Reads account_id resource_id)
        λ found. Reads-weaken (Reads-or_raise found _) (λ policy db e h. h ∙ e)

  resolve_group-Reads :
      (account_id : String) (principal_id : Option String)
      → Reads (resolve_group account_id principal_id) Anything
  unfolding resolve_group find_group
  resolve_group-Reads account_id principal_id =
      Reads-bind _ (Reads-or_raise (truthy principal_id) _) λ given.
        Reads-bind _ (Reads-query _) λ found.
          Reads-bind _ (Reads-or_raise found _)
            λ group. Reads-bind _ (Reads-raise_if _ _) λ _. Reads-pure _ _ (λ db _ _ _ _. tt)

pub parse_permissions-Reads : (ps : List String) → Reads (parse_permissions ps) Anything
unfolding parse_permissions
parse_permissions-Reads ps = Reads-weaken (Reads-or_raise _ _) (λ a db e. tt)

pub parse_kept-Reads : (kept : Option (List String)) → Reads (parse_kept kept) Anything
unfolding parse_kept
parse_kept-Reads none = Reads-pure _ _ (λ db. tt)
parse_kept-Reads (some ps) = parse_permissions-Reads ps

module _ ⦃mongo : Mongo⦄ ⦃unicode : Unicode⦄ where
  resolve_user-Reads :
      (users : Bool) (account_id : String) (principal_id username identifier : Option String)
      → Reads (resolve_user users account_id principal_id username identifier) Anything
  unfolding resolve_user
  resolve_user-Reads true account_id principal_id username identifier =
      Reads-bind _ (resolve_user_identifier-Reads _ _) λ user. Reads-pure _ _ (λ db _. tt)
  resolve_user-Reads false account_id principal_id username identifier =
      Reads-option (truthy principal_id) _ _ (Reads-raise _ _) (λ given. Reads-pure _ _ (λ db. tt))

  pub resolve_principal-Reads :
      (users : Bool) (account_id : String) (type : PrincipalType)
      (principal_id username identifier : Option String)
      → Reads (resolve_principal users account_id type principal_id username identifier) Anything
  unfolding resolve_principal
  resolve_principal-Reads users account_id user_principal principal_id username identifier =
      resolve_user-Reads users account_id principal_id username identifier
  resolve_principal-Reads users account_id group_principal principal_id username identifier =
      resolve_group-Reads account_id principal_id

  pub revoked_id-Reads :
      (users : Bool) (account_id : String) (type : PrincipalType)
      (principal_id username identifier : Option String)
      → Reads (revoked_id users account_id type principal_id username identifier) Anything
  unfolding revoked_id stored_id
  revoked_id-Reads users account_id type principal_id username identifier =
      Reads-recover
        (Reads-bind _
          (resolve_principal-Reads users account_id type principal_id username identifier)
          λ p. Reads-pure _ _ (λ db _. tt))
        λ e.
          Reads-option (truthy principal_id) _ _ (Reads-raise _ _)
            (λ given. Reads-pure _ _ (λ db. tt))
