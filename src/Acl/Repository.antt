-- ===== src/Acl/Repository.antt =====
-- `MongoResourcePolicyRepository` of xoloapi/acl/infrastructure/mongo_resource_policy_repository.py.
-- The unique index on the account and the resource is the one of scripts/migrate_authorization.py.
-- Page numbers and sizes are natural numbers, as the controllers admit them.
use xolo_api.Base.{
  String, ℕ, zero, suc, ◌-◌, ◌*◌, Bool, true, false, not, ◌&&◌, ◌||◌, List, any, elem, is_empty,
  Option, ◌==◌,
}
use xolo_api.Errors.{conflict, database}
use xolo_api.Exec.{Exec, pure, raise_if, ◌>>=◌, ◌>>◌}
use xolo_api.Platform.Mongo.{Mongo}
use xolo_api.World.{World, query, command}
use xolo_api.Acl.Types.{AccessGrant, ResourcePolicy}

-- `{"account_id": ..., "resource_id": ...}`
abbrev pub is_policy : String → String → ResourcePolicy → Bool
is_policy account_id resource_id p = p.account_id == account_id && p.resource_id == resource_id

-- the query of `find_owned_by`
abbrev pub is_owned_by : String → String → ResourcePolicy → Bool
is_owned_by account_id user_id p =
    p.account_id == account_id
    && any (λ (g : AccessGrant). g.principal.id == user_id && g.is_owner) p.grants

-- the query of `find_shared_with`
abbrev pub is_shared_with : String → List String → List String → ResourcePolicy → Bool
is_shared_with account_id principal_ids exclude_resource_ids p =
    p.account_id == account_id
    && any (λ (g : AccessGrant). elem g.principal.id principal_ids) p.grants
    && (is_empty exclude_resource_ids || not (elem p.resource_id exclude_resource_ids))

-- the query of `delete_all_by_user`
abbrev pub is_granted_to : String → String → ResourcePolicy → Bool
is_granted_to account_id user_id p =
    p.account_id == account_id && any (λ (g : AccessGrant). g.principal.id == user_id) p.grants

-- `skip < 0`, which the driver refuses: page 0 with documents on it
abbrev pub before_first : ℕ → ℕ → Bool
before_first zero zero = false
before_first zero (suc _) = true
before_first (suc _) page_size = false

module _ ⦃mongo : Mongo⦄ where
  unfoldable pub create : ResourcePolicy → Exec World ResourcePolicy
  create policy = do
    fresh ← command λ db.
        let (done, c) =
          mongo.insert_unique (is_policy policy.account_id policy.resource_id) policy db.policies in
        (done, record db { policies = c })
    raise_if (not fresh) (conflict "Resource policy already exists")
    pure policy

  unfoldable pub list_all : String → Exec World (List ResourcePolicy)
  list_all account_id = query λ db.
      mongo.sort (λ (p : ResourcePolicy). p.resource_id)
        (mongo.find (λ (p : ResourcePolicy). p.account_id == account_id) db.policies)

  unfoldable pub find_by_resource : String → String → Exec World (Option ResourcePolicy)
  find_by_resource account_id resource_id =
      query λ db. mongo.find_one (is_policy account_id resource_id) db.policies

  -- the documents of a page and how many there are in all
  unfoldable pub find_page : (ResourcePolicy → Bool) → ℕ → ℕ → Exec World (List ResourcePolicy × ℕ)
  find_page wanted page page_size = do
    total ← query λ db. mongo.count_documents wanted db.policies
    raise_if (before_first page page_size) database
    docs ← query λ db. mongo.find_page wanted ((page - 1) * page_size) page_size db.policies
    pure (docs, total)

  unfoldable pub find_owned_by : String → String → ℕ → ℕ → Exec World (List ResourcePolicy × ℕ)
  unfolding find_page
  find_owned_by account_id user_id page page_size =
      find_page (is_owned_by account_id user_id) page page_size

  unfoldable pub find_shared_with :
      String → List String → List String → ℕ → ℕ → Exec World (List ResourcePolicy × ℕ)
  unfolding find_page
  find_shared_with account_id principal_ids exclude_resource_ids page page_size =
      find_page (is_shared_with account_id principal_ids exclude_resource_ids) page page_size

  unfoldable pub save : ResourcePolicy → Exec World ResourcePolicy
  save policy = do
    command λ db. (
      tt {0},
      record db {
        policies =
            mongo.upsert_one (is_policy policy.account_id policy.resource_id) policy db.policies;
      },
    )
    pure policy

  unfoldable pub delete : String → String → Exec World Bool
  delete account_id resource_id = do
    found ← command λ db.
        let (hit, c) = mongo.delete_one (is_policy account_id resource_id) db.policies in
        (hit, record db { policies = c })
    raise_if (not found) database
    pure true

  unfoldable pub delete_all_by_user : String → String → Exec World ℕ
  delete_all_by_user account_id user_id = command λ db.
      let (n, c) = mongo.delete_many (is_granted_to account_id user_id) db.policies in
      (n, record db { policies = c })
