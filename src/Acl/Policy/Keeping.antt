-- ===== src/Acl/Policy/Keeping.antt =====
-- The operations of `ResourcePolicy` that grant, claim and revoke keep the ownership rule.
use xolo_api.Base.{
  String, ◌≡◌, refl, sym, Bool, true, false, not, ◌&&◌, List, [], ◌∷◌, some, count, ◌==◌, arith,
  eq_iff, Bool-cases, Option-cases, inl, inr,
}
use xolo_api.Platform.Collections.{find_first}
use xolo_api.Acl.Types.{
  user_principal, every, union, manage, Principal, has, inhabited, minus, Permissions, AccessGrant,
  ResourcePolicy,
}
use xolo_api.Acl.Policy.{
  owns_it, is_of, find_grant, find_by_grant_id, replace_grant, claim, claim_principal,
  effective_permissions, grant, owner_count, revoke_from, revoke, update_grant_permissions,
}
use xolo_api.Acl.Policy.Grants.{has_id, split}
use xolo_api.Acl.Policy.Ownership.{
  is_owner, IsAlike, IsOwned-replace, IsOwned-add, Keeps, IsUnused, IsValid, valid-IsDistinct,
  valid-IsOwned, claim_unowned-IsOwned, sturdy, IsOwned-remove, IsOwned,
}

owner_count-count : (gs : List AccessGrant) → owner_count gs ≡ count is_owner gs
unfolding owner_count
owner_count-count [] = refl
owner_count-count (g ∷ gs) = ground (arith, owner_count-count gs)

-- What is left of an owner's grant still manages, as `MANAGE` was not taken.
module _ (e : AccessGrant) (permissions : Permissions)
    (power : e.is_owner ≡ true → e.permissions.has_manage ≡ true) where
  IsAlike-joined : IsAlike e (record e { permissions = union e.permissions permissions })
  IsAlike-joined = (refl, refl, ground (arith, power))

  IsAlike-left :
      (permissions.has_manage && e.is_owner) ≡ false
      → IsAlike e (record e { permissions = minus e.permissions permissions })
  IsAlike-left kept = (refl, refl, ground (arith, power, kept))

  plain_left :
      (permissions.has_manage && e.is_owner) ≡ false
      → inhabited (minus e.permissions permissions) ≡ false
      → e.is_owner ≡ false
  plain_left kept h = ground (arith, power, kept, h)

revoke_from-IsOwned :
    (p : AccessGrant → Bool) (e : AccessGrant) (permissions : Permissions) (policy : ResourcePolicy)
    → find_first p policy.grants ≡ some e
    → (permissions.has_manage && e.is_owner) ≡ false
    → IsOwned policy.grants
    → IsOwned (revoke_from e permissions policy).grants
unfolding revoke_from
revoke_from-IsOwned p e permissions policy found kept o =
    let power = sturdy p policy.grants e found o in
    elim (Bool-cases (inhabited (minus e.permissions permissions))) [
      | inl some_left ↦ rw some_left (
          IsOwned-replace p policy.grants e
            (record e { permissions = minus e.permissions permissions }) found
            (IsAlike-left e permissions power kept) o)
      | inr none_left ↦
          rw none_left (
            IsOwned-remove p policy.grants e found (plain_left e permissions power kept none_left)
              o)
    ]

-- The grant that the id names may get other permissions, unless it is an owner's.
IsOwned-edit :
    (grant_id : String) (permissions : Permissions) (gs : List AccessGrant) (e : AccessGrant)
    → find_by_grant_id grant_id gs ≡ some e
    → e.is_owner ≡ false
    → IsOwned gs
    → IsOwned (replace_grant grant_id (record e { permissions = permissions; is_owner = false }) gs)
IsOwned-edit grant_id permissions gs e found plain o =
    let s = split (has_id grant_id) gs e found in
    let named = (eq_iff e.grant_id grant_id).0 s.fits in
    rw (sym named) (
      IsOwned-replace (has_id grant_id) gs e
        (record e { permissions = permissions; is_owner = false }) found
        (refl, sym plain, ground (arith, plain)) o)

-- A claim by a user keeps the rule, and makes a policy without an owner obey it.
pub claim-IsOwned :
    (fresh user_id : String) (policy : ResourcePolicy)
    → IsUnused fresh policy
    → IsValid policy.grants
    → Keeps (claim fresh user_id policy)
unfolding claim
claim-IsOwned fresh user_id policy free valid =
    elim (Bool-cases (owns_it (find_grant user_id policy.grants))) [
      | inl mine ↦ rw (Keeps, mine) (owned_now valid mine)
      | inr other ↦
          rw (Keeps, other)
            (claim_unowned-IsOwned fresh (record { type = user_principal; id = user_id }) policy
              free (valid-IsDistinct policy.grants valid))
    ]
  where
    owned_now :
        IsValid policy.grants
        → owns_it (find_grant user_id policy.grants) ≡ true
        → IsOwned policy.grants
    owned_now (inl none_yet) mine = absurd (cc (none_yet, mine))
    owned_now (inr o) mine = o

pub claim_principal-IsOwned :
    (fresh : String) (principal : Principal) (policy : ResourcePolicy)
    → IsUnused fresh policy
    → IsValid policy.grants
    → Keeps (claim_principal fresh principal policy)
unfolding claim_principal
claim_principal-IsOwned fresh principal policy free valid =
    elim (Option-cases (find_grant principal.id policy.grants)) [
      | inl nobody ↦
          rw (Keeps, nobody)
            (claim_unowned-IsOwned fresh principal policy free
              (valid-IsDistinct policy.grants valid))
      | inr (e, found) ↦ elim (Bool-cases e.is_owner) [
        | inl mine ↦
            rw (Keeps, found, mine)
              (IsOwned-replace (is_of principal.id) policy.grants e
                (record e { permissions = every; is_owner = true }) found
                (
                  refl,
                  sym mine,
                  rw mine (
                      sym (
                        sturdy (is_of principal.id) policy.grants e found
                          (valid-IsOwned (is_of principal.id) policy.grants e found valid) mine)),
                )
                (valid-IsOwned (is_of principal.id) policy.grants e found valid))
        | inr other ↦
            rw (Keeps, found, other)
              (claim_unowned-IsOwned fresh principal policy free
                (valid-IsDistinct policy.grants valid))
      ]
    ]

pub grant-IsOwned :
    (fresh : String) (principal : Principal) (permissions : Permissions)
    (caller_principal_ids : List String) (policy : ResourcePolicy)
    → IsUnused fresh policy
    → IsOwned policy.grants
    → Keeps (grant fresh principal permissions caller_principal_ids policy)
unfolding grant
grant-IsOwned fresh principal permissions caller_principal_ids policy free o =
    elim (Bool-cases (has manage (effective_permissions caller_principal_ids policy))) [
      | inr denied ↦ rw (Keeps, denied) tt
      | inl allowed ↦ elim (Option-cases (find_grant principal.id policy.grants)) [
        | inl nobody ↦ rw (Keeps, allowed, nobody) (IsOwned-add policy.grants _ refl free o)
        | inr (e, found) ↦
            rw (Keeps, allowed, found)
              (IsOwned-replace (is_of principal.id) policy.grants e
                (record e { permissions = union e.permissions permissions }) found
                (IsAlike-joined e permissions (sturdy (is_of principal.id) policy.grants e found o))
                o)
      ]
    ]

pub revoke-IsOwned :
    (principal_id : String) (permissions : Permissions) (caller_id : String)
    (caller_principal_ids : List String) (policy : ResourcePolicy)
    → IsOwned policy.grants
    → Keeps (revoke principal_id permissions caller_id caller_principal_ids policy)
unfolding revoke
revoke-IsOwned principal_id permissions caller_id caller_principal_ids policy o =
    elim (Bool-cases (
      not (caller_id == principal_id)
      && not (has manage (effective_permissions caller_principal_ids policy)))) [
        | inl denied ↦ rw (Keeps, denied) tt
        | inr allowed ↦ elim (Option-cases (find_grant principal_id policy.grants)) [
          | inl nobody ↦ rw (Keeps, allowed, nobody) o
          | inr (e, found) ↦ elim (Bool-cases (has manage permissions && e.is_owner)) [
            | inl owner ↦
                rw (Keeps, allowed, found, owner)
                  (rw (owner_count-count policy.grants, o.one_owner) tt)
            | inr kept ↦
                rw (Keeps, allowed, found, kept)
                  (revoke_from-IsOwned (is_of principal_id) e permissions policy found kept o)
          ]
        ]
      ]

pub update_grant_permissions-IsOwned :
    (grant_id : String) (permissions : Permissions) (caller_principal_ids : List String)
    (policy : ResourcePolicy)
    → IsOwned policy.grants
    → Keeps (update_grant_permissions grant_id permissions caller_principal_ids policy)
unfolding update_grant_permissions
update_grant_permissions-IsOwned grant_id permissions caller_principal_ids policy o =
    elim (Bool-cases (has manage (effective_permissions caller_principal_ids policy))) [
      | inr denied ↦ rw (Keeps, denied) tt
      | inl allowed ↦ elim (Bool-cases (inhabited permissions)) [
        | inr nothing_left ↦ rw (Keeps, allowed, nothing_left) tt
        | inl some_left ↦ elim (Option-cases (find_by_grant_id grant_id policy.grants)) [
          | inl nobody ↦ rw (Keeps, allowed, some_left, nobody) tt
          | inr (e, found) ↦ elim (Bool-cases e.is_owner) [
            | inl owner ↦ rw (Keeps, allowed, some_left, found, owner) tt
            | inr plain ↦
                rw (Keeps, allowed, some_left, found, plain)
                  (IsOwned-edit grant_id permissions policy.grants e found plain o)
          ]
        ]
      ]
    ]
