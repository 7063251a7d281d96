-- ===== src/Acl/Policy/Sharing.antt =====
-- What `grant` and `revoke` change of who may do what.
use xolo_api.Base.{
  String, ◌≡◌, ◌≤◌, refl, ap, sym, ◌∙◌, Bool, true, false, not, ◌&&◌, ◌||◌, List, [], ◌∷◌, ◌++◌,
  any, elem, any-append, count, count-append, none, some, arith, eq_iff, Bool-cases, Option-cases,
  ◌⊎◌, inl, inr,
}
use xolo_api.Exec.{ok}
use xolo_api.Acl.Types.{
  manage, Permission, Permissions, has, union, minus, inhabited, Principal, AccessGrant,
  ResourcePolicy,
}
use xolo_api.Acl.Policy.{
  is_of, find_grant, replace_grant, effective_permissions, grant, revoke_from, revoke,
}
use xolo_api.Acl.Policy.Grants.{Split, split, replace_split, filter_split, IsDistinct}
use xolo_api.Acl.Policy.Access.{
  gives, has-effective_permissions, has-union, has-minus, has-inhabited,
}

-- Replacing a grant exchanges what it gives.
any-replace :
    (q : AccessGrant → Bool) (s_before s_behind : List AccessGrant) (e new : AccessGrant)
    → IsDistinct (s_before ++ e ∷ s_behind)
    → any q (replace_grant e.grant_id new (s_before ++ e ∷ s_behind))
      ≡ (any q s_before || (q new || any q s_behind))
any-replace q s_before s_behind e new distinct =
    rw (replace_split s_before s_behind e distinct new) (any-append q s_before (new ∷ s_behind))

extended :
    (principal_ids : List String) (principal : Principal) (permissions : Permissions)
    (p : Permission) (gs : List AccessGrant) (e : AccessGrant)
    → find_grant principal.id gs ≡ some e
    → IsDistinct gs
    → any
        (gives principal_ids p)
        (replace_grant e.grant_id (record e { permissions = union e.permissions permissions }) gs)
      ≡ (any (gives principal_ids p) gs || (elem principal.id principal_ids && has p permissions))
extended principal_ids principal permissions p gs e found distinct =
    let s = split (is_of principal.id) gs e found in
    let d : IsDistinct (s.before ++ e ∷ s.behind) = rw s.parts at distinct in
    let named = (eq_iff e.principal.id principal.id).0 s.fits in
    rw s.parts (
      any-replace (gives principal_ids p) s.before s.behind e
        (record e { permissions = union e.permissions permissions }) d
      ∙ rw
          (
            any-append (gives principal_ids p) s.before (e ∷ s.behind),
            has-union p e.permissions permissions,
            sym named,
          )
          (ground arith))

-- In a policy where no grant id stands twice, a grant by a caller who can manage it succeeds, and a permission is effective
-- afterwards exactly when it was before, or it is among those granted and the principal granted
-- to is among the principals asked about.
pub grant-effective_permissions :
    (fresh : String) (principal : Principal) (permissions : Permissions)
    (caller_principal_ids : List String) (policy : ResourcePolicy)
    → IsDistinct policy.grants
    → has manage (effective_permissions caller_principal_ids policy) ≡ true
    → (after : ResourcePolicy) × (grant fresh principal permissions caller_principal_ids policy
        ≡ ok after)
      × ((principal_ids : List String) (p : Permission)
          → has p (effective_permissions principal_ids after) ≡ (
              has p (effective_permissions principal_ids policy)
              || (elem principal.id principal_ids && has p permissions)))
unfolding grant
grant-effective_permissions fresh principal permissions caller_principal_ids policy distinct
      allowed =
    elim (Option-cases (find_grant principal.id policy.grants)) [
      | inl nobody ↦
          let after = record policy {
            grants =
                policy.grants
                ++ record {
                  grant_id = fresh;
                  principal = principal;
                  permissions = permissions;
                  is_owner = false;
                }
                  ∷ [];
          } in
          (
            after,
            rw (grant, allowed, nobody) refl,
            λ principal_ids p.
                rw
                  (
                    has-effective_permissions p principal_ids after,
                    has-effective_permissions p principal_ids policy,
                  )
                  (any-append (gives principal_ids p) policy.grants _ ∙ ground arith),
          )
      | inr (e, found) ↦
          let after = record policy {
            grants =
                replace_grant e.grant_id
                  (record e { permissions = union e.permissions permissions }) policy.grants;
          } in
          (
            after,
            rw (grant, allowed, found) refl,
            λ principal_ids p.
                rw
                  (
                    has-effective_permissions p principal_ids after,
                    has-effective_permissions p principal_ids policy,
                  )
                  (extended principal_ids principal permissions p policy.grants e found distinct),
          )
    ]

-- What the grants give after a part of the permissions of one of them goes.
revoke_from-any :
    (q : AccessGrant → Bool) (policy : ResourcePolicy) (e : AccessGrant) (permissions : Permissions)
    (principal_id : String)
    → (s : Split (is_of principal_id) policy.grants e) → IsDistinct policy.grants
    → any q (revoke_from e permissions policy).grants ≡ (
        any q s.before
        || ((inhabited (minus e.permissions permissions)
              && q (record e { permissions = minus e.permissions permissions }))
            || any q s.behind))
unfolding revoke_from
revoke_from-any q policy e permissions principal_id s distinct =
    let d : IsDistinct (s.before ++ e ∷ s.behind) = rw s.parts at distinct in
    elim (Bool-cases (inhabited (minus e.permissions permissions))) [
      | inl more ↦
          rw (more, s.parts)
            (any-replace q s.before s.behind e
              (record e { permissions = minus e.permissions permissions }) d)
      | inr all_gone ↦
          rw (all_gone, s.parts, filter_split s.before s.behind e d)
            (any-append q s.before s.behind)
    ]

kept_part :
    (more same has_it goes : Bool)
    → ((has_it && not goes) ≡ true → more ≡ true)
    → ((more && ((same || false) && (has_it && not goes))) || false)
      ≡ ((((same || false) && has_it) || false) && not goes)
kept_part more same has_it goes h = ground (arith, h)

module _ (permissions : Permissions) (principal_id : String) (policy : ResourcePolicy)
    (e : AccessGrant) (s : Split (is_of principal_id) policy.grants e)
    (distinct : IsDistinct policy.grants) where
  parted :
      (q : AccessGrant → Bool) → any q policy.grants ≡ (any q s.before || (q e || any q s.behind))
  parted q = ap (any q) s.parts ∙ any-append q s.before (e ∷ s.behind)

  named : e.principal.id ≡ principal_id
  named = (eq_iff e.principal.id principal_id).0 s.fits

  unrelated :
      (principal_ids : List String) (p : Permission)
      → elem principal_id principal_ids ≡ false
      → has p (effective_permissions principal_ids (revoke_from e permissions policy))
        ≡ has p (effective_permissions principal_ids policy)
  unrelated principal_ids p other =
      let not_his : elem e.principal.id principal_ids ≡ false =
        ap (λ i. elem i principal_ids) named ∙ other in
      rw
        (
          has-effective_permissions p principal_ids (revoke_from e permissions policy),
          has-effective_permissions p principal_ids policy,
          revoke_from-any (gives principal_ids p) policy e permissions principal_id s distinct,
          parted (gives principal_ids p),
          not_his,
        )
        (ground arith)

  taken :
      (p : Permission)
      → count (is_of principal_id) policy.grants ≤ 1
      → e.is_owner ≡ false
      → has p (effective_permissions (principal_id ∷ []) (revoke_from e permissions policy))
        ≡ (has p (effective_permissions (principal_id ∷ []) policy) && not (has p permissions))
  taken p single plain =
      let (none_before, none_behind) = alone single in
      rw
        (
          has-effective_permissions p (principal_id ∷ []) (revoke_from e permissions policy),
          has-effective_permissions p (principal_id ∷ []) policy,
          revoke_from-any (gives (principal_id ∷ []) p) policy e permissions principal_id s
              distinct,
          parted (gives (principal_id ∷ []) p),
          gives-none s.before none_before,
          gives-none s.behind none_behind,
          plain,
          has-minus p e.permissions permissions,
        )
        (kept_part _ _ _ _ (λ h.
          has-inhabited p (minus e.permissions permissions)
            (has-minus p e.permissions permissions ∙ h)))
    where
      alone :
          count (is_of principal_id) policy.grants ≤ 1
          → (count (is_of principal_id) s.before ≡ 0) × (count (is_of principal_id) s.behind ≡ 0)
      alone h = ground (
        arith,
        h,
        ap (count (is_of principal_id)) s.parts,
        count-append (is_of principal_id) s.before (e ∷ s.behind),
        s.fits,
      )

      gives-none :
          (gs : List AccessGrant)
          → count (is_of principal_id) gs ≡ 0
          → any (gives (principal_id ∷ []) p) gs ≡ false
      gives-none [] h = refl
      gives-none (g ∷ gs) h = ground (
        arith,
        gives-none gs,
        eq_iff g.principal.id principal_id,
        eq_iff principal_id g.principal.id,
      )

module _ (principal_id : String) (permissions : Permissions) (caller_id : String)
    (caller_principal_ids : List String) (policy after : ResourcePolicy)
    (distinct : IsDistinct policy.grants)
    (returned : revoke principal_id permissions caller_id caller_principal_ids policy
      ≡ ok after) where
  -- a revocation that succeeds left the policy alone, or took from the principal's grant
  outcome :
      ((find_grant principal_id policy.grants ≡ none) × (after ≡ policy))
      ⊎ ((e : AccessGrant) × (find_grant principal_id policy.grants ≡ some e)
          × (after ≡ revoke_from e permissions policy))
  unfolding revoke
  outcome = elim (Option-cases (find_grant principal_id policy.grants)) [
    | inl nobody ↦ let h = rw nobody at returned in inl (nobody, ground (arith, h))
    | inr (e, found) ↦ let h = rw found at returned in inr (e, found, ground (arith, h))
  ]

  -- In a policy where no grant id stands twice, a revocation that succeeds leaves the permissions of
  -- those who ask without the principal as they were.
  pub revoke-others :
      (principal_ids : List String) (p : Permission)
      → elem principal_id principal_ids ≡ false
      → has p (effective_permissions principal_ids after)
        ≡ has p (effective_permissions principal_ids policy)
  revoke-others principal_ids p other = elim outcome [
    | inl (_, same) ↦ rw same refl
    | inr (e, found, same) ↦ rw same (
        unrelated permissions principal_id policy e
          (split (is_of principal_id) policy.grants e found) distinct principal_ids p other)
  ]

  -- In a policy where no grant id stands twice, a revocation that succeeds, for a principal that has at most one grant and owns nothing of the
  -- resource, leaves it exactly the permissions that it had and that were not revoked.
  pub revoke-taken :
      (p : Permission)
      → count (is_of principal_id) policy.grants ≤ 1
      → any (λ g. is_of principal_id g && g.is_owner) policy.grants ≡ false
      → has p (effective_permissions (principal_id ∷ []) after)
        ≡ (has p (effective_permissions (principal_id ∷ []) policy) && not (has p permissions))
  revoke-taken p single plain = elim outcome [
    | inl (nobody, same) ↦
        rw
          (
            same,
            has-effective_permissions p (principal_id ∷ []) policy,
            no_grant policy.grants nobody,
          )
          refl
    | inr (e, found, same) ↦ rw same (
        taken permissions principal_id policy e (split (is_of principal_id) policy.grants e found)
          distinct p single (not_owner policy.grants e found plain))
  ]
    where
      no_grant :
          (gs : List AccessGrant)
          → find_grant principal_id gs ≡ none
          → any (gives (principal_id ∷ []) p) gs ≡ false
      no_grant [] h = refl
      no_grant (g ∷ gs) h = ground (
        arith,
        no_grant gs,
        eq_iff g.principal.id principal_id,
        eq_iff principal_id g.principal.id,
      )

      not_owner :
          (gs : List AccessGrant) (e : AccessGrant)
          → find_grant principal_id gs ≡ some e
          → any (λ g. is_of principal_id g && g.is_owner) gs ≡ false
          → e.is_owner ≡ false
      not_owner [] e h k = absurd (cc h)
      not_owner (g ∷ gs) e h k = elim (Bool-cases (is_of principal_id g)) [
        | inl here ↦
            let same : g ≡ e = ground (arith, here, h) in rw (sym same) (ground (arith, here, k))
        | inr later ↦ not_owner gs e (ground (arith, later, h)) (ground (arith, k))
      ]
