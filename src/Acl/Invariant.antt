-- ===== src/Acl/Invariant.antt =====
-- The rules that the stored policies obey: each was made by methods of the aggregate, and no resource
-- has two.
use xolo_api.Base.{
  String, ◌≤◌, ◌≡◌, refl, ap, ◌∙◌, Bool, true, false, ◌&&◌, [], ◌∷◌, count, count-append, ◌==◌,
  arith, eq_iff, Bool-cases, Option-cases, inl, inr,
}
use xolo_api.Platform.Collections.{
  find_first, is_some, All, All-find_first, All-delete_first, All-replace_or_append,
  count-delete_first, count-replace_first, count-absent, find_first-append_other,
  find_first-replace_first, find_first-delete_first,
}
use xolo_api.Platform.Mongo.{Mongo}
use xolo_api.World.{Database}
use xolo_api.Acl.Types.{ResourcePolicy}
use xolo_api.Acl.Policy.Ownership.{IsUnused}
use xolo_api.Acl.Policy.Lifecycle.{
  Reached, claimed, claimed_principal, transferred_owner, granted, revoked, edited,
}
use xolo_api.Acl.Policy.Lifecycle as Lifecycle
use xolo_api.Acl.Repository.{is_policy}
use xolo_api.Acl.Effects.{
  policy_at, with_policy, Method, claims, claims_principal, transfers, grants, revokes, edits,
  IsCurrent, Change, same, stored, dropped,
}
use xolo_api.Acl.Effects.Keys.{IsAt, Method-key, IsCurrent-IsAt}

pub record IsGoverned (db : Database) : Type 0 where
  pub reached : All Reached db.policies
  pub single :
      (account_id resource_id : String) → count (is_policy account_id resource_id) db.policies ≤ 1

-- no stored policy has a grant with this id
abbrev pub IsFresh : String → Database → Type 0
IsFresh fresh db = All (IsUnused fresh) db.policies

module _ ⦃mongo : Mongo⦄ (fresh account_id caller_id : String) (is_admin : Bool) (db : Database)
    (old : ResourcePolicy) where
  Method-Reached :
      {after : ResourcePolicy}
      → Method fresh account_id caller_id is_admin db old after
      → IsUnused fresh old
      → Reached old
      → Reached after
  Method-Reached (claims after user_id e) free r = claimed old after fresh user_id r free e
  Method-Reached (claims_principal after principal e) free r =
      claimed_principal old after fresh principal r free e
  Method-Reached (transfers after principal keep e) free r =
      transferred_owner old after fresh principal keep r free e
  Method-Reached (grants after principal permissions e) free r =
      granted old after fresh principal permissions _ r free e
  Method-Reached (revokes after principal_id permissions e) free r =
      revoked old after principal_id permissions caller_id _ r e
  Method-Reached (edits after grant_id permissions e) free r =
      edited old after grant_id permissions _ r e

module _ (db : Database) (account_id resource_id : String) where
  current-Reached :
      (fresh : String) (old : ResourcePolicy)
      → IsCurrent db account_id resource_id old
      → IsFresh fresh db
      → All Reached db.policies
      → Reached old × IsUnused fresh old
  current-Reached fresh old (inl found) free all = (
    All-find_first Reached (is_policy account_id resource_id) old db.policies all found,
    All-find_first (IsUnused fresh) (is_policy account_id resource_id) old db.policies free found,
  )
  current-Reached fresh old (inr (absent, new)) free all =
      (rw new (Lifecycle.fresh account_id resource_id), rw new refl)

  -- a policy put in its place leaves one for its resource, and all others alone
  with_policy-single :
      (after : ResourcePolicy)
      → IsAt account_id resource_id after
      → ((a r : String) → count (is_policy a r) db.policies ≤ 1)
      → (a r : String)
      → count (is_policy a r) (with_policy account_id resource_id after db).policies ≤ 1
  with_policy-single after (ea, er) single a r =
      elim (Option-cases (find_first (is_policy account_id resource_id) db.policies)) [
        | inr (old, found) ↦ rw (found) (
            ground (
              arith,
              single a r,
              count-replace_first (is_policy a r) (is_policy account_id resource_id) after
                  db.policies
                  (λ x h. ground (
                    arith,
                    ea,
                    er,
                    eq_iff x.account_id account_id,
                    eq_iff x.resource_id resource_id,
                  )),
            ))
        | inl absent ↦ rw (absent) (elim (Bool-cases (is_policy a r after)) [
          | inr other ↦
              ground (arith, single a r, count-append (is_policy a r) db.policies (after ∷ []))
          | inl here ↦ ground (
            arith,
            ea,
            er,
            eq_iff after.account_id a,
            eq_iff after.resource_id r,
            count-append (is_policy a r) db.policies (after ∷ []),
            count-absent (is_policy account_id resource_id) db.policies absent,
          )
        ])
      ]

module _ (account_id resource_id a r : String)
    (other : (account_id == a && resource_id == r) ≡ false) where
  apart : (x : ResourcePolicy) → is_policy a r x ≡ true → is_policy account_id resource_id x ≡ false
  apart x h = ground (
    arith,
    other,
    eq_iff x.account_id a,
    eq_iff x.account_id account_id,
    eq_iff x.resource_id r,
    eq_iff x.resource_id resource_id,
    eq_iff account_id a,
    eq_iff resource_id r,
  )

  with_policy-elsewhere :
      (db : Database) (after : ResourcePolicy)
      → IsAt account_id resource_id after
      → policy_at (with_policy account_id resource_id after db) a r ≡ policy_at db a r
  with_policy-elsewhere db after (ea, er) =
      elim (Bool-cases (is_some (find_first (is_policy account_id resource_id) db.policies))) [
        | inl there ↦ rw there (
            find_first-replace_first (is_policy a r) (is_policy account_id resource_id) apart after
              db.policies (rw (ea, er) other))
        | inr absent ↦
            rw absent
              (find_first-append_other (is_policy a r) after db.policies (rw (ea, er) other))
      ]

module _ ⦃mongo : Mongo⦄ (fresh account_id resource_id caller_id : String) (is_admin : Bool)
    (db : Database) where
  pub Change-IsGoverned :
      {db' : Database}
      → Change fresh account_id resource_id caller_id is_admin db db'
      → IsFresh fresh db
      → IsGoverned db
      → IsGoverned db'
  Change-IsGoverned (same db' e) free h = rw e h
  Change-IsGoverned (stored db' old after current made e) free h =
      let (r, unused) =
        current-Reached db account_id resource_id fresh old current free h.reached in
      let (a, o) = Method-key fresh account_id caller_id is_admin db old made in
      let (ka, ko) = IsCurrent-IsAt db account_id resource_id old current in
      rw e (record {
        reached =
            All-replace_or_append Reached (is_policy account_id resource_id) after db.policies
              (Method-Reached fresh account_id caller_id is_admin db old made unused r) h.reached;
        single = with_policy-single db account_id resource_id after (a ∙ ka, o ∙ ko) h.single;
      })
  Change-IsGoverned (dropped db' old found may e) free h = rw e (record {
    reached = All-delete_first Reached (is_policy account_id resource_id) db.policies h.reached;
    single = λ a r. ground (
      arith,
      h.single a r,
      count-delete_first (is_policy a r) (is_policy account_id resource_id) db.policies,
    );
  })

  -- the policy of any other resource, or of any other account, is left alone
  pub Change-elsewhere :
      (a r : String)
      → (account_id == a && resource_id == r) ≡ false
      → {db' : Database} → Change fresh account_id resource_id caller_id is_admin db db'
      → policy_at db' a r ≡ policy_at db a r
  Change-elsewhere a r other (same db' e) = ap (λ d. policy_at d a r) e
  Change-elsewhere a r other (stored db' old after current made e) =
      let (ma, mo) = Method-key fresh account_id caller_id is_admin db old made in
      let (ka, ko) = IsCurrent-IsAt db account_id resource_id old current in
      ap (λ d. policy_at d a r) e
      ∙ with_policy-elsewhere account_id resource_id a r other db after (ma ∙ ka, mo ∙ ko)
  Change-elsewhere a r other (dropped db' old found may e) =
      ap (λ d. policy_at d a r) e
      ∙ find_first-delete_first (is_policy a r) (is_policy account_id resource_id)
          (apart account_id resource_id a r other) db.policies
