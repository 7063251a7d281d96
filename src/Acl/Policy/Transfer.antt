-- ===== src/Acl/Policy/Transfer.antt =====
-- `transfer_owner`: the grants that it leaves.
use xolo_api.Base.{
  String, ◌+◌, ◌≤◌, ◌≡◌, refl, sym, Bool, true, false, not, ◌&&◌, List, [], ◌∷◌, ◌++◌, filter, some,
  count, count-append, count-filter, ◌==◌, if◌then◌else◌, arith, eq_iff, Bool-cases, Option-cases,
  inl, inr,
}
use xolo_api.Exec.{ok}
use xolo_api.Acl.Types.{
  user_principal, group_principal, PrincipalType, same_principal_type, every, Principal,
  same_principal, inhabited, Permissions, AccessGrant, ResourcePolicy,
}
use xolo_api.Acl.Policy.{find_owner, owner_grant, transferred, transfer_owner}
use xolo_api.Acl.Policy.Grants.{has_id, split, absent}
use xolo_api.Acl.Policy.Ownership.{IsOwned, IsUnused, is_owner, is_sturdy, count_sturdy, count-none}

abbrev pub is_for : Principal → AccessGrant → Bool
is_for principal g = same_principal g.principal principal

same_principal_type_refl : (t : PrincipalType) → same_principal_type t t ≡ true
unfolding same_principal_type
same_principal_type_refl user_principal = refl
same_principal_type_refl group_principal = refl

same_principal_refl : (p : Principal) → same_principal p p ≡ true
unfolding same_principal
same_principal_refl p = ground (arith, same_principal_type_refl p.type, eq_iff p.id p.id)

abbrev others : Principal → List AccessGrant → List AccessGrant
others principal gs = filter (λ g. not (is_for principal g)) gs

-- what the loop leaves of the current owner's grant
abbrev demoted : AccessGrant → Principal → Permissions → List AccessGrant
demoted current principal keep =
    if is_for principal current
    then record current { permissions = every; is_owner = true } ∷ []
    else if inhabited keep
    then record current { permissions = keep; is_owner = false } ∷ []
    else []

module _ (current : AccessGrant) (principal : Principal) (keep : Permissions) where
  transferred_absent :
      (gs : List AccessGrant)
      → count (has_id current.grant_id) gs ≡ 0
      → transferred current principal keep gs ≡ others principal gs
  unfolding transferred
  transferred_absent [] h = refl
  transferred_absent (g ∷ gs) h = ground (arith, transferred_absent gs)

  transferred_split :
      (before behind : List AccessGrant)
      → count (has_id current.grant_id) before ≡ 0
      → count (has_id current.grant_id) behind ≡ 0
      → transferred current principal keep (before ++ current ∷ behind)
        ≡ others principal before ++ demoted current principal keep ++ others principal behind
  unfolding transferred
  transferred_split [] behind h k =
      ground (arith, transferred_absent behind k, eq_iff current.grant_id current.grant_id)
  transferred_split (g ∷ before) behind h k = ground (arith, transferred_split before behind)

abbrev pub is_owner_for : Principal → AccessGrant → Bool
is_owner_for principal g = g.is_owner && is_for principal g

-- One owner, whose grant can manage and is the principal's.
pub record IsOwnedBy (principal : Principal) (gs : List AccessGrant) : Type 0 where
  pub owned : IsOwned gs
  pub by : count (is_owner_for principal) gs ≡ 1

module _ (before behind : List AccessGrant) (current : AccessGrant) (principal : Principal)
    (keep : Permissions) (fresh : String) (o : IsOwned (before ++ current ∷ behind))
    (mine : current.is_owner ≡ true) where
  count3 :
      (p : AccessGrant → Bool) (ms ns : List AccessGrant)
      → count p ((others principal before ++ ms ++ others principal behind) ++ ns)
        ≡ count p (others principal before)
          + count p ms
          + count p (others principal behind)
          + count p ns
  count3 p ms ns =
      rw
        (
          count-append p (others principal before ++ ms ++ others principal behind) ns,
          count-append p (others principal before ++ ms) (others principal behind),
          count-append p (others principal before) ms,
        )
        refl

  -- what the grants beside the owner's count for
  beside :
      (p : AccessGrant → Bool)
      → count p (others principal before)
          + count p (others principal behind)
          + (if p current then 1 else 0)
        ≤ count p (before ++ current ∷ behind)
  beside p = ground (
    arith,
    count-append p before (current ∷ behind),
    count-filter p (λ g. not (is_for principal g)) before,
    count-filter p (λ g. not (is_for principal g)) behind,
  )

  none_for : (gs : List AccessGrant) → count (is_owner_for principal) (others principal gs) ≡ 0
  none_for [] = refl
  none_for (g ∷ gs) = ground (arith, none_for gs)

  same_owner :
      is_for principal current ≡ true
      → IsOwnedBy principal (
          (others principal before
            ++ (record current { permissions = every; is_owner = true } ∷ [])
            ++ others principal behind)
          ++ [])
  same_owner h =
      let crowned = record current { permissions = every; is_owner = true } in
      record {
        owned = record {
          one_owner =
              ground (arith, count3 is_owner (crowned ∷ []) [], beside is_owner, o.one_owner, mine);
          managing = ground (
            arith,
            count3 is_sturdy (crowned ∷ []) [],
            beside is_sturdy,
            beside is_owner,
            o.managing,
            o.one_owner,
            mine,
            count_sturdy (others principal before),
            count_sturdy (others principal behind),
          );
          distinct = λ k.
              ground (arith, count3 (has_id k) (crowned ∷ []) [], beside (has_id k), o.distinct k);
        };
        by = ground (
          arith,
          count3 (is_owner_for principal) (crowned ∷ []) [],
          none_for before,
          none_for behind,
          h,
        );
      }

  left : List AccessGrant
  left = if inhabited keep then record current { permissions = keep; is_owner = false } ∷ [] else []

  -- the old owner's grant, with whatever it keeps, is no owner's
  count-left :
      (k : String)
      → (count is_owner left ≡ 0)
        × (count is_sturdy left ≡ 0)
        × (count (is_owner_for principal) left ≡ 0)
        × (count (has_id k) left ≤ (if has_id k current then 1 else 0))
  unfolding left
  count-left k = ground arith

  new_owner :
      is_for principal current ≡ false
      → count (has_id fresh) (before ++ current ∷ behind) ≡ 0
      → IsOwnedBy principal (
          (others principal before ++ left ++ others principal behind)
          ++ owner_grant fresh principal ∷ [])
  new_owner h free =
      let added = owner_grant fresh principal ∷ [] in
      let (no_owner, no_sturdy, not_for, _) = count-left fresh in
      record {
        owned = record {
          one_owner =
              ground
                (arith, count3 is_owner left added, beside is_owner, o.one_owner, mine, no_owner);
          managing = ground (
            arith,
            count3 is_sturdy left added,
            beside is_owner,
            o.one_owner,
            mine,
            no_sturdy,
            count_sturdy (others principal before),
            count_sturdy (others principal behind),
          );
          distinct = λ k. elim (Bool-cases (fresh == k)) [
            | inl same ↦ rw (sym ((eq_iff fresh k).0 same)) (
                ground (
                  arith,
                  count3 (has_id fresh) left added,
                  beside (has_id fresh),
                  (count-left fresh).3,
                  free,
                ))
            | inr other ↦ ground (
              arith,
              count3 (has_id k) left added,
              beside (has_id k),
              (count-left k).3,
              o.distinct k,
            )
          ];
        };
        by = ground (
          arith,
          count3 (is_owner_for principal) left added,
          none_for before,
          none_for behind,
          not_for,
          same_principal_refl principal,
        );
      }

-- The grants that `transfer_owner` leaves, in both cases.
module _ (fresh : String) (principal : Principal) (keep : Permissions) (gs : List AccessGrant)
    (current : AccessGrant) (found : find_owner gs ≡ some current) where
  transferred_to :
      IsOwned gs
      → count (has_id fresh) gs ≡ 0
      → IsOwnedBy principal (
          transferred current principal keep gs
          ++ (if same_principal current.principal principal
              then []
              else owner_grant fresh principal ∷ []))
  unfolding left
  transferred_to o free =
      let s = split is_owner gs current found in
      let o' : IsOwned (s.before ++ current ∷ s.behind) = rw s.parts at o in
      let free' = rw s.parts at free in
      let (h, k) = absent s.before s.behind current o'.distinct in
      let shape = transferred_split current principal keep s.before s.behind h k in
      rw (s.parts, shape)
        (elim (Bool-cases (same_principal current.principal principal)) [
          | inl same ↦
              rw same (same_owner s.before s.behind current principal keep fresh o' s.fits same)
          | inr other ↦
              rw other
                (new_owner s.before s.behind current principal keep fresh o' s.fits other free')
        ])

-- A transfer with an unused grant id, from a policy that keeps the ownership rule, never fails, and
-- makes the given principal the one owner, with the manage permission, whether or not it had a grant.
pub transfer_owner-IsOwnedBy :
    (fresh : String) (principal : Principal) (keep : Permissions) (policy : ResourcePolicy)
    → IsUnused fresh policy
    → IsOwned policy.grants
    → (after : ResourcePolicy) × (transfer_owner fresh principal keep policy ≡ ok after)
      × IsOwnedBy principal after.grants
unfolding transfer_owner
transfer_owner-IsOwnedBy fresh principal keep policy free o =
    elim (Option-cases (find_owner policy.grants)) [
      | inl nobody ↦ absurd (cc (count-none is_owner policy.grants nobody, o.one_owner))
      | inr (current, found) ↦ (
        record policy {
          grants =
              transferred current principal keep policy.grants
              ++ (if same_principal current.principal principal
                  then []
                  else owner_grant fresh principal ∷ []);
        },
        rw (transfer_owner, found) refl,
        transferred_to fresh principal keep policy.grants current found o free,
      )
    ]
