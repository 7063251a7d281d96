-- ===== src/Acl/Policy/Ownership.antt =====
-- The ownership rule of `ResourcePolicy`: one owner, whose stored grant can manage.
use xolo_api.Base.{
  String, ◌≤◌, ◌≡◌, refl, ap, sym, ◌∙◌, Bool, true, false, not, ◌&&◌, List, [], ◌∷◌, ◌++◌, filter,
  none, some, count, count-append, ◌==◌, arith, eq_iff, Bool-cases, Option-cases, ◌⊎◌, inl, inr,
}
use xolo_api.Exec.{Result, ok, err}
use xolo_api.Platform.Collections.{find_first}
use xolo_api.Acl.Types.{Principal, AccessGrant, ResourcePolicy}
use xolo_api.Acl.Policy.{find_owner, owner_grant, replace_grant, claim_unowned}
use xolo_api.Acl.Policy.Grants.{has_id, split, replace_split, filter_split, IsDistinct}

abbrev pub is_owner : AccessGrant → Bool
is_owner g = g.is_owner

abbrev pub is_sturdy : AccessGrant → Bool
is_sturdy g = g.is_owner && g.permissions.has_manage

pub record IsOwned (gs : List AccessGrant) : Type 0 where
  pub one_owner : count is_owner gs ≡ 1
  pub managing : count is_sturdy gs ≡ 1
  pub distinct : IsDistinct gs

-- `new` may stand for `old` in the ownership rule
abbrev pub IsAlike : AccessGrant → AccessGrant → Type 0
IsAlike old new =
    (new.grant_id ≡ old.grant_id) × (new.is_owner ≡ old.is_owner) × (is_sturdy new ≡ is_sturdy old)

middle :
    (p : AccessGrant → Bool) (before behind : List AccessGrant) (e new : AccessGrant)
    → p new ≡ p e
    → count p (before ++ new ∷ behind) ≡ count p (before ++ e ∷ behind)
middle p before behind e new h =
    rw (count-append p before (new ∷ behind), count-append p before (e ∷ behind), h) refl

IsOwned-middle :
    (before behind : List AccessGrant) (e new : AccessGrant)
    → IsAlike e new
    → IsOwned (before ++ e ∷ behind)
    → IsOwned (before ++ new ∷ behind)
IsOwned-middle before behind e new (same_id, same_owner, same_power) o = record {
  one_owner = middle is_owner before behind e new same_owner ∙ o.one_owner;
  managing = middle is_sturdy before behind e new same_power ∙ o.managing;
  distinct =
      λ k. rw (middle (has_id k) before behind e new (ap (λ i. i == k) same_id)) (o.distinct k);
}

-- A grant that a search finds may be replaced by one alike.
pub IsOwned-replace :
    (p : AccessGrant → Bool) (gs : List AccessGrant) (e new : AccessGrant)
    → find_first p gs ≡ some e
    → IsAlike e new
    → IsOwned gs
    → IsOwned (replace_grant e.grant_id new gs)
IsOwned-replace p gs e new found alike o =
    let s = split p gs e found in
    let o' : IsOwned (s.before ++ e ∷ s.behind) = rw s.parts at o in
    rw s.parts (
      rw (replace_split s.before s.behind e o'.distinct new)
        (IsOwned-middle s.before s.behind e new alike o'))

pub IsOwned-add :
    (gs : List AccessGrant) (new : AccessGrant)
    → new.is_owner ≡ false
    → count (has_id new.grant_id) gs ≡ 0
    → IsOwned gs
    → IsOwned (gs ++ new ∷ [])
IsOwned-add gs new plain fresh o = record {
  one_owner = ground (arith, count-append is_owner gs (new ∷ []), o.one_owner);
  managing = ground (arith, count-append is_sturdy gs (new ∷ []), o.managing);
  distinct = λ k. elim (Bool-cases (new.grant_id == k)) [
    | inl same ↦
        let e = (eq_iff new.grant_id k).0 same in
        rw (sym e) (ground (arith, count-append (has_id new.grant_id) gs (new ∷ [])))
    | inr other ↦ ground (arith, count-append (has_id k) gs (new ∷ []), o.distinct k)
  ];
}

pub count_sturdy : (gs : List AccessGrant) → count is_sturdy gs ≤ count is_owner gs
count_sturdy [] = omega arith
count_sturdy (g ∷ gs) = ground (arith, count_sturdy gs)

-- A new owner may join grants that have none.
pub IsOwned-crown :
    (gs : List AccessGrant) (fresh : String) (principal : Principal)
    → count is_owner gs ≡ 0
    → IsDistinct gs
    → count (has_id fresh) gs ≡ 0
    → IsOwned (gs ++ owner_grant fresh principal ∷ [])
IsOwned-crown gs fresh principal none_yet distinct free = record {
  one_owner = ground (arith, count-append is_owner gs (owner_grant fresh principal ∷ []));
  managing =
      ground (arith, count-append is_sturdy gs (owner_grant fresh principal ∷ []), count_sturdy gs);
  distinct = λ k. elim (Bool-cases (fresh == k)) [
    | inl same ↦
        let e = (eq_iff fresh k).0 same in
        rw (sym e)
          (ground (arith, count-append (has_id fresh) gs (owner_grant fresh principal ∷ [])))
    | inr other ↦
        ground (arith, count-append (has_id k) gs (owner_grant fresh principal ∷ []), distinct k)
  ];
}

pub count-none :
    (p : AccessGrant → Bool) (gs : List AccessGrant) → find_first p gs ≡ none → count p gs ≡ 0
count-none p [] h = refl
count-none p (g ∷ gs) h = ground (arith, count-none p gs)

-- A policy that the operation returns keeps the ownership rule.
abbrev pub Keeps : Result ResourcePolicy → Type 0
Keeps (ok policy) = IsOwned policy.grants
Keeps (err _) = Unit

abbrev pub IsUnused : String → ResourcePolicy → Type 0
IsUnused fresh policy = count (has_id fresh) policy.grants ≡ 0

-- nothing is granted yet, or the ownership rule holds
abbrev pub IsValid : List AccessGrant → Type 0
IsValid gs = (gs ≡ []) ⊎ IsOwned gs

pub valid-IsDistinct : (gs : List AccessGrant) → IsValid gs → IsDistinct gs
valid-IsDistinct gs (inl e) k = rw e (omega arith)
valid-IsDistinct gs (inr o) k = o.distinct k

pub valid-IsOwned :
    (p : AccessGrant → Bool) (gs : List AccessGrant) (e : AccessGrant)
    → find_first p gs ≡ some e
    → IsValid gs
    → IsOwned gs
valid-IsOwned p gs e found (inl none_yet) = absurd (cc (ap (find_first p) none_yet, found))
valid-IsOwned p gs e found (inr o) = o

pub claim_unowned-IsOwned :
    (fresh : String) (principal : Principal) (policy : ResourcePolicy)
    → IsUnused fresh policy
    → IsDistinct policy.grants
    → Keeps (claim_unowned fresh principal policy)
unfolding claim_unowned
claim_unowned-IsOwned fresh principal policy free distinct =
    elim (Option-cases (find_owner policy.grants)) [
      | inl nobody ↦
          rw (Keeps, nobody)
            (IsOwned-crown policy.grants fresh principal (count-none is_owner policy.grants nobody)
              distinct free)
      | inr (e, found) ↦ rw (Keeps, found) tt
    ]

sturdy_split :
    (before behind : List AccessGrant) (e : AccessGrant)
    → IsOwned (before ++ e ∷ behind)
    → e.is_owner ≡ true
    → e.permissions.has_manage ≡ true
sturdy_split before behind e o h = ground (
  arith,
  o.one_owner,
  o.managing,
  count-append is_owner before (e ∷ behind),
  count-append is_sturdy before (e ∷ behind),
  count_sturdy before,
  count_sturdy behind,
)

-- An owner that a search finds can manage.
pub sturdy :
    (p : AccessGrant → Bool) (gs : List AccessGrant) (e : AccessGrant)
    → find_first p gs ≡ some e
    → IsOwned gs
    → e.is_owner ≡ true
    → e.permissions.has_manage ≡ true
sturdy p gs e found o h =
    let s = split p gs e found in
    let o' : IsOwned (s.before ++ e ∷ s.behind) = rw s.parts at o in
    sturdy_split s.before s.behind e o' h

remove_split :
    (before behind : List AccessGrant) (e : AccessGrant)
    → IsOwned (before ++ e ∷ behind)
    → e.is_owner ≡ false
    → IsOwned (before ++ behind)
remove_split before behind e o h = record {
  one_owner = ground (
    arith,
    o.one_owner,
    count-append is_owner before (e ∷ behind),
    count-append is_owner before behind,
  );
  managing = ground (
    arith,
    o.managing,
    count-append is_sturdy before (e ∷ behind),
    count-append is_sturdy before behind,
  );
  distinct = λ k. ground (
    arith,
    o.distinct k,
    count-append (has_id k) before (e ∷ behind),
    count-append (has_id k) before behind,
  );
}

pub IsOwned-remove :
    (p : AccessGrant → Bool) (gs : List AccessGrant) (e : AccessGrant)
    → find_first p gs ≡ some e
    → e.is_owner ≡ false
    → IsOwned gs
    → IsOwned (filter (λ g. not (g.grant_id == e.grant_id)) gs)
IsOwned-remove p gs e found plain o =
    let s = split p gs e found in
    let o' : IsOwned (s.before ++ e ∷ s.behind) = rw s.parts at o in
    rw s.parts (
      rw (filter_split s.before s.behind e o'.distinct) (remove_split s.before s.behind e o' plain))
