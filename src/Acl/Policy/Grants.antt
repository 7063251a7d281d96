-- ===== src/Acl/Policy/Grants.antt =====
-- Lists of grants: where a grant stands, and what replacing or removing it does.
use xolo_api.Base.{
  String, ◌≤◌, ◌≡◌, refl, ap, Bool, true, false, not, List, [], ◌∷◌, ◌++◌, filter, any, some, count,
  count-append, filter-append, ◌==◌, if◌then◌else◌, arith, eq_iff, Bool-cases, inl, inr,
}
use xolo_api.Platform.Collections.{find_first}
use xolo_api.Acl.Types.{AccessGrant}
use xolo_api.Acl.Policy.{replace_grant}

abbrev pub has_id : String → AccessGrant → Bool
has_id grant_id g = g.grant_id == grant_id

-- A grant that a search finds, with what stands before and behind it.
pub record Split (p : AccessGrant → Bool) (gs : List AccessGrant) (e : AccessGrant) : Type 0 where
  pub before : List AccessGrant
  pub behind : List AccessGrant
  pub parts : gs ≡ before ++ e ∷ behind
  pub fits : p e ≡ true
  -- and no grant before it fits
  pub first : any p before ≡ false

pub split :
    (p : AccessGrant → Bool) (gs : List AccessGrant) (e : AccessGrant)
    → find_first p gs ≡ some e
    → Split p gs e
split p [] e h = absurd (cc h)
split p (g ∷ gs) e h = elim (Bool-cases (p g)) [
  | inl here ↦
      let same : g ≡ e = ground arith in
      record { before = []; behind = gs; parts = rw same; fits = rw same at here; first = refl }
  | inr later ↦
      let s = split p gs e (ground arith) in
      record {
        before = g ∷ s.before;
        behind = s.behind;
        parts = ap (λ t. g ∷ t) s.parts;
        fits = s.fits;
        first = ground (arith, s.first);
      }
]

pub replace_absent :
    (grant_id : String) (new : AccessGrant) (gs : List AccessGrant)
    → count (has_id grant_id) gs ≡ 0
    → replace_grant grant_id new gs ≡ gs
replace_absent grant_id new [] h = refl
replace_absent grant_id new (g ∷ gs) h = ground (arith, replace_absent grant_id new gs)

replace_append :
    (grant_id : String) (new : AccessGrant) (xs ys : List AccessGrant)
    → replace_grant grant_id new (xs ++ ys)
      ≡ replace_grant grant_id new xs ++ replace_grant grant_id new ys
replace_append grant_id new [] ys = refl
replace_append grant_id new (x ∷ xs) ys =
    ap (λ t. (if x.grant_id == grant_id then new else x) ∷ t) (replace_append grant_id new xs ys)

pub filter_absent :
    (grant_id : String) (gs : List AccessGrant)
    → count (has_id grant_id) gs ≡ 0
    → filter (λ g. not (g.grant_id == grant_id)) gs ≡ gs
filter_absent grant_id [] h = refl
filter_absent grant_id (g ∷ gs) h = ground (arith, filter_absent grant_id gs)

-- no id is given twice
abbrev pub IsDistinct : List AccessGrant → Type 0
IsDistinct gs = (grant_id : String) → count (has_id grant_id) gs ≤ 1

module _ (before behind : List AccessGrant) (e : AccessGrant)
    (distinct : IsDistinct (before ++ e ∷ behind)) where
  pub absent : (count (has_id e.grant_id) before ≡ 0) × (count (has_id e.grant_id) behind ≡ 0)
  absent = ground (
    arith,
    distinct e.grant_id,
    count-append (has_id e.grant_id) before (e ∷ behind),
    eq_iff e.grant_id e.grant_id,
  )

  -- Replacing by the id of a grant replaces that grant alone.
  pub replace_split :
      (new : AccessGrant)
      → replace_grant e.grant_id new (before ++ e ∷ behind) ≡ before ++ new ∷ behind
  replace_split new = rw replace_append (
      rw
        (
          replace_absent e.grant_id new before absent.0,
          replace_absent e.grant_id new behind absent.1,
        )
        (ground (arith, eq_iff e.grant_id e.grant_id)))

  -- Removing by the id of a grant removes that grant alone.
  pub filter_split :
      filter (λ g. not (g.grant_id == e.grant_id)) (before ++ e ∷ behind) ≡ before ++ behind
  filter_split = rw (filter-append (λ g. not (g.grant_id == e.grant_id)) before (e ∷ behind)) (
      rw (filter_absent e.grant_id before absent.0)
        (ground (arith, eq_iff e.grant_id e.grant_id, filter_absent e.grant_id behind absent.1)))
