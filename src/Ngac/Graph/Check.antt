-- ===== src/Ngac/Graph/Check.antt =====
-- The access check of `NGACGraph` against its meaning on the graph.
use xolo_api.Base.{
  String, ◌≡◌, refl, inl, inr, ◌↔◌, true, ◌&&◌, List, [], ◌∷◌, elem, elem-filter, any-elim,
  any-intro, arith, eq_iff, Bool-cases,
}
use xolo_api.Traversal.Reach.{Reach}
use xolo_api.Traversal.Correct.{edge}
use xolo_api.Ngac.Types.{NodeType, user_attribute, object_attribute, policy_class}
use xolo_api.Ngac.Graph.{
  Graph, operations_of, upward_closure, has_type, attributes, governing, granted, permits,
  check_classes, check_governed, check,
}
use xolo_api.Ngac.Graph.Closure.{upward_closure_decides}

-- a chain of assignments leads from one node to the other
abbrev pub Below : Graph → String → String → Type 0
Below g u v = Reach (edge g.parents) (u ∷ []) v

abbrev pub Governs : Graph → String → String → Type 0
Governs g pc object_id = Below g object_id pc × (has_type g policy_class pc ≡ true)

-- An attribute of the user and one of the object, both inside the policy class, with the
-- operation on the association between them.
abbrev pub Permits : Graph → String → String → String → String → Type 0
Permits g user_id object_id op pc =
    (ua : String) × (oa : String) × Below g user_id ua
    × Below g ua pc
    × (has_type g user_attribute ua ≡ true)
    × Below g object_id oa
    × Below g oa pc
    × (has_type g object_attribute oa ≡ true)
    × (elem op (operations_of ua oa g.assoc) ≡ true)

module _ (g : Graph) where
  elem-attributes :
      (t : NodeType) (pc root nid : String)
      → (elem nid (attributes g t pc (upward_closure g root)) ≡ true)
        ↔ (Below g root nid × Below g nid pc × (has_type g t nid ≡ true))
  unfolding attributes
  elem-attributes t pc root nid =
      let p = λ (n : String). has_type g t n && elem pc (upward_closure g n) in
      let law = elem-filter nid p (upward_closure g root) in
      let below = upward_closure_decides g root nid in
      let above = upward_closure_decides g nid pc in
      (
        λ h. (below.0 (ground (arith, law)), above.0 (ground (arith, law)), ground (arith, law)),
        λ (b, a, typed). ground (arith, law, below.1 b, above.1 a, typed),
      )

  module _ (op user_id object_id : String) where
    permits_iff :
        (pc : String)
        → (permits g op (upward_closure g user_id) (upward_closure g object_id) pc ≡ true)
          ↔ Permits g user_id object_id op pc
    unfolding permits granted
    permits_iff pc = (
      λ h.
          let (ua, mu, r) =
            any-elim _ (attributes g user_attribute pc (upward_closure g user_id)) h in
          let (oa, mo, e) =
            any-elim _ (attributes g object_attribute pc (upward_closure g object_id)) r in
          let (u1, u2, u3) = (elem-attributes user_attribute pc user_id ua).0 mu in
          let (o1, o2, o3) = (elem-attributes object_attribute pc object_id oa).0 mo in
          (ua, oa, u1, u2, u3, o1, o2, o3, e),
      λ (ua, oa, u1, u2, u3, o1, o2, o3, e).
          any-intro _ ua _ ((elem-attributes user_attribute pc user_id ua).1 (u1, u2, u3)) (
            any-intro _ oa _ ((elem-attributes object_attribute pc object_id oa).1 (o1, o2, o3)) e),
    )

    elem-governing :
        (pc : String)
        → (elem pc (governing g (upward_closure g object_id)) ≡ true) ↔ Governs g pc object_id
    unfolding governing
    elem-governing pc =
        let law = elem-filter pc (has_type g policy_class) (upward_closure g object_id) in
        let below = upward_closure_decides g object_id pc in
        (
          λ h. (below.0 (ground (arith, law)), ground (arith, law)),
          λ (b, typed). ground (arith, law, below.1 b, typed),
        )

  check_classes_iff :
      (op : String) (us os pcs : List String)
      → ((check_classes g op us os pcs).0 ≡ true)
        ↔ ((pc : String) → elem pc pcs ≡ true → permits g op us os pc ≡ true)
  unfolding check_classes
  check_classes_iff op us os [] = (λ h pc m. cc, λ h. refl)
  check_classes_iff op us os (c ∷ pcs) =
      let ih = check_classes_iff op us os pcs in
      elim (Bool-cases (permits g op us os c)) [
        | inl granted_here ↦ (
          λ h pc m. ground (arith, eq_iff c pc, ih.0 (rw (granted_here) at h) pc),
          λ h. rw granted_here (ih.1 (λ pc m. h pc (ground arith))),
        )
        | inr denied ↦
            (λ h pc m. cc (rw denied at h), λ h. cc (h c (ground (arith, eq_iff c c)), denied))
      ]

-- The check grants access exactly if some policy class governs the object and every policy class
-- that governs it permits the operation: inside each, an attribute of the user has an association
-- with an attribute of the object that carries the operation, in lower case.
pub check_iff :
    (lower : String → String) (g : Graph) (user_id object_id operation : String)
    → ((check lower g user_id object_id operation).0 ≡ true) ↔ (
        ((pc : String) × Governs g pc object_id)
        × ((pc : String)
            → Governs g pc object_id
            → Permits g user_id object_id (lower operation) pc))
unfolding check check_governed
check_iff lower g user_id object_id operation =
    governed (governing g (upward_closure g object_id)) refl
  where
    op : String
    op = lower operation

    governed :
        (pcs : List String)
        → governing g (upward_closure g object_id) ≡ pcs
        → ((check_governed g op (upward_closure g user_id) (upward_closure g object_id) pcs).0
            ≡ true)
          ↔ (((pc : String) × Governs g pc object_id)
              × ((pc : String) → Governs g pc object_id → Permits g user_id object_id op pc))
    governed [] e = (
      λ h. cc h,
      λ ((pc, gov), _). cc (rw e at ((elem-governing g op user_id object_id pc).1 gov)),
    )
    governed (c ∷ pcs) e =
        let members = λ (pc : String). elem-governing g op user_id object_id pc in
        let classes =
          check_classes_iff g op (upward_closure g user_id) (upward_closure g object_id)
            (c ∷ pcs) in
        (
          λ h. (
            (c, (members c).0 (rw e (ground (arith, eq_iff c c)))),
            λ pc gov.
                (permits_iff g op user_id object_id pc).0
                  (classes.0 h pc (rw e at ((members pc).1 gov))),
          ),
          λ (_, all).
              classes.1 λ pc m.
                (permits_iff g op user_id object_id pc).1 (all pc ((members pc).0 (rw e m))),
        )
