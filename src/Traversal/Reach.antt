-- ===== src/Traversal/Reach.antt =====
-- Reachability along the edges of a graph, which the loops are held against.
use xolo_api.Base.{
  String, ◌≡◌, ◌⊎◌, inl, inr, Bool, true, List, [], ◌∷◌, elem, ◌==◌, ◌||◌, ◌&&◌, arith, eq_iff,
  eq_refl, or_cases, and_left, and_right,
}

-- What a chain of edges leads to from one of the roots.
pub data Reach (edge : String → String → Bool) (roots : List String) : String → Type 0 where
  here : {v : String} → elem v roots ≡ true → Reach edge roots v
  step : {u v : String} → Reach edge roots u → edge u v ≡ true → Reach edge roots v

pub Reach-mono :
    (e f : String → String → Bool) (roots : List String) {v : String}
    → ((a b : String) → e a b ≡ true → f a b ≡ true)
    → Reach e roots v
    → Reach f roots v
Reach-mono e f roots h (here m) = here m
Reach-mono e f roots h (step {u} {v} r s) = step (Reach-mono e f roots h r) (h u v s)

module _ (e : String → String → Bool) (roots : List String) where
  -- A walk to one name, and a walk on from it.
  pub Reach-trans : {v w : String} → Reach e roots v → Reach e (v ∷ []) w → Reach e roots w
  Reach-trans {v} {w} r (here m) = rw (← (eq_iff v w).0 (ground arith)) r
  Reach-trans r (step p s) = step (Reach-trans r p) s

-- No edge can be followed back to where it starts.
abbrev pub IsAcyclic : (String → String → Bool) → Type 0
IsAcyclic e = (u v : String) → e u v ≡ true → ¬ Reach e (v ∷ []) u

-- Fewer edges close no cycle.
pub IsAcyclic-mono :
    (e f : String → String → Bool)
    → ((a b : String) → e a b ≡ true → f a b ≡ true)
    → IsAcyclic f
    → IsAcyclic e
IsAcyclic-mono e f h acyclic u v s r = acyclic u v (h u v s) (Reach-mono e f (v ∷ []) h r)

-- The graph with one more edge.
abbrev pub with_edge : (String → String → Bool) → String → String → String → String → Bool
with_edge e from to u v = e u v || (from == u && to == v)

module _ (e : String → String → Bool) (from to : String) where
  -- The split of a walk that takes the new edge last.
  last_edge :
      (a : String) {u v : String}
      → Reach e (a ∷ []) u ⊎ (Reach e (a ∷ []) from × Reach e (to ∷ []) u)
      → from ≡ u
      → to ≡ v
      → Reach e (a ∷ []) from × Reach e (to ∷ []) v
  last_edge a {u} {v} (inl p) hu hv = (rw hu p, here ((ground (arith, eq_iff to v))))
  last_edge a {u} {v} (inr (p, q)) hu hv = (p, here (ground (arith, eq_iff to v)))

  -- A walk in the extended graph avoids the new edge, or splits at it.
  pub Reach-with_edge :
      (a : String) {b : String}
      → Reach (with_edge e from to) (a ∷ []) b
      → Reach e (a ∷ []) b ⊎ (Reach e (a ∷ []) from × Reach e (to ∷ []) b)
  Reach-with_edge a (here m) = inl (here m)
  Reach-with_edge a (step {u} {v} r s) = elim (or_cases (e u v) _ s) [
    | inl old ↦ elim (Reach-with_edge a r) [
      | inl p ↦ inl (step p old)
      | inr (p, q) ↦ inr (p, step q old)
    ]
    | inr new ↦ inr (
        last_edge a (Reach-with_edge a r) ((eq_iff from u).0 (and_left (from == u) (to == v) new))
          ((eq_iff to v).0 (and_right (from == u) (to == v) new)))
  ]

  -- A new edge closes no cycle if its source cannot be reached from its target.
  pub IsAcyclic-with_edge : IsAcyclic e → ¬ Reach e (to ∷ []) from → IsAcyclic (with_edge e from to)
  IsAcyclic-with_edge acyclic apart u v s r = elim (Reach-with_edge v r) [
    | inl p ↦ elim (or_cases (e u v) _ s) [
      | inl old ↦ acyclic u v old p
      | inr new ↦
          apart
            (closes (and_left (from == u) (to == v) new) (and_right (from == u) (to == v) new) p)
    ]
    | inr (p, q) ↦ elim (or_cases (e u v) _ s) [
      | inl old ↦ apart (Reach-trans e (to ∷ []) (step q old) p)
      | inr new ↦ apart (closes (eq_refl from) (and_right (from == u) (to == v) new) p)
    ]
  ]
    where
      closes :
          {b c : String}
          → (from == b) ≡ true
          → (to == c) ≡ true
          → Reach e (c ∷ []) b
          → Reach e (to ∷ []) from
      closes {b} {c} hb hc r' = rw ((eq_iff from b).0 hb, (eq_iff to c).0 hc) r'
