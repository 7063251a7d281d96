-- ===== src/Traversal/Loop.antt =====
-- The loop itself, on fuel, and a bound on the rounds that it makes.
use xolo_api.Base.{
  String, ℕ, zero, suc, ◌+◌, ◌≤◌, ◌≡◌, refl, inl, inr, true, false, List, [], ◌∷◌, ◌++◌, Option,
  none, some, elem, length, length-append, ◌==◌, if◌then◌else◌, arith, eq_iff, Bool-cases,
}
use xolo_api.Traversal.Graph.{Adjacency, targets}

-- `while queue: cur = queue.popleft(); if cur in visited: continue; visited.add(cur); ...`,
-- where `push` says what the body queues once `cur` is in the visited set. The result is the
-- visited set; `none` means that the fuel ran out.
unfoldable pub walk :
    (List String → String → List String) → ℕ → List String → List String → Option (List String)
walk push zero visited [] = some visited
walk push zero visited (_ ∷ _) = none
walk push (suc n) visited [] = some visited
walk push (suc n) visited (cur ∷ queue) = elim (elem cur visited) [
  | true ↦ walk push n visited queue
  | false ↦ walk push n (cur ∷ visited) (queue ++ push (cur ∷ visited) cur)
]

-- The edges that the loop can still queue: those of the names that it has not visited.
abbrev pub pending : List String → Adjacency → ℕ
pending visited [] = 0
pending visited ((k, ts) ∷ d) =
    if elem k visited then pending visited d else length ts + pending visited d

pending-cons :
    (k : String) (visited : List String) (d : Adjacency)
    → pending (k ∷ visited) d ≤ pending visited d
pending-cons k visited [] = omega arith
pending-cons k visited ((j, ts) ∷ d) = ground (arith, pending-cons k visited d)

-- A visit takes the edges of the visited name out of what is pending.
pending-visit :
    (k : String) (visited : List String) (d : Adjacency)
    → elem k visited ≡ false
    → pending (k ∷ visited) d + length (targets d k) ≤ pending visited d
pending-visit k visited [] h = omega arith
pending-visit k visited ((j, ts) ∷ d) h = elim (Bool-cases (j == k)) [
  | inl same ↦ rw ((eq_iff j k).0 same) (ground (arith, pending-cons k visited d, eq_iff k k))
  | inr other ↦ ground (arith, pending-visit k visited d, eq_iff j k, eq_iff k j)
]

module _ (d : Adjacency) (push : List String → String → List String) where
  -- With the fuel at least the queue and the pending edges, the loop ends.
  pub walk_total :
      ((visited : List String) (k : String) → length (push visited k) ≤ length (targets d k))
      → (n : ℕ) (visited queue : List String) → length queue + pending visited d ≤ n
      → (w : List String) × (walk push n visited queue ≡ some w)
  unfolding walk
  walk_total few zero visited [] h = (visited, refl)
  walk_total few zero visited (cur ∷ queue) h = absurd (omega arith)
  walk_total few (suc n) visited [] h = (visited, refl)
  walk_total few (suc n) visited (cur ∷ queue) h = elim (Bool-cases (elem cur visited)) [
    | inl seen ↦ let (w, e) = walk_total few n visited queue (omega arith) in (w, rw (seen, walk) e)
    | inr new ↦
        let next = queue ++ push (cur ∷ visited) cur in
        let (w, e) = walk_total few n (cur ∷ visited) next (
          omega (
            arith,
            length-append queue (push (cur ∷ visited) cur),
            few (cur ∷ visited) cur,
            pending-visit cur visited d new,
          )) in
        (w, rw (new, walk) e)
  ]
