-- ===== src/Ngac/Graph/Closure.antt =====
-- The upward closure of `NGACGraph` and its memo, against walks along the assignments.
use xolo_api.Base.{
  String, ◌≡◌, inl, inr, ◌↔◌, Bool, true, ◌&&◌, ◌||◌, List, [], ◌∷◌, none, some, elem, any, ◌==◌,
  Dict, lookup, insert, lookup-insert, elem-append, arith, eq_iff, Option-cases, Bool-cases, ◌+◌,
  length,
}
use native.Mathlib.Nat.{le_refl}
use xolo_api.Traversal.Graph.{Adjacency}
use xolo_api.Traversal.Loop.{walk, pending}
use xolo_api.Traversal.Reach.{Reach}
use xolo_api.Traversal.Correct.{edge, push_all, push_all-IsPush, walk_decides}
use xolo_api.Ngac.Types.{Node, Assignment, Association}
use xolo_api.Ngac.Graph.{Graph, add, add_edge, build_parents, new_graph, upward_closure}

-- `an assignment from u to v is among these`
abbrev pub assigned : List Assignment → String → String → Bool
assigned assignments u v = any (λ a. a.from_id == u && a.to_id == v) assignments

elem-add : (v t : String) (ts : List String) → elem v (add t ts) ≡ (elem v ts || t == v)
elem-add v t ts = elim (Bool-cases (t == v)) [
  | inl same ↦ rw ((eq_iff t v).0 same) (ground (arith, elem-append v ts (v ∷ []), eq_iff v v))
  | inr other ↦ ground (arith, elem-append v ts (t ∷ []))
]

edge-add_edge :
    (from to : String) (d : Adjacency) (u v : String)
    → edge (add_edge from to d) u v ≡ (edge d u v || (from == u && to == v))
unfolding add_edge
edge-add_edge from to [] u v = ground arith
edge-add_edge from to ((k, ts) ∷ d) u v =
    ground (
      arith,
      edge-add_edge from to d u v,
      elem-add v to ts,
      eq_iff k from,
      eq_iff k u,
      eq_iff from u,
    )

edge-build_parents :
    (assignments : List Assignment) (d : Adjacency) (u v : String)
    → edge (build_parents d assignments) u v ≡ (edge d u v || assigned assignments u v)
unfolding build_parents
edge-build_parents [] d u v = ground arith
edge-build_parents (a ∷ rest) d u v = ground (
  arith,
  edge-build_parents rest (add_edge a.from_id a.to_id d) u v,
  edge-add_edge a.from_id a.to_id d u v,
)

-- The edges of a new graph are its assignments.
pub edge-new_graph :
    (lower : String → String) (nodes : List Node) (assignments : List Assignment)
    (associations : List Association) (u v : String)
    → edge (new_graph lower nodes assignments associations).parents u v ≡ assigned assignments u v
unfolding new_graph
edge-new_graph lower nodes assignments associations u v = edge-build_parents assignments [] u v

upward_closure-eq :
    (g : Graph) (node_id : String) (w : List String)
    → walk (push_all g.parents) (length (node_id ∷ []) + pending [] g.parents) [] (node_id ∷ [])
      ≡ some w
    → upward_closure g node_id ≡ w
unfolding upward_closure
upward_closure-eq g node_id w ends = ground arith

-- The closure of a node holds the nodes that a chain of assignments leads to from it, and no
-- others, whatever cycles the graph has.
pub upward_closure_decides :
    (g : Graph) (node_id v : String)
    → (elem v (upward_closure g node_id) ≡ true) ↔ Reach (edge g.parents) (node_id ∷ []) v
upward_closure_decides g node_id v =
    let (w, ends, decides) =
      walk_decides g.parents (node_id ∷ []) (push_all g.parents) (push_all-IsPush g.parents)
        (length (node_id ∷ []) + pending [] g.parents) (le_refl _) in
    rw (upward_closure-eq g node_id w ends) (decides v)

-- `upward_closure` with its memo: the result, and the memo after the call.
pub memo_closure : Graph → Dict (List String) → String → List String × Dict (List String)
memo_closure g cache node_id = elim (lookup node_id cache) [
  | some closure ↦ (closure, cache)
  | none ↦ let closure = upward_closure g node_id in (closure, insert node_id closure cache)
]

-- What the memo holds is what the loop would compute.
abbrev pub IsCoherent : Graph → Dict (List String) → Type 0
IsCoherent g cache =
    (k : String) (c : List String) → lookup k cache ≡ some c → c ≡ upward_closure g k

-- From a coherent memo a call returns the closure, hit or miss, and leaves the memo coherent.
pub memo_closure_transparent :
    (g : Graph) (cache : Dict (List String)) (node_id : String)
    → IsCoherent g cache
    → ((memo_closure g cache node_id).0 ≡ upward_closure g node_id)
      × IsCoherent g (memo_closure g cache node_id).1
unfolding memo_closure
memo_closure_transparent g cache node_id h = elim (Option-cases (lookup node_id cache)) [
  | inl miss ↦ (rw (miss, memo_closure), λ k c e. memo_insert k c (rw (miss, memo_closure) at e))
  | inr (closure, hit) ↦
      (rw (hit, memo_closure) (h node_id closure hit), λ k c e. h k c (rw (hit, memo_closure) at e))
]
  where
    memo_insert :
        (k : String) (c : List String)
        → lookup k (insert node_id (upward_closure g node_id) cache) ≡ some c
        → c ≡ upward_closure g k
    memo_insert k c e =
        ground
          (arith, h k c, lookup-insert node_id k (upward_closure g node_id) cache, eq_iff node_id k)
