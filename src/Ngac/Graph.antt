-- ===== src/Ngac/Graph.antt =====
-- `NGACGraph` of xoloapi/ngac/domain/services.py. Sets are lists without repetition, in the order
-- of their construction: which of several failing policy classes a denial names is the only thing
-- that depends on the order. `lower` is Python's `str.lower`.
pub mod Closure
pub mod Check
use Prim.Native.String.{◌++◌ as concat}
use xolo_api.Base.{
  String, ℕ, ◌+◌, Bool, true, false, ◌&&◌, List, [], ◌∷◌, ◌++◌, map, foldl, Option, none, some,
  elem, filter, any, length, ◌==◌, if◌then◌else◌, Dict, lookup, insert,
}
use xolo_api.Traversal.Graph.{Adjacency, targets}
use xolo_api.Traversal.Loop.{walk, pending}
use xolo_api.Traversal.Correct.{push_all}
use xolo_api.Ngac.Types.{
  NodeType, same_type, user_attribute, object_attribute, policy_class, Node, Assignment,
  Association,
}

pub record Graph : Type 0 where
  pub nodes : Dict Node
  pub parents : Adjacency
  pub assoc : List ((String × String) × List String)

-- `ts.add(t)`
abbrev pub add : String → List String → List String
add t ts = if elem t ts then ts else ts ++ t ∷ []

-- `self._parents.setdefault(from, set()).add(to)`
unfoldable pub add_edge : String → String → Adjacency → Adjacency
add_edge from to [] = (from, to ∷ []) ∷ []
add_edge from to ((k, ts) ∷ d) =
    if k == from then (k, add to ts) ∷ d else (k, ts) ∷ add_edge from to d

unfoldable pub build_parents : Adjacency → List Assignment → Adjacency
build_parents d [] = d
build_parents d (a ∷ rest) = build_parents (add_edge a.from_id a.to_id d) rest

unfoldable pub build_nodes : Dict Node → List Node → Dict Node
build_nodes d [] = d
build_nodes d (n ∷ rest) = build_nodes (insert n.node_id n d) rest

abbrev pub AssocDict : Type 0
AssocDict = List ((String × String) × List String)

-- `self._assoc.get((ua, oa), ())`
abbrev pub operations_of : String → String → AssocDict → List String
operations_of ua oa [] = []
operations_of ua oa ((k, ops) ∷ d) = if k.0 == ua && k.1 == oa then ops else operations_of ua oa d

-- `self._assoc[(ua, oa)] = ops`
abbrev pub set_operations : String → String → List String → AssocDict → AssocDict
set_operations ua oa ops [] = ((ua, oa), ops) ∷ []
set_operations ua oa ops ((k, old) ∷ d) =
    if k.0 == ua && k.1 == oa then (k, ops) ∷ d else (k, old) ∷ set_operations ua oa ops d

-- The fuel covers the first queue and every edge: see `upward_closure_decides`.
unfoldable pub upward_closure : Graph → String → List String
upward_closure g node_id =
    elim (walk (push_all g.parents) (length (node_id ∷ []) + pending [] g.parents) []
      (node_id ∷ [])) [ some visited ↦ visited | none ↦ [] ]

-- `nid in self._nodes and self._nodes[nid].node_type == t`
unfoldable pub has_type : Graph → NodeType → String → Bool
has_type g t nid = elim (lookup nid g.nodes) [ none ↦ false | some n ↦ same_type n.node_type t ]

-- the attributes of one type in a closure that lead to the policy class
unfoldable pub attributes : Graph → NodeType → String → List String → List String
attributes g t pc_id closure =
    filter (λ nid. has_type g t nid && elem pc_id (upward_closure g nid)) closure

unfoldable pub governing : Graph → List String → List String
governing g object_closure = filter (has_type g policy_class) object_closure

unfoldable pub granted : Graph → String → List String → List String → Bool
granted g op user_uas object_oas =
    any (λ ua. any (λ oa. elem op (operations_of ua oa g.assoc)) object_oas) user_uas

-- the body of the loop over the policy classes
unfoldable pub permits : Graph → String → List String → List String → String → Bool
permits g op user_closure object_closure pc_id =
    granted g op (attributes g user_attribute pc_id user_closure)
      (attributes g object_attribute pc_id object_closure)

abbrev pub display_name : Graph → String → String
display_name g pc_id = elim (lookup pc_id g.nodes) [ none ↦ pc_id | some n ↦ n.name ]

unfoldable pub check_classes :
    Graph → String → List String → List String → List String → Bool × String
check_classes g op user_closure object_closure [] = (true, "Access granted")
check_classes g op user_closure object_closure (pc_id ∷ pcs) =
    if permits g op user_closure object_closure pc_id
    then check_classes g op user_closure object_closure pcs
    else (false, concat "Denied by policy class '" (concat (display_name g pc_id) "'"))

-- `if not pcs` and then the loop
unfoldable pub check_governed :
    Graph → String → List String → List String → List String → Bool × String
check_governed g op user_closure object_closure [] =
    (false, "Object is not governed by any policy class")
check_governed g op user_closure object_closure (pc_id ∷ pcs) =
    check_classes g op user_closure object_closure (pc_id ∷ pcs)

module _ (lower : String → String) where
  unfoldable pub build_assoc : AssocDict → List Association → AssocDict
  build_assoc d [] = d
  build_assoc d (a ∷ rest) =
      build_assoc
        (set_operations a.user_attribute_id a.object_attribute_id (map lower a.operations) d) rest

  -- `NGACGraph.__init__`
  unfoldable pub new_graph : List Node → List Assignment → List Association → Graph
  unfolding build_nodes build_parents
  new_graph nodes assignments associations = record {
    nodes = build_nodes [] nodes;
    parents = build_parents [] assignments;
    assoc = build_assoc [] associations;
  }

  unfoldable pub check : Graph → String → String → String → Bool × String
  check g user_id object_id operation =
      let op = lower operation in
      let object_closure = upward_closure g object_id in
      let user_closure = upward_closure g user_id in
      check_governed g op user_closure object_closure (governing g object_closure)
