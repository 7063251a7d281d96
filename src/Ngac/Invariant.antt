-- ===== src/Ngac/Invariant.antt =====
-- Well-formed policy graphs: both ends of every edge are nodes of its account and of types that
-- may be joined, and no chain of assignments leads back to where it starts.
pub mod Nodes
pub mod Edges
use xolo_api.Base.{
  String, ◌≡◌, Bool, true, false, ◌&&◌, List, Option, none, some, filter, ◌==◌, if◌then◌else◌,
}
use xolo_api.Platform.Collections.{find_first, All}
use xolo_api.World.{Database}
use xolo_api.Traversal.Reach.{IsAcyclic}
use xolo_api.Ngac.Types.{
  user_attribute, object_attribute, same_type, valid_assignment_targets, Node, Assignment,
  Association,
}
use xolo_api.Ngac.Graph.Closure.{assigned}
use xolo_api.Ngac.Repository.{is_node}
use xolo_api.Ngac.Service.{type_in}

-- the node of an account with an id
abbrev pub node_at : Database → String → String → Option Node
node_at db account_id node_id = find_first (is_node account_id node_id) db.nodes

-- a test on both nodes, if both are there
abbrev pub both : (Node → Node → Bool) → Option Node → Option Node → Bool
both p none _ = false
both p (some n) none = false
both p (some n) (some m) = p n m

abbrev pub may_assign : Node → Node → Bool
may_assign n m = type_in m.node_type (valid_assignment_targets n.node_type)

abbrev pub may_associate : Node → Node → Bool
may_associate n m = same_type n.node_type user_attribute && same_type m.node_type object_attribute

abbrev pub IsPlaced : Database → Assignment → Type 0
IsPlaced db a =
    both may_assign (node_at db a.account_id a.from_id) (node_at db a.account_id a.to_id) ≡ true

abbrev pub IsJoined : Database → Association → Type 0
IsJoined db s =
    both may_associate (node_at db s.account_id s.user_attribute_id)
      (node_at db s.account_id s.object_attribute_id)
    ≡ true

abbrev pub of_account : String → Assignment → Bool
of_account account_id a = a.account_id == account_id

-- the assignments of an account, as edges
abbrev pub edges : List Assignment → String → String → String → Bool
edges assignments account_id = assigned (filter (of_account account_id) assignments)

pub record IsWellFormed (db : Database) : Type 0 where
  pub placed : All (IsPlaced db) db.assignments
  pub joined : All (IsJoined db) db.associations
  pub acyclic : (account_id : String) → IsAcyclic (edges db.assignments account_id)
