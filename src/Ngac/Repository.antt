-- ===== src/Ngac/Repository.antt =====
-- `MongoNGACRepository` of xoloapi/ngac/infrastructure/mongo_ngac_repository.py. Each method's
-- `try` turns an outage at any of its calls into a `DatabaseError`.
use Prim.Native.String.{◌++◌ as concat}
use xolo_api.Base.{
  is_empty, String, ℕ, Bool, true, false, not, ◌&&◌, ◌||◌, List, [], ◌∷◌, map, Option, none, some,
  elem, length, ◌==◌, if◌then◌else◌,
}
use xolo_api.Errors.{already_exists, not_found}
use xolo_api.Exec.{Exec, pure, raise_if, ◌>>=◌, ◌>>◌}
use xolo_api.Platform.Collections.{is_some}
use xolo_api.Platform.Mongo.{Mongo}
use xolo_api.World.{Database, World, query, command}
use xolo_api.Ngac.Types.{NodeType, same_type, Node, Assignment, Association}

-- `if value:` on an optional text
abbrev pub truthy : Option String → Bool
truthy none = false
truthy (some s) = not (s == "")

-- `{"field": value}` on an optional field
abbrev pub holds : Option String → Option String → Bool
holds none none = true
holds (some a) (some b) = a == b
holds _ _ = false

-- `value` or the empty text, for a message
abbrev pub or_empty : Option String → String
or_empty none = ""
or_empty (some s) = s

-- `f"{a}->{b}"`
abbrev pub arrow : String → String → String
arrow a b = concat a (concat "->" b)

abbrev pub is_node : String → String → Node → Bool
is_node account_id node_id n = n.account_id == account_id && n.node_id == node_id

abbrev pub is_assignment : String → String → String → Assignment → Bool
is_assignment account_id from_id to_id a =
    a.account_id == account_id && (a.from_id == from_id && a.to_id == to_id)

abbrev pub is_association : String → String → Association → Bool
is_association account_id association_id a =
    a.account_id == account_id && a.association_id == association_id

-- the cascade: edges of the account that touch one of the nodes
abbrev pub assignment_touches : String → List String → Assignment → Bool
assignment_touches account_id ids a =
    a.account_id == account_id && (elem a.from_id ids || elem a.to_id ids)

abbrev pub association_touches : String → List String → Association → Bool
association_touches account_id ids a =
    a.account_id == account_id && (elem a.user_attribute_id ids || elem a.object_attribute_id ids)

module _ ⦃mongo : Mongo⦄ where
  -- another node of the account with the same binding to a user or a resource
  abbrev pub unbound : Bool → (Database → Option Node) → String → String → Exec World (Unit {0})
  unbound bound lookup kind key =
      if bound
      then (do found ← query lookup; raise_if (is_some found) (already_exists kind key))
      else pure tt

  unfoldable pub create_node : Node → Exec World String
  create_node node = do
    existing ← query λ db. mongo.find_one (is_node node.account_id node.node_id) db.nodes
    raise_if (is_some existing) (already_exists "NGACNode" node.node_id)
    unbound (truthy node.user_id)
        (λ db.
          mongo.find_one (λ n. n.account_id == node.account_id && holds n.user_id node.user_id)
            db.nodes)
        "NGAC user binding" (or_empty node.user_id)
    unbound (truthy node.resource_id)
        (λ db.
          mongo.find_one
            (λ n. n.account_id == node.account_id && holds n.resource_id node.resource_id) db.nodes)
        "NGAC resource binding" (or_empty node.resource_id)
    command λ db. (node.node_id, record db { nodes = mongo.insert_one node db.nodes })

  unfoldable pub update_node : Node → Exec World Bool
  update_node node = do
    unbound (truthy node.user_id)
        (λ db.
          mongo.find_one
            (λ n.
              n.account_id == node.account_id
              && holds n.user_id node.user_id
              && not (n.node_id == node.node_id))
            db.nodes)
        "NGAC user binding" (or_empty node.user_id)
    unbound (truthy node.resource_id)
        (λ db.
          mongo.find_one
            (λ n.
              n.account_id == node.account_id
              && holds n.resource_id node.resource_id
              && not (n.node_id == node.node_id))
            db.nodes)
        "NGAC resource binding" (or_empty node.resource_id)
    matched ← command λ db.
        let (found, nodes) =
          mongo.replace_one (is_node node.account_id node.node_id) node db.nodes in
        (found, record db { nodes = nodes })
    raise_if (not matched) (not_found "NGACNode" node.node_id)
    pure true

  unfoldable pub find_node : String → String → Exec World (Option Node)
  find_node account_id node_id = query λ db. mongo.find_one (is_node account_id node_id) db.nodes

  unfoldable pub list_nodes : String → Option NodeType → Exec World (List Node)
  list_nodes account_id none = query λ db. mongo.find (λ n. n.account_id == account_id) db.nodes
  list_nodes account_id (some t) =
      query λ db. mongo.find (λ n. n.account_id == account_id && same_type n.node_type t) db.nodes

  -- the two `delete_many` of a cascade
  abbrev pub cascade : String → List String → Exec World (Unit {0})
  cascade account_id ids = do
    command λ db. (
      tt,
      record db {
        assignments = (mongo.delete_many (assignment_touches account_id ids) db.assignments).1;
      },
    )
    command λ db. (
      tt,
      record db {
        associations = (mongo.delete_many (association_touches account_id ids) db.associations).1;
      },
    )

  unfoldable pub delete_node : String → String → Exec World Bool
  delete_node account_id node_id = do
    deleted ← command λ db.
        let (found, nodes) = mongo.delete_one (is_node account_id node_id) db.nodes in
        (found, record db { nodes = nodes })
    raise_if (not deleted) (not_found "NGACNode" node_id)
    cascade account_id (node_id ∷ [])
    pure true

  unfoldable pub delete_nodes_by_owner : String → String → Exec World ℕ
  delete_nodes_by_owner account_id owner_id = do
    owned ←
        query λ db. mongo.find (λ n. n.account_id == account_id && n.owner_id == owner_id) db.nodes
    let node_ids = map (λ (n : Node). n.node_id) owned
    if is_empty node_ids then pure 0 else do
      command λ db. (
        tt,
        record db {
          nodes =
              (mongo.delete_many (λ n. n.account_id == account_id && elem n.node_id node_ids)
                db.nodes).1;
        },
      )
      cascade account_id node_ids
      pure (length node_ids)

  -- idempotent: an edge that is there is not added again
  unfoldable pub create_assignment : Assignment → Exec World String
  create_assignment a = do
    existing ←
        query λ db. mongo.find_one (is_assignment a.account_id a.from_id a.to_id) db.assignments
    if is_some existing
        then pure a.assignment_id
        else command
            λ db. (a.assignment_id, record db { assignments = mongo.insert_one a db.assignments })

  unfoldable pub find_assignment : String → String → String → Exec World (Option Assignment)
  find_assignment account_id from_id to_id =
      query λ db. mongo.find_one (is_assignment account_id from_id to_id) db.assignments

  unfoldable pub remove_assignment : String → String → String → Exec World Bool
  remove_assignment account_id from_id to_id = do
    deleted ← command λ db.
        let (found, rest) =
          mongo.delete_one (is_assignment account_id from_id to_id) db.assignments in
        (found, record db { assignments = rest })
    raise_if (not deleted) (not_found "NGACAssignment" (arrow from_id to_id))
    pure true

  unfoldable pub list_assignments : String → Exec World (List Assignment)
  list_assignments account_id =
      query λ db. mongo.find (λ a. a.account_id == account_id) db.assignments

  unfoldable pub create_association : Association → Exec World String
  create_association a = do
    existing ← query λ db.
        mongo.find_one
          (λ b.
            b.account_id == a.account_id
            && (b.user_attribute_id == a.user_attribute_id
                && b.object_attribute_id == a.object_attribute_id))
          db.associations
    raise_if (is_some existing)
        (already_exists "NGACAssociation" (arrow a.user_attribute_id a.object_attribute_id))
    command
        λ db. (a.association_id, record db { associations = mongo.insert_one a db.associations })

  unfoldable pub update_association : Association → Exec World Bool
  update_association a = do
    matched ← command λ db.
        let (found, rest) =
          mongo.replace_one (is_association a.account_id a.association_id) a db.associations in
        (found, record db { associations = rest })
    raise_if (not matched) (not_found "NGACAssociation" a.association_id)
    pure true

  unfoldable pub find_association : String → String → Exec World (Option Association)
  find_association account_id association_id =
      query λ db. mongo.find_one (is_association account_id association_id) db.associations

  unfoldable pub remove_association : String → String → Exec World Bool
  remove_association account_id association_id = do
    deleted ← command λ db.
        let (found, rest) =
          mongo.delete_one (is_association account_id association_id) db.associations in
        (found, record db { associations = rest })
    raise_if (not deleted) (not_found "NGACAssociation" association_id)
    pure true

  unfoldable pub list_associations : String → Exec World (List Association)
  list_associations account_id =
      query λ db. mongo.find (λ a. a.account_id == account_id) db.associations

  -- three reads, one after the other
  unfoldable pub load_graph_data :
      String → Exec World (List Node × List Assignment × List Association)
  unfolding list_nodes list_assignments list_associations
  load_graph_data account_id = do
    nodes ← list_nodes account_id none
    assignments ← list_assignments account_id
    associations ← list_associations account_id
    pure (nodes, assignments, associations)
