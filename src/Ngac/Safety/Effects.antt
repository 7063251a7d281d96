-- ===== src/Ngac/Safety/Effects.antt =====
-- What the operations on edges, and the deletion of a node, leave in the database.
use xolo_api.Base.{
  String, ◌+◌, ◌≡◌, ◌⊎◌, Bool, true, false, ◌||◌, List, [], ◌∷◌, none, some, elem, ◌==◌, arith,
}
use xolo_api.Exec.{ok, ◌>>=◌}
use xolo_api.Platform.Collections.{find_first}
use xolo_api.Platform.Mongo.{Mongo}
use xolo_api.Platform.Text.{Unicode}
use xolo_api.World.{Database, World, IsCalm, query, command}
use xolo_api.Ngac.Types.{Node, Assignment, Association}
use xolo_api.Ngac.Graph.{new_graph, upward_closure}
use xolo_api.Ngac.Repository.{
  is_node, is_assignment, is_association, assignment_touches, association_touches,
}
use xolo_api.Ngac.Service.{
  owns, normalized, assign, remove_assignment, associate, update_association, remove_association,
  delete_node,
}
use xolo_api.Ngac.Invariant.{IsPlaced, IsJoined, of_account}
use xolo_api.Ngac.Invariant.Nodes.{without_node}
use xolo_api.Ngac.Invariant.Edges.{
  with_assignment, without_assignment, with_association, without_association, replace_association,
}

abbrev pub new_assignment : String → String → String → String → String → Assignment
new_assignment account_id fresh from_id to_id owner_id = record {
  account_id = account_id;
  assignment_id = fresh;
  from_id = from_id;
  to_id = to_id;
  owner_id = owner_id;
}

module _ ⦃mongo : Mongo⦄ ⦃unicode : Unicode⦄ (users acl : Bool) where
  -- the closure that the cycle test looks at
  abbrev pub closure_of : Database → String → String → List String
  closure_of db account_id node_id =
      upward_closure
        (new_graph unicode.lower (mongo.find (λ n. n.account_id == account_id) db.nodes)
          (mongo.find (of_account account_id) db.assignments)
          (mongo.find (λ s. s.account_id == account_id) db.associations))
        node_id

  pub assign_effect :
      (account_id fresh from_id to_id owner_id : String) (is_admin : Bool) (w : World)
      → let a = new_assignment account_id fresh from_id to_id owner_id in
        let db' = (assign users acl account_id fresh from_id to_id owner_id is_admin w).1.db in
        (db' ≡ w.db)
        ⊎ (IsPlaced w.db a
            × (elem from_id (closure_of w.db account_id to_id) ≡ false)
            × (db' ≡ with_assignment a w.db))
  unfolding assign query command ◌>>=◌
  assign_effect account_id fresh from_id to_id owner_id is_admin w =
      let a = new_assignment account_id fresh from_id to_id owner_id in
      ground (
        arith,
        mongo.find_one_law (is_node account_id from_id) w.db.nodes,
        mongo.find_one_law (is_node account_id to_id) w.db.nodes,
        mongo.insert_one_law a w.db.assignments,
      )

  pub remove_assignment_effect :
      (account_id from_id to_id requester_key : String) (is_admin : Bool) (w : World)
      → let db' =
          (remove_assignment users acl account_id from_id to_id requester_key is_admin w).1.db in
        (db' ≡ w.db) ⊎ (db' ≡ without_assignment (is_assignment account_id from_id to_id) w.db)
  unfolding remove_assignment query command ◌>>=◌
  remove_assignment_effect account_id from_id to_id requester_key is_admin w =
      ground (arith, mongo.delete_one_law (is_assignment account_id from_id to_id) w.db.assignments)

  pub associate_effect :
      (account_id fresh ua oa : String) (operations : List String) (owner_id : String)
      (is_admin : Bool) (w : World)
      → let s : Association = record {
        account_id = account_id;
        association_id = fresh;
        user_attribute_id = ua;
        object_attribute_id = oa;
        operations = normalized users acl operations;
        owner_id = owner_id;
      } in
        let db' =
          (associate users acl account_id fresh ua oa operations owner_id is_admin w).1.db in
        (db' ≡ w.db) ⊎ (IsJoined w.db s × (db' ≡ with_association s w.db))
  unfolding associate query command ◌>>=◌
  associate_effect account_id fresh ua oa operations owner_id is_admin w =
      let s : Association = record {
        account_id = account_id;
        association_id = fresh;
        user_attribute_id = ua;
        object_attribute_id = oa;
        operations = normalized users acl operations;
        owner_id = owner_id;
      } in
      ground (
        arith,
        mongo.find_one_law (is_node account_id ua) w.db.nodes,
        mongo.find_one_law (is_node account_id oa) w.db.nodes,
        mongo.insert_one_law s w.db.associations,
      )

  pub remove_association_effect :
      (account_id association_id requester_key : String) (is_admin : Bool) (w : World)
      → let db' =
          (remove_association users acl account_id association_id requester_key is_admin w).1.db in
        (db' ≡ w.db) ⊎ (db' ≡ without_association (is_association account_id association_id) w.db)
  unfolding remove_association query command ◌>>=◌
  remove_association_effect account_id association_id requester_key is_admin w =
      ground
        (arith, mongo.delete_one_law (is_association account_id association_id) w.db.associations)

  -- A deletion without an outage ends in an error that leaves the database alone, or takes the
  -- node and all of its edges.
  pub delete_node_effect :
      (account_id node_id requester_key : String) (is_admin : Bool) (w : World)
      → IsCalm w
      → let db' = (delete_node users acl account_id node_id requester_key is_admin w).1.db in
        (db' ≡ w.db) ⊎ (db' ≡ without_node account_id node_id w.db)
  unfolding delete_node query command ◌>>=◌
  delete_node_effect account_id node_id requester_key is_admin w calm = ground (
    arith,
    mongo.find_one_law (is_node account_id node_id) w.db.nodes,
    mongo.delete_one_law (is_node account_id node_id) w.db.nodes,
    mongo.delete_many_law (assignment_touches account_id (node_id ∷ [])) w.db.assignments,
    mongo.delete_many_law (association_touches account_id (node_id ∷ [])) w.db.associations,
    calm w.calls,
    calm (w.calls + 1),
    calm (w.calls + 1 + 1),
    calm (w.calls + 1 + 1 + 1),
  )

  pub update_association_effect :
      (account_id association_id : String) (operations : List String) (requester_key : String)
      (is_admin : Bool) (w : World) (s : Association)
      → find_first (is_association account_id association_id) w.db.associations ≡ some s
      → let updated = record s { operations = normalized users acl operations } in
        let db' =
          (update_association users acl account_id association_id operations requester_key is_admin
            w).1.db in
        (db' ≡ w.db)
        ⊎ (db' ≡ replace_association (is_association s.account_id s.association_id) updated w.db)
  unfolding update_association query command ◌>>=◌
  update_association_effect account_id association_id operations requester_key is_admin w s found =
      ground (
        arith,
        mongo.find_one_law (is_association account_id association_id) w.db.associations,
        mongo.replace_one_law (is_association s.account_id s.association_id)
            (record s { operations = normalized users acl operations }) w.db.associations,
      )

  pub update_association_missing :
      (account_id association_id : String) (operations : List String) (requester_key : String)
      (is_admin : Bool) (w : World)
      → find_first (is_association account_id association_id) w.db.associations ≡ none
      → (update_association users acl account_id association_id operations requester_key is_admin
          w).1.db
        ≡ w.db
  unfolding update_association query command ◌>>=◌
  update_association_missing account_id association_id operations requester_key is_admin w absent =
      ground
        (arith, mongo.find_one_law (is_association account_id association_id) w.db.associations)

  -- Without an outage, the deletion of a node that exists, by an administrator or by one who owns it,
  -- succeeds and takes the node and all of its edges, and nothing else.
  pub delete_node-without_node :
      (account_id node_id requester_key : String) (is_admin : Bool) (node : Node) (w : World)
      → IsCalm w
      → find_first (is_node account_id node_id) w.db.nodes ≡ some node
      → (is_admin || owns requester_key node.owner_id) ≡ true
      → let r = delete_node users acl account_id node_id requester_key is_admin w in
        (r.0 ≡ ok true) × (r.1.db ≡ without_node account_id node_id w.db)
  unfolding delete_node query command ◌>>=◌
  delete_node-without_node account_id node_id requester_key is_admin node w calm found may =
      ground (
        arith,
        found,
        may,
        mongo.find_one_law (is_node account_id node_id) w.db.nodes,
        mongo.delete_one_law (is_node account_id node_id) w.db.nodes,
        mongo.delete_many_law (assignment_touches account_id (node_id ∷ [])) w.db.assignments,
        mongo.delete_many_law (association_touches account_id (node_id ∷ [])) w.db.associations,
        calm w.calls,
        calm (w.calls + 1),
        calm (w.calls + 1 + 1),
        calm (w.calls + 1 + 1 + 1),
      )
