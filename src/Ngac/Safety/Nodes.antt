-- ===== src/Ngac/Safety/Nodes.antt =====
-- The operations on nodes keep the policy graph well formed; a deletion does if no outage strikes
-- in the middle of its cascade.
use xolo_api.Base.{
  String, ◌≡◌, refl, sym, ◌∙◌, eq_iff, and_left, and_right, ◌⊎◌, inl, inr, Bool, true, false, List,
  Option, none, some, ◌==◌, arith,
}
use xolo_api.Exec.{◌>>=◌}
use xolo_api.Platform.Collections.{find_first-fits}
use xolo_api.Platform.Mongo.{Mongo}
use xolo_api.Platform.Text.{Unicode}
use xolo_api.World.{Database, World, IsCalm, query, query_uncaught, command}
use xolo_api.World.Rules.{
  Runs, Runs-pure, Runs-or_raise, Runs-query, Runs-keep, Runs-read, Runs-left, Runs-check,
  Runs-fixed, Runs-from, Runs-bind,
}
use xolo_api.Ngac.Types.{NodeType, Node}
use xolo_api.Ngac.Repository as Repo
use xolo_api.Ngac.Repository.{is_node}
use xolo_api.Users.Resolution.{resolve_user_identifier}
use xolo_api.Ngac.Service.{
  policy_exists, or_else, user_or, get_node, rename, set_properties, first_given, bind_user,
  bind_resource, create_node, update_node, delete_node,
}
use xolo_api.Ngac.Invariant.{node_at, IsWellFormed}
use xolo_api.Ngac.Invariant.Nodes.{
  with_node, replace_node, IsWellFormed-with_node, IsWellFormed-replace_node,
  IsWellFormed-without_node,
}
use xolo_api.Ngac.Safety.Effects.{delete_node_effect}

module _ ⦃mongo : Mongo⦄ ⦃unicode : Unicode⦄ (users acl : Bool) where
  -- Without an outage, a deletion takes the edges of the node along with it.
  pub delete_node-IsWellFormed :
      (account_id node_id requester_key : String) (is_admin : Bool) (w : World)
      → IsCalm w
      → IsWellFormed w.db
      → IsWellFormed (delete_node users acl account_id node_id requester_key is_admin w).1.db
  delete_node-IsWellFormed account_id node_id requester_key is_admin w calm h =
      elim (delete_node_effect users acl account_id node_id requester_key is_admin w calm) [
        | inl same ↦ rw same h
        | inr e ↦ rw e (IsWellFormed-without_node account_id node_id w.db h)
      ]

  create_effect :
      (node : Node) (w : World)
      → let db' = (Repo.create_node node w).1.db in (db' ≡ w.db) ⊎ (db' ≡ with_node node w.db)
  unfolding Repo.create_node query command ◌>>=◌
  create_effect node w = ground (arith, mongo.insert_one_law node w.db.nodes)

  create_kept :
      (node : Node) (w : World) → IsWellFormed w.db → IsWellFormed (Repo.create_node node w).1.db
  create_kept node w h = elim (create_effect node w) [
    | inl same ↦ rw same h
    | inr e ↦ rw e (IsWellFormed-with_node node w.db h)
  ]

  update_effect :
      (node : Node) (w : World)
      → let db' = (Repo.update_node node w).1.db in (db' ≡ w.db) ⊎ (db' ≡ replace_node node w.db)
  unfolding Repo.update_node query command ◌>>=◌
  update_effect node w =
      ground (arith, mongo.replace_one_law (is_node node.account_id node.node_id) node w.db.nodes)

  policy_exists_reads :
      (account_id : String) (resource_id : Option String) (w : World)
      → (policy_exists users acl account_id resource_id w).1.db ≡ w.db
  unfolding policy_exists query ◌>>=◌
  policy_exists_reads account_id resource_id w = ground arith

  user_or_reads :
      (account_id : String) (identifier other : Option String) (w : World)
      → (user_or users acl account_id identifier other w).1.db ≡ w.db
  unfolding user_or resolve_user_identifier query_uncaught ◌>>=◌
  user_or_reads account_id identifier other w = ground arith

  -- `create_node` keeps the graph well formed, wherever it stops.
  pub create_node-IsWellFormed :
      (account_id fresh : String) (node_type : NodeType) (name : String)
      (properties : List (String × String)) (owner_id : String)
      (user_id user_identifier resource_id : Option String) (w : World)
      → IsWellFormed w.db
      → IsWellFormed
          (create_node users acl account_id fresh node_type name properties owner_id user_id
            user_identifier resource_id w).1.db
  unfolding create_node
  create_node-IsWellFormed account_id fresh node_type name properties owner_id user_id
        user_identifier resource_id =
      Runs-left _ (
        Runs-bind _ _ _ (Runs-check _ _ (λ db h. h)) λ _.
          Runs-bind _ _ _ (Runs-check _ _ (λ db h. h)) λ _.
            Runs-bind _ _ _
              (Runs-read _ (user_or_reads account_id (or_else user_identifier user_id) user_id))
              λ key.
                Runs-bind _ _ _ (Runs-read _ (policy_exists_reads account_id resource_id))
                  λ _. Runs-keep _ (create_kept _))

  -- a node in hand stands for one of the database, of the same type
  abbrev StandsFor : Node → Database → Type 0
  StandsFor m db =
      IsWellFormed db
      × ((old : Node) × (node_at db m.account_id m.node_id ≡ some old)
          × (m.node_type ≡ old.node_type))

  get_node_stands :
      (account_id node_id : String)
      → Runs IsWellFormed (get_node users acl account_id node_id) StandsFor IsWellFormed
  unfolding get_node Repo.find_node
  get_node_stands account_id node_id =
      Runs-bind (λ found db. IsWellFormed db × (found ≡ node_at db account_id node_id)) _ _
        (Runs-query _ (λ db h. (h, mongo.find_one_law (is_node account_id node_id) db.nodes))
          (λ db h. h))
        λ found.
          Runs-or_raise _ _ (λ db h. h.0)
            λ n e db h.
              let at_place : node_at db account_id node_id ≡ some n = sym h.1 ∙ e in
              let fits = find_first-fits (is_node account_id node_id) n db.nodes at_place in
              let ea =
                (eq_iff n.account_id account_id).0 (and_left _ (n.node_id == node_id) fits) in
              let ei =
                (eq_iff n.node_id node_id).0 (and_right (n.account_id == account_id) _ fits) in
              (h.0, (n, simp (ea, ei) at_place, refl))

  rename_stands :
      (name : Option String) (n : Node)
      → Runs (StandsFor n) (rename users acl name n) StandsFor IsWellFormed
  unfolding rename
  rename_stands none n = Runs-pure _ (λ db h. h)
  rename_stands (some name) n =
      Runs-bind _ _ _ (Runs-check _ _ (λ db h. h.0)) λ _. Runs-pure _ (λ db h. h)

  describe_stands :
      (properties : Option (List (String × String))) (n : Node) (db : Database)
      → StandsFor n db
      → StandsFor (set_properties users acl properties n) db
  unfolding set_properties
  describe_stands none n db h = h
  describe_stands (some properties) n db h = h

  bind_user_stands :
      (account_id : String) (set : Bool) (identifier : Option String) (n : Node)
      → Runs (StandsFor n) (bind_user users acl account_id set identifier n) StandsFor IsWellFormed
  unfolding bind_user
  bind_user_stands account_id true identifier n =
      Runs-bind _ _ _ (Runs-check _ _ (λ db h. h.0)) λ _.
        Runs-bind _ _ _ (Runs-fixed _ (user_or_reads account_id identifier none) (λ db h. h.0))
          λ key. Runs-pure _ (λ db h. h)
  bind_user_stands account_id false identifier n = Runs-pure _ (λ db h. h)

  bind_resource_stands :
      (account_id : String) (resource_id : Option String) (n : Node)
      → Runs (StandsFor n) (bind_resource users acl account_id resource_id n) StandsFor IsWellFormed
  unfolding bind_resource
  bind_resource_stands account_id none n = Runs-pure _ (λ db h. h)
  bind_resource_stands account_id (some resource_id) n =
      Runs-bind _ _ _ (Runs-check _ _ (λ db h. h.0)) λ _.
        Runs-bind _ _ _
          (Runs-fixed _ (policy_exists_reads account_id (some resource_id)) (λ db h. h.0))
          λ _. Runs-pure _ (λ db h. h)

  save_stands :
      (n : Node) → Runs (StandsFor n) (Repo.update_node n) (λ _. IsWellFormed) IsWellFormed
  save_stands n = Runs-keep (Repo.update_node n) λ w h. elim (update_effect n w) [
    | inl same ↦ rw same h.0
    | inr e ↦
        let (wf, (old, there, same_kind)) = h in
        rw e (IsWellFormed-replace_node old n w.db there same_kind wf)
  ]

  -- `update_node` keeps the graph well formed, wherever it stops: no update changes the type or the
  -- place of a node.
  pub update_node-IsWellFormed :
      (account_id node_id : String) (name : Option String)
      (properties : Option (List (String × String))) (user_id user_identifier : Option String)
      (user_binding_set : Option Bool) (resource_id : Option String) (requester_key : String)
      (is_admin : Bool) (w : World)
      → IsWellFormed w.db
      → IsWellFormed
          (update_node users acl account_id node_id name properties user_id user_identifier
            user_binding_set resource_id requester_key is_admin w).1.db
  unfolding update_node
  update_node-IsWellFormed account_id node_id name properties user_id user_identifier
        user_binding_set resource_id requester_key is_admin =
      Runs-left _ (
        Runs-bind _ _ _ (get_node_stands account_id node_id) λ node.
          Runs-bind _ _ _ (Runs-check _ _ (λ db h. h.0)) λ _.
            Runs-bind _ _ _ (rename_stands name node) λ renamed.
              Runs-bind _ _ _
                (Runs-from (describe_stands properties renamed) (
                  bind_user_stands account_id _ (first_given users acl user_identifier user_id)
                    (set_properties users acl properties renamed)))
                λ bound.
                  Runs-bind _ _ _ (bind_resource_stands account_id resource_id bound)
                    λ updated. Runs-bind _ _ _ (save_stands updated) λ _. Runs-pure _ (λ db h. h))
