-- ===== src/Ngac/Service.antt =====
-- `NGACService` of xoloapi/ngac/application/ngac_service.py. A fresh id is an argument (`generate`
-- of `nanoid`), and so is whether the service was built with the repositories of users and of
-- resource policies (`users`, `acl`).

use xolo_api.Base.{
  String, Bool, not, ◌&&◌, ◌||◌, List, [], ◌∷◌, map, any, filter, Option, none, some, elem,
  is_empty, ◌==◌, if◌then◌else◌,
}
use Prim.Native.String.{◌++◌ as concat}
use xolo_api.Errors.{not_found, access_denied, validation, conflict}
use xolo_api.Exec.{Exec, pure, or_raise, raise_if, ◌>>=◌, ◌>>◌}
use xolo_api.Platform.Collections.{is_some}
use xolo_api.Platform.Mongo.{Mongo}
use xolo_api.Platform.Text.{Unicode, strip}
use xolo_api.World.{World, query}
use xolo_api.Users.Resolution.{resolve_user_identifier}
use xolo_api.Ngac.Types.{
  NodeType, user, object, user_attribute, object_attribute, same_type, type_name, type_value,
  valid_assignment_targets, Node, Assignment, Association,
}
use xolo_api.Ngac.Graph.{Graph, new_graph, upward_closure, check}
use xolo_api.Ngac.Repository as Repo
use xolo_api.Ngac.Repository.{truthy, or_empty, arrow}

-- `_owns`: an element without an owner belongs to everybody
unfoldable pub owns : String → String → Bool
owns owner_id node_owner = node_owner == "" || node_owner == owner_id

-- `a or b` on optional texts
abbrev pub or_else : Option String → Option String → Option String
or_else a b = if truthy a then a else b

-- `t in allowed_targets`
abbrev pub type_in : NodeType → List NodeType → Bool
type_in t ts = any (same_type t) ts

-- the values of a list of types, as Python prints the list
abbrev listed : List NodeType → String
listed [] = ""
listed (t ∷ ts) =
    concat "'" (concat (type_value t) (concat (if is_empty ts then "'" else "', ") (listed ts)))

-- the message of `assign`; Python prints the set of allowed targets in an order of its own
unfoldable pub not_assignable : NodeType → NodeType → String
not_assignable from to = concat "Cannot assign " (
    concat (type_name from) (
      concat " → " (
        concat (type_name to)
          (concat ". Allowed targets: [" (concat (listed (valid_assignment_targets from)) "]")))))

-- `list(dict.fromkeys(xs))`
unfoldable pub without_repeats : List String → List String → List String
without_repeats seen [] = []
without_repeats seen (x ∷ xs) =
    let rest = without_repeats (x ∷ seen) xs in
    let same = without_repeats seen xs in if elem x seen then same else x ∷ rest

module _ ⦃mongo : Mongo⦄ ⦃unicode : Unicode⦄ (users acl : Bool) where
  unfoldable pub normalized : List String → List String
  unfolding without_repeats
  normalized operations =
      without_repeats []
        (map (λ op. unicode.lower (strip op)) (filter (λ op. not (strip op == "")) operations))

  -- the resource exists, where the service can look
  unfoldable pub policy_exists : String → Option String → Exec World (Unit {0})
  policy_exists account_id resource_id =
      if truthy resource_id && acl
      then (do
        found ← query λ db.
            mongo.find_one
              (λ p. p.account_id == account_id && p.resource_id == or_empty resource_id) db.policies
        raise_if (not (is_some found)) (not_found "ResourcePolicy" (or_empty resource_id)))
      else pure tt

  -- the key of the tenant user that an identifier names, where the service can look
  unfoldable pub bound_user : String → Option String → Exec World (Option String)
  bound_user account_id identifier = do
    resolved ← resolve_user_identifier account_id (or_empty identifier)
    pure (some resolved.user_id)

  -- the same if there is an identifier, and another binding if there is none
  unfoldable pub user_or : String → Option String → Option String → Exec World (Option String)
  unfolding bound_user
  user_or account_id identifier other =
      if truthy identifier && users then bound_user account_id identifier else pure other

  unfoldable pub create_node :
      String
      → String
      → NodeType
      → String
      → List (String × String)
      → String
      → Option String
      → Option String
      → Option String
      → Exec World String
  unfolding Repo.create_node policy_exists user_or
  create_node account_id fresh node_type name properties owner_id user_id user_identifier
        resource_id =
      do
        let identifier = or_else user_identifier user_id
        raise_if (truthy identifier && not (same_type node_type user))
            (validation "Only USER nodes may bind to tenant users")
        raise_if (truthy resource_id && not (same_type node_type object))
            (validation "Only OBJECT nodes may bind to resources")
        key ← user_or account_id identifier user_id
        policy_exists account_id resource_id
        Repo.create_node (record {
          account_id = account_id;
          node_id = fresh;
          node_type = node_type;
          name = name;
          properties = properties;
          owner_id = owner_id;
          user_id = key;
          resource_id = resource_id;
        })

  unfoldable pub get_node : String → String → Exec World Node
  unfolding Repo.find_node
  get_node account_id node_id = do
    found ← Repo.find_node account_id node_id
    or_raise found (not_found "NGACNode" node_id)

  -- `if name is not None: ...`
  unfoldable pub rename : Option String → Node → Exec World Node
  rename none node = pure node
  rename (some name) node = do
    raise_if (strip name == "") (validation "Node name cannot be empty")
    pure (record node { name = strip name })

  -- `if properties is not None: ...`
  unfoldable pub set_properties : Option (List (String × String)) → Node → Node
  set_properties none node = node
  set_properties (some properties) node = record node { properties = properties }

  -- `user_identifier if user_identifier is not None else user_id`
  unfoldable pub first_given : Option String → Option String → Option String
  first_given none b = b
  first_given (some a) b = some a

  -- `if user_binding_set: ...`
  unfoldable pub bind_user : String → Bool → Option String → Node → Exec World Node
  unfolding user_or
  bind_user account_id user_binding_set identifier node =
      if user_binding_set
      then (do
        raise_if (not (same_type node.node_type user))
            (validation "Only USER nodes may bind to tenant users")
        key ← user_or account_id identifier none
        pure (record node { user_id = key }))
      else pure node

  -- `if resource_id is not None: ...`
  unfoldable pub bind_resource : String → Option String → Node → Exec World Node
  unfolding policy_exists
  bind_resource account_id none node = pure node
  bind_resource account_id (some resource_id) node = do
    raise_if (not (same_type node.node_type object))
        (validation "Only OBJECT nodes may bind to resources")
    policy_exists account_id (some resource_id)
    pure (record node { resource_id = (if resource_id == "" then none else some resource_id) })

  -- `user_binding_set`, which defaults to whether an identifier is given
  unfoldable pub binding_given : Option Bool → Option String → Option String → Bool
  binding_given none user_id user_identifier = is_some user_id || is_some user_identifier
  binding_given (some b) user_id user_identifier = b

  unfoldable pub update_node :
      String
      → String
      → Option String
      → Option (List (String × String))
      → Option String
      → Option String
      → Option Bool
      → Option String
      → String
      → Bool
      → Exec World Node
  unfolding get_node rename set_properties first_given bind_user bind_resource binding_given
      Repo.update_node
  update_node account_id node_id name properties user_id user_identifier user_binding_set
        resource_id requester_key is_admin =
      do
        node ← get_node account_id node_id
        raise_if (not is_admin && not (owns requester_key node.owner_id))
            (access_denied (concat "Node '" (concat node_id "' is owned by another user")))
        renamed ← rename name node
        let described = set_properties properties renamed
        bound ←
            bind_user account_id (binding_given user_binding_set user_id user_identifier)
              (first_given user_identifier user_id) described
        updated ← bind_resource account_id resource_id bound
        Repo.update_node updated
        pure updated

  unfoldable pub delete_node : String → String → String → Bool → Exec World Bool
  unfolding get_node Repo.delete_node
  delete_node account_id node_id requester_key is_admin = do
    node ← get_node account_id node_id
    raise_if (not is_admin && not (owns requester_key node.owner_id))
        (access_denied (concat "Node '" (concat node_id "' is owned by another user")))
    Repo.delete_node account_id node_id

  unfoldable pub load_graph : String → Exec World Graph
  unfolding Repo.load_graph_data
  load_graph account_id = do
    snapshot ← Repo.load_graph_data account_id
    let (nodes, assignments, associations) = snapshot
    pure (new_graph unicode.lower nodes assignments associations)

  unfoldable pub assign : String → String → String → String → String → Bool → Exec World String
  unfolding get_node load_graph Repo.create_assignment
  assign account_id fresh from_id to_id owner_id is_admin = do
    from_node ← get_node account_id from_id
    to_node ← get_node account_id to_id
    raise_if (not (type_in to_node.node_type (valid_assignment_targets from_node.node_type)))
        (validation (not_assignable from_node.node_type to_node.node_type))
    raise_if (not is_admin && not (owns owner_id to_node.owner_id))
        (access_denied (concat "Target node '" (concat to_id "' is owned by another user")))
    graph ← load_graph account_id
    raise_if (elem from_id (upward_closure graph to_id))
        (conflict "Assignment would create a cycle")
    Repo.create_assignment (record {
      account_id = account_id;
      assignment_id = fresh;
      from_id = from_id;
      to_id = to_id;
      owner_id = owner_id;
    })

  unfoldable pub remove_assignment : String → String → String → String → Bool → Exec World Bool
  unfolding Repo.find_assignment Repo.remove_assignment
  remove_assignment account_id from_id to_id requester_key is_admin = do
    found ← Repo.find_assignment account_id from_id to_id
    assignment ← or_raise found (not_found "NGACAssignment" (arrow from_id to_id))
    raise_if (not is_admin && not (owns requester_key assignment.owner_id))
        (access_denied "Assignment is owned by another user")
    Repo.remove_assignment account_id from_id to_id

  unfoldable pub associate :
      String → String → String → String → List String → String → Bool → Exec World String
  unfolding get_node normalized Repo.create_association
  associate account_id fresh user_attribute_id object_attribute_id operations owner_id is_admin = do
    ua_node ← get_node account_id user_attribute_id
    oa_node ← get_node account_id object_attribute_id
    raise_if (not (same_type ua_node.node_type user_attribute))
        (validation "Source node must be of type 'user_attribute'")
    raise_if (not (same_type oa_node.node_type object_attribute))
        (validation "Target node must be of type 'object_attribute'")
    raise_if (not is_admin && not (owns owner_id ua_node.owner_id)) (
        access_denied
          (concat "UserAttribute '" (concat user_attribute_id "' is owned by another user")))
    raise_if (is_empty (normalized operations))
        (validation "operations must contain at least one non-empty operation")
    Repo.create_association (record {
      account_id = account_id;
      association_id = fresh;
      user_attribute_id = user_attribute_id;
      object_attribute_id = object_attribute_id;
      operations = normalized operations;
      owner_id = owner_id;
    })

  unfoldable pub update_association :
      String → String → List String → String → Bool → Exec World Association
  unfolding normalized Repo.find_association Repo.update_association
  update_association account_id association_id operations requester_key is_admin = do
    found ← Repo.find_association account_id association_id
    association ← or_raise found (not_found "NGACAssociation" association_id)
    raise_if (not is_admin && not (owns requester_key association.owner_id))
        (access_denied "Association is owned by another user")
    raise_if (is_empty (normalized operations))
        (validation "operations must contain at least one non-empty operation")
    let updated = record association { operations = normalized operations }
    Repo.update_association updated
    pure updated

  unfoldable pub remove_association : String → String → String → Bool → Exec World Bool
  unfolding Repo.find_association Repo.remove_association
  remove_association account_id association_id requester_key is_admin = do
    found ← Repo.find_association account_id association_id
    association ← or_raise found (not_found "NGACAssociation" association_id)
    raise_if (not is_admin && not (owns requester_key association.owner_id))
        (access_denied "Association is owned by another user")
    Repo.remove_association account_id association_id

  -- the edges that the cascade of a deletion would take
  unfoldable pub deletion_impact : String → String → Exec World (List Assignment × List Association)
  unfolding Repo.load_graph_data
  deletion_impact account_id node_id = do
    snapshot ← Repo.load_graph_data account_id
    let (nodes, assignments, associations) = snapshot
    raise_if (not (any (λ (n : Node). n.node_id == node_id) nodes)) (not_found "NGACNode" node_id)
    pure (
      filter (λ (a : Assignment). node_id == a.from_id || node_id == a.to_id) assignments,
      filter
          (λ (a : Association). node_id == a.user_attribute_id || node_id == a.object_attribute_id)
          associations,
    )

  unfoldable pub check_access : String → String → String → String → Exec World (Bool × String)
  unfolding load_graph
  check_access account_id user_id object_id operation = do
    graph ← load_graph account_id
    pure (check unicode.lower graph user_id object_id operation)
