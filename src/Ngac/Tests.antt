-- ===== src/Ngac/Tests.antt =====
-- A small policy graph, built by requests, and runs of the properties on it.
use xolo_api.Base.{String, ◌≡◌, refl, ◌↔◌, true, false, List, [], ◌∷◌, none, elem}
use xolo_api.Exec.{ok}
use xolo_api.Platform.Mongo.{in_memory}
use xolo_api.Platform.Text.{caseless}
use xolo_api.World.{Database, empty, World}
use xolo_api.Traversal.Reach.{Reach}
use xolo_api.Traversal.Correct.{edge}
use xolo_api.Ngac.Types.{
  user, object, user_attribute, object_attribute, policy_class, NodeType, Node, Assignment,
  Association,
}
use xolo_api.Ngac.Graph.{Graph, new_graph, upward_closure, check}
use xolo_api.Ngac.Graph.Check.{Governs, Permits, check_iff}
use xolo_api.Ngac.Graph.Closure.{
  assigned, edge-new_graph, upward_closure_decides, memo_closure, IsCoherent,
  memo_closure_transparent,
}
use xolo_api.Ngac.Invariant.{IsWellFormed}
use xolo_api.Ngac.Service.{delete_node}
use xolo_api.Ngac.Invariant.Nodes.{without_node}
use xolo_api.Ngac.Safety.Effects.{delete_node-without_node}
use xolo_api.Ngac.Requests as Requests
use xolo_api.Ngac.Requests.{Request, handle, Reached, start, next, Reached-IsWellFormed}

abbrev node : String → NodeType → Node
node id type = record {
  account_id = "acme";
  node_id = id;
  node_type = type;
  name = id;
  properties = [];
  owner_id = "";
  user_id = none;
  resource_id = none;
}

abbrev into : String → String → Assignment
into from to = record {
  account_id = "acme";
  assignment_id = from;
  from_id = from;
  to_id = to;
  owner_id = "";
}

abbrev ward : Association
ward = record {
  account_id = "acme";
  association_id = "s";
  user_attribute_id = "staff";
  object_attribute_id = "charts";
  operations = "read" ∷ [];
  owner_id = "";
}

-- alice in staff, chart in charts, both attributes in the policy class hospital
abbrev hospital_nodes : List Node
hospital_nodes =
    node "alice" user
    ∷ node "chart" object
    ∷ node "staff" user_attribute
    ∷ node "charts" object_attribute
    ∷ node "hospital" policy_class
    ∷ []

abbrev hospital_edges : List Assignment
hospital_edges =
    into "alice" "staff"
    ∷ into "chart" "charts"
    ∷ into "staff" "hospital"
    ∷ into "charts" "hospital"
    ∷ []

abbrev hospital : Graph
hospital = new_graph (λ s. s) hospital_nodes hospital_edges (ward ∷ [])

read_granted : check (λ s. s) hospital "alice" "chart" "read" ≡ (true, "Access granted")
unfolding check xolo_api.Ngac.Graph.check_governed xolo_api.Ngac.Graph.governing upward_closure
    xolo_api.Traversal.Loop.walk new_graph xolo_api.Ngac.Graph.add_edge xolo_api.Ngac.Graph.has_type
    xolo_api.Ngac.Types.same_type xolo_api.Ngac.Graph.check_classes xolo_api.Ngac.Graph.permits
    xolo_api.Ngac.Graph.granted xolo_api.Ngac.Graph.attributes xolo_api.Ngac.Graph.build_assoc
read_granted = refl

write_denied :
    check (λ s. s) hospital "alice" "chart" "write" ≡ (false, "Denied by policy class 'hospital'")
unfolding check xolo_api.Ngac.Graph.check_governed xolo_api.Ngac.Graph.governing upward_closure
    xolo_api.Traversal.Loop.walk new_graph xolo_api.Ngac.Graph.add_edge xolo_api.Ngac.Graph.has_type
    xolo_api.Ngac.Types.same_type xolo_api.Ngac.Graph.check_classes xolo_api.Ngac.Graph.permits
    xolo_api.Ngac.Graph.granted xolo_api.Ngac.Graph.attributes xolo_api.Ngac.Graph.build_assoc
write_denied = refl

check_iff_example : ((check (λ s. s) hospital "alice" "chart" "read").0 ≡ true) ↔ (
    ((pc : String) × Governs hospital pc "chart")
    × ((pc : String) → Governs hospital pc "chart" → Permits hospital "alice" "chart" "read" pc))
check_iff_example = check_iff (λ s. s) hospital "alice" "chart" "read"

upward_closure_decides_example :
    (elem "hospital" (upward_closure hospital "alice") ≡ true)
    ↔ Reach (edge hospital.parents) ("alice" ∷ []) "hospital"
upward_closure_decides_example = upward_closure_decides hospital "alice" "hospital"

edge-new_graph_example :
    edge hospital.parents "alice" "staff" ≡ assigned hospital_edges "alice" "staff"
edge-new_graph_example =
    edge-new_graph (λ s. s) hospital_nodes hospital_edges (ward ∷ []) "alice" "staff"

empty_memo : IsCoherent hospital []
empty_memo k c e = absurd (cc e)

memo_closure_transparent_example :
    ((memo_closure hospital [] "alice").0 ≡ upward_closure hospital "alice")
    × IsCoherent hospital (memo_closure hospital [] "alice").1
memo_closure_transparent_example = memo_closure_transparent hospital [] "alice" empty_memo

abbrev before : World
before = record { db = empty; calls = 0; outage = λ _. false }

abbrev add_alice : Request
add_alice = Requests.create_node "acme" "n1" user "alice" [] "" none none none

abbrev add_staff : Request
add_staff = Requests.create_node "acme" "n2" user_attribute "staff" [] "" none none none

abbrev join_staff : Request
join_staff = Requests.assign "acme" "a1" "n1" "n2" "" true

abbrev drop_alice : Request
drop_alice = Requests.delete_node "acme" "n1" "" true

abbrev step : Request → World → World
step r w = handle ⦃mongo = in_memory⦄ ⦃unicode = caseless⦄ true true r w

abbrev with_alice : World
with_alice = step add_alice before

abbrev with_staff : World
with_staff = step add_staff with_alice

abbrev joined : World
joined = step join_staff with_staff

abbrev joined_assignments : List Assignment
joined_assignments =
    record {
      account_id = "acme";
      assignment_id = "a1";
      from_id = "n1";
      to_id = "n2";
      owner_id = "";
    }
    ∷ []

joined_has_one : joined.db.assignments ≡ joined_assignments
unfolding handle xolo_api.Ngac.Service.assign xolo_api.Exec.◌>>=◌ xolo_api.World.query
    xolo_api.Ngac.Service.create_node xolo_api.World.command
    xolo_api.Ngac.Types.valid_assignment_targets xolo_api.Ngac.Types.same_type upward_closure
    xolo_api.Traversal.Loop.walk new_graph
joined_has_one = refl

Reached-IsWellFormed_example : IsWellFormed (step drop_alice joined).db
unfolding handle xolo_api.Ngac.Service.assign xolo_api.Exec.◌>>=◌ xolo_api.World.query
    xolo_api.Ngac.Service.create_node xolo_api.World.command
    xolo_api.Ngac.Types.valid_assignment_targets xolo_api.Ngac.Types.same_type upward_closure
    xolo_api.Traversal.Loop.walk new_graph
Reached-IsWellFormed_example =
    Reached-IsWellFormed ⦃mongo = in_memory⦄ ⦃unicode = caseless⦄ true true (
      next drop_alice joined
        (next join_staff with_staff (next add_staff with_alice (next add_alice before start tt) tt)
          tt)
        (λ _. refl))

abbrev hospital_world : World
hospital_world = record {
  db = record empty {
    nodes = hospital_nodes;
    assignments = hospital_edges;
    associations = ward ∷ [];
  };
  calls = 0;
  outage = λ _. false;
}

delete_node-without_node_example :
    let r =
      delete_node ⦃mongo = in_memory⦄ ⦃unicode = caseless⦄ true true "acme" "staff" "eve" false
        hospital_world in
    (r.0 ≡ ok true) × (r.1.db ≡ without_node "acme" "staff" hospital_world.db)
unfolding xolo_api.Ngac.Service.owns
delete_node-without_node_example =
    delete_node-without_node ⦃mongo = in_memory⦄ ⦃unicode = caseless⦄ true true "acme" "staff" "eve"
      false (node "staff" user_attribute) hospital_world (λ _. refl) refl refl
