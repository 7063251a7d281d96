-- ===== src/Ngac/Requests.antt =====
-- The requests that change a policy graph, one after the other, and what holds after all of them.
use xolo_api.Base.{String, Bool, List, Option}
use xolo_api.Platform.Mongo.{Mongo}
use xolo_api.Platform.Text.{Unicode}
use xolo_api.World.{Database, empty, World, IsCalm}
use xolo_api.Ngac.Types.{NodeType}
use xolo_api.Ngac.Service as Service
use xolo_api.Ngac.Invariant.{IsWellFormed}
use xolo_api.Ngac.Safety.Edges as Edges
use xolo_api.Ngac.Safety.Nodes as Nodes

-- the arguments of an operation, in its order
pub data Request : Type 0 where
  create_node :
      String
      → String
      → NodeType
      → String
      → List (String × String)
      → String
      → Option String
      → Option String
      → Option String
      → Request
  update_node :
      String
      → String
      → Option String
      → Option (List (String × String))
      → Option String
      → Option String
      → Option Bool
      → Option String
      → String
      → Bool
      → Request
  delete_node : String → String → String → Bool → Request
  assign : String → String → String → String → String → Bool → Request
  remove_assignment : String → String → String → String → Bool → Request
  associate : String → String → String → String → List String → String → Bool → Request
  update_association : String → String → List String → String → Bool → Request
  remove_association : String → String → String → Bool → Request

-- An outage may strike at any call, but not in a deletion, whose cascade takes several.
abbrev pub Survives : Request → World → Type 0
Survives (delete_node _ _ _ _) w = IsCalm w
Survives _ w = Unit

module _ ⦃mongo : Mongo⦄ ⦃unicode : Unicode⦄ (users acl : Bool) where
  -- the world after a request, whatever the answer
  unfoldable pub handle : Request → World → World
  handle (create_node a f t n p o u i r) w = (Service.create_node users acl a f t n p o u i r w).1
  handle (update_node a i n p u ui s r k m) w =
      (Service.update_node users acl a i n p u ui s r k m w).1
  handle (delete_node a i k m) w = (Service.delete_node users acl a i k m w).1
  handle (assign a i f t o m) w = (Service.assign users acl a i f t o m w).1
  handle (remove_assignment a f t k m) w = (Service.remove_assignment users acl a f t k m w).1
  handle (associate a i u o ops k m) w = (Service.associate users acl a i u o ops k m w).1
  handle (update_association a i ops k m) w = (Service.update_association users acl a i ops k m w).1
  handle (remove_association a i k m) w = (Service.remove_association users acl a i k m w).1

  pub handle-IsWellFormed :
      (r : Request) (w : World) → Survives r w → IsWellFormed w.db → IsWellFormed (handle r w).db
  unfolding handle
  handle-IsWellFormed (create_node a f t n p o u i r) w calm h =
      Nodes.create_node-IsWellFormed users acl a f t n p o u i r w h
  handle-IsWellFormed (update_node a i n p u ui s r k m) w calm h =
      Nodes.update_node-IsWellFormed users acl a i n p u ui s r k m w h
  handle-IsWellFormed (delete_node a i k m) w calm h =
      Nodes.delete_node-IsWellFormed users acl a i k m w calm h
  handle-IsWellFormed (assign a i f t o m) w calm h =
      Edges.assign-IsWellFormed users acl a i f t o m w h
  handle-IsWellFormed (remove_assignment a f t k m) w calm h =
      Edges.remove_assignment-IsWellFormed users acl a f t k m w h
  handle-IsWellFormed (associate a i u o ops k m) w calm h =
      Edges.associate-IsWellFormed users acl a i u o ops k m w h
  handle-IsWellFormed (update_association a i ops k m) w calm h =
      Edges.update_association-IsWellFormed users acl a i ops k m w h
  handle-IsWellFormed (remove_association a i k m) w calm h =
      Edges.remove_association-IsWellFormed users acl a i k m w h

  -- The databases that requests lead to from the empty one. Between two requests the outages to come
  -- may change.
  pub data Reached : Database → Type 0 where
    start : Reached empty
    next : (r : Request) (w : World) → Reached w.db → Survives r w → Reached (handle r w).db

  -- Whatever the requests, and wherever outages strike but in a deletion, the policy graph is well
  -- formed: every edge joins two nodes of its account whose types allow it, and the assignments of
  -- an account form no cycle.
  pub Reached-IsWellFormed : {db : Database} → Reached db → IsWellFormed db
  Reached-IsWellFormed start = record {
    placed = tt;
    joined = tt;
    acyclic = λ account_id u v s r. cc;
  }
  Reached-IsWellFormed (next r w before fine) =
      handle-IsWellFormed r w fine (Reached-IsWellFormed before)
