-- ===== src/Rbac/Requests.antt =====
-- The requests that change roles, one after the other, and what holds after all of them.
use xolo_api.Base.{String, Bool, List, Option, arith}
use xolo_api.Platform.Mongo.{Mongo}
use xolo_api.World.{Database, empty, World}
use xolo_api.Rbac.Service as Service
use xolo_api.Rbac.Safety.{IsSound}
use xolo_api.Rbac.Safety.Operations as Operations
use xolo_api.Rbac.Safety.Deleting as Deleting

-- the arguments of an operation, in its order
pub data Request : Type 0 where
  create_role : String → String → String → Option String → List String → Request
  update_role : String → String → Option String → Option String → Bool → Request
  delete_role : String → String → Request
  add_permission : String → String → String → Request
  remove_permission : String → String → String → Request
  add_parent : String → String → String → Request
  remove_parent : String → String → String → Request

module _ ⦃mongo : Mongo⦄ (catalog : Bool) where
  -- the world after a request, whatever the answer
  unfoldable pub handle : Request → World → World
  handle (create_role a f n d ps) w = (Service.create_role catalog a f n d ps w).1
  handle (update_role a r n d s) w = (Service.update_role catalog a r n d s w).1
  handle (delete_role a r) w = (Service.delete_role catalog a r w).1
  handle (add_permission a r p) w = (Service.add_permission_to catalog a r p w).1
  handle (remove_permission a r p) w = (Service.remove_permission_from catalog a r p w).1
  handle (add_parent a r p) w = (Service.add_parent catalog a r p w).1
  handle (remove_parent a r p) w = (Service.remove_parent catalog a r p w).1

  pub handle-IsSound : (r : Request) (w : World) → IsSound w.db → IsSound (handle r w).db
  unfolding handle
  handle-IsSound (create_role a f n d ps) w h =
      Operations.create_role-IsSound catalog a f n d ps w h
  handle-IsSound (update_role a r n d s) w h = Operations.update_role-IsSound catalog a r n d s w h
  handle-IsSound (delete_role a r) w h = Deleting.delete_role-IsSound catalog a r w h
  handle-IsSound (add_permission a r p) w h = Operations.add_permission_to-IsSound catalog a r p w h
  handle-IsSound (remove_permission a r p) w h =
      Operations.remove_permission_from-IsSound catalog a r p w h
  handle-IsSound (add_parent a r p) w h = Operations.add_parent-IsSound catalog a r p w h
  handle-IsSound (remove_parent a r p) w h = Operations.remove_parent-IsSound catalog a r p w h

  -- The databases that requests lead to from the empty one. Between two requests the outages to come
  -- may change.
  pub data Reached : Database → Type 0 where
    start : Reached empty
    next : (r : Request) (w : World) → Reached w.db → Reached (handle r w).db

  -- Whatever the requests, and wherever outages strike, also in the middle of a deletion: no role id
  -- stands twice, and the parents of an account's roles form no cycle.
  pub Reached-IsSound : {db : Database} → Reached db → IsSound db
  Reached-IsSound start = record { single = λ k. omega arith; acyclic = λ account_id u v s r. cc }
  Reached-IsSound (next r w before) = handle-IsSound r w (Reached-IsSound before)
