-- ===== src/Ngac/Safety/Edges.antt =====
-- The operations on edges keep the policy graph well formed, whenever an outage strikes.
use xolo_api.Base.{String, ◌≡◌, inl, inr, Bool, false, List, [], ◌∷◌, elem, Option-cases, ◌==◌}
use xolo_api.Platform.Collections.{find_first, All-find_first}
use xolo_api.Platform.Mongo.{Mongo}
use xolo_api.Platform.Text.{Unicode}
use xolo_api.World.{Database, World}
use xolo_api.Traversal.Reach.{Reach, Reach-mono}
use xolo_api.Traversal.Correct.{edge}
use xolo_api.Ngac.Types.{Node, Association}
use xolo_api.Ngac.Graph.{new_graph}
use xolo_api.Ngac.Graph.Closure.{edge-new_graph, upward_closure_decides}
use xolo_api.Ngac.Repository.{is_association}
use xolo_api.Ngac.Service.{
  normalized, assign, remove_assignment, associate, update_association, remove_association,
}
use xolo_api.Ngac.Invariant.{IsJoined, of_account, edges, IsWellFormed}
use xolo_api.Ngac.Invariant.Edges.{
  IsWellFormed-with_assignment, IsWellFormed-without_assignment, IsWellFormed-with_association,
  IsWellFormed-without_association, IsWellFormed-replace_association,
}
use xolo_api.Ngac.Safety.Effects.{
  new_assignment, closure_of, assign_effect, remove_assignment_effect, associate_effect,
  remove_association_effect, update_association_effect, update_association_missing,
}

module _ ⦃mongo : Mongo⦄ ⦃unicode : Unicode⦄ (users acl : Bool) where
  -- the cycle test of `assign` finds every way back
  no_way_back :
      (db : Database) (account_id from_id to_id : String)
      → elem from_id (closure_of users acl db account_id to_id) ≡ false
      → ¬ Reach (edges db.assignments account_id) (to_id ∷ []) from_id
  no_way_back db account_id from_id to_id h r =
      let nodes = mongo.find (λ (n : Node). n.account_id == account_id) db.nodes in
      let assignments = mongo.find (of_account account_id) db.assignments in
      let associations =
        mongo.find (λ (s : Association). s.account_id == account_id) db.associations in
      let g = new_graph unicode.lower nodes assignments associations in
      let along =
        Reach-mono (edges db.assignments account_id) (edge g.parents) (to_id ∷ [])
          (λ u v s.
            rw
              (
                edge-new_graph unicode.lower nodes assignments associations,
                mongo.find_law (of_account account_id) db.assignments,
              )
              s)
          r in
      cc ((upward_closure_decides g to_id from_id).1 along, h)

  -- `assign` never breaks the graph: it joins only nodes that may be joined, and closes no cycle.
  pub assign-IsWellFormed :
      (account_id fresh from_id to_id owner_id : String) (is_admin : Bool) (w : World)
      → IsWellFormed w.db
      → IsWellFormed (assign users acl account_id fresh from_id to_id owner_id is_admin w).1.db
  assign-IsWellFormed account_id fresh from_id to_id owner_id is_admin w h =
      let a = new_assignment account_id fresh from_id to_id owner_id in
      elim (assign_effect users acl account_id fresh from_id to_id owner_id is_admin w) [
        | inl same ↦ rw same h
        | inr (placed, apart, e) ↦ rw e (
            IsWellFormed-with_assignment a w.db placed
              (no_way_back w.db account_id from_id to_id apart) h)
      ]

  pub remove_assignment-IsWellFormed :
      (account_id from_id to_id requester_key : String) (is_admin : Bool) (w : World)
      → IsWellFormed w.db
      → IsWellFormed
          (remove_assignment users acl account_id from_id to_id requester_key is_admin w).1.db
  remove_assignment-IsWellFormed account_id from_id to_id requester_key is_admin w h =
      elim (remove_assignment_effect users acl account_id from_id to_id requester_key is_admin w) [
        | inl same ↦ rw same h
        | inr e ↦ rw e (IsWellFormed-without_assignment _ w.db h)
      ]

  pub associate-IsWellFormed :
      (account_id fresh ua oa : String) (operations : List String) (owner_id : String)
      (is_admin : Bool) (w : World)
      → IsWellFormed w.db
      → IsWellFormed
          (associate users acl account_id fresh ua oa operations owner_id is_admin w).1.db
  associate-IsWellFormed account_id fresh ua oa operations owner_id is_admin w h =
      elim (associate_effect users acl account_id fresh ua oa operations owner_id is_admin w) [
        | inl same ↦ rw same h
        | inr (joined, e) ↦ rw e (IsWellFormed-with_association _ w.db joined h)
      ]

  pub remove_association-IsWellFormed :
      (account_id association_id requester_key : String) (is_admin : Bool) (w : World)
      → IsWellFormed w.db
      → IsWellFormed
          (remove_association users acl account_id association_id requester_key is_admin w).1.db
  remove_association-IsWellFormed account_id association_id requester_key is_admin w h =
      elim (remove_association_effect users acl account_id association_id requester_key is_admin
        w) [ inl same ↦ rw same h | inr e ↦ rw e (IsWellFormed-without_association _ w.db h) ]

  pub update_association-IsWellFormed :
      (account_id association_id : String) (operations : List String) (requester_key : String)
      (is_admin : Bool) (w : World)
      → IsWellFormed w.db
      → IsWellFormed
          (update_association users acl account_id association_id operations requester_key is_admin
            w).1.db
  update_association-IsWellFormed account_id association_id operations requester_key is_admin w h =
      elim (Option-cases
        (find_first (is_association account_id association_id) w.db.associations)) [
          | inl absent ↦
              rw
                (update_association_missing users acl account_id association_id operations
                  requester_key is_admin w absent)
                h
          | inr (s, found) ↦
              elim (update_association_effect users acl account_id association_id operations
                requester_key is_admin w s found) [
                  | inl same ↦ rw same h
                  | inr e ↦ rw e (
                      IsWellFormed-replace_association _
                        (record s { operations = normalized users acl operations }) w.db
                        (All-find_first (IsJoined w.db) (is_association account_id association_id) s
                          w.db.associations h.joined found)
                        h)
                ]
        ]
