-- ===== src/Groups/Requests.antt =====
-- The requests that change groups, one after the other, and what holds after all of them.
use xolo_api.Base.{String, ◌≡◌, refl, Bool, List, [], Option, arith}
use xolo_api.Platform.Mongo.{Mongo}
use xolo_api.Platform.Text.{Unicode}
use xolo_api.World.{Database, World}
use xolo_api.Groups.Service as Service
use xolo_api.Groups.Repository.{Server}
use xolo_api.Groups.Members as Members
use xolo_api.Groups.Invariant.{IsTidy}
use xolo_api.Groups.Safety as Safety
use xolo_api.Groups.Keeping as Keeping
use xolo_api.Groups.Transfer as Transfer

-- the arguments of an operation, in its order
pub data Request : Type 0 where
  create_group : String → String → String → String → String → Request
  create_group_for_username : String → String → String → String → String → Request
  update_group : String → String → String → Option String → Option String → Bool → Request
  set_status : String → String → Bool → Request
  delete_group : String → String → String → Request
  delete_group_admin : String → String → Request
  add_members : String → String → String → List String → List String → Request
  add_members_admin : String → String → List String → Request
  remove_members : String → String → String → List String → List String → Request
  remove_members_admin : String → String → List String → Request
  transfer_owner : String → String → String → String → Bool → Request
  transfer_owner_admin : String → String → String → Bool → Request

module _ ⦃mongo : Mongo⦄ ⦃unicode : Unicode⦄ (users resolver : Bool) (server : Server) where
  -- the world after a request, whatever the answer
  unfoldable pub handle : Request → World → World
  handle (create_group f a o n d) w = (Service.create_group f a o n d w).1
  handle (create_group_for_username f a u n d) w =
      (Service.create_group_for_username users f a u n d w).1
  handle (update_group a g c n d m) w = (Service.update_group a g c n d m w).1
  handle (set_status a g s) w = (Service.set_status a g s w).1
  handle (delete_group a c g) w = (Service.delete_group resolver a c g w).1
  handle (delete_group_admin a g) w = (Service.delete_group_admin resolver a g w).1
  handle (add_members a c g is ns) w = (Members.add_members users server a c g is ns w).1
  handle (add_members_admin a g is) w = (Members.add_members_admin server a g is w).1
  handle (remove_members a c g is ns) w = (Members.remove_members users server a c g is ns w).1
  handle (remove_members_admin a g is) w = (Members.remove_members_admin server a g is w).1
  handle (transfer_owner a g c o m) w = (Members.transfer_owner users server a g c o m w).1
  handle (transfer_owner_admin a g o k) w = (Members.transfer_owner_admin users server a g o k w).1

  handle-IsTidy : (r : Request) (w : World) → IsTidy w.db → IsTidy (handle r w).db
  unfolding handle
  handle-IsTidy (create_group f a o n d) w h =
      (Safety.create_group-IsTidy f a o n d w.db h).at w refl
  handle-IsTidy (create_group_for_username f a u n d) w h =
      (Keeping.create_group_for_username-IsTidy users f a u n d w.db h).at w refl
  handle-IsTidy (update_group a g c n d m) w h =
      (Keeping.update_group-IsTidy a g c n d m w.db h).at w refl
  handle-IsTidy (set_status a g s) w h = (Safety.set_status-IsTidy a g s w.db h).at w refl
  handle-IsTidy (delete_group a c g) w h =
      (Safety.delete_group-IsTidy resolver a c g w.db h).at w refl
  handle-IsTidy (delete_group_admin a g) w h =
      (Safety.delete_group_admin-IsTidy resolver a g w.db h).at w refl
  handle-IsTidy (add_members a c g is ns) w h =
      (Keeping.add_members_of-IsTidy users server a c g is ns w.db h).at w refl
  handle-IsTidy (add_members_admin a g is) w h =
      (Keeping.add_members_admin-IsTidy server a g is w.db h).at w refl
  handle-IsTidy (remove_members a c g is ns) w h =
      (Keeping.remove_members_of-IsTidy users server a c g is ns w.db h).at w refl
  handle-IsTidy (remove_members_admin a g is) w h =
      (Keeping.remove_members_admin-IsTidy server a g is w.db h).at w refl
  handle-IsTidy (transfer_owner a g c o m) w h =
      (Transfer.transfer_owner-IsTidy users server a g c o m w.db h).at w refl
  handle-IsTidy (transfer_owner_admin a g o k) w h =
      (Transfer.transfer_owner_admin-IsTidy users server a g o k w.db h).at w refl

  -- The databases that requests lead to from one without groups and members. Between two requests the
  -- outages to come may change.
  pub data Reached : Database → Type 0 where
    start : (db : Database) → db.groups ≡ [] → db.members ≡ [] → Reached db
    next : (r : Request) (w : World) → Reached w.db → Reached (handle r w).db

  -- Whatever the requests, and wherever outages strike, also in the middle of a transfer or of its
  -- compensation: no account has two groups with one id or with one name, and no user is listed twice in
  -- a group.
  pub Reached-IsTidy : {db : Database} → Reached db → IsTidy db
  Reached-IsTidy (start db no_groups no_members) = record {
    ids = λ a g. rw no_groups (omega arith);
    names = λ a n. rw no_groups (omega arith);
    members = λ a g u. rw no_members (omega arith);
  }
  Reached-IsTidy (next r w before) = handle-IsTidy r w (Reached-IsTidy before)
