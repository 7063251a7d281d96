-- ===== src/Groups/Atomic.antt =====
-- Members are added all or none, where the server is a replica set, unless the batch is made again.
use xolo_api.Base.{
  String, ℕ, ◌≡◌, ◌⊎◌, Bool, true, ◌&&◌, ◌||◌, List, [], ◌∷◌, ◌++◌, any, elem, ◌==◌, if◌then◌else◌,
}
use xolo_api.Errors.{XoloException}
use xolo_api.Exec.{Result, ok, err}
use xolo_api.Platform.Collections.{find_first, is_some}
use xolo_api.Platform.Mongo.{Mongo}
use xolo_api.World.{Database, World}
use xolo_api.Groups.Repository.{is_membership, new_member, Server}
use xolo_api.Groups.Repository as Repository

abbrev pub is_listed : String → String → String → Database → Bool
is_listed account_id group_id user_id db =
    any (is_membership account_id group_id user_id) db.members

-- the members with one more, if it is none yet
abbrev with_member : String → String → String → Database → Database
with_member account_id group_id user_id db = record db {
  members =
      if is_some (find_first (is_membership account_id group_id user_id) db.members)
      then db.members
      else db.members ++ new_member account_id group_id user_id ∷ [];
}

abbrev with_members : String → String → List String → Database → Database
with_members account_id group_id [] db = db
with_members account_id group_id (u ∷ us) db =
    with_members account_id group_id us (with_member account_id group_id u db)

-- what an addition leaves: just those are listed in a group who were so before, or are of the list, in
-- its group of its account
abbrev pub Lists : String → String → List String → Database → Database → Type 0
Lists account_id group_id user_ids before db =
    (a g v : String)
    → is_listed a g v db
      ≡ (is_listed a g v before || (account_id == a && group_id == g && elem v user_ids))

-- How an addition of members to a database ends: all are added; or none; or it was made again without a
-- transaction, after a failure that `_run_batch` takes for a sign that there are none, and that attempt
-- failed after the first of them.
pub data Addition (server : Server) (account_id group_id : String) (user_ids : List String)
    (before : Database) : Result Bool → Database → Type 0 where
  all_added :
      (db : Database)
      → Lists account_id group_id user_ids before db
      → Addition server account_id group_id user_ids before (ok true) db
  none_added :
      (e : XoloException) → Addition server account_id group_id user_ids before (err e) before
  first_added :
      (e : XoloException) (db : Database) (calls : ℕ) (added rest : List String)
      → server.reruns calls ≡ true
      → user_ids ≡ added ++ rest
      → Lists account_id group_id added before db
      → Addition server account_id group_id user_ids before (err e) db

module _ ⦃mongo : Mongo⦄ (account_id group_id : String) where
  -- the first of the users were added
  Part : List String → Database → Database → Type 0
  Part us db d =
      (done : List String) × (rest : List String) × (us ≡ done ++ rest)
      × (d ≡ with_members account_id group_id done db)

  -- how a batch of additions ends
  Ended : Server → List String → Database → Result (Unit {0}) × World → Type 0
  Ended server us db (ok _, w) = w.db ≡ with_members account_id group_id us db
  Ended server us db (err e, w) =
      (w.db ≡ db) ⊎ ((calls : ℕ) × (server.reruns calls ≡ true) × Part us db w.db)
