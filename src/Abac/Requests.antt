-- ===== src/Abac/Requests.antt =====
-- The requests that change ABAC policies, one after the other, and what holds after all of them.
use Prim.Native.String.{◌++◌ as concat}
use xolo_api.Base.{String, ℕ, ◌≡◌, refl, false, List, [], filter, Option, none, ◌==◌, arith, eq_iff}
use xolo_api.Platform.Collections.{find_first, find_first-fits, find_first-only}
use xolo_api.Platform.Mongo.{Mongo}
use xolo_api.World.{Database, World}
use xolo_api.World.Ends.{Ends-bind}
use xolo_api.Abac.Types.{Effect, Event, Policy}
use xolo_api.Abac.Events.{Calendar}
use xolo_api.Abac.Repository.{has_id, is_policy_doc, is_of_account}
use xolo_api.Abac.Service as Service
use xolo_api.Abac.Effects.{
  Change, same, IsOwn, IsKeyed, Stored, save-Ends, delete-Ends, get_policy-Reads, Change-IsKeyed,
  Change-others,
}

-- no stored policy has the id that a creation draws
abbrev pub IsFresh : String → Database → Type 0
IsFresh fresh db = find_first (has_id (concat "ap-" fresh)) db.abac_policies ≡ none

-- the arguments of an operation, in its order, after the account
pub data Request : Type 0 where
  create_policy : String → ℕ → String → Effect → List Event → String → Request
  update_policy : ℕ → String → String → Effect → List Event → Option String → Request
  upgrade_matcher : ℕ → String → Request
  delete_policy : String → Request

abbrev pub Draws : Request → Database → Type 0
Draws (create_policy fresh _ _ _ _ _) db = IsFresh fresh db
Draws _ db = Unit

module _ ⦃mongo : Mongo⦄ (calendar : Calendar) (account_id : String) where
  -- the world after a request, whatever the answer
  unfoldable pub handle : Request → World → World
  handle (create_policy f now n e evs z) w = (Service.create_policy f now account_id n e evs z w).1
  handle (update_policy now i n e evs z) w =
      (Service.update_policy calendar now account_id i n e evs z w).1
  handle (upgrade_matcher now i) w = (Service.upgrade_matcher calendar now account_id i w).1
  handle (delete_policy i) w = (Service.delete_policy account_id i w).1

  mine_already :
      (db : Database) (policy_id : String) (policy : Policy)
      → IsKeyed db
      → Stored calendar account_id policy_id policy db
      → IsOwn account_id (find_first (has_id policy_id) db.abac_policies)
  mine_already db policy_id policy keyed (d, there, _, _) =
      let fits = find_first-fits (is_policy_doc account_id policy_id) d db.abac_policies there in
      rw
        (find_first-only (has_id policy_id) (is_policy_doc account_id policy_id) d db.abac_policies
          (λ x h. ground arith) (keyed policy_id) there)
        ((eq_iff d.account_id account_id).0 (ground (arith, fits)))

  handle-Change :
      (r : Request) (w : World)
      → Draws r w.db
      → IsKeyed w.db
      → Change account_id w.db (handle r w).db
  unfolding handle Service.create_policy Service.update_policy Service.upgrade_matcher
      Service.delete_policy
  handle-Change (create_policy f now n e evs z) w free keyed =
      (save-Ends account_id w.db now (Service.new_policy f account_id n e evs z) refl
          (rw free tt)).at
        w refl
  handle-Change (update_policy now i n e evs z) w free keyed =
      (Ends-bind (same w.db refl) (get_policy-Reads calendar account_id i) λ old stored.
          save-Ends account_id w.db now (Service.updated_policy account_id i n e evs z old) refl
            (mine_already w.db i old keyed stored)).at
        w refl
  handle-Change (upgrade_matcher now i) w free keyed =
      (Ends-bind (same w.db refl) (get_policy-Reads calendar account_id i) λ old stored.
          let (d, there, mine, id) = stored in
          save-Ends account_id w.db now (Service.upgraded old) mine
            (rw id (mine_already w.db i old keyed stored))).at
        w refl
  handle-Change (delete_policy i) w free keyed = (delete-Ends account_id w.db i).at w refl

module _ ⦃mongo : Mongo⦄ (calendar : Calendar) where
  -- The databases that requests of any accounts lead to from one without policies, each creation
  -- drawing an id that no stored policy has. Between two requests the outages to come may change.
  pub data Reached : Database → Type 0 where
    start : (db : Database) → db.abac_policies ≡ [] → Reached db
    next :
        (account_id : String) (r : Request) (w : World)
        → Reached w.db
        → Draws r w.db
        → Reached (handle calendar account_id r w).db

  Reached-IsKeyed : {db : Database} → Reached db → IsKeyed db
  Reached-IsKeyed (start db none_yet) = λ k. rw none_yet (omega arith)
  Reached-IsKeyed (next account_id r w before free) =
      let keyed = Reached-IsKeyed before in
      Change-IsKeyed account_id w.db (handle-Change calendar account_id r w free keyed) keyed

  -- In a database that requests lead to, a further request for an account leaves the policies of every
  -- other account as they are, whatever the answer and wherever an outage strikes, where a creation
  -- draws an id that no stored policy has.
  pub handle-others :
      (account_id other : String) (r : Request) (w : World)
      → Reached w.db
      → Draws r w.db
      → (account_id == other) ≡ false
      → filter (is_of_account other) (handle calendar account_id r w).db.abac_policies
        ≡ filter (is_of_account other) w.db.abac_policies
  handle-others account_id other r w reached free apart =
      Change-others account_id w.db other apart
        (handle-Change calendar account_id r w free (Reached-IsKeyed reached))
