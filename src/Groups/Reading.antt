-- ===== src/Groups/Reading.antt =====
-- What the lookups of a user's groups return.
use xolo_api.Base.{String, false, ◌≡◌, refl, sym, List, [], ◌∷◌, map}
use xolo_api.Platform.Mongo.{Mongo}
use xolo_api.World.{Database}
use xolo_api.World.Calm.{Yields, Yields-pure, Yields-query, Yields-bind}
use xolo_api.World.Reads.{Reads, Reads-pure, Reads-query, Reads-bind, Reads-weaken}
use xolo_api.Groups.Types.{SecurityGroup}
use xolo_api.Groups.Repository.{
  memberships, wanted, groups_with, find_groups_for_user, find_group_ids_for_user,
}

module _ ⦃mongo : Mongo⦄ where
  abbrev pub groups_in : String → List String → Database → List SecurityGroup
  groups_in account_id [] db = []
  groups_in account_id (g ∷ gs) db = mongo.find (wanted account_id (g ∷ gs) false) db.groups

  abbrev pub group_ids_of : String → String → Database → List String
  group_ids_of account_id user_id db =
      map (λ g. g.group_id) (groups_in account_id (memberships account_id user_id db) db)

  pub groups_with-Yields :
      (account_id : String) (ids : List String)
      → Yields (groups_with account_id ids false) (groups_in account_id ids)
  unfolding groups_with
  groups_with-Yields account_id [] = Yields-pure []
  groups_with-Yields account_id (g ∷ gs) = Yields-query _

  pub find_group_ids-Yields :
      (account_id user_id : String)
      → Yields (find_group_ids_for_user account_id user_id) (group_ids_of account_id user_id)
  unfolding find_group_ids_for_user find_groups_for_user
  find_group_ids-Yields account_id user_id =
      Yields-bind _ (λ db. groups_in account_id (memberships account_id user_id db) db) _
        (λ gs _. map (λ g. g.group_id) gs)
        (Yields-bind _ (memberships account_id user_id) _ (groups_in account_id) (Yields-query _)
          (groups_with-Yields account_id))
        (λ gs. Yields-pure _)

  groups_with-Reads :
      (account_id : String) (ids : List String)
      → Reads (groups_with account_id ids false) (λ gs db. gs ≡ groups_in account_id ids db)
  unfolding groups_with
  groups_with-Reads account_id [] = Reads-pure [] _ (λ db. refl)
  groups_with-Reads account_id (g ∷ gs) = Reads-query _

  pub find_groups_for_user-Reads :
      (account_id user_id : String)
      → Reads
          (find_groups_for_user account_id user_id false)
          (λ gs db. gs ≡ groups_in account_id (memberships account_id user_id db) db)
  unfolding find_groups_for_user
  find_groups_for_user-Reads account_id user_id =
      Reads-bind _ (Reads-query (memberships account_id user_id))
        λ ids. Reads-weaken (groups_with-Reads account_id ids) (λ gs db h e. rw (sym e) h)
