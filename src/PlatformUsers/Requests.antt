-- ===== src/PlatformUsers/Requests.antt =====
-- The requests that change platform users, and the administrator that always stays.
use xolo_api.Base.{
  String, ◌≡◌, refl, sym, ap, ◌∙◌, Bool, false, not, ◌&&◌, List, Option, none, some, arith, eq_iff,
  eq_refl, Bool-cases, inl, inr,
}
use xolo_api.Platform.Collections.{find_first, find_first-fits, count-delete_first}
use xolo_api.Platform.Mongo.{Mongo}
use xolo_api.Platform.Text.{Unicode}
use xolo_api.World.{Database, World}
use xolo_api.World.Ends.{Ends, Ends-command, Ends-bind}
use xolo_api.World.Reads.{Reads-or_raise, Reads-raise_if, Reads-query}
use xolo_api.PlatformUsers.Types.{PlatformRole, PlatformPermission, PlatformUser}
use xolo_api.PlatformUsers.Repository.{has_id, is_active_admin, find_by_username}
use xolo_api.PlatformUsers.Repository as Repository
use xolo_api.PlatformUsers.Service.{updated, loses_admin, or_kept, new_user, normalize_username}
use xolo_api.PlatformUsers.Service as Service
use xolo_api.PlatformUsers.Keeping.{
  IsStaffed, delete_other, delete_some, put_some, put_kept, put_new, find_listed, save-Ends,
  get-Reads, guard-Reads,
}

-- the arguments of an operation, in its order
pub data Request : Type 0 where
  create :
      String
      → String
      → String
      → PlatformRole
      → List PlatformPermission
      → List String
      → Bool
      → Request
  update :
      String
      → Option PlatformRole
      → Option (List PlatformPermission)
      → Option (List String)
      → Option Bool
      → Request
  delete : String → Request
  change_password : String → String → String → Request
  reset_password : String → String → Request
  authenticate : String → String → Request

-- no user has the id that a creation draws
unfoldable pub DrawsNew : Request → Database → Type 0
DrawsNew (create f u p r ps ids m) db = find_first (has_id f) db.platform_users ≡ none
DrawsNew _ db = Unit

module _ ⦃mongo : Mongo⦄ ⦃unicode : Unicode⦄ (hash_value : String → String)
    (verify : String → String → Bool) where
  -- the world after a request, whatever the answer
  unfoldable pub handle : Request → World → World
  handle (create f u p r ps ids m) w = (Service.create hash_value verify f u p r ps ids m w).1
  handle (update i r ps ids b) w = (Service.update i r ps ids b w).1
  handle (delete i) w = (Service.delete i w).1
  handle (change_password i c n) w = (Service.change_password hash_value verify i c n w).1
  handle (reset_password i p) w = (Service.reset_password hash_value verify i p w).1
  handle (authenticate u p) w = (Service.authenticate hash_value verify u p w).1

  -- a user that is stored is saved without a loss
  resave-Ends :
      (db : Database) (old new : PlatformUser)
      → IsStaffed db
      → find_first (has_id new.user_id) db.platform_users ≡ some old
      → (is_active_admin old && not (is_active_admin new)) ≡ false
      → Ends db (Repository.save new) IsStaffed
  resave-Ends db old new st found kept = save-Ends db new st (
      ground (
        arith,
        st.staffed,
        put_kept is_active_admin (has_id new.user_id) new old db.platform_users found kept,
      ))

  own_id :
      (i : String) (u : PlatformUser) (db : Database)
      → find_first (has_id i) db.platform_users ≡ some u
      → find_first (has_id u.user_id) db.platform_users ≡ some u
  own_id i u db found =
      ap (λ x. find_first (has_id x) db.platform_users)
        ((eq_iff u.user_id i).0 (find_first-fits (has_id i) u db.platform_users found))
      ∙ found

  update-IsStaffed :
      (db : Database) (i : String) (r : Option PlatformRole) (ps : Option (List PlatformPermission))
      (ids : Option (List String)) (b : Option Bool)
      → IsStaffed db
      → Ends db (Service.update i r ps ids b) IsStaffed
  unfolding Service.update updated
  update-IsStaffed db i r ps ids b st = Ends-bind st (get-Reads i) λ u found.
      Ends-bind st (guard-Reads (loses_admin r b u)) λ _ two.
        elim (Bool-cases (loses_admin r b u)) [
          | inl lost ↦ save-Ends db (updated r ps ids b u) st (
              ground (
                arith,
                two lost,
                put_some is_active_admin (has_id u.user_id) (updated r ps ids b u)
                    db.platform_users,
              ))
          | inr kept ↦
              resave-Ends db u (updated r ps ids b u) st (own_id i u db found)
                (ground (arith, kept))
        ]

  delete-IsStaffed :
      (db : Database) (i : String) → IsStaffed db → Ends db (Service.delete i) IsStaffed
  unfolding Service.delete Repository.delete
  delete-IsStaffed db i st = Ends-bind st (get-Reads i) λ u found.
      Ends-bind st (guard-Reads (is_active_admin u)) λ _ two. Ends-command _ st (
        rw (mongo.delete_one_law (has_id i) db.platform_users) (record {
          ids = λ j.
              ground (arith, st.ids j, count-delete_first (has_id j) (has_id i) db.platform_users);
          staffed = elim (Bool-cases (is_active_admin u)) [
            | inl it ↦
                ground (arith, two it, delete_some is_active_admin (has_id i) db.platform_users)
            | inr other ↦ ground (
              arith,
              st.staffed,
              delete_other is_active_admin (has_id i) u db.platform_users found other,
            )
          ];
        }))

  change_password-IsStaffed :
      (db : Database) (i c n : String)
      → IsStaffed db
      → Ends db (Service.change_password hash_value verify i c n) IsStaffed
  unfolding Service.change_password
  change_password-IsStaffed db i c n st = Ends-bind st (get-Reads i) λ u found.
      Ends-bind st (Reads-raise_if _ _) λ _ _. Ends-bind st (Reads-raise_if _ _) λ _ _.
        Ends-bind st (Reads-or_raise _ _) λ _ _.
          Ends-bind st (Reads-raise_if _ _)
            λ _ _. resave-Ends db u _ st (own_id i u db found) (ground arith)

  reset_password-IsStaffed :
      (db : Database) (i p : String)
      → IsStaffed db
      → Ends db (Service.reset_password hash_value verify i p) IsStaffed
  unfolding Service.reset_password
  reset_password-IsStaffed db i p st = Ends-bind st (get-Reads i) λ u found.
      Ends-bind st (Reads-raise_if _ _)
        λ _ _. resave-Ends db u _ st (own_id i u db found) (ground arith)

  authenticate-IsStaffed :
      (db : Database) (n p : String)
      → IsStaffed db
      → Ends db (Service.authenticate hash_value verify n p) IsStaffed
  unfolding Service.authenticate find_by_username
  authenticate-IsStaffed db n p st = Ends-bind st (Reads-raise_if _ _) λ _ _.
      Ends-bind st (Reads-query _) λ o e. Ends-bind st (Reads-or_raise o _) λ u f.
        Ends-bind st (Reads-raise_if _ _) λ _ _. Ends-bind st (Reads-raise_if _ _) λ _ _.
          resave-Ends db u u st
            (find_listed (has_id u.user_id) _ u db.platform_users
              (sym (mongo.find_one_law _ db.platform_users) ∙ sym e ∙ f) (eq_refl u.user_id)
              (st.ids u.user_id))
            (ground arith)

  create-IsStaffed :
      (db : Database) (f n p : String) (r : PlatformRole) (ps : List PlatformPermission)
      (ids : List String) (m : Bool)
      → IsStaffed db
      → find_first (has_id f) db.platform_users ≡ none
      → Ends db (Service.create hash_value verify f n p r ps ids m) IsStaffed
  unfolding Service.create find_by_username new_user
  create-IsStaffed db f n p r ps ids m st new = Ends-bind st (Reads-raise_if _ _) λ _ _.
      Ends-bind st (Reads-raise_if _ _) λ _ _. Ends-bind st (Reads-query _) λ o e.
        Ends-bind st (Reads-raise_if _ _) λ _ _.
          save-Ends db
            (new_user hash_value verify f (normalize_username hash_value verify n) p r ps ids m) st
            (ground (
              arith,
              st.staffed,
              put_new is_active_admin (has_id f)
                  (new_user hash_value verify f (normalize_username hash_value verify n) p r ps ids
                    m)
                  db.platform_users new,
            ))

  handle-IsStaffed :
      (r : Request) (w : World) → IsStaffed w.db → DrawsNew r w.db → IsStaffed (handle r w).db
  unfolding handle DrawsNew
  handle-IsStaffed (create f u p r ps ids m) w st new =
      (create-IsStaffed w.db f u p r ps ids m st new).at w refl
  handle-IsStaffed (update i r ps ids b) w st _ = (update-IsStaffed w.db i r ps ids b st).at w refl
  handle-IsStaffed (delete i) w st _ = (delete-IsStaffed w.db i st).at w refl
  handle-IsStaffed (change_password i c n) w st _ =
      (change_password-IsStaffed w.db i c n st).at w refl
  handle-IsStaffed (reset_password i p) w st _ = (reset_password-IsStaffed w.db i p st).at w refl
  handle-IsStaffed (authenticate u p) w st _ = (authenticate-IsStaffed w.db u p st).at w refl

  -- the databases that requests lead to from one, which draw ids that are new
  pub data Since (from : Database) : Database → Type 0 where
    at_once : Since from from
    later :
        (r : Request) (w : World) → Since from w.db → DrawsNew r w.db → Since from (handle r w).db

  -- From a database where no two platform users have one id, and some user is an active administrator:
  -- whatever requests follow, where a creation draws an id that no user has, and wherever outages strike,
  -- no two users have one id, and some user is an active administrator.
  pub Since-IsStaffed : (from db : Database) → IsStaffed from → Since from db → IsStaffed db
  Since-IsStaffed from db st at_once = st
  Since-IsStaffed from db st (later r w before new) =
      handle-IsStaffed r w (Since-IsStaffed from w.db st before) new
