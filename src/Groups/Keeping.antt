-- ===== src/Groups/Keeping.antt =====
-- The operations that rename a group, hand it over or change its members keep the rules, wherever an
-- outage strikes.
use xolo_api.Base.{
  String, ◌≡◌, refl, sym, ◌∙◌, Bool, true, false, List, [], ◌∷◌, Option, none, some, arith, inl,
  inr,
}
use xolo_api.Platform.Collections.{find_first-fits}
use xolo_api.Platform.Mongo.{Mongo}
use xolo_api.Platform.Text.{Unicode}
use xolo_api.World.{Database}
use xolo_api.World.Ends.{Ends, Ends-bind}
use xolo_api.World.Reads.{
  Reads, Anything, Reads-pure, Reads-raise, Reads-or_raise, Reads-raise_if, Reads-query_uncaught,
  Reads-bind, Reads-weaken,
}
use xolo_api.Users.Resolution.{find_by_id, resolve_user_identifier-Reads}
use xolo_api.Groups.Types.{SecurityGroup}
use xolo_api.Groups.Repository.{Server, is_group, normalize_name}
use xolo_api.Groups.Service.{
  first, described, is_other, resolve_each, resolve_usernames, validate_each, validate_user_ids,
  renamed,
}
use xolo_api.Groups.Service as Service
use xolo_api.Groups.Members.{unseen, take_back, handed_over, kept_as_member, transferred, targets}
use xolo_api.Groups.Members as Members
use xolo_api.Groups.Names.{any-absent, any-only}
use xolo_api.Groups.Invariant.{
  has_name, IsTidy, IsFree, save-IsTidy, add_members-IsTidy, remove_members-IsTidy,
}
use xolo_api.Groups.Safety.{
  StoredGroup, get_group-Reads, stored-key, own_name-IsFree, compared, Named, find_by_name-Reads,
  compared-again, create_group-IsTidy,
}

module _ ⦃mongo : Mongo⦄ ⦃unicode : Unicode⦄ where
  resolve_each-Reads :
      (account_id : String) (us : List String) → Reads (resolve_each account_id us) Anything
  unfolding resolve_each
  resolve_each-Reads account_id [] = Reads-pure _ _ (λ db. tt)
  resolve_each-Reads account_id (u ∷ us) =
      Reads-bind _ (resolve_user_identifier-Reads account_id u)
        λ user. Reads-bind _ (resolve_each-Reads account_id us) λ ids. Reads-pure _ _ (λ db _ _. tt)

  pub resolve_usernames-Reads :
      (users : Bool) (account_id : String) (us : List String)
      → Reads (resolve_usernames users account_id us) Anything
  unfolding resolve_usernames
  resolve_usernames-Reads users account_id [] = Reads-pure _ _ (λ db. tt)
  resolve_usernames-Reads false account_id (u ∷ us) = Reads-raise _ _
  resolve_usernames-Reads true account_id (u ∷ us) = resolve_each-Reads account_id (u ∷ us)

  validate_each-Reads :
      (account_id : String) (us : List String) → Reads (validate_each account_id us) Anything
  unfolding validate_each find_by_id
  validate_each-Reads account_id [] = Reads-pure _ _ (λ db. tt)
  validate_each-Reads account_id (u ∷ us) = Reads-bind _ (Reads-query_uncaught _) λ found.
      Reads-bind _ (Reads-raise_if _ _)
        λ _. Reads-weaken (validate_each-Reads account_id us) (λ _ _ _ _ _. tt)

  pub validate_user_ids-Reads :
      (users : Bool) (account_id : String) (us : List String)
      → Reads (validate_user_ids users account_id us) Anything
  unfolding validate_user_ids
  validate_user_ids-Reads false account_id us = Reads-pure _ _ (λ db. tt)
  validate_user_ids-Reads true account_id us =
      Reads-bind _ (validate_each-Reads account_id us) λ _. Reads-pure _ _ (λ db _. tt)

  targets-Reads :
      (users : Bool) (server : Server) (account_id : String) (ids names : List String)
      → Reads (targets users server account_id ids names) Anything
  unfolding targets
  targets-Reads users server account_id ids names =
      Reads-bind _ (resolve_usernames-Reads users account_id names) λ _.
        Reads-bind _ (validate_user_ids-Reads users account_id ids)
          λ _. Reads-pure _ _ (λ db _ _. tt)

  pub create_group_for_username-IsTidy :
      (users : Bool) (fresh account_id owner_username name description : String) (db : Database)
      → IsTidy db
      → Ends db
          (Service.create_group_for_username users fresh account_id owner_username name description)
          IsTidy
  unfolding Service.create_group_for_username
  create_group_for_username-IsTidy users fresh account_id owner_username name description db tidy =
      Ends-bind tidy (resolve_usernames-Reads users account_id (owner_username ∷ [])) λ ids _.
        Ends-bind tidy (Reads-or_raise _ _)
          λ owner _. create_group-IsTidy fresh account_id owner name description db tidy

  -- the new name of a stored group is free for it
  renamed-Reads :
      (account_id group_id : String) (name : Option String) (group : SecurityGroup)
      → Reads (renamed account_id group_id name group) (λ g db.
        IsTidy db
        → StoredGroup account_id group_id group db
        → (g.account_id ≡ group.account_id)
          × (g.group_id ≡ group.group_id)
          × IsFree account_id group_id g.normalized_name db)
  unfolding renamed
  renamed-Reads account_id group_id none group =
      Reads-pure _ _
        (λ db tidy found. (refl, refl, own_name-IsFree account_id group_id group db tidy found))
  renamed-Reads account_id group_id (some name) group = Reads-bind _ (Reads-raise_if _ _) λ _.
      Reads-bind _ (find_by_name-Reads account_id (normalize_name name).0) λ duplicate.
        Reads-bind _ (Reads-raise_if _ _) λ _. Reads-pure _ _ λ db mine named _ tidy found.
          (refl, refl, rw (sym (compared-again name)) (unused db duplicate tidy mine named))
    where
      unused :
          (db : Database) (o : Option SecurityGroup)
          → IsTidy db
          → is_other group_id o ≡ false
          → Named account_id (compared (normalize_name name).0) o db
          → IsFree account_id group_id (compared (normalize_name name).0) db
      unused db o tidy mine (inl free) =
          any-absent (has_name account_id (compared (normalize_name name).0))
            (is_group account_id group_id) db.groups free
      unused db o tidy mine (inr (d, there, e)) =
          any-only (has_name account_id (compared (normalize_name name).0))
            (is_group account_id group_id) d db.groups there
            (ground (
              arith,
              rw e at mine,
              find_first-fits (has_name account_id (compared (normalize_name name).0)) d db.groups
                  there,
            ))
            (tidy.names account_id (compared (normalize_name name).0))

  pub update_group-IsTidy :
      (account_id group_id caller_id : String) (name description : Option String) (is_admin : Bool)
      (db : Database)
      → IsTidy db
      → Ends db
          (Service.update_group account_id group_id caller_id name description is_admin)
          IsTidy
  unfolding Service.update_group
  update_group-IsTidy account_id group_id caller_id name description is_admin db tidy =
      Ends-bind tidy (get_group-Reads account_id group_id) λ group found.
        Ends-bind tidy (Reads-raise_if _ _) λ _ _.
          Ends-bind tidy (renamed-Reads account_id group_id name group) λ changed told.
            let (ea, ei, free) = told tidy found in
            let (a, i) = stored-key account_id group_id group db found in
            save-IsTidy db (described description changed) tidy
              (with_text description changed (ea ∙ a) (ei ∙ i) free)
    where
      with_text :
          (d : Option String) (g : SecurityGroup)
          → g.account_id ≡ account_id
          → g.group_id ≡ group_id
          → IsFree account_id group_id g.normalized_name db
          → IsFree
              (described d g).account_id
              (described d g).group_id
              (described d g).normalized_name
              db
      with_text none g a i free = rw (a, i) free
      with_text (some text) g a i free = rw (a, i) free

module _ ⦃mongo : Mongo⦄ (server : Server) where
  pub add_members_admin-IsTidy :
      (account_id group_id : String) (ids : List String) (db : Database)
      → IsTidy db
      → Ends db (Members.add_members_admin server account_id group_id ids) IsTidy
  unfolding Members.add_members_admin
  add_members_admin-IsTidy account_id group_id ids db tidy =
      Ends-bind tidy (get_group-Reads account_id group_id)
        λ group _. add_members-IsTidy server account_id group_id ids db tidy

  pub remove_members_admin-IsTidy :
      (account_id group_id : String) (ids : List String) (db : Database)
      → IsTidy db
      → Ends db (Members.remove_members_admin server account_id group_id ids) IsTidy
  unfolding Members.remove_members_admin
  remove_members_admin-IsTidy account_id group_id ids db tidy =
      Ends-bind tidy (get_group-Reads account_id group_id)
        λ group _. remove_members-IsTidy server account_id group_id ids db tidy

module _ ⦃mongo : Mongo⦄ ⦃unicode : Unicode⦄ (users : Bool) (server : Server) where
  pub add_members_of-IsTidy :
      (account_id caller_id group_id : String) (ids names : List String) (db : Database)
      → IsTidy db
      → Ends db (Members.add_members users server account_id caller_id group_id ids names) IsTidy
  unfolding Members.add_members
  add_members_of-IsTidy account_id caller_id group_id ids names db tidy =
      Ends-bind tidy (get_group-Reads account_id group_id) λ group _.
        Ends-bind tidy (Reads-raise_if _ _) λ _ _.
          Ends-bind tidy (targets-Reads users server account_id ids names)
            λ all _. add_members-IsTidy server account_id group_id all db tidy

  pub remove_members_of-IsTidy :
      (account_id caller_id group_id : String) (ids names : List String) (db : Database)
      → IsTidy db
      → Ends db (Members.remove_members users server account_id caller_id group_id ids names) IsTidy
  unfolding Members.remove_members
  remove_members_of-IsTidy account_id caller_id group_id ids names db tidy =
      Ends-bind tidy (get_group-Reads account_id group_id) λ group _.
        Ends-bind tidy (targets-Reads users server account_id ids names) λ all _.
          Ends-bind tidy (Reads-raise_if _ _)
            λ _ _. remove_members-IsTidy server account_id group_id all db tidy
