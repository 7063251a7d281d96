-- ===== src/Groups/Safety.antt =====
-- Every operation keeps the rules of groups and memberships, wherever an outage strikes.
use xolo_api.Base.{
  String, ◌≡◌, ◌⊎◌, refl, sym, ap, ◌∙◌, Bool, true, false, Option, none, some, arith, eq_iff,
  eq_refl, inl, inr,
}
use xolo_api.Platform.Collections.{find_first, find_first-fits, is_some, count-delete_first}
use xolo_api.Platform.Mongo.{Mongo}
use xolo_api.Platform.Text.{Unicode}
use xolo_api.World.{Database}
use xolo_api.World.Rules.{Runs, Runs-pure, Runs-command, Runs-check, Runs-bind, Runs-left}
use xolo_api.World.Ends.{Ends, Ends-bind, Ends-then}
use xolo_api.World.Reads.{
  Reads, Anything, Reads-pure, Reads-or_raise, Reads-raise_if, Reads-query, Reads-bind,
  Reads-weaken,
}
use xolo_api.Groups.Types.{SecurityGroup}
use xolo_api.Groups.Repository.{is_group, normalize_name, scan_for, find_group}
use xolo_api.Groups.Repository as Repository
use xolo_api.Groups.Service.{
  first, described, is_other, new_group, get_group, usage, resolve_each, resolve_usernames,
  validate_each, validate_user_ids, renamed, delete_unused,
}
use xolo_api.Groups.Service as Service
use xolo_api.Groups.Names.{one_spaced-again, any-absent, any-own}
use xolo_api.Groups.Invariant.{has_name, IsTidy, IsFree, save-IsTidy, fewer-IsTidy}

module _ ⦃mongo : Mongo⦄ where
  -- the group as it is stored
  abbrev pub StoredGroup : String → String → SecurityGroup → Database → Type 0
  StoredGroup account_id group_id group db =
      find_first (is_group account_id group_id) db.groups ≡ some group

  pub get_group-Reads :
      (account_id group_id : String)
      → Reads (get_group account_id group_id) (StoredGroup account_id group_id)
  unfolding get_group find_group
  get_group-Reads account_id group_id = Reads-bind _ (Reads-query _) λ found.
      Reads-weaken (Reads-or_raise found _) λ group db e h.
        sym (mongo.find_one_law (is_group account_id group_id) db.groups) ∙ sym h ∙ e

  pub stored-key :
      (account_id group_id : String) (group : SecurityGroup) (db : Database)
      → StoredGroup account_id group_id group db
      → (group.account_id ≡ account_id) × (group.group_id ≡ group_id)
  stored-key account_id group_id group db found =
      let fits = find_first-fits (is_group account_id group_id) group db.groups found in
      (
        (eq_iff group.account_id account_id).0 (ground (arith, fits)),
        (eq_iff group.group_id group_id).0 (ground (arith, fits)),
      )

  -- its own name is free for a stored group
  pub own_name-IsFree :
      (account_id group_id : String) (group : SecurityGroup) (db : Database)
      → IsTidy db
      → StoredGroup account_id group_id group db
      → IsFree account_id group_id group.normalized_name db
  own_name-IsFree account_id group_id group db tidy found =
      let (a, i) = stored-key account_id group_id group db found in
      any-own (has_name account_id group.normalized_name) (is_group account_id group_id) group
        db.groups found (ground (arith, a, eq_refl account_id, eq_refl group.normalized_name))
        (tidy.names account_id group.normalized_name)

  -- a stored group is saved under its own name
  pub resave-IsTidy :
      (account_id group_id : String) (group after : SecurityGroup) (db : Database)
      → IsTidy db
      → StoredGroup account_id group_id group db
      → (after.account_id ≡ group.account_id)
        × (after.group_id ≡ group.group_id)
        × (after.normalized_name ≡ group.normalized_name)
      → Ends db (Repository.save after) IsTidy
  resave-IsTidy account_id group_id group after db tidy found (ea, ei, en) =
      let (a, i) = stored-key account_id group_id group db found in
      save-IsTidy db after tidy
        (rw (ea ∙ a, ei ∙ i, en) (own_name-IsFree account_id group_id group db tidy found))

  pub set_status-IsTidy :
      (account_id group_id : String) (is_active : Bool) (db : Database)
      → IsTidy db
      → Ends db (Service.set_status account_id group_id is_active) IsTidy
  unfolding Service.set_status
  set_status-IsTidy account_id group_id is_active db tidy =
      Ends-bind tidy (get_group-Reads account_id group_id)
        λ group found. resave-IsTidy account_id group_id group _ db tidy found (refl, refl, refl)

  usage-Reads :
      (resolver : Bool) (account_id group_id : String)
      → Reads (usage resolver account_id group_id) Anything
  unfolding usage
  usage-Reads false account_id group_id = Reads-pure _ _ (λ db. tt)
  usage-Reads true account_id group_id =
      Reads-bind _ (Reads-query _)
        λ ps. Reads-bind _ (Reads-query _) λ ras. Reads-pure _ _ (λ db _ _. tt)

  delete-Runs :
      (account_id group_id : String)
      → Runs IsTidy (Repository.delete account_id group_id) (λ _. IsTidy) IsTidy
  unfolding Repository.delete
  delete-Runs account_id group_id =
      Runs-bind (λ _. IsTidy) _ _
        (Runs-command _
          (λ db tidy. record {
            ids = λ a i. rw (mongo.delete_one_law (is_group account_id group_id) db.groups) (
                ground (
                  arith,
                  tidy.ids a i,
                  count-delete_first (is_group a i) (is_group account_id group_id) db.groups,
                ));
            names = λ a n. rw (mongo.delete_one_law (is_group account_id group_id) db.groups) (
                ground (
                  arith,
                  tidy.names a n,
                  count-delete_first (has_name a n) (is_group account_id group_id) db.groups,
                ));
            members = tidy.members;
          })
          (λ db h. h))
        (λ _.
          Runs-bind (λ _. IsTidy) _ _ (Runs-check _ _ (λ db h. h))
            (λ _.
              Runs-bind (λ _. IsTidy) _ _ (Runs-command _ (fewer-IsTidy _) (λ db h. h))
                (λ _. Runs-pure _ (λ db h. h))))

  delete_unused-IsTidy :
      (resolver : Bool) (account_id group_id : String) (db : Database)
      → IsTidy db
      → Ends db (delete_unused resolver account_id group_id) IsTidy
  unfolding delete_unused
  delete_unused-IsTidy resolver account_id group_id db tidy =
      Ends-bind tidy (usage-Reads resolver account_id group_id) λ used _.
        Ends-bind tidy (Reads-raise_if _ _)
          λ _ _. record { at = λ w e. Runs-left _ (delete-Runs account_id group_id) w (rw e tidy) }

  pub delete_group-IsTidy :
      (resolver : Bool) (account_id caller_id group_id : String) (db : Database)
      → IsTidy db
      → Ends db (Service.delete_group resolver account_id caller_id group_id) IsTidy
  unfolding Service.delete_group
  delete_group-IsTidy resolver account_id caller_id group_id db tidy =
      Ends-bind tidy (get_group-Reads account_id group_id) λ group _.
        Ends-bind tidy (Reads-raise_if _ _)
          λ _ _. delete_unused-IsTidy resolver account_id group_id db tidy

  pub delete_group_admin-IsTidy :
      (resolver : Bool) (account_id group_id : String) (db : Database)
      → IsTidy db
      → Ends db (Service.delete_group_admin resolver account_id group_id) IsTidy
  unfolding Service.delete_group_admin
  delete_group_admin-IsTidy resolver account_id group_id db tidy =
      Ends-bind tidy (get_group-Reads account_id group_id)
        λ group _. delete_unused-IsTidy resolver account_id group_id db tidy

module _ ⦃mongo : Mongo⦄ ⦃unicode : Unicode⦄ where
  abbrev pub compared : String → String
  compared name = (normalize_name name).1

  -- what the lookup by name tells of the names that are stored
  abbrev pub Named : String → String → Option SecurityGroup → Database → Type 0
  Named account_id name o db =
      (find_first (has_name account_id name) db.groups ≡ none)
      ⊎ ((d : SecurityGroup) × (find_first (has_name account_id name) db.groups ≡ some d)
          × (o ≡ some d))

  scan_for-Reads :
      (account_id name : String) (found : Option SecurityGroup)
      → Reads (scan_for account_id name found) (λ o db.
        find_first (has_name account_id name) db.groups ≡ found → Named account_id name o db)
  unfolding scan_for
  scan_for-Reads account_id name (some group) = Reads-pure _ _ (λ db e. inr (group, e, refl))
  scan_for-Reads account_id name none = Reads-weaken (Reads-query _) (λ o db _ e. inl e)

  pub find_by_name-Reads :
      (account_id name : String)
      → Reads (Repository.find_by_name account_id name) (Named account_id (compared name))
  unfolding Repository.find_by_name
  find_by_name-Reads account_id name = Reads-bind _ (Reads-query _) λ found.
      Reads-weaken (scan_for-Reads account_id (compared name) found) λ o db h e.
        h (sym (mongo.find_one_law (has_name account_id (compared name)) db.groups) ∙ sym e)

  -- cleaning a name twice changes nothing
  pub compared-again : (name : String) → compared (normalize_name name).0 ≡ compared name
  compared-again name = ap unicode.casefold (one_spaced-again name)

  pub create_group-IsTidy :
      (fresh account_id owner_id name description : String) (db : Database)
      → IsTidy db
      → Ends db (Service.create_group fresh account_id owner_id name description) IsTidy
  unfolding Service.create_group
  create_group-IsTidy fresh account_id owner_id name description db tidy =
      Ends-bind tidy (Reads-raise_if _ _) λ _ _.
        Ends-bind tidy (find_by_name-Reads account_id (normalize_name name).0) λ exists named.
          Ends-bind tidy (Reads-raise_if _ _) λ _ absent.
            Ends-then
              (save-IsTidy db (new_group fresh account_id owner_id name description) tidy (
                rw (sym (compared-again name)) (
                  any-absent (has_name account_id (compared (normalize_name name).0)) _ db.groups
                    (unused exists absent named))))
              (λ _. Reads-pure _ _ (λ db. tt))
    where
      unused :
          (exists : Option SecurityGroup)
          → is_some exists ≡ false
          → Named account_id (compared (normalize_name name).0) exists db
          → find_first (has_name account_id (compared (normalize_name name).0)) db.groups ≡ none
      unused exists absent (inl free) = free
      unused exists absent (inr (d, found, e)) = absurd (cc (absent, ap is_some e))
