-- ===== src/Rbac/Safety/Operations.antt =====
-- Each role operation keeps the hierarchies, wherever an outage strikes it.
use xolo_api.Base.{
  String, ◌≡◌, refl, sym, ap, ◌∙◌, inl, inr, Bool, true, false, not, ◌||◌, List, [], ◌∷◌, Option,
  none, some, elem, elem-filter, ◌==◌, arith, Bool-cases,
}
use xolo_api.Exec.{pure, ◌>>=◌}
use xolo_api.Platform.Collections.{find_first, is_some}
use xolo_api.Platform.Mongo.{Mongo}
use xolo_api.World.{Database, World, query, command_uncaught}
use xolo_api.World.Rules.{
  Runs, Runs-pure, Runs-or_raise, Runs-query, Runs-command, Runs-keep, Runs-read, Runs-left,
  Runs-check, Runs-raise_if, Runs-fixed, Runs-bind,
}
use xolo_api.Traversal.Reach.{Reach, Reach-mono}
use xolo_api.Traversal.Correct.{edge}
use xolo_api.Rbac.Types.{Role, add_permission, remove_permission}
use xolo_api.Rbac.Hierarchy.{by_id, parents, would_create_cycle}
use xolo_api.Rbac.Hierarchy.Walks.{would_create_cycle_iff}
use xolo_api.Rbac.Repository.Roles.{has_role_id, is_role}
use xolo_api.Rbac.Repository.Roles as Roles
use xolo_api.Rbac.Repository.Catalog as Catalog
use xolo_api.Rbac.Service.{
  validate, register, create_role, get_role, renames, updated_role, save_changes, unnamed,
  join_parent, update_role, without_parent, add_permission_to, remove_permission_from, add_parent,
  remove_parent,
}
use xolo_api.Rbac.Safety.{hierarchy, IsHierarchical, IsSound}
use xolo_api.Rbac.Safety.Edges.{
  edge-account, saved, IsPart-shrunk, IsHierarchical-saved, IsHierarchical-parent,
}

abbrev SameParents : Role → Role → Type 0
SameParents new role =
    (new.account_id ≡ role.account_id)
    × (new.role_id ≡ role.role_id)
    × (new.parent_role_ids ≡ role.parent_role_ids)

grown : (permission : String) (role : Role) → SameParents (add_permission permission role) role
unfolding add_permission
grown permission role = ground arith

reduced : (permission : String) (role : Role) → SameParents (remove_permission permission role) role
unfolding remove_permission
reduced permission role = ground arith

changed :
    (name description : Option String) (description_set : Bool) (role : Role)
    → SameParents (updated_role name description description_set role) role
unfolding updated_role
changed none description description_set role = ground arith
changed (some name) description description_set role = ground arith

module _ ⦃mongo : Mongo⦄ where
  -- a sound database, and a role in hand that it holds
  abbrev Holds : String → String → Role → Database → Type 0
  Holds account_id role_id role db =
      IsSound db × (find_first (is_role account_id role_id) db.roles ≡ some role)

  validate_reads : (ps : List String) (w : World) → (validate ps w).1.db ≡ w.db
  unfolding validate ◌>>=◌
  validate_reads [] w = refl
  validate_reads (p ∷ ps) w = ground (arith, validate_reads ps w)

  register_one_roles :
      (account_id p : String) (w : World)
      → (Catalog.register_one account_id p w).1.db.roles ≡ w.db.roles
  unfolding Catalog.register_one command_uncaught
  register_one_roles account_id p w = ground arith

  register_each_roles :
      (account_id : String) (ps : List String) (w : World)
      → (Catalog.register_each account_id ps w).1.db.roles ≡ w.db.roles
  unfolding Catalog.register_each Catalog.register_one command_uncaught ◌>>=◌
  register_each_roles account_id [] w = refl
  register_each_roles account_id (p ∷ ps) w = elim (Bool-cases (w.outage w.calls)) [
    | inl down ↦ ground (arith, down)
    | inr up ↦
        rw (Catalog.register_each, ◌>>=◌, Catalog.register_one, command_uncaught, up)
          (register_each_roles account_id ps (Catalog.register_one account_id p w).1
            ∙ register_one_roles account_id p w)
  ]

  module _ (catalog : Bool) where
    get_role-Holds :
        (account_id role_id : String)
        → Runs IsSound (get_role catalog account_id role_id) (Holds account_id role_id) IsSound
    unfolding get_role
    get_role-Holds account_id role_id =
        Runs-bind (λ o db. IsSound db × (find_first (is_role account_id role_id) db.roles ≡ o)) _ _
          (Runs-query _
            (λ db h. (h, sym (mongo.find_one_law (is_role account_id role_id) db.roles)))
            (λ db h. h))
          (λ o. Runs-or_raise o _ (λ db h. h.0) (λ role e db h. (h.0, h.1 ∙ e)))

    -- a save that keeps the hierarchies
    save_keeps :
        {P : Database → Type 0} (role : Role)
        → ((db : Database) → P db → IsSound db)
        → ((db : Database) → P db → IsHierarchical (saved role db.roles))
        → Runs P (Roles.save role) (λ _. IsSound) IsSound
    unfolding Roles.save
    save_keeps role sound keeps =
        Runs-command _
          (λ db h. rw (mongo.upsert_one_law (has_role_id role.role_id) role db.roles) (keeps db h))
          sound

    -- a role with no more parents takes the place of one in hand
    save_shrunk :
        (account_id role_id : String) (role new : Role)
        → new.account_id ≡ role.account_id
        → new.role_id ≡ role.role_id
        → ((v : String) → elem v new.parent_role_ids ≡ true → elem v role.parent_role_ids ≡ true)
        → Runs (Holds account_id role_id role) (Roles.save new) (λ _. IsSound) IsSound
    save_shrunk account_id role_id role new same_account same_id fewer =
        save_keeps new (λ db h. h.0)
          (λ db h.
            IsHierarchical-saved new db.roles
              (IsPart-shrunk (is_role account_id role_id) db.roles role new h.1 same_account same_id
                fewer)
              h.0)

    pub remove_parent-IsSound :
        (account_id role_id parent_role_id : String) (w : World)
        → IsSound w.db
        → IsSound (remove_parent catalog account_id role_id parent_role_id w).1.db
    unfolding remove_parent
    remove_parent-IsSound account_id role_id parent_role_id = Runs-left _ (
        Runs-bind _ _ _ (get_role-Holds account_id role_id) λ role.
          Runs-bind _ _ _
            (save_shrunk account_id role_id role (without_parent parent_role_id role) refl refl
              (λ v m.
                ground
                  (arith, elem-filter v (λ p. not (p == parent_role_id)) role.parent_role_ids, m)))
            λ _. Runs-pure _ (λ db h. h))

    register_roles :
        (account_id : String) (ps : List String) (w : World)
        → (register catalog account_id ps w).1.db.roles ≡ w.db.roles
    unfolding register Catalog.register pure
    register_roles account_id ps w = elim (Bool-cases catalog) [
      | inl on ↦
          rw (register, on, Catalog.register)
            (register_each_roles account_id (Catalog.sorted_set ps) w)
      | inr off ↦ rw (register, off) refl
    ]

    register_keeps :
        (account_id : String) (ps : List String)
        → Runs IsSound (register catalog account_id ps) (λ _. IsSound) IsSound
    register_keeps account_id ps = Runs-keep _ (λ w h. rw (register_roles account_id ps w) h)

    pub create_role-IsSound :
        (account_id fresh name : String) (description : Option String) (permissions : List String)
        (w : World)
        → IsSound w.db
        → IsSound (create_role catalog account_id fresh name description permissions w).1.db
    unfolding create_role Roles.find_by_name
    create_role-IsSound account_id fresh name description permissions = Runs-left _ (
        Runs-bind _ _ _ (Runs-read _ (validate_reads permissions)) λ _.
          Runs-bind (λ _. IsSound) _ _ (Runs-query _ (λ db h. h) (λ db h. h))
            λ existing. Runs-bind _ _ _ (Runs-check _ _ (λ db h. h)) λ _.
              Runs-bind _ _ _
                (save_keeps _ (λ db h. h)
                  (λ db h. IsHierarchical-saved _ db.roles (λ account' u v e. ground (arith, e)) h))
                λ _.
                  Runs-bind _ _ _ (register_keeps account_id permissions)
                    λ _. Runs-pure _ (λ db h. h))

    unnamed_reads :
        (account_id : String) (name : Option String) (role : Role) (w : World)
        → (unnamed catalog account_id name role w).1.db ≡ w.db
    unfolding unnamed Roles.find_by_name query ◌>>=◌
    unnamed_reads account_id none role w = refl
    unnamed_reads account_id (some name) role w = ground arith

    pub update_role-IsSound :
        (account_id role_id : String) (name description : Option String) (description_set : Bool)
        (w : World)
        → IsSound w.db
        → IsSound (update_role catalog account_id role_id name description description_set w).1.db
    unfolding update_role save_changes
    update_role-IsSound account_id role_id name description description_set = Runs-left _ (
        Runs-bind _ _ _ (get_role-Holds account_id role_id) λ role.
          Runs-bind _ _ _ (Runs-fixed _ (unnamed_reads account_id name role) (λ db h. h.0))
            λ _. changes role (renames name role || (description_set || is_some description)))
      where
        changes :
            (role : Role) (b : Bool)
            → Runs
                (Holds account_id role_id role)
                (save_changes catalog b role (updated_role name description description_set role))
                (λ _. IsSound)
                IsSound
        changes role false = Runs-pure role (λ db h. h.0)
        changes role true =
            let (a, i, e) = changed name description description_set role in
            Runs-bind _ _ _
              (save_shrunk account_id role_id role
                (updated_role name description description_set role) a i (λ v m. rw e at m))
              λ _. Runs-pure _ (λ db h. h)

    pub add_permission_to-IsSound :
        (account_id role_id permission : String) (w : World)
        → IsSound w.db
        → IsSound (add_permission_to catalog account_id role_id permission w).1.db
    unfolding add_permission_to
    add_permission_to-IsSound account_id role_id permission = Runs-left _ (
        Runs-bind _ _ _ (get_role-Holds account_id role_id) λ role.
          Runs-bind (λ _. Holds account_id role_id role) _ _
            (Runs-or_raise _ _ (λ db h. h.0) (λ _ _ db h. h))
            λ _.
              Runs-bind _ _ _
                (save_shrunk account_id role_id role (add_permission permission role)
                  (grown permission role).0 (grown permission role).1
                  (λ v m. rw (grown permission role).2 at m))
                λ _.
                  Runs-bind _ _ _ (register_keeps account_id (permission ∷ []))
                    λ _. Runs-pure _ (λ db h. h))

    pub remove_permission_from-IsSound :
        (account_id role_id permission : String) (w : World)
        → IsSound w.db
        → IsSound (remove_permission_from catalog account_id role_id permission w).1.db
    unfolding remove_permission_from
    remove_permission_from-IsSound account_id role_id permission = Runs-left _ (
        Runs-bind _ _ _ (get_role-Holds account_id role_id) λ role.
          Runs-bind _ _ _
            (save_shrunk account_id role_id role (remove_permission permission role)
              (reduced permission role).0 (reduced permission role).1
              (λ v m. rw (reduced permission role).2 at m))
            λ _. Runs-pure _ (λ db h. h))

    no_way_back :
        (db : Database) (account_id role_id parent_role_id : String)
        → IsSound db
        → would_create_cycle role_id parent_role_id
            (by_id [] (mongo.find (λ (r : Role). r.account_id == account_id) db.roles))
          ≡ false
        → ¬ Reach (hierarchy db.roles account_id) (parent_role_id ∷ []) role_id
    no_way_back db account_id role_id parent_role_id h clear r =
        let all_roles = by_id [] (mongo.find (λ (r : Role). r.account_id == account_id) db.roles) in
        let along =
          Reach-mono (hierarchy db.roles account_id) (edge (parents all_roles))
            (parent_role_id ∷ [])
            (λ u v s.
              rw (mongo.find_law (λ (r : Role). r.account_id == account_id) db.roles)
                (edge-account db.roles account_id u v h.single s))
            r in
        cc ((would_create_cycle_iff role_id parent_role_id all_roles).1 along, clear)

    pub get_role_reads :
        (account_id role_id : String) (w : World)
        → (get_role catalog account_id role_id w).1.db ≡ w.db
    unfolding get_role Roles.find_by_id query ◌>>=◌
    get_role_reads account_id role_id w = ground arith

    -- `add_parent` closes no cycle, and keeps every other property of the hierarchies.
    pub add_parent-IsSound :
        (account_id role_id parent_role_id : String) (w : World)
        → IsSound w.db
        → IsSound (add_parent catalog account_id role_id parent_role_id w).1.db
    unfolding add_parent join_parent Roles.find_all
    add_parent-IsSound account_id role_id parent_role_id = Runs-left _ (
        Runs-bind _ _ _ (Runs-check _ _ (λ db h. h)) λ _.
          Runs-bind _ _ _ (get_role-Holds account_id role_id) λ role.
            Runs-bind _ _ _ (Runs-fixed _ (get_role_reads account_id parent_role_id) (λ db h. h.0))
              λ _. joined role (elem parent_role_id role.parent_role_ids))
      where
        joined :
            (role : Role) (b : Bool)
            → Runs
                (Holds account_id role_id role)
                (join_parent catalog account_id role_id parent_role_id role b)
                (λ _. IsSound)
                IsSound
        joined role true = Runs-pure role (λ db h. h.0)
        joined role false =
            Runs-bind
              (λ rs db.
                Holds account_id role_id role db
                × (rs ≡ mongo.find (λ (r : Role). r.account_id == account_id) db.roles))
              _ _ (Runs-query _ (λ db h. (h, refl)) (λ db h. h.0))
              λ rs. Runs-bind _ _ _ (Runs-raise_if _ _ (λ db h. h.0.0)) λ _.
                Runs-bind _ _ _
                  (save_keeps _ (λ db h. h.0.0.0)
                    (λ db h.
                      IsHierarchical-parent db.roles role account_id role_id parent_role_id h.0.0.1
                        (no_way_back db account_id role_id parent_role_id h.0.0.0 (
                          ap (λ l. would_create_cycle role_id parent_role_id (by_id [] l))
                            (sym h.0.1)
                          ∙ h.1))
                        h.0.0.0))
                  λ _. Runs-pure _ (λ db h. h)
