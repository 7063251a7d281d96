-- ===== src/Rbac/Safety/Deleting.antt =====
-- The deletion of a role keeps the hierarchies, wherever an outage strikes it.
use xolo_api.Base.{
  String, ◌≤◌, ◌≡◌, refl, inl, inr, Bool, true, false, not, List, [], ◌∷◌, elem, count, filter,
  elem-filter, ◌==◌, arith, Bool-cases,
}
use xolo_api.Exec.{◌>>◌}
use xolo_api.Platform.Collections.{All}
use xolo_api.Platform.Mongo.{Mongo}
use xolo_api.World.{Database, World}
use xolo_api.World.Rules.{
  Runs, Runs-pure, Runs-query, Runs-command, Runs-keep, Runs-left, Runs-freeze, Runs-weaken,
  Runs-from, Runs-bind,
}
use xolo_api.Rbac.Types.{Role}
use xolo_api.Rbac.Repository.Roles.{has_role_id, is_role}
use xolo_api.Rbac.Repository.Roles as Roles
use xolo_api.Rbac.Repository.Assignments as Assignments
use xolo_api.Rbac.Service.{detach_one, without_parent, detach, delete_role}
use xolo_api.Rbac.Safety.{hierarchy, IsHierarchical, IsSound}
use xolo_api.Rbac.Safety.Edges.{
  single-saved, IsWithin, IsPart, IsWithin-saved, IsWithin-deleted, single-deleted,
  IsHierarchical-within,
}
use xolo_api.Rbac.Safety.Operations.{get_role_reads}

module _ ⦃mongo : Mongo⦄ where
  module _ (catalog : Bool) where
    -- While the roles are detached, ids stay single and every edge is one of the roles at the start.
    Detaching : List Role → Database → Type 0
    Detaching bound db =
        ((k : String) → count (has_role_id k) db.roles ≤ 1) × IsWithin db.roles bound

    detach_runs :
        (bound : List Role) (role_id : String) (roles : List Role)
        → All (λ r. IsPart r bound) roles
        → Runs
            (Detaching bound)
            (detach catalog role_id roles)
            (λ _. Detaching bound)
            (Detaching bound)
    unfolding detach detach_one Roles.save Detaching
    detach_runs bound role_id [] parts = Runs-pure tt (λ db h. h)
    detach_runs bound role_id (role ∷ rest) parts =
        Runs-bind _ _ _ (one (elem role_id role.parent_role_ids))
          λ _. detach_runs bound role_id rest parts.1
      where
        one :
            (b : Bool)
            → Runs
                (Detaching bound)
                (detach_one catalog role_id role b)
                (λ _. Detaching bound)
                (Detaching bound)
        one false = Runs-pure tt (λ db h. h)
        one true =
            Runs-command _
              (λ db h.
                rw
                  (mongo.upsert_one_law (has_role_id role.role_id) (without_parent role_id role)
                    db.roles)
                  (
                    single-saved (without_parent role_id role) db.roles h.0,
                    IsWithin-saved (without_parent role_id role) db.roles bound h.1
                        (λ account' u v e. parts.0 account' u v (
                          ground (
                            arith,
                            e,
                            elem-filter v (λ p. not (p == role_id)) role.parent_role_ids,
                          ))),
                  ))
              (λ db h. h)

    all_parts :
        (account_id : String) (roles : List Role)
        → All (λ r. IsPart r roles) (filter (λ (r : Role). r.account_id == account_id) roles)
    all_parts account_id roles = go roles (λ a u v m. m)
      where
        -- of the roles that are left, each edge is one of the whole list
        go :
            (rest : List Role)
            → ((a u v : String) → hierarchy rest a u v ≡ true → hierarchy roles a u v ≡ true)
            → All (λ r. IsPart r roles) (filter (λ (r : Role). r.account_id == account_id) rest)
        go [] h = tt
        go (r ∷ rest) h = elim (Bool-cases (r.account_id == account_id)) [
          | inl ours ↦ rw ours (
            (λ a u v e. h a u v (ground (arith, e))),
            go rest (λ a u v e. h a u v (ground (arith, e))),
          )
          | inr other ↦ rw other (go rest (λ a u v e. h a u v (ground (arith, e))))
        ]

    settled :
        (bound : List Role) (db : Database) → IsHierarchical bound → Detaching bound db → IsSound db
    unfolding Detaching
    settled bound db h d = IsHierarchical-within db.roles bound d.0 d.1 h

    finish :
        (account_id role_id : String) (rs : List Role) (db : Database)
        → IsSound db
        → rs ≡ mongo.find (λ (r : Role). r.account_id == account_id) db.roles
        → Runs
            (λ db'. db' ≡ db)
            (detach catalog role_id rs >> Roles.delete account_id role_id)
            (λ _. IsSound)
            IsSound
    unfolding Detaching Roles.delete
    finish account_id role_id rs db h e =
        let parts : All (λ r. IsPart r db.roles) rs =
          rw (e, mongo.find_law (λ (r : Role). r.account_id == account_id) db.roles)
            (all_parts account_id db.roles) in
        Runs-bind (λ _. IsSound) _ _
          (Runs-weaken (detach catalog role_id rs) (λ _ db'. settled db.roles db' h)
            (λ db'. settled db.roles db' h)
            (Runs-from (λ db' same. rw same (h.single, λ a u v k. k))
              (detach_runs db.roles role_id rs parts)))
          λ _.
            Runs-command _
              (λ db' k. rw (mongo.delete_one_law (is_role account_id role_id) db'.roles) (
                IsHierarchical-within _ db'.roles
                  (λ k'.
                    ground (
                      arith,
                      single-deleted (is_role account_id role_id) db'.roles k',
                      k.single k',
                    ))
                  (IsWithin-deleted (is_role account_id role_id) db'.roles) k))
              (λ db' k. k)

    -- `delete_role` takes the role out of every list of parents, and what an outage leaves half done
    -- has no cycle either.
    pub delete_role-IsSound :
        (account_id role_id : String) (w : World)
        → IsSound w.db
        → IsSound (delete_role catalog account_id role_id w).1.db
    unfolding delete_role Roles.find_all Assignments.delete_by_role
    delete_role-IsSound account_id role_id = Runs-left _ (
        Runs-bind (λ _. IsSound) _ _
          (Runs-keep _ (λ w h. rw (get_role_reads catalog account_id role_id w) h))
          λ _.
            Runs-bind (λ _. IsSound) _ _ (Runs-command _ (λ db h. h) (λ db h. h))
              λ _.
                Runs-bind
                  (λ rs db.
                    IsSound db
                    × (rs ≡ mongo.find (λ (r : Role). r.account_id == account_id) db.roles))
                  _ _ (Runs-query _ (λ db h. (h, refl)) (λ db h. h))
                  λ rs. Runs-freeze (λ db h. finish account_id role_id rs db h.0 h.1))
