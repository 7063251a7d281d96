-- ===== src/Groups/Transfer.antt =====
-- A transfer of a group keeps the rules, its compensation included, wherever an outage strikes.
use xolo_api.Base.{String, refl, ap, ◌∙◌, Bool, true, false, [], ◌∷◌, ◌==◌}
use xolo_api.Errors.{XoloException}
use xolo_api.Platform.Collections.{find_first}
use xolo_api.Platform.Mongo.{Mongo}
use xolo_api.Platform.Text.{Unicode}
use xolo_api.World.{Database}
use xolo_api.World.Rules.{
  Runs, Runs-pure, Runs-raise, Runs-query, Runs-bind, Runs-keep, Runs-leave, Runs-recover,
  Runs-weaken,
}
use xolo_api.World.Ends.{Ends, Ends-bind}
use xolo_api.World.Reads.{Reads-or_raise, Reads-raise_if}
use xolo_api.Groups.Types.{SecurityGroup}
use xolo_api.Groups.Repository as Repository
use xolo_api.Groups.Members.{take_back, handed_over, joined, kept_as_member, transferred}
use xolo_api.Groups.Members as Members
use xolo_api.Groups.Repository.{Server, is_group}
use xolo_api.Groups.Invariant.{
  IsTidy, add_members-IsTidy, add_members-groups, remove_members-IsTidy,
}
use xolo_api.Groups.Safety.{StoredGroup, get_group-Reads, resave-IsTidy}
use xolo_api.Groups.Keeping.{resolve_usernames-Reads, validate_user_ids-Reads}

module _ ⦃mongo : Mongo⦄ (server : Server) (account_id group_id : String)
    (group : SecurityGroup) where
  -- the rules hold and the group is the stored one
  abbrev IsHeld : Database → Type 0
  IsHeld db = IsTidy db × StoredGroup account_id group_id group db

  joined-Runs :
      (was_member : Bool)
      → Runs IsHeld (joined server was_member account_id group) (λ _. IsHeld) IsHeld
  unfolding joined
  joined-Runs true = Runs-pure _ (λ db h. h)
  joined-Runs false = Runs-keep _ λ w (tidy, found). (
    (add_members-IsTidy server account_id group.group_id (group.owner_id ∷ []) w.db tidy).at w refl,
    ap (find_first (is_group account_id group_id)) (
          (add_members-groups server account_id group.group_id (group.owner_id ∷ []) w.db).at w
            refl)
        ∙ found,
  )

  kept-Runs :
      (keep : Bool) → Runs IsHeld (kept_as_member server keep account_id group) (λ _. IsHeld) IsHeld
  unfolding kept_as_member Repository.is_member
  kept-Runs false = Runs-pure _ (λ db h. h)
  kept-Runs true = Runs-bind (λ _. IsHeld) _ _ (Runs-query _ (λ db h. h) (λ db h. h)) joined-Runs

  take_back-Runs :
      (added : Bool) (e : XoloException)
      → Runs IsTidy (take_back server added account_id group e) (λ _. IsTidy) IsTidy
  unfolding take_back
  take_back-Runs false e = Runs-raise _ (λ db h. h)
  take_back-Runs true e =
      Runs-bind (λ _. IsTidy) _ _
        (Runs-recover _ _
          (Runs-keep _ λ w tidy.
            (remove_members-IsTidy server account_id group.group_id (group.owner_id ∷ []) w.db
                tidy).at
              w refl)
          (λ db h. h) (λ _. Runs-pure _ (λ db h. h)))
        (λ _. Runs-raise _ (λ db h. h))

  handed_over-Runs :
      (added : Bool) (new_owner_id : String)
      → Runs IsHeld (handed_over server added account_id new_owner_id group) (λ _. IsTidy) IsTidy
  unfolding handed_over
  handed_over-Runs added new_owner_id =
      Runs-bind (λ _. IsTidy) _ _
        (Runs-recover _ _
          (Runs-keep (Repository.save (record group { owner_id = new_owner_id })) λ w (tidy, found).
            (resave-IsTidy account_id group_id group (record group { owner_id = new_owner_id }) w.db
                tidy found (refl, refl, refl)).at
              w refl)
          (λ db h. h) (take_back-Runs added))
        (λ _. Runs-pure _ (λ db h. h))

  transferred-Runs :
      (done keep : Bool) (new_owner_id : String)
      → Runs IsHeld
          (transferred server done keep account_id new_owner_id group)
          (λ _. IsTidy)
          IsTidy
  unfolding transferred
  transferred-Runs true keep new_owner_id = Runs-pure _ (λ db h. h.0)
  transferred-Runs false keep new_owner_id =
      Runs-bind (λ _. IsHeld) _ _
        (Runs-weaken (kept_as_member server keep account_id group) (λ _ db h. h) (λ db h. h.0)
          (kept-Runs keep))
        (λ added. handed_over-Runs added new_owner_id)

module _ ⦃mongo : Mongo⦄ ⦃unicode : Unicode⦄ (users : Bool) (server : Server) where
  pub transfer_owner_admin-IsTidy :
      (account_id group_id new_owner_id : String) (keep : Bool) (db : Database)
      → IsTidy db
      → Ends db
          (Members.transfer_owner_admin users server account_id group_id new_owner_id keep)
          IsTidy
  unfolding Members.transfer_owner_admin
  transfer_owner_admin-IsTidy account_id group_id new_owner_id keep db tidy =
      Ends-bind tidy (get_group-Reads account_id group_id) λ group found.
        Ends-bind tidy (validate_user_ids-Reads users account_id (new_owner_id ∷ [])) λ _ _.
          (record {
            at = λ w e.
                Runs-leave _
                  (transferred-Runs server account_id group_id group
                    (group.owner_id == new_owner_id) keep new_owner_id)
                  w (rw e (tidy, found));
          })

  pub transfer_owner-IsTidy :
      (account_id group_id caller_id owner_username : String) (is_admin : Bool) (db : Database)
      → IsTidy db
      → Ends db
          (Members.transfer_owner users server account_id group_id caller_id owner_username
            is_admin)
          IsTidy
  unfolding Members.transfer_owner
  transfer_owner-IsTidy account_id group_id caller_id owner_username is_admin db tidy =
      Ends-bind tidy (get_group-Reads account_id group_id) λ group found.
        Ends-bind tidy (Reads-raise_if _ _) λ _ _.
          Ends-bind tidy (resolve_usernames-Reads users account_id (owner_username ∷ [])) λ ids _.
            Ends-bind tidy (Reads-or_raise _ _)
              λ owner _. transfer_owner_admin-IsTidy account_id group_id owner true db tidy
