-- ===== src/Groups/Meaning.antt =====
-- Which ids the lookups of a user's groups return: those of the active groups of the account that
-- list the user as a member.
use xolo_api.Base.{
  String, ◌≡◌, refl, ap, Bool, false, ◌&&◌, List, [], ◌∷◌, map, filter, any, elem, ◌==◌, arith,
  eq_iff, Bool-cases, inl, inr,
}
use xolo_api.Platform.Mongo.{Mongo}
use xolo_api.World.{Database}
use xolo_api.Groups.Types.{SecurityGroup, GroupMember}
use xolo_api.Groups.Repository.{memberships, wanted}
use xolo_api.Groups.Reading.{groups_in, group_ids_of}

-- the user is a member of the group, which is active
abbrev pub in_group : String → String → Database → String → Bool
in_group account_id user_id db gid =
    any (λ m. m.account_id == account_id && m.user_id == user_id && m.group_id == gid) db.members
    && any (λ g. g.account_id == account_id && g.group_id == gid && g.is_active) db.groups

module _ ⦃mongo : Mongo⦄ (account_id user_id : String) (db : Database) where
  elem-memberships :
      (gid : String)
      → elem gid (memberships account_id user_id db)
        ≡ any
            (λ m. m.account_id == account_id && m.user_id == user_id && m.group_id == gid)
            db.members
  elem-memberships gid =
      rw
        (mongo.find_law (λ (m : GroupMember). m.account_id == account_id && m.user_id == user_id)
          db.members)
        (go db.members)
    where
      go :
          (ms : List GroupMember)
          → elem gid (
              map
                (λ (m : GroupMember). m.group_id)
                (filter
                  (λ (m : GroupMember). m.account_id == account_id && m.user_id == user_id)
                  ms))
            ≡ any (λ m. m.account_id == account_id && m.user_id == user_id && m.group_id == gid) ms
      go [] = refl
      go (m ∷ ms) = ground (arith, go ms)

  elem-groups_in :
      (ids : List String) (gid : String)
      → elem gid (map (λ g. g.group_id) (groups_in account_id ids db)) ≡ (
          elem gid ids
          && any (λ g. g.account_id == account_id && g.group_id == gid && g.is_active) db.groups)
  elem-groups_in [] gid = refl
  elem-groups_in (i ∷ ids) gid =
      rw (mongo.find_law (wanted account_id (i ∷ ids) false) db.groups) (go db.groups)
    where
      go :
          (gs : List SecurityGroup)
          → elem gid (map (λ g. g.group_id) (filter (wanted account_id (i ∷ ids) false) gs)) ≡ (
              elem gid (i ∷ ids)
              && any (λ g. g.account_id == account_id && g.group_id == gid && g.is_active) gs)
      go [] = ground arith
      go (g ∷ gs) = elim (Bool-cases (g.group_id == gid)) [
        | inl same ↦
            ground (arith, go gs, same, ap (λ x. elem x (i ∷ ids)) ((eq_iff g.group_id gid).0 same))
        | inr other ↦ ground (arith, go gs, other)
      ]

  pub elem-group_ids_of :
      (gid : String)
      → elem gid (group_ids_of account_id user_id db) ≡ in_group account_id user_id db gid
  elem-group_ids_of gid =
      rw (elem-groups_in (memberships account_id user_id db) gid, elem-memberships gid) refl
