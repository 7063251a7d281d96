-- ===== src/Groups/Invariant.antt =====
-- The rules that groups and memberships obey, and how the writes of the repository keep them.
use xolo_api.Base.{
  String, ◌≤◌, ◌≡◌, sym, ap, Bool, true, false, not, ◌&&◌, List, [], ◌∷◌, any, count, count-filter,
  count-append, ◌==◌, arith, eq_iff, eq_refl, Bool-cases, Option-cases, inl, inr,
}
use xolo_api.Exec.{Exec, Result, ok, err}
use xolo_api.Platform.Collections.{find_first, replace_or_append, count-absent}
use xolo_api.Platform.Mongo.{Mongo}
use xolo_api.World.{Database, World, transaction}
use xolo_api.World.Rules.{Runs, Runs-pure, Runs-command, Runs-bind, Runs-left, keeps-transaction}
use xolo_api.World.Ends.{Ends, Ends-command, Ends-then}
use xolo_api.World.Reads.{Reads-pure}
use xolo_api.Groups.Types.{SecurityGroup, GroupMember}
use xolo_api.Groups.Repository.{
  Server, is_group, is_membership, new_member, add_each, remove_each, run_batch, run_with, rerun,
}
use xolo_api.Groups.Repository as Repository
use xolo_api.Groups.Names.{any-count, any-put, count-put_other, count-put_self}

abbrev pub has_name : String → String → SecurityGroup → Bool
has_name account_id name g = g.account_id == account_id && g.normalized_name == name

-- No account has two groups with one id or with one name, and no user is listed twice in a group.
pub record IsTidy (db : Database) : Type 0 where
  pub ids : (account_id group_id : String) → count (is_group account_id group_id) db.groups ≤ 1
  pub names : (account_id name : String) → count (has_name account_id name) db.groups ≤ 1
  pub members :
      (account_id group_id user_id : String)
      → count (is_membership account_id group_id user_id) db.members ≤ 1

-- no other group of the account has the name
abbrev pub IsFree : String → String → String → Database → Type 0
IsFree account_id group_id name db =
    any (λ g. has_name account_id name g && not (is_group account_id group_id g)) db.groups ≡ false

abbrev pub with_group : SecurityGroup → Database → Database
with_group g db = record db {
  groups = replace_or_append (is_group g.account_id g.group_id) g db.groups;
}

is_group_self : (g : SecurityGroup) → is_group g.account_id g.group_id g ≡ true
is_group_self g = ground (arith, eq_refl g.account_id, eq_refl g.group_id)

module _ (db : Database) (tidy : IsTidy db) (g : SecurityGroup) where
  with_group-ids : (a i : String) → count (is_group a i) (with_group g db).groups ≤ 1
  with_group-ids a i = elim (Bool-cases (is_group a i g)) [
    | inr other ↦ ground (
      arith,
      tidy.ids a i,
      count-put_other (is_group a i) (is_group g.account_id g.group_id) g db.groups other,
    )
    | inl here ↦
        let same_a : g.account_id ≡ a = (eq_iff g.account_id a).0 (ground arith) in
        let same_i : g.group_id ≡ i = (eq_iff g.group_id i).0 (ground arith) in
        rw (sym same_a, sym same_i)
          (count-put_self (is_group g.account_id g.group_id) g db.groups (is_group_self g)
            (tidy.ids g.account_id g.group_id))
  ]

  with_group-names :
      IsFree g.account_id g.group_id g.normalized_name db
      → (a n : String) → count (has_name a n) (with_group g db).groups ≤ 1
  with_group-names free a n = elim (Bool-cases (has_name a n g)) [
    | inr other ↦ ground (
      arith,
      tidy.names a n,
      count-put_other (has_name a n) (is_group g.account_id g.group_id) g db.groups other,
    )
    | inl here ↦
        let same_a : g.account_id ≡ a = (eq_iff g.account_id a).0 (ground arith) in
        let same_n : g.normalized_name ≡ n = (eq_iff g.normalized_name n).0 (ground arith) in
        rw (sym same_a, sym same_n)
          (ground (
            arith,
            with_group-ids g.account_id g.group_id,
            any-count (has_name g.account_id g.normalized_name) (is_group g.account_id g.group_id)
                (with_group g db).groups,
            any-put
                (λ x.
                  has_name g.account_id g.normalized_name x
                  && not (is_group g.account_id g.group_id x))
                (is_group g.account_id g.group_id) g db.groups free
                (ground (arith, is_group_self g)),
          ))
  ]

  pub with_group-IsTidy :
      IsFree g.account_id g.group_id g.normalized_name db → IsTidy (with_group g db)
  with_group-IsTidy free = record {
    ids = with_group-ids;
    names = with_group-names free;
    members = tidy.members;
  }

module _ ⦃mongo : Mongo⦄ where
  pub save-IsTidy :
      (db : Database) (g : SecurityGroup)
      → IsTidy db
      → IsFree g.account_id g.group_id g.normalized_name db
      → Ends db (Repository.save g) IsTidy
  unfolding Repository.save
  save-IsTidy db g tidy free =
      Ends-then
        (Ends-command _ tidy (
          rw (mongo.upsert_one_law (is_group g.account_id g.group_id) g db.groups)
            (with_group-IsTidy db tidy g free)))
        (λ _. Reads-pure _ _ (λ db. tt))

  -- one more member
  insert-IsTidy :
      (account_id group_id user_id : String) (db : Database)
      → IsTidy db
      → IsTidy (record db {
        members =
            mongo.insert_missing
              (is_membership account_id group_id user_id)
              (new_member account_id group_id user_id)
              db.members;
      })
  insert-IsTidy account_id group_id user_id db tidy = record {
    ids = tidy.ids;
    names = tidy.names;
    members = λ a g u.
        rw
          (mongo.insert_missing_law (is_membership account_id group_id user_id)
            (new_member account_id group_id user_id) db.members)
          (elim (Option-cases (find_first (is_membership account_id group_id user_id) db.members)) [
            | inr (m, found) ↦ rw found (tidy.members a g u)
            | inl absent ↦ rw absent (
                ground (
                  arith,
                  tidy.members a g u,
                  eq_iff account_id a,
                  eq_iff group_id g,
                  eq_iff user_id u,
                  count-append (is_membership a g u) db.members
                      (new_member account_id group_id user_id ∷ []),
                  count-absent (is_membership account_id group_id user_id) db.members absent,
                ))
          ]);
  }

  -- members less
  pub fewer-IsTidy :
      (p : GroupMember → Bool) (db : Database)
      → IsTidy db
      → IsTidy (record db { members = (mongo.delete_many p db.members).1 })
  fewer-IsTidy p db tidy = record {
    ids = tidy.ids;
    names = tidy.names;
    members = λ a g u. rw (mongo.delete_many_law p db.members) (
        ground (
          arith,
          tidy.members a g u,
          count-filter (is_membership a g u) (λ x. not (p x)) db.members,
        ));
  }

  add_each-IsTidy :
      (account_id group_id : String) (user_ids : List String)
      → Runs IsTidy (add_each account_id group_id user_ids) (λ _. IsTidy) IsTidy
  unfolding add_each
  add_each-IsTidy account_id group_id [] = Runs-pure _ (λ db h. h)
  add_each-IsTidy account_id group_id (u ∷ us) =
      Runs-bind (λ _. IsTidy) _ _ (Runs-command _ (insert-IsTidy account_id group_id u) (λ db h. h))
        (λ _. add_each-IsTidy account_id group_id us)

  remove_each-IsTidy :
      (account_id group_id : String) (user_ids : List String)
      → Runs IsTidy (remove_each account_id group_id user_ids) (λ _. IsTidy) IsTidy
  unfolding remove_each
  remove_each-IsTidy account_id group_id user_ids = Runs-command _ (fewer-IsTidy _) (λ db h. h)

  -- what the calls keep, a batch of them keeps, also where they are made again
  batch-keeps :
      (P : Database → Type 0) (server : Server) (m : Exec World (Unit {0}))
      → ((w : World) → P w.db → P (m w).1.db)
      → (w : World) → P w.db
      → P (run_batch server m w).1.db
  unfolding run_batch run_with rerun
  batch-keeps P server m keep = by_kind server.has_transactions
    where
      again : (x : Result (Unit {0}) × World) → P x.1.db → P (rerun server.reruns m x).1.db
      again (ok a, w) h = h
      again (err e, w) h = elim (Bool-cases (server.reruns w.calls)) [
        | inl it ↦ rw (it, rerun) (keep w h)
        | inr raised ↦ rw (raised, rerun) h
      ]

      by_kind : (b : Bool) (w : World) → P w.db → P (run_with b server.reruns m w).1.db
      by_kind true w h = again (transaction m w) (keeps-transaction P m keep w h)
      by_kind false w h = keep w h

  pub add_members-IsTidy :
      (server : Server) (account_id group_id : String) (user_ids : List String) (db : Database)
      → IsTidy db
      → Ends db (Repository.add_members_atomic server account_id group_id user_ids) IsTidy
  unfolding Repository.add_members_atomic
  add_members-IsTidy server account_id group_id user_ids db tidy =
      Ends-then
        (record {
          at = λ w e.
              batch-keeps IsTidy server _
                (Runs-left _ (add_each-IsTidy account_id group_id user_ids)) w (rw e tidy);
        })
        (λ _. Reads-pure _ _ (λ db. tt))

  pub remove_members-IsTidy :
      (server : Server) (account_id group_id : String) (user_ids : List String) (db : Database)
      → IsTidy db
      → Ends db (Repository.remove_members_atomic server account_id group_id user_ids) IsTidy
  unfolding Repository.remove_members_atomic
  remove_members-IsTidy server account_id group_id user_ids db tidy =
      Ends-then
        (record {
          at = λ w e.
              batch-keeps IsTidy server _
                (Runs-left _ (remove_each-IsTidy account_id group_id user_ids)) w (rw e tidy);
        })
        (λ _. Reads-pure _ _ (λ db. tt))

  add_each-groups :
      (gs : List SecurityGroup) (account_id group_id : String) (user_ids : List String)
      → Runs
          (λ db. db.groups ≡ gs)
          (add_each account_id group_id user_ids)
          (λ _ db. db.groups ≡ gs)
          (λ db. db.groups ≡ gs)
  unfolding add_each
  add_each-groups gs account_id group_id [] = Runs-pure _ (λ db h. h)
  add_each-groups gs account_id group_id (u ∷ us) =
      Runs-bind (λ _ db. db.groups ≡ gs) _ _ (Runs-command _ (λ db h. h) (λ db h. h))
        (λ _. add_each-groups gs account_id group_id us)

  pub add_members-groups :
      (server : Server) (account_id group_id : String) (user_ids : List String) (db : Database)
      → Ends db
          (Repository.add_members_atomic server account_id group_id user_ids)
          (λ db'. db'.groups ≡ db.groups)
  unfolding Repository.add_members_atomic
  add_members-groups server account_id group_id user_ids db =
      Ends-then
        (record {
          at = λ w e.
              batch-keeps (λ d. d.groups ≡ db.groups) server _
                (Runs-left _ (add_each-groups db.groups account_id group_id user_ids)) w
                (ap (λ d. d.groups) e);
        })
        (λ _. Reads-pure _ _ (λ db. tt))
