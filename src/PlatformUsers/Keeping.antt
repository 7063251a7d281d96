-- ===== src/PlatformUsers/Keeping.antt =====
-- An active administrator stays, whatever is saved or deleted under the guards of the service.
use xolo_api.Base.{
  String, ◌+◌, ◌≤◌, ◌≡◌, refl, sym, ap, ◌∙◌, Bool, true, false, not, ◌&&◌, List, [], ◌∷◌, count,
  count-append, filter, length, none, some, arith, eq_iff, eq_refl, Bool-cases, inl, inr,
}
use xolo_api.Platform.Collections.{
  find_first, replace_first, replace_or_append, delete_first, is_some,
}
use xolo_api.Platform.Mongo.{Mongo}
use xolo_api.World.{Database}
use xolo_api.World.Ends.{Ends, Ends-command, Ends-then}
use xolo_api.World.Reads.{
  Reads, Anything, Reads-pure, Reads-or_raise, Reads-raise_if, Reads-query, Reads-bind,
  Reads-weaken,
}
use xolo_api.Groups.Names.{count-put_other, count-put_self}
use xolo_api.PlatformUsers.Types.{PlatformUser}
use xolo_api.PlatformUsers.Repository.{has_id, is_active_admin, takes_name, stored}
use xolo_api.PlatformUsers.Repository as Repository
use xolo_api.PlatformUsers.Service.{get, ensure_another_admin}

-- No two users have one id, and some user is an active administrator.
pub record IsStaffed (db : Database) : Type 0 where
  pub ids : (i : String) → count (has_id i) db.platform_users ≤ 1
  pub staffed : 1 ≤ count is_active_admin db.platform_users

module _ {A : Type 0} where
  length-filter : (p : A → Bool) (c : List A) → length (filter p c) ≡ count p c
  length-filter p [] = refl
  length-filter p (x ∷ c) = ground (arith, length-filter p c)

  pub delete_other :
      (p q : A → Bool) (y : A) (c : List A)
      → find_first q c ≡ some y
      → p y ≡ false
      → count p c ≤ count p (delete_first q c)
  delete_other p q y [] found out = omega arith
  delete_other p q y (x ∷ c) found out = elim (Bool-cases (q x)) [
    | inl here ↦ let at : x ≡ y = ground arith in ground (arith, ap p at)
    | inr later ↦ ground (arith, delete_other p q y c)
  ]

  pub delete_some : (p q : A → Bool) (c : List A) → count p c ≤ count p (delete_first q c) + 1
  delete_some p q [] = omega arith
  delete_some p q (x ∷ c) = ground (arith, delete_some p q c)

  pub put_some :
      (p q : A → Bool) (x : A) (c : List A) → count p c ≤ count p (replace_or_append q x c) + 1
  put_some p q x c = elim (Bool-cases (is_some (find_first q c))) [
    | inl there ↦ rw there (put c)
    | inr absent ↦ rw absent (ground (arith, count-append p c (x ∷ [])))
  ]
    where
      put : (c : List A) → count p c ≤ count p (replace_first q x c) + 1
      put [] = omega arith
      put (z ∷ c) = ground (arith, put c)

  pub put_kept :
      (p q : A → Bool) (x y : A) (c : List A)
      → find_first q c ≡ some y
      → (p y && not (p x)) ≡ false
      → count p c ≤ count p (replace_or_append q x c)
  put_kept p q x y c found kept = rw found (put c found)
    where
      put : (c : List A) → find_first q c ≡ some y → count p c ≤ count p (replace_first q x c)
      put [] h = omega arith
      put (z ∷ c) h = elim (Bool-cases (q z)) [
        | inl here ↦ let at : z ≡ y = ground arith in ground (arith, ap p at, kept)
        | inr later ↦ ground (arith, put c)
      ]

  pub put_new :
      (p q : A → Bool) (x : A) (c : List A)
      → find_first q c ≡ none
      → count p c ≤ count p (replace_or_append q x c)
  put_new p q x c absent = rw absent (ground (arith, count-append p c (x ∷ [])))

  -- a document that is listed is what its key finds
  pub find_listed :
      (p q : A → Bool) (y : A) (c : List A)
      → find_first q c ≡ some y
      → p y ≡ true
      → count p c ≤ 1
      → find_first p c ≡ some y
  find_listed p q y [] found fits once = absurd (cc found)
  find_listed p q y (x ∷ c) found fits once = elim (Bool-cases (q x)) [
    | inl here ↦ let at : x ≡ y = ground arith in ground (arith, ap p at, ap some at)
    | inr later ↦ ground (arith, find_listed p q y c, listed c)
  ]
    where
      listed : (c : List A) → find_first q c ≡ some y → 1 ≤ count p c
      listed [] h = absurd (cc h)
      listed (z ∷ c) h = elim (Bool-cases (q z)) [
        | inl here ↦ let at : z ≡ y = ground arith in ground (arith, ap p at)
        | inr later ↦ ground (arith, listed c)
      ]

abbrev pub with_user : PlatformUser → Database → Database
with_user u db = record db {
  platform_users = replace_or_append (has_id u.user_id) u db.platform_users;
}

-- a save that leaves an active administrator
pub with_user-IsStaffed :
    (db : Database) (u : PlatformUser)
    → IsStaffed db
    → 1 ≤ count is_active_admin (with_user u db).platform_users
    → IsStaffed (with_user u db)
with_user-IsStaffed db u st left = record {
  ids = λ i. elim (Bool-cases (has_id i u)) [
    | inr other ↦
        ground
          (arith, st.ids i, count-put_other (has_id i) (has_id u.user_id) u db.platform_users other)
    | inl here ↦ rw (sym ((eq_iff u.user_id i).0 here)) (
        count-put_self (has_id u.user_id) u db.platform_users (eq_refl u.user_id)
          (st.ids u.user_id))
  ];
  staffed = left;
}

module _ ⦃mongo : Mongo⦄ where
  pub save-Ends :
      (db : Database) (u : PlatformUser)
      → IsStaffed db
      → 1 ≤ count is_active_admin (with_user u db).platform_users
      → Ends db (Repository.save u) IsStaffed
  unfolding Repository.save
  save-Ends db u st left =
      Ends-then (Ends-command (stored u) st written)
        (λ _. Reads-bind Anything (Reads-raise_if _ _) (λ _. Reads-pure _ _ (λ db h. tt)))
    where
      written : IsStaffed (stored u db).1
      written = elim (Bool-cases (is_some (mongo.find_one (takes_name u) db.platform_users))) [
        | inl taken ↦ rw taken st
        | inr free ↦
            rw (free, mongo.upsert_one_law (has_id u.user_id) u db.platform_users)
              (with_user-IsStaffed db u st left)
      ]

  pub get-Reads :
      (i : String) → Reads (get i) (λ u db. find_first (has_id i) db.platform_users ≡ some u)
  unfolding get Repository.find_by_id
  get-Reads i = Reads-bind _ (Reads-query _) λ found.
      Reads-weaken (Reads-or_raise found _)
        λ u db e h. sym (mongo.find_one_law (has_id i) db.platform_users) ∙ sym h ∙ e

  -- the guard: there are two, if one is to go
  pub guard-Reads :
      (b : Bool)
      → Reads
          (ensure_another_admin b)
          (λ _ db. b ≡ true → 2 ≤ count is_active_admin db.platform_users)
  unfolding ensure_another_admin Repository.count_active_admins
  guard-Reads false = Reads-pure _ _ (λ db e. absurd (cc e))
  guard-Reads true = Reads-bind _ (Reads-query _) λ n.
      Reads-weaken (Reads-raise_if _ _) λ _ db e h _. ground (
        arith,
        e,
        h,
        mongo.count_documents_law is_active_admin db.platform_users,
        length-filter is_active_admin db.platform_users,
      )
