-- ===== src/Abac/Effects.antt =====
-- What an operation on ABAC policies may make of the database.
use mathlib.Core.List.{append-nil}
use xolo_api.Base.{
  String, ℕ, ◌≤◌, ◌≡◌, refl, sym, ap, ◌∙◌, false, [], ◌∷◌, filter, filter-append, count,
  count-append, Option, none, some, ◌==◌, arith, eq_iff, Bool-cases, Option-cases, inl, inr,
}
use xolo_api.Platform.Collections.{
  find_first, find_first-fits, replace_or_append, delete_first, count-delete_first,
  count-replace_first, count-absent, filter-delete_first, filter-replace_first,
}
use xolo_api.Platform.Mongo.{Mongo}
use xolo_api.World.{Database}
use xolo_api.World.Reads.{
  Reads, Reads-pure, Reads-query, Reads-or_raise, Reads-raise_if, Reads-bind, Reads-weaken,
}
use xolo_api.World.Ends.{Ends, Ends-command, Ends-bind, Ends-then}
use xolo_api.Abac.Types.{Policy, PolicyDoc}
use xolo_api.Abac.Events.{Calendar}
use xolo_api.Abac.Documents.{policy_of, policy_from_doc, policy_to_doc}
use xolo_api.Abac.Repository.{has_id, is_policy_doc, is_of_account, keep_created}
use xolo_api.Abac.Repository as Repository
use xolo_api.Abac.Service as Service

-- what a save finds under the id: nothing, or a document of the account
abbrev pub IsOwn : String → Option PolicyDoc → Type 0
IsOwn account_id none = Unit
IsOwn account_id (some d) = d.account_id ≡ account_id

module _ (account_id : String) (db : Database) where
  -- what a request for an account may make of the stored policies
  pub data Change : Database → Type 0 where
    same : (db' : Database) → db' ≡ db → Change db'
    put :
        (db' : Database) (doc : PolicyDoc)
        → doc.account_id ≡ account_id
        → IsOwn account_id (find_first (has_id doc.policy_id) db.abac_policies)
        → db' ≡ record db {
          abac_policies = replace_or_append (has_id doc.policy_id) doc db.abac_policies;
        }
        → Change db'
    dropped :
        (db' : Database) (policy_id : String)
        → db' ≡ record db {
          abac_policies = delete_first (is_policy_doc account_id policy_id) db.abac_policies;
        }
        → Change db'

kept-key :
    (now : ℕ) (existing : Option PolicyDoc) (policy : Policy)
    → ((keep_created existing (policy_to_doc now policy)).policy_id ≡ policy.policy_id)
      × ((keep_created existing (policy_to_doc now policy)).account_id ≡ policy.account_id)
unfolding policy_to_doc
kept-key now none policy = (refl, refl)
kept-key now (some existing) policy = elim (Option-cases existing.created_at) [
  | inl absent ↦ rw (absent, keep_created) (refl, refl)
  | inr (c, there) ↦ rw (there, keep_created) (refl, refl)
]

module _ ⦃mongo : Mongo⦄ (account_id : String) (db : Database) where
  pub save-Ends :
      (now : ℕ) (policy : Policy)
      → policy.account_id ≡ account_id
      → IsOwn account_id (find_first (has_id policy.policy_id) db.abac_policies)
      → Ends db (Repository.save now policy) (Change account_id db)
  unfolding Repository.save
  save-Ends now policy mine own = Ends-bind (same db refl) (Reads-query _) λ existing found.
      let (id, account) = kept-key now existing policy in
      Ends-then
        (Ends-command _ (same db refl) (
          put _ (keep_created existing (policy_to_doc now policy)) (account ∙ mine) (rw id own) (
            rw
              (
                mongo.upsert_one_law (has_id policy.policy_id)
                    (keep_created existing (policy_to_doc now policy)) db.abac_policies,
                id,
              )
              refl)))
        (λ _. Reads-pure _ _ (λ db. tt))

  pub delete-Ends :
      (policy_id : String) → Ends db (Repository.delete account_id policy_id) (Change account_id db)
  unfolding Repository.delete
  delete-Ends policy_id =
      Ends-then
        (Ends-command _ (same db refl) (
          dropped _ policy_id
            (rw (mongo.delete_one_law (is_policy_doc account_id policy_id) db.abac_policies) refl)))
        (λ _. Reads-bind _ (Reads-raise_if _ _) λ _. Reads-pure _ _ (λ db _. tt))

module _ ⦃mongo : Mongo⦄ (calendar : Calendar) (account_id : String) where
  -- the stored document of the policy that was read
  abbrev pub Stored : String → Policy → Database → Type 0
  Stored policy_id policy db =
      (d : PolicyDoc) × (find_first (is_policy_doc account_id policy_id) db.abac_policies ≡ some d)
      × (policy.account_id ≡ account_id)
      × (policy.policy_id ≡ policy_id)

  converted-Reads :
      (found : Option PolicyDoc)
      → Reads (Repository.converted calendar found) (λ o _.
        (p : Policy)
        → o ≡ some p
        → (d : PolicyDoc) × (found ≡ some d) × (policy_from_doc calendar d ≡ some p))
  unfolding Repository.converted
  converted-Reads none = Reads-pure _ _ (λ _ p e. absurd (cc e))
  converted-Reads (some d) =
      Reads-bind _ (Reads-or_raise (policy_from_doc calendar d) _)
        λ q. Reads-pure _ _ (λ _ read p e. (d, refl, ground (arith, read, e)))

  doc-key :
      (d : PolicyDoc) (p : Policy)
      → policy_from_doc calendar d ≡ some p
      → (p.account_id ≡ d.account_id) × (p.policy_id ≡ d.policy_id)
  unfolding policy_from_doc policy_of
  doc-key d p e = (ground arith, ground arith)

  pub get_policy-Reads :
      (policy_id : String)
      → Reads (Service.get_policy calendar account_id policy_id) (Stored policy_id)
  unfolding Service.get_policy Repository.find_by_id
  get_policy-Reads policy_id =
      Reads-bind _
        (Reads-bind
          (λ o db.
            (p : Policy)
            → o ≡ some p
            → (d : PolicyDoc) × (find_first (is_policy_doc account_id policy_id) db.abac_policies
                ≡ some d)
              × (policy_from_doc calendar d ≡ some p))
          (Reads-query _)
          λ found. Reads-weaken (converted-Reads found) λ o db conv at p e.
            let (d, there, read) = conv p e in
            (
              d,
              sym (mongo.find_one_law (is_policy_doc account_id policy_id) db.abac_policies)
                  ∙ sym at
                  ∙ there,
              read,
            ))
        λ o. Reads-weaken (Reads-or_raise o _) λ p db e h.
          let (d, there, read) = h p e in
          let (a, i) = doc-key d p read in
          let fits =
            find_first-fits (is_policy_doc account_id policy_id) d db.abac_policies there in
          (
            d,
            there,
            a ∙ (eq_iff d.account_id account_id).0 (ground (arith, fits)),
            i ∙ (eq_iff d.policy_id policy_id).0 (ground (arith, fits)),
          )

-- `_id` is the key of the collection
abbrev pub IsKeyed : Database → Type 0
IsKeyed db = (policy_id : String) → count (has_id policy_id) db.abac_policies ≤ 1

module _ (account_id : String) (db : Database) where
  put-IsKeyed :
      (doc : PolicyDoc)
      → IsKeyed db
      → (k : String)
      → count (has_id k) (replace_or_append (has_id doc.policy_id) doc db.abac_policies) ≤ 1
  put-IsKeyed doc keyed k =
      elim (Option-cases (find_first (has_id doc.policy_id) db.abac_policies)) [
        | inr (old, found) ↦ rw (found) (
            ground (
              arith,
              keyed k,
              count-replace_first (has_id k) (has_id doc.policy_id) doc db.abac_policies
                  (λ x h. ground (arith, eq_iff x.policy_id doc.policy_id)),
            ))
        | inl absent ↦ rw (absent) (elim (Bool-cases (has_id k doc)) [
          | inr other ↦ ground (arith, keyed k, count-append (has_id k) db.abac_policies (doc ∷ []))
          | inl here ↦ ground (
            arith,
            eq_iff doc.policy_id k,
            count-append (has_id k) db.abac_policies (doc ∷ []),
            count-absent (has_id doc.policy_id) db.abac_policies absent,
          )
        ])
      ]

  pub Change-IsKeyed : {db' : Database} → Change account_id db db' → IsKeyed db → IsKeyed db'
  Change-IsKeyed (same db' e) keyed = rw e keyed
  Change-IsKeyed (put db' doc mine own e) keyed = rw e (put-IsKeyed doc keyed)
  Change-IsKeyed (dropped db' policy_id e) keyed = rw e (λ k. ground (
    arith,
    keyed k,
    count-delete_first (has_id k) (is_policy_doc account_id policy_id) db.abac_policies,
  ))

  pub Change-others :
      (other : String)
      → (account_id == other) ≡ false
      → {db' : Database} → Change account_id db db'
      → filter (is_of_account other) db'.abac_policies
        ≡ filter (is_of_account other) db.abac_policies
  Change-others other apart (same db' e) = ap (λ d. filter (is_of_account other) d.abac_policies) e
  Change-others other apart (put db' doc mine own e) =
      ap (λ d. filter (is_of_account other) d.abac_policies) e
      ∙ placed (find_first (has_id doc.policy_id) db.abac_policies) refl own
    where
      placed :
          (o : Option PolicyDoc)
          → find_first (has_id doc.policy_id) db.abac_policies ≡ o
          → IsOwn account_id o
          → filter
              (is_of_account other)
              (replace_or_append (has_id doc.policy_id) doc db.abac_policies)
            ≡ filter (is_of_account other) db.abac_policies
      placed none at own = rw at (
          ground (
            arith,
            mine,
            apart,
            filter-append (is_of_account other) db.abac_policies (doc ∷ []),
            append-nil (filter (is_of_account other) db.abac_policies),
          ))
      placed (some d) at own = rw at (
          filter-replace_first (is_of_account other) (has_id doc.policy_id) doc d db.abac_policies
            at (rw own apart) (rw mine apart))
  Change-others other apart (dropped db' policy_id e) =
      ap (λ d. filter (is_of_account other) d.abac_policies) e
      ∙ filter-delete_first (is_of_account other) (is_policy_doc account_id policy_id)
          db.abac_policies
          (λ x h. ground (
            arith,
            apart,
            eq_iff x.account_id account_id,
            eq_iff x.account_id other,
            eq_iff account_id other,
          ))
