-- ===== src/Abac/Deciding.antt =====
-- What the ABAC service stores and decides, where no outage strikes.
use Prim.Native.Char.{Char}
use xolo_api.Base.{
  String, ℕ, ◌≡◌, refl, ap, ◌∙◌, Bool, true, not, ◌&&◌, ◌||◌, List, all, any, filter, Option, none,
  some, arith, eq_refl, Option-cases, inl, inr,
}
use xolo_api.Errors.{database, uncaught}
use xolo_api.Exec.{Result, ok, err, pure, or_raise, ◌>>=◌}
use xolo_api.Platform.Collections.{find_first, replace_or_append, find_first-put}
use xolo_api.Platform.Mongo.{Mongo}
use xolo_api.Platform.Text.{Unicode}
use xolo_api.World.{Database, World, IsCalm, query}
use xolo_api.World.Calm.{
  Yields, Yields-query, Yields-pure, Yields-or_raise, Yields-bind, bind-value,
}
use xolo_api.World.Does.{Does, Does-reads, Does-command, Does-as, Does-bind, still-IsCalm}
use xolo_api.Abac.Types.{AccessRequest, Event, Policy, PolicyDoc, Decision}
use xolo_api.Abac.Events.{Calendar, event_matches}
use xolo_api.Abac.Evaluator.{warnings_on, decide}
use xolo_api.Abac.Evaluator.Overrides.{allows, denies, evaluate-overrides}
use xolo_api.Abac.Evaluator.Raising.{raises_on, raises_first-any, raises_first-none}
use xolo_api.Abac.Documents.{policy_from_doc, policies_from_docs, policy_to_doc}
use xolo_api.Abac.Documents.Laws.{is_valid, policy_from_doc-policy_to_doc}
use xolo_api.Abac.Repository.{has_id, is_policy_doc, is_of_account, keep_created}
use xolo_api.Abac.Repository as Repository
use xolo_api.Abac.Service as Service

-- the event applies to the request, by the matcher and the time zone of its policy
abbrev pub applies :
    ⦃unicode : Unicode⦄
    → Calendar
    → (Char → Char → Bool)
    → AccessRequest
    → Policy
    → Event
    → Option Bool
applies ⦃unicode = unicode⦄ calendar same request policy event =
    event_matches calendar ⦃unicode = unicode⦄ same request policy.matcher_version policy.timezone
      event

-- What an evaluation of a request for an account answers over a database: a validator refuses a document
-- of the account; or all are read, and the test of one of their events raises; or it decides, which it does
-- where none raises, and where one does only by a denial, and the decision allows the request exactly
-- when some policy with the effect ALLOW has an event that applies and none with the effect DENY has one.
-- None of this depends on the order in which the documents are read.
pub data Answer ⦃unicode : Unicode⦄ (calendar : Calendar) (same : Char → Char → Bool)
    (account_id : String) (request : AccessRequest) (db : Database) : Result Decision → Type 0 where
  unreadable :
      policies_from_docs calendar (filter (is_of_account account_id) db.abac_policies) ≡ none
      → Answer calendar same account_id request db (err database)
  broken_off :
      (policies : List Policy)
      → policies_from_docs calendar (filter (is_of_account account_id) db.abac_policies)
        ≡ some policies
      → any (raises_on (applies calendar same request)) policies ≡ true
      → Answer calendar same account_id request db (err uncaught)
  decided :
      (policies : List Policy) (d : Decision)
      → policies_from_docs calendar (filter (is_of_account account_id) db.abac_policies)
        ≡ some policies
      → (not (any (raises_on (applies calendar same request)) policies)
          || any (denies (applies calendar same request)) policies)
        ≡ true
      → d.allowed ≡ (
          not (any (denies (applies calendar same request)) policies)
          && any (allows (applies calendar same request)) policies)
      → Answer calendar same account_id request db (ok d)

module _ ⦃mongo : Mongo⦄ ⦃unicode : Unicode⦄ (calendar : Calendar) (same : Char → Char → Bool) where
  concluding :
      (account_id : String) (request : AccessRequest) (db : Database) (policies : List Policy)
      (w : World)
      → policies_from_docs calendar (filter (is_of_account account_id) db.abac_policies)
        ≡ some policies
      → Answer calendar same account_id request db
          (or_raise (decide calendar same request policies) uncaught w).0
  unfolding decide or_raise
  concluding account_id request db policies w read =
      elim (evaluate-overrides (warnings_on request) (applies calendar same request) policies) [
        | inl (first, raised) ↦
            rw (raised, or_raise)
              (broken_off policies read
                (raises_first-any (applies calendar same request) policies first))
        | inr (first, d, made, rule) ↦
            rw (made, or_raise)
              (decided policies d read
                (raises_first-none (applies calendar same request) policies first) rule)
      ]

  -- Where no outage strikes, an evaluation reads the policies of the account alone. It is a database
  -- error where one of their documents is refused by a validator. Else it
  -- answers, and allows the request exactly when some policy of the account with the effect ALLOW has an
  -- event that applies and none with the effect DENY has one; but where the test of an event raises (a
  -- bound of the day with an offset, a time that the zone cannot hold), it ends in that exception or in
  -- a denial.
  pub evaluate_decides :
      (account_id : String) (request : AccessRequest) (w : World)
      → IsCalm w
      → Answer calendar same account_id request w.db
          (Service.evaluate calendar same account_id request w).0
  unfolding Service.evaluate Repository.find_all query or_raise pure ◌>>=◌
  evaluate_decides account_id request w calm =
      elim (Option-cases
        (policies_from_docs calendar (filter (is_of_account account_id) w.db.abac_policies))) [
          | inl refused ↦
              rw
                (
                  calm w.calls,
                  Service.evaluate,
                  Repository.find_all,
                  ◌>>=◌,
                  query,
                  mongo.find_law (is_of_account account_id) w.db.abac_policies,
                  refused,
                )
                (unreadable refused)
          | inr (policies, read) ↦
              rw
                (
                  calm w.calls,
                  Service.evaluate,
                  Repository.find_all,
                  ◌>>=◌,
                  query,
                  mongo.find_law (is_of_account account_id) w.db.abac_policies,
                  read,
                )
                (concluding account_id request w.db policies _ read)
        ]

module _ ⦃mongo : Mongo⦄ (calendar : Calendar) where
  kept-policy :
      (now : ℕ) (existing : Option PolicyDoc) (policy : Policy)
      → policy_from_doc calendar (keep_created existing (policy_to_doc now policy))
        ≡ policy_from_doc calendar (policy_to_doc now policy)
  unfolding policy_from_doc
  kept-policy now none policy = refl
  kept-policy now (some existing) policy = elim (Option-cases existing.created_at) [
    | inl absent ↦ rw (absent, keep_created) refl
    | inr (c, there) ↦ rw (there, keep_created) refl
  ]

  kept-fits :
      (now : ℕ) (existing : Option PolicyDoc) (policy : Policy)
      → is_policy_doc policy.account_id policy.policy_id
          (keep_created existing (policy_to_doc now policy))
        ≡ true
  unfolding policy_to_doc
  kept-fits now none policy = ground (arith, eq_refl policy.account_id, eq_refl policy.policy_id)
  kept-fits now (some existing) policy = elim (Option-cases existing.created_at) [
    | inl absent ↦
        rw (absent, keep_created)
          (ground (arith, eq_refl policy.account_id, eq_refl policy.policy_id))
    | inr (c, there) ↦
        rw (there, keep_created)
          (ground (arith, eq_refl policy.account_id, eq_refl policy.policy_id))
  ]

  -- what a save puts into the database
  abbrev saved_in : ℕ → Policy → Database → Database
  saved_in now policy db = record db {
    abac_policies =
        replace_or_append (has_id policy.policy_id)
          (keep_created (find_first (has_id policy.policy_id) db.abac_policies)
            (policy_to_doc now policy))
          db.abac_policies;
  }

  save-Does :
      (now : ℕ) (policy : Policy)
      → Does (Repository.save now policy) (λ _. policy.policy_id) (saved_in now policy)
  unfolding Repository.save
  save-Does now policy =
      Does-as (λ db. refl)
        (λ db.
          rw
            (
              mongo.find_one_law (has_id policy.policy_id) db.abac_policies,
              mongo.upsert_one_law (has_id policy.policy_id)
                  (keep_created (find_first (has_id policy.policy_id) db.abac_policies)
                    (policy_to_doc now policy))
                  db.abac_policies,
            )
            refl)
        (Does-bind _ (λ db. mongo.find_one (has_id policy.policy_id) db.abac_policies) _ _
          (λ _ _. policy.policy_id)
          (λ existing db. record db {
            abac_policies =
                mongo.upsert_one (has_id policy.policy_id)
                  (keep_created existing (policy_to_doc now policy)) db.abac_policies;
          })
          (Does-reads (Yields-query _))
          (λ existing.
            Does-bind _ _ _ _ (λ _ _. policy.policy_id) (λ _ db. db) (Does-command _)
              (λ _. Does-reads (Yields-pure _))))

  saved-found :
      (now : ℕ) (policy : Policy) (db : Database)
      → find_first
          (is_policy_doc policy.account_id policy.policy_id)
          (saved_in now policy db).abac_policies
        ≡ some (
            keep_created
              (find_first (has_id policy.policy_id) db.abac_policies)
              (policy_to_doc now policy))
  saved-found now policy db =
      find_first-put (has_id policy.policy_id) (is_policy_doc policy.account_id policy.policy_id) _
        db.abac_policies (λ x h. ground arith)
        (kept-fits now (find_first (has_id policy.policy_id) db.abac_policies) policy)

  converted-Yields :
      (found : Option PolicyDoc) (doc : PolicyDoc) (policy : Policy)
      → found ≡ some doc
      → policy_from_doc calendar doc ≡ some policy
      → Yields (Repository.converted calendar found) (λ _. some policy)
  unfolding Repository.converted
  converted-Yields none doc policy e read = absurd (cc e)
  converted-Yields (some d) doc policy e read =
      let same : d ≡ doc = ground (arith, e) in
      Yields-bind _ (λ _. policy) _ (λ p _. some p)
        (Yields-or_raise _ _ policy (ap (policy_from_doc calendar) same ∙ read))
        (λ p. Yields-pure _)

  -- Where no outage strikes, a policy whose events the validators accept is stored by a save, whatever
  -- the database, and the lookup of its id in its account then returns just that policy.
  pub find_by_id-save :
      (now : ℕ) (policy : Policy) (w : World)
      → IsCalm w
      → all (is_valid calendar) policy.events ≡ true
      → (Repository.find_by_id calendar policy.account_id policy.policy_id
          (Repository.save now policy w).1).0
        ≡ ok (some policy)
  unfolding Repository.find_by_id
  find_by_id-save now policy w calm valid =
      let (done, left, still) = (save-Does now policy).at w calm in
      let doc : PolicyDoc =
        keep_created (find_first (has_id policy.policy_id) w.db.abac_policies)
          (policy_to_doc now policy) in
      bind-value _
        (λ db. mongo.find_one (is_policy_doc policy.account_id policy.policy_id) db.abac_policies) _
        _ (Repository.save now policy w).1 (Yields-query _)
        (still-IsCalm w (Repository.save now policy w).1 still calm)
        λ w' same calm'.
          ((converted-Yields _ doc policy
              (mongo.find_one_law (is_policy_doc policy.account_id policy.policy_id) _
                ∙ ap
                    (λ (db : Database).
                      find_first (is_policy_doc policy.account_id policy.policy_id)
                        db.abac_policies)
                    left
                ∙ saved-found now policy w.db)
              (kept-policy now (find_first (has_id policy.policy_id) w.db.abac_policies) policy
                ∙ policy_from_doc-policy_to_doc calendar now policy valid)).at
            w' calm').0
