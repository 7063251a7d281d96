-- ===== src/ApiKeys/Retired.antt =====
-- The secret of a key that is revoked, rotated or deleted is dead for good.
use xolo_api.Base.{
  String, ℕ, ◌≡◌, refl, sym, ap, ◌∙◌, Bool, true, false, some, ◌==◌, arith, eq_iff, eq_refl,
}
use xolo_api.Errors.{XoloException}
use xolo_api.Exec.{Exec, Result, ok, err, pure, or_raise, ◌>>=◌}
use xolo_api.Platform.Collections.{find_first}
use xolo_api.Platform.Mongo.{Mongo}
use xolo_api.Platform.Text.{Unicode, prefix}
use xolo_api.World.{Database, World}
use xolo_api.World.Ends.{Ends, Ends-then}
use xolo_api.World.Reads.{Reads-pure}
use xolo_api.World.Rules.{
  Runs, Runs-pure, Runs-command, Runs-bind, Runs-query, Runs-or_raise, Runs-check, Post,
}
use xolo_api.Groups.Names.{any-put}
use xolo_api.ApiKeys.Types.{ApiKey, revoked, rotated}
use xolo_api.ApiKeys.Repository.{has_id, has_hash, find_by_id, find_by_hash}
use xolo_api.ApiKeys.Repository as Repository
use xolo_api.ApiKeys.Service.{raw_key_of}
use xolo_api.ApiKeys.Service as Service
use xolo_api.ApiKeys.Lists.{any-delete_only, any-replace_only, any-found}
use xolo_api.ApiKeys.Invariant.{is_live, IsDead, IsKeyring, fewer-IsDead, used-IsDead}
use xolo_api.ApiKeys.Keeping.{
  StoredKey, delete-Ends, revoke-Ends, create-Ends, rotate-Ends, validate-Ends,
}
use xolo_api.ApiKeys.Requests.{Request, handle, mints, Reached, Reached-IsKeyring}
use xolo_api.ApiKeys.Accepted.{IsAccepted, validate-IsAccepted}
use xolo_api.World.Told.{Says}
use xolo_api.ApiKeys.Requests as Requests

module _ ⦃mongo : Mongo⦄ ⦃unicode : Unicode⦄ (sha256 : String → String) where
  -- the databases that requests lead to which do not draw the secret with the hash again
  pub data Since (h : String) (from : Database) : Database → Type 0 where
    at_once : Since h from from
    later :
        (r : Request) (w : World)
        → Since h from w.db
        → mints sha256 r h ≡ false
        → Since h from (handle sha256 r w).1.db

  -- whether the request takes the secret of a key out of use
  unfoldable pub retires : Request → String → Bool
  retires (Requests.delete i) key_id = i == key_id
  retires (Requests.revoke i) key_id = i == key_id
  retires (Requests.rotate t i) key_id = i == key_id
  retires _ key_id = false

  turned : (a b : String) → (a == b) ≡ false → (b == a) ≡ false
  turned a b h = ground (arith, eq_iff a b, eq_iff b a, h)

  handle-IsDead :
      (h : String) (r : Request) (db : Database)
      → IsDead h db
      → mints sha256 r h ≡ false
      → Ends db (handle sha256 r) (IsDead h)
  unfolding handle mints Service.new_key
  handle-IsDead h (Requests.create f t a n s e) db dead other =
      Ends-then
        (create-Ends sha256 (IsDead h) db dead f t a n s e (
          any-put (is_live h) _ (Service.new_key sha256 f t a n s e) db.api_keys dead
            (ground (arith, turned h (sha256 (raw_key_of t)) other))))
        (λ _. Reads-pure _ _ (λ db. tt))
  handle-IsDead h (Requests.delete i) db dead other =
      Ends-then (delete-Ends (IsDead h) db dead i (fewer-IsDead h i db dead))
        (λ _. Reads-pure _ _ (λ db. tt))
  handle-IsDead h (Requests.revoke i) db dead other =
      Ends-then
        (revoke-Ends (IsDead h) db dead i
          λ key found. any-put (is_live h) _ (revoked key) db.api_keys dead (ground arith))
        (λ _. Reads-pure _ _ (λ db. tt))
  handle-IsDead h (Requests.rotate t i) db dead other =
      Ends-then
        (rotate-Ends sha256 (IsDead h) db dead t i λ key found.
          any-put (is_live h) _ (rotated (sha256 (raw_key_of t)) (prefix 16 (raw_key_of t)) key)
            db.api_keys dead (ground (arith, turned h (sha256 (raw_key_of t)) other)))
        (λ _. Reads-pure _ _ (λ db. tt))
  handle-IsDead h (Requests.validate now k s) db dead other =
      Ends-then (validate-Ends sha256 (IsDead h) db dead now k s (λ i. used-IsDead h now i db dead))
        (λ _. Reads-pure _ _ (λ db. tt))

  Since-IsDead : {h : String} {from db : Database} → IsDead h from → Since h from db → IsDead h db
  Since-IsDead dead at_once = dead
  Since-IsDead {h} dead (later r w before other) =
      (handle-IsDead h r w.db (Since-IsDead dead before) other).at w refl

  -- a dead secret is refused
  validate_refused :
      (now : ℕ) (raw scope : String) (w : World)
      → IsDead (sha256 raw) w.db
      → (e : XoloException) × ((Service.validate sha256 now raw scope w).0 ≡ err e)
  validate_refused now raw scope w dead =
      go (Service.validate sha256 now raw scope w).0
        ((validate-IsAccepted sha256 now raw scope w.db).at w refl)
    where
      go :
          (x : Result ApiKey)
          → Says (IsAccepted now (sha256 raw) scope w.db) x
          → (e : XoloException) × (x ≡ err e)
      go (err e) h = (e, refl)
      go (ok key) h = absurd (
          ground (
            arith,
            h.valid,
            any-found (has_hash (sha256 raw)) (λ k. k.is_active) key w.db.api_keys dead h.stored,
          ))

  -- the stored key is found by its id and is saved as one that is not live
  changed-IsDead :
      {B : Type 0} (key : ApiKey) (db : Database) (f : ApiKey → ApiKey) (e : XoloException)
      (t : ApiKey → Exec World B)
      → IsKeyring db
      → StoredKey key.key_id key db
      → (f key).key_id ≡ key.key_id
      → is_live key.key_hash (f key) ≡ false
      → ((a : ApiKey) → Runs (IsDead key.key_hash) (t a) (λ _. IsDead key.key_hash) (λ _. Unit {0}))
      → Runs
          (λ d. d ≡ db)
          (find_by_id key.key_id >>= λ found. or_raise found e >>= λ k. Repository.save (f k) >>= t)
          (λ _. IsDead key.key_hash)
          (λ _. Unit {0})
  unfolding find_by_id Repository.save
  changed-IsDead key db f e t ring found own out rest =
      Runs-bind (λ o d. (o ≡ some key) × (d ≡ db)) _ _
        (Runs-query _
          (λ d same. (rw (same, mongo.find_one_law (has_id key.key_id) db.api_keys) found, same))
          (λ d _. tt))
        λ o.
          Runs-bind (λ k d. (k ≡ key) × (d ≡ db)) _ _
            (Runs-or_raise o e (λ d _. tt) (λ k there d h. (found_key (sym there ∙ h.0), h.1)))
            λ k.
              Runs-bind (λ _. IsDead key.key_hash) _ _
                (Runs-bind (λ _. IsDead key.key_hash) _ _
                  (Runs-command _
                    (λ d h.
                      rw
                        (h.1, h.0, mongo.upsert_one_law (has_id (f key).key_id) (f key) db.api_keys)
                        (any-replace_only (has_hash key.key_hash) (has_id (f key).key_id)
                          (λ x. x.is_active) (f key) key db.api_keys
                          (ap (λ x. find_first (has_id x) db.api_keys) own ∙ found)
                          (eq_refl key.key_hash) (ring.hashes key.key_hash) out))
                    (λ d _. tt))
                  (λ _. Runs-pure _ (λ d h. h)))
                rest
    where
      found_key : {a b : ApiKey} → some a ≡ some b → a ≡ b
      found_key {a} {b} h = cc h

  retired :
      (r : Request) (key : ApiKey) (db : Database)
      → IsKeyring db
      → StoredKey key.key_id key db
      → retires r key.key_id ≡ true
      → mints sha256 r key.key_hash ≡ false
      → Runs (λ d. d ≡ db) (handle sha256 r) (λ _. IsDead key.key_hash) (λ _. Unit)
  unfolding handle retires mints Service.delete Repository.delete Service.revoke Service.rotate
  retired (Requests.create f t a n s e) key db ring found is other = absurd (cc is)
  retired (Requests.delete i) key db ring found is other =
      let at : i ≡ key.key_id = (eq_iff i key.key_id).0 is in
      Runs-bind (λ _. IsDead key.key_hash) _ _
        (Runs-bind (λ _. IsDead key.key_hash) _ _
          (Runs-bind (λ _. IsDead key.key_hash) _ _
            (Runs-command _
              (λ d e.
                rw (e, mongo.delete_one_law (has_id i) db.api_keys, at)
                  (any-delete_only (has_hash key.key_hash) (has_id key.key_id) (λ k. k.is_active)
                    key db.api_keys found (eq_refl key.key_hash) (ring.hashes key.key_hash)))
              (λ d e. tt))
            (λ _.
              Runs-bind (λ _. IsDead key.key_hash) _ _ (Runs-check _ _ (λ d h. tt))
                (λ _. Runs-pure _ (λ d h. h))))
          (λ _. Runs-pure _ (λ d h. h)))
        (λ _. Runs-pure _ (λ d h. h))
  retired (Requests.revoke i) key db ring found is other = rw ((eq_iff i key.key_id).0 is) (
      Runs-bind (λ _. IsDead key.key_hash) _ _
        (changed-IsDead key db revoked _ (λ _. pure true) ring found refl (ground arith)
          (λ _. Runs-pure _ (λ d h. h)))
        (λ _. Runs-pure _ (λ d h. h)))
  retired (Requests.rotate t i) key db ring found is other = rw ((eq_iff i key.key_id).0 is) (
      Runs-bind (λ _. IsDead key.key_hash) _ _
        (changed-IsDead key db (rotated (sha256 (raw_key_of t)) (prefix 16 (raw_key_of t))) _
          (λ k. pure (k, raw_key_of t)) ring found refl
          (ground (arith, turned key.key_hash (sha256 (raw_key_of t)) other))
          (λ _. Runs-pure _ (λ d h. h)))
        (λ _. Runs-pure _ (λ d h. h)))
  retired (Requests.validate now k s) key db ring found is other = absurd (cc is)

  -- In a database that requests on API keys lead to, where no drawn secret has a hash that is stored: a
  -- request that revokes, rotates or deletes a key and is answered takes its secret out of use for good.
  -- Whatever requests follow that do not draw the same secret, and wherever outages strike, a validation
  -- of the secret ends in an error, at any time and for any scope.
  pub retired_refused :
      (r : Request) (w : World) (key : ApiKey)
      → Reached sha256 w.db
      → StoredKey key.key_id key w.db
      → retires r key.key_id ≡ true
      → mints sha256 r key.key_hash ≡ false
      → (handle sha256 r w).0 ≡ ok tt
      → (later_world : World) → Since key.key_hash (handle sha256 r w).1.db later_world.db
      → (now : ℕ) (raw_key scope : String) → sha256 raw_key ≡ key.key_hash
      → (e : XoloException) × ((Service.validate sha256 now raw_key scope later_world).0 ≡ err e)
  retired_refused r w key reached stored is other answered later_world since now raw_key scope
        same =
      validate_refused now raw_key scope later_world (
        rw same (
          Since-IsDead
            (go (handle sha256 r w) answered
              ((retired r key w.db (Reached-IsKeyring sha256 reached) stored is other).at w refl))
            since))
    where
      go :
          (x : Result (Unit {0}) × World)
          → x.0 ≡ ok tt
          → Post (λ _. IsDead key.key_hash) (λ _. Unit {0}) x
          → IsDead key.key_hash x.1.db
      go (ok _, w') _ dead = dead
      go (err e, w') is _ = absurd (cc is)
