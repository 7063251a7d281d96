-- ===== src/ApiKeys/Requests.antt =====
-- The requests that change API keys, and what holds after all of them.
use xolo_api.Base.{String, ℕ, ◌≡◌, refl, Bool, false, List, [], any, Option, arith, ◌==◌}
use xolo_api.Exec.{Exec, pure, ◌>>◌}
use xolo_api.Platform.Mongo.{Mongo}
use xolo_api.Platform.Text.{Unicode}
use xolo_api.World.{Database, World}
use xolo_api.World.Ends.{Ends, Ends-then}
use xolo_api.World.Reads.{Reads-pure}
use xolo_api.ApiKeys.Types.{ApiKeyScope, ApiKey, revoked}
use xolo_api.ApiKeys.Repository.{has_id}
use xolo_api.ApiKeys.Service as Service
use xolo_api.ApiKeys.Service.{raw_key_of}
use xolo_api.ApiKeys.Invariant.{
  IsKeyring, fresh-IsKeyring, kept-IsKeyring, fewer-IsKeyring, used-IsKeyring,
}
use xolo_api.ApiKeys.Keeping.{
  delete-Ends, revoke-Ends, create-Ends, rotate-Ends, validate-Ends, StoredKey,
}
use xolo_api.Platform.Collections.{find_first, find_first-fits}
use xolo_api.Base.{eq_iff, ap, ◌∙◌}

-- the arguments of an operation, in its order
pub data Request : Type 0 where
  create : String → String → String → String → List ApiKeyScope → Option ℕ → Request
  delete : String → Request
  revoke : String → Request
  rotate : String → String → Request
  validate : ℕ → String → String → Request

module _ ⦃mongo : Mongo⦄ ⦃unicode : Unicode⦄ (sha256 : String → String) where
  unfoldable pub handle : Request → Exec World (Unit {0})
  handle (create f t a n s e) = Service.create sha256 f t a n s e >> pure tt
  handle (delete i) = Service.delete i >> pure tt
  handle (revoke i) = Service.revoke i >> pure tt
  handle (rotate t i) = Service.rotate sha256 t i >> pure tt
  handle (validate now k s) = Service.validate sha256 now k s >> pure tt

  -- whether the request draws the secret with the hash
  unfoldable pub mints : Request → String → Bool
  mints (create f t a n s e) h = h == sha256 (raw_key_of t)
  mints (rotate t i) h = h == sha256 (raw_key_of t)
  mints _ h = false

  -- no stored key has the hash of a secret that the request draws
  abbrev pub DrawsNew : Request → Database → Type 0
  DrawsNew r db = any (λ (k : ApiKey). mints r k.key_hash) db.api_keys ≡ false

  -- the databases that requests lead to from one without keys
  pub data Reached : Database → Type 0 where
    start : (db : Database) → db.api_keys ≡ [] → Reached db
    next : (r : Request) (w : World) → Reached w.db → DrawsNew r w.db → Reached (handle r w).1.db

  handle-IsKeyring :
      (r : Request) (db : Database) → IsKeyring db → DrawsNew r db → Ends db (handle r) IsKeyring
  unfolding handle mints Service.new_key
  handle-IsKeyring (create f t a n s e) db ring new =
      Ends-then
        (create-Ends sha256 IsKeyring db ring f t a n s e
          (fresh-IsKeyring db ring (Service.new_key sha256 f t a n s e) new))
        (λ _. Reads-pure _ _ (λ db. tt))
  handle-IsKeyring (delete i) db ring new =
      Ends-then (delete-Ends IsKeyring db ring i (fewer-IsKeyring i db ring))
        (λ _. Reads-pure _ _ (λ db. tt))
  handle-IsKeyring (revoke i) db ring new =
      Ends-then
        (revoke-Ends IsKeyring db ring i
          λ key found. kept-IsKeyring db ring (revoked key) key (at_own i key db found) refl)
        (λ _. Reads-pure _ _ (λ db. tt))
    where
      at_own :
          (i : String) (key : ApiKey) (db : Database)
          → StoredKey i key db
          → StoredKey key.key_id key db
      at_own i key db found =
          ap (λ x. find_first (has_id x) db.api_keys)
            ((eq_iff key.key_id i).0 (find_first-fits (has_id i) key db.api_keys found))
          ∙ found
  handle-IsKeyring (rotate t i) db ring new =
      Ends-then
        (rotate-Ends sha256 IsKeyring db ring t i λ key found. fresh-IsKeyring db ring _ new)
        (λ _. Reads-pure _ _ (λ db. tt))
  handle-IsKeyring (validate now k s) db ring new =
      Ends-then (validate-Ends sha256 IsKeyring db ring now k s (λ i. used-IsKeyring now i db ring))
        (λ _. Reads-pure _ _ (λ db. tt))

  -- No two keys ever have one id or one hash.
  pub Reached-IsKeyring : {db : Database} → Reached db → IsKeyring db
  Reached-IsKeyring (start db none) = record {
    ids = λ i. rw none (omega arith);
    hashes = λ h. rw none (omega arith);
  }
  Reached-IsKeyring (next r w before new) =
      (handle-IsKeyring r w.db (Reached-IsKeyring before) new).at w refl
