-- ===== src/ApiKeys/Invariant.antt =====
-- What every operation on API keys leaves: identities that stay apart, and secrets that stay dead.
use xolo_api.Base.{
  String, ℕ, ◌≤◌, ◌≡◌, refl, sym, ap, ◌∙◌, Bool, false, ◌&&◌, List, any, count, some, ◌==◌, arith,
  eq_iff, eq_refl, Bool-cases, inl, inr,
}
use xolo_api.Platform.Collections.{find_first, replace_or_append, count-delete_first}
use xolo_api.Platform.Mongo.{Mongo}
use xolo_api.World.{Database}
use xolo_api.Groups.Names.{count-put_other, count-put_self}
use xolo_api.ApiKeys.Types.{ApiKey}
use xolo_api.ApiKeys.Repository.{has_id, has_hash, used_at}
use xolo_api.ApiKeys.Lists.{
  count-put_same, count-put_more, count-update_first, any-update_first, any-delete_first,
}

-- No two keys have one id or one hash.
pub record IsKeyring (db : Database) : Type 0 where
  pub ids : (i : String) → count (has_id i) db.api_keys ≤ 1
  pub hashes : (h : String) → count (has_hash h) db.api_keys ≤ 1

abbrev pub is_live : String → ApiKey → Bool
is_live h key = has_hash h key && key.is_active

-- no active key has the hash
abbrev pub IsDead : String → Database → Type 0
IsDead h db = any (is_live h) db.api_keys ≡ false

abbrev pub with_key : ApiKey → Database → Database
with_key key db = record db { api_keys = replace_or_append (has_id key.key_id) key db.api_keys }

module _ (db : Database) (ring : IsKeyring db) (key : ApiKey) where
  with_key-ids : (i : String) → count (has_id i) (with_key key db).api_keys ≤ 1
  with_key-ids i = elim (Bool-cases (has_id i key)) [
    | inr other ↦
        ground
          (arith, ring.ids i, count-put_other (has_id i) (has_id key.key_id) key db.api_keys other)
    | inl here ↦
        let same : key.key_id ≡ i = (eq_iff key.key_id i).0 here in
        rw (sym same) (
          count-put_self (has_id key.key_id) key db.api_keys (eq_refl key.key_id)
            (ring.ids key.key_id))
  ]

  -- a key with a hash that is new
  pub fresh-IsKeyring :
      any (has_hash key.key_hash) db.api_keys ≡ false → IsKeyring (with_key key db)
  fresh-IsKeyring fresh = record {
    ids = with_key-ids;
    hashes = λ h. elim (Bool-cases (has_hash h key)) [
      | inr other ↦ ground (
        arith,
        ring.hashes h,
        count-put_other (has_hash h) (has_id key.key_id) key db.api_keys other,
      )
      | inl here ↦
          let same : key.key_hash ≡ h = (eq_iff key.key_hash h).0 here in
          rw (sym same) (
            ground (
              arith,
              zero-count db.api_keys fresh,
              count-put_more (has_hash key.key_hash) (has_id key.key_id) key db.api_keys,
            ))
    ];
  }
    where
      zero-count :
          (c : List ApiKey)
          → any (has_hash key.key_hash) c ≡ false
          → count (has_hash key.key_hash) c ≡ 0
      zero-count List.[] h = refl
      zero-count (List.◌∷◌ x c) h = ground (arith, zero-count c)

  -- a key that keeps its hash
  pub kept-IsKeyring :
      (old : ApiKey)
      → find_first (has_id key.key_id) db.api_keys ≡ some old
      → key.key_hash ≡ old.key_hash
      → IsKeyring (with_key key db)
  kept-IsKeyring old found same = record {
    ids = with_key-ids;
    hashes = λ h.
        rw
          (count-put_same (has_hash h) (has_id key.key_id) key old db.api_keys found
            (ap (λ x. x == h) same))
          (ring.hashes h);
  }

module _ ⦃mongo : Mongo⦄ where
  pub fewer-IsKeyring :
      (i : String) (db : Database)
      → IsKeyring db
      → IsKeyring (record db { api_keys = (mongo.delete_one (has_id i) db.api_keys).1 })
  fewer-IsKeyring i db ring = record {
    ids = λ j.
        rw (mongo.delete_one_law (has_id i) db.api_keys)
          (ground (arith, ring.ids j, count-delete_first (has_id j) (has_id i) db.api_keys));
    hashes = λ h.
        rw (mongo.delete_one_law (has_id i) db.api_keys)
          (ground (arith, ring.hashes h, count-delete_first (has_hash h) (has_id i) db.api_keys));
  }

  pub used-IsKeyring :
      (now : ℕ) (i : String) (db : Database)
      → IsKeyring db
      → IsKeyring (record db { api_keys = mongo.update_one (has_id i) (used_at now) db.api_keys })
  used-IsKeyring now i db ring = record {
    ids = λ j.
        rw
          (
            mongo.update_one_law (has_id i) (used_at now) db.api_keys,
            count-update_first (has_id j) (has_id i) (used_at now) db.api_keys (λ x. refl),
          )
          (ring.ids j);
    hashes = λ h.
        rw
          (
            mongo.update_one_law (has_id i) (used_at now) db.api_keys,
            count-update_first (has_hash h) (has_id i) (used_at now) db.api_keys (λ x. refl),
          )
          (ring.hashes h);
  }

  pub fewer-IsDead :
      (h i : String) (db : Database)
      → IsDead h db
      → IsDead h (record db { api_keys = (mongo.delete_one (has_id i) db.api_keys).1 })
  fewer-IsDead h i db dead =
      rw (mongo.delete_one_law (has_id i) db.api_keys)
        (any-delete_first (is_live h) (has_id i) db.api_keys dead)

  pub used-IsDead :
      (h : String) (now : ℕ) (i : String) (db : Database)
      → IsDead h db
      → IsDead h (record db { api_keys = mongo.update_one (has_id i) (used_at now) db.api_keys })
  used-IsDead h now i db dead =
      rw (mongo.update_one_law (has_id i) (used_at now) db.api_keys)
        (any-update_first (is_live h) (has_id i) (used_at now) db.api_keys (λ x. refl) ∙ dead)
