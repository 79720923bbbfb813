-- ===== src/Auth/Keys.antt =====
-- The life of an API key: created, verified, expired, revoked.
use engram_mem.Base.{
  ℕ, ◌+◌, ◌*◌, ◌≡◌, ◌≢◌, refl, ◌⊎◌, inl, inr, String, true, false, none, some, List, [], ◌∷◌, ◌++◌,
  map, any_of, All, arith, str_eq_iff, if◌then◌else◌, Bool-cases, leb,
}
use engram_mem.Auth.{
  Role, KeyEntry, is_active, is_expired, create_api_key, verify_hash, verify_api_key, is_revocable,
  deactivate, revoke_api_key,
}

-- A key that verifies is in the file, active and unexpired, under the hash that was asked for.
pub record Verified (key_hash : String) (now : ℕ) (e : KeyEntry) : Type 0 where
  pub hash : e.key_hash ≡ key_hash
  pub active : is_active e ≡ true
  pub fresh : is_expired e.expires_at now ≡ false

abbrev pub Listed : KeyEntry → List KeyEntry → Type 0
Listed e [] = ⊥
Listed e (k ∷ keys) = (e ≡ k) ⊎ Listed e keys

verify_hash-Verified :
    (key_hash : String) (now : ℕ) (keys : List KeyEntry) (e : KeyEntry)
    → verify_hash key_hash now keys ≡ some e
    → Verified key_hash now e × Listed e keys
unfolding verify_hash
verify_hash-Verified key_hash now [] e h = cc
verify_hash-Verified key_hash now (k ∷ keys) e h =
    ground (arith, verify_hash-Verified key_hash now keys e, str_eq_iff k.key_hash key_hash)

-- A key that verifies belongs to an entry of the file that has its hash, is active and has not
-- expired.
pub verify_api_key-Verified :
    (hash : String → String) (key : String) (now : ℕ) (keys : List KeyEntry) (e : KeyEntry)
    → verify_api_key hash key now keys ≡ some e
    → Verified (hash key) now e × Listed e keys
unfolding verify_api_key
verify_api_key-Verified hash key now keys e h = verify_hash-Verified (hash key) now keys e h

deactivated :
    (key_hash name : String) (now : ℕ) (keys : List KeyEntry) (e : KeyEntry)
    → verify_hash key_hash now (map (deactivate name) keys) ≡ some e
    → e.name ≢ name
unfolding verify_hash
deactivated key_hash name now [] e h = cc
deactivated key_hash name now (k ∷ keys) e h =
    ground (arith, deactivated key_hash name now keys e, str_eq_iff k.name name)

unchanged :
    (key_hash name : String) (now : ℕ) (keys : List KeyEntry) (e : KeyEntry)
    → any_of (is_revocable name) keys ≡ false
    → verify_hash key_hash now keys ≡ some e
    → e.name ≢ name
unfolding verify_hash
unchanged key_hash name now [] e a h = cc
unchanged key_hash name now (k ∷ keys) e a h =
    ground (arith, unchanged key_hash name now keys e, str_eq_iff k.name name)

-- After a revocation no key of that name verifies.
pub revoke_api_key-verify :
    (hash : String → String) (key name : String) (now : ℕ) (keys : List KeyEntry) (e : KeyEntry)
    → verify_api_key hash key now (revoke_api_key name keys).1 ≡ some e
    → e.name ≢ name
unfolding verify_api_key revoke_api_key
revoke_api_key-verify hash key name now keys e h =
    elim (Bool-cases (any_of (is_revocable name) keys)) [
      | inl y ↦ deactivated (hash key) name now keys e (ground arith)
      | inr n ↦ unchanged (hash key) name now keys e n (ground arith)
    ]

kept :
    (key_hash name : String) (now : ℕ) (keys : List KeyEntry)
    → All (λ k. k.key_hash ≡ key_hash → k.name ≢ name) keys
    → verify_hash key_hash now (map (deactivate name) keys) ≡ verify_hash key_hash now keys
unfolding verify_hash
kept key_hash name now [] h = refl
kept key_hash name now (k ∷ keys) h = ground (
  arith,
  kept key_hash name now keys h.1,
  h.0,
  str_eq_iff k.name name,
  str_eq_iff k.key_hash key_hash,
)

-- A revocation does not touch a key whose hash stands under other names only.
pub revoke_api_key-verify_ne :
    (hash : String → String) (key name : String) (now : ℕ) (keys : List KeyEntry)
    → All (λ k. k.key_hash ≡ hash key → k.name ≢ name) keys
    → verify_api_key hash key now (revoke_api_key name keys).1 ≡ verify_api_key hash key now keys
unfolding verify_api_key revoke_api_key
revoke_api_key-verify_ne hash key name now keys h =
    elim (Bool-cases (any_of (is_revocable name) keys)) [
      | inl y ↦ rw y (kept (hash key) name now keys h)
      | inr n ↦ rw n
    ]

verify_hash-last :
    (key_hash : String) (now : ℕ) (keys : List KeyEntry) (e : KeyEntry)
    → All (λ k. k.key_hash ≢ key_hash) keys
    → e.key_hash ≡ key_hash
    → is_active e ≡ true
    → verify_hash key_hash now (keys ++ e ∷ [])
      ≡ (if is_expired e.expires_at now then none else some e)
unfolding verify_hash
verify_hash-last key_hash now [] e h same on = ground (arith, str_eq_iff e.key_hash key_hash)
verify_hash-last key_hash now (k ∷ keys) e h same on =
    ground
      (arith, h.0, str_eq_iff k.key_hash key_hash, verify_hash-last key_hash now keys e h.1 same on)

-- A key created for a number of days verifies, as the record that was stored, until that many days
-- have passed, and not from then on, if no other entry has its hash.
pub create_api_key-verify :
    (hash : String → String) (key : String) (now : ℕ) (name : String) (role : Role)
    (tenant_id : String) (days : ℕ) (keys : List KeyEntry) (later : ℕ)
    → All (λ k. k.key_hash ≢ hash key) keys
    → let (entry, keys') = create_api_key hash key now name role tenant_id (some days) keys in
      verify_api_key hash key later keys'
      ≡ (if leb (now + days * 86400) later then none else some entry)
unfolding create_api_key verify_api_key is_expired
create_api_key-verify hash key now name role tenant_id days keys later h =
    verify_hash-last (hash key) later keys
      (create_api_key hash key now name role tenant_id (some days) keys).0 h refl refl
