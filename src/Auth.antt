-- ===== src/Auth.antt =====
-- src/engram/auth.py and src/engram/auth_models.py: roles, API keys, JWT payloads and the check of a
-- request. The key file is a list of entries; SHA-256 and the JWT library are parameters.
pub mod Keys
pub mod Tokens
pub mod Access
mod Examples
use engram_mem.Base.{
  ℕ, ◌+◌, ◌*◌, String, Bool, true, false, not, ◌&&◌, ◌||◌, Option, none, some, List, [], ◌∷◌, ◌++◌,
  map, any_of, ltb, leb, str_eq, if◌then◌else◌, ◌>>=◌,
}

pub data Role : Type 0 where
  admin agent reader : Role

abbrev pub is_admin : Role → Bool
is_admin admin = true
is_admin _ = false

abbrev pub is_reader : Role → Bool
is_reader reader = true
is_reader _ = false

unfoldable pub role_value : Role → String
role_value admin = "admin"
role_value agent = "agent"
role_value reader = "reader"

-- `Role(value)`; `none` is the `ValueError`.
unfoldable pub role_of : String → Option Role
role_of s =
    if str_eq s "admin"
    then some admin
    else if str_eq s "agent"
    then some agent
    else if str_eq s "reader"
    then some reader
    else none

pub record AuthContext : Type 0 where
  pub tenant_id : String
  pub role : Role

abbrev pub default_context : AuthContext
default_context = record { tenant_id = "default"; role = admin }

-- What the text `expires_at` of a key stands for: empty, no ISO date, or an instant.
pub data Expiry : Type 0 where
  never : Expiry
  malformed : String → Expiry
  at : ℕ → Expiry

-- A stored key. A file may lack the field `active`.
pub record KeyEntry : Type 0 where
  pub key_hash : String
  pub name : String
  pub role : Role
  pub tenant_id : String
  pub active : Option Bool
  pub created_at : ℕ
  pub expires_at : Expiry

-- `entry.get("active", True)`
abbrev pub is_active : KeyEntry → Bool
is_active e = elim e.active [ none ↦ true | some b ↦ b ]

-- `now >= exp_dt`, where the expiry is a date
unfoldable pub is_expired : Expiry → ℕ → Bool
is_expired never now = false
is_expired (malformed _) now = false
is_expired (at t) now = leb t now

abbrev pub expiry_after : Option ℕ → ℕ → Expiry
expiry_after none now = never
expiry_after (some days) now = at (now + days * 86400)

-- The loop: an entry of another hash or an inactive one is passed over, an expired one ends it.
unfoldable pub verify_hash : String → ℕ → List KeyEntry → Option KeyEntry
unfolding is_expired
verify_hash key_hash now [] = none
verify_hash key_hash now (e ∷ keys) =
    let rest = verify_hash key_hash now keys in
    if not (str_eq e.key_hash key_hash)
    then rest
    else if not (is_active e)
    then rest
    else if is_expired e.expires_at now
    then none
    else some e

module _ (hash : String → String) where
  -- `key` is the fresh token; the record is appended to the file.
  unfoldable pub create_api_key :
      String → ℕ → String → Role → String → Option ℕ → List KeyEntry → KeyEntry × List KeyEntry
  create_api_key key now name role tenant_id expires_days keys =
      let entry : KeyEntry = record {
        key_hash = hash key;
        name = name;
        role = role;
        tenant_id = tenant_id;
        active = some true;
        created_at = now;
        expires_at = expiry_after expires_days now;
      } in
      (entry, keys ++ entry ∷ [])

  unfoldable pub verify_api_key : String → ℕ → List KeyEntry → Option KeyEntry
  unfolding verify_hash
  verify_api_key key now keys = verify_hash (hash key) now keys

abbrev pub is_revocable : String → KeyEntry → Bool
is_revocable name e = str_eq e.name name && is_active e

abbrev pub deactivate : String → KeyEntry → KeyEntry
deactivate name e = if is_revocable name e then record e { active = some false } else e

-- The file is written only if an entry changed.
unfoldable pub revoke_api_key : String → List KeyEntry → Bool × List KeyEntry
revoke_api_key name keys =
    let changed = any_of (is_revocable name) keys in
    (changed, if changed then map (deactivate name) keys else keys)

-- The claims of a token, as the JWT library returns them: any may be missing.
pub record Claims : Type 0 where
  pub sub : Option String
  pub role : Option String
  pub tenant_id : Option String
  pub exp : Option ℕ

pub record TokenPayload : Type 0 where
  pub sub : String
  pub role : Role
  pub tenant_id : String
  pub exp : ℕ

unfoldable pub claims_of : TokenPayload → Claims
unfolding role_value
claims_of p = record {
  sub = some p.sub;
  role = some (role_value p.role);
  tenant_id = some p.tenant_id;
  exp = some p.exp;
}

-- The body of the `try` in `verify_jwt`, after the library accepted the token.
unfoldable pub payload_of : Claims → Option TokenPayload
unfolding role_of
payload_of c = do
  sub ← c.sub
  value ← c.role
  role ← role_of value
  exp ← c.exp
  some (record {
    sub = sub;
    role = role;
    tenant_id = elim c.tenant_id [ none ↦ "default" | some t ↦ t ];
    exp = exp;
  })

-- PyJWT: `encode claims secret` is a token, `decode token secret now` its claims, or nothing where
-- the library raises.
pub record Jwt : Type 0 where
  pub encode : Claims → String → String
  pub decode : String → String → ℕ → Option Claims

module _ (jwt : Jwt) where
  unfoldable pub create_jwt : TokenPayload → String → String
  unfolding claims_of
  create_jwt payload secret = jwt.encode (claims_of payload) secret

  unfoldable pub verify_jwt : String → String → ℕ → Option TokenPayload
  unfolding payload_of
  verify_jwt token secret now = do claims ← jwt.decode token secret now; payload_of claims
