-- ===== src/Auth/Examples.antt =====
-- The theorems on authentication at concrete inputs.

use engram_mem.Base.{◌≡◌, ◌≢◌, refl, ◌↔◌, String, true, none, some, [], ◌∷◌, leb, if◌then◌else◌}
use engram_mem.Auth.{
  agent, reader, AuthContext, KeyEntry, never, TokenPayload, Jwt, claims_of, create_api_key,
  verify_api_key, revoke_api_key, create_jwt, verify_jwt,
}
use engram_mem.Auth.Keys
use engram_mem.Auth.Keys.{Verified, Listed}
use engram_mem.Auth.Tokens
use engram_mem.Auth.Access.{
  AuthConfig, Request, granted, refused, is_public, has_bearer, require_role, get_auth_context,
}
use engram_mem.Auth.Access.Rules.{May}
use engram_mem.Auth.Access.Granted
use engram_mem.Auth.Access.Granted.{Credential}

abbrev payload : TokenPayload
payload = record { sub = "ann"; role = agent; tenant_id = "acme"; exp = 100 }

-- A library with one token, that of `payload`.
abbrev one_token : Jwt
one_token = record {
  encode = λ _ _. "t";
  decode = λ token _ now. if leb 100 now then none else some (claims_of payload);
}

abbrev plain : String → String
plain s = s

abbrev ci_key : KeyEntry
ci_key = record {
  key_hash = "k1";
  name = "ci";
  role = reader;
  tenant_id = "acme";
  active = some true;
  created_at = 0;
  expires_at = never;
}

abbrev config : AuthConfig
config = record { enabled = true; jwt_secret = "0123456789abcdef0123456789abcdef" }

abbrev read : Request
read = record { path = "/api/v1/recall"; method = "GET"; authorization = ""; api_key = "k1" }

abbrev write : Request
write = record read { method = "POST" }

abbrev reader_context : AuthContext
reader_context = record { tenant_id = "acme"; role = reader }

reads : get_auth_context plain one_token config (ci_key ∷ []) 5 read ≡ granted reader_context
unfolding get_auth_context is_public has_bearer verify_api_key require_role
reads = refl

writes : get_auth_context plain one_token config (ci_key ∷ []) 5 write ≡ refused 403
unfolding get_auth_context is_public has_bearer verify_api_key require_role
writes = refl

get_auth_context-granted_iff_example :
    (get_auth_context plain one_token config (ci_key ∷ []) 5 read ≡ granted reader_context) ↔ (
      Credential plain one_token config (ci_key ∷ []) 5 read reader_context
      × May "/api/v1/recall" "GET" reader)
unfolding is_public
get_auth_context-granted_iff_example =
    Granted.get_auth_context-granted_iff plain one_token config (ci_key ∷ []) 5 read reader_context
      refl refl

abbrev ops_key : KeyEntry
ops_key = record ci_key { key_hash = "k2"; name = "ops" }

revoke_api_key-verify_example : ops_key.name ≢ "ci"
unfolding verify_api_key revoke_api_key
revoke_api_key-verify_example =
    Keys.revoke_api_key-verify plain "k2" "ci" 5 (ci_key ∷ ops_key ∷ []) ops_key refl

create_api_key-verify_example :
    let (entry, keys) = create_api_key plain "k3" 5 "new" agent "acme" (some 1) [] in
    verify_api_key plain "k3" 86405 keys ≡ none
create_api_key-verify_example =
    Keys.create_api_key-verify plain "k3" 5 "new" agent "acme" 1 [] 86405 tt

verify_jwt-create_jwt_example :
    verify_jwt one_token (create_jwt one_token payload "s") "s" 99 ≡ some payload
verify_jwt-create_jwt_example = Tokens.verify_jwt-create_jwt one_token payload "s" 99 refl
