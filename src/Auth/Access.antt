-- ===== src/Auth/Access.antt =====
-- `_require_role`, `get_auth_context` and the cached configuration of src/engram/auth.py.
pub mod Rules
pub mod Granted
use Prim.Native.String.{len, slice, count, ◌++◌ as join}
use text.Mathlib.Text.{starts_with}
use engram_mem.Base.{
  ℕ, String, Bool, true, false, not, ◌&&◌, ◌||◌, Option, none, some, List, [], ◌∷◌, any_of, ltb,
  str_eq, if◌then◌else◌, ◌≡◌,
}
use engram_mem.Auth.{
  Role, admin, agent, reader, is_admin, is_reader, AuthContext, default_context, KeyEntry, Jwt,
  verify_api_key, verify_jwt,
}

pub record AuthConfig : Type 0 where
  pub enabled : Bool
  pub jwt_secret : String

-- The module's cached configuration. `none` is the `ValueError` of a secret that is too short.
unfoldable pub init_auth : AuthConfig → Option (Option AuthConfig)
init_auth config =
    if config.enabled && ltb (count config.jwt_secret) 32 then none else some (some config)

-- The configuration in use, and the cache after the call: it is loaded on the first call only.
unfoldable pub get_config : AuthConfig → Option AuthConfig → AuthConfig × Option AuthConfig
get_config loaded none = (loaded, some loaded)
get_config loaded (some config) = (config, some config)

abbrev pub is_one_of : List String → String → Bool
is_one_of xs x = any_of (λ y. str_eq y x) xs

abbrev pub public_paths : List String
public_paths = "/health" ∷ "/health/ready" ∷ "/api/v1/auth/token" ∷ "/auth/token" ∷ []

unfoldable pub is_public : String → Bool
is_public = is_one_of public_paths

abbrev pub admin_only_paths : List String
admin_only_paths = "/cleanup" ∷ "/summarize" ∷ []

unfoldable pub is_admin_only : String → Bool
is_admin_only = is_one_of admin_only_paths

abbrev pub api_v1_prefix : String
api_v1_prefix = "/api/v1"

unfoldable pub has_prefix : String → Bool
has_prefix path = starts_with path api_v1_prefix

-- `text[len(prefix):]`
abbrev pub cut : String → String → String
cut prefix text = slice text (len prefix) (len text)

unfoldable pub normalize_path : String → String
unfolding has_prefix
normalize_path path = if has_prefix path then cut api_v1_prefix path else path

-- `false` is the `EngramError(FORBIDDEN)`.
unfoldable pub require_role : String → String → Role → Bool
unfolding normalize_path is_admin_only
require_role path method role =
    if str_eq method "GET"
    then true
    else if is_admin_only (normalize_path path) && not (is_admin role)
    then false
    else not (is_reader role)

pub record Request : Type 0 where
  pub path : String
  pub method : String
  pub authorization : String
  pub api_key : String

unfoldable pub has_bearer : String → Bool
has_bearer authorization = starts_with authorization "Bearer "

-- A context, or an `HTTPException` with this status.
pub data Access : Type 0 where
  granted : AuthContext → Access
  refused : ℕ → Access

-- The tail of both credential branches: a context, if the role may do this.
abbrev pub with_role : Request → AuthContext → Access
with_role request ctx =
    if require_role request.path request.method ctx.role then granted ctx else refused 403

module _ (hash : String → String) (jwt : Jwt) where
  abbrev pub by_token : Request → AuthConfig → ℕ → Access
  by_token request config now =
      elim (verify_jwt jwt (cut "Bearer " request.authorization) config.jwt_secret now) [
        | none ↦ refused 401
        | some p ↦ with_role request (record { tenant_id = p.tenant_id; role = p.role })
      ]

  abbrev pub by_key : Request → ℕ → List KeyEntry → Access
  by_key request now keys = elim (verify_api_key hash request.api_key now keys) [
    | none ↦ refused 401
    | some e ↦ with_role request (record { tenant_id = e.tenant_id; role = e.role })
  ]

  -- The dependency of every route, under the cached configuration.
  unfoldable pub get_auth_context : AuthConfig → List KeyEntry → ℕ → Request → Access
  get_auth_context config keys now request =
      if is_public request.path
      then granted default_context
      else if not config.enabled
      then granted default_context
      else if has_bearer request.authorization
      then by_token request config now
      else if not (str_eq request.api_key "")
      then by_key request now keys
      else refused 401
