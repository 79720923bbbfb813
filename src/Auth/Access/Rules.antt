-- ===== src/Auth/Access/Rules.antt =====
-- What the role rules allow.
use Prim.Native.String.{◌++◌ as join}
use text.Mathlib.TextEquality.{starts_with_iff}
use text.Mathlib.TextPositions.{len-append, slice-append_right}
use text.Mathlib.TextLemmas.{prefix-append}
use engram_mem.Base.{
  ◌≡◌, refl, ◌∙◌, ◌↔◌, ◌⊎◌, String, Bool, true, false, not, ◌&&◌, if◌then◌else◌, arith, str_eq_iff,
  str_eq,
}
use engram_mem.Auth.{Role, admin, agent, reader, is_admin, is_reader}
use engram_mem.Auth.Access.{require_role, normalize_path, is_admin_only, has_prefix, api_v1_prefix}

-- Who may call a route: every role may read (GET); only an admin may write to an admin path; a
-- reader may write nowhere, and an agent wherever no admin is wanted.
abbrev pub May : String → String → Role → Type 0
May path method admin = Unit
May path method agent = (method ≡ "GET") ⊎ (is_admin_only (normalize_path path) ≡ false)
May path method reader = method ≡ "GET"

-- The rules of a bare path.
allows : String → String → Role → Bool
allows bare method role =
    if str_eq method "GET"
    then true
    else if is_admin_only bare && not (is_admin role)
    then false
    else not (is_reader role)

require_role-allows :
    (path method : String) (role : Role)
    → require_role path method role ≡ allows (normalize_path path) method role
unfolding require_role allows
require_role-allows path method role = refl

allows_iff :
    (path method : String) (role : Role)
    → (allows (normalize_path path) method role ≡ true) ↔ May path method role
unfolding allows
allows_iff path method admin = ground (arith, str_eq_iff method "GET")
allows_iff path method agent = ground (arith, str_eq_iff method "GET")
allows_iff path method reader = ground (arith, str_eq_iff method "GET")

normalize_path-bare : (path : String) → has_prefix path ≡ false → normalize_path path ≡ path
unfolding normalize_path
normalize_path-bare path h = rw h

normalize_path-prefixed : (path : String) → normalize_path (join api_v1_prefix path) ≡ path
unfolding normalize_path
normalize_path-prefixed path =
    let begins =
      (starts_with_iff (join api_v1_prefix path) api_v1_prefix).1
        (prefix-append api_v1_prefix path) in
    rw begins (rw (len-append api_v1_prefix path) (slice-append_right api_v1_prefix path))

-- `_require_role` passes exactly the requests that the role may make.
pub require_role_iff :
    (path method : String) (role : Role)
    → (require_role path method role ≡ true) ↔ May path method role
require_role_iff path method role = rw require_role-allows (allows_iff path method role)

-- An `/api/v1` route has the rules of the route without the prefix, if that has no second prefix.
pub require_role-prefixed :
    (path method : String) (role : Role)
    → has_prefix path ≡ false
    → require_role (join api_v1_prefix path) method role ≡ require_role path method role
require_role-prefixed path method role h =
    require_role-allows (join api_v1_prefix path) method role
    ∙ rw (normalize_path-prefixed, require_role-allows, normalize_path-bare path h)
