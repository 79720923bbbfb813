-- ===== src/Auth/Access/Granted.antt =====
-- Who gets through `get_auth_context` where authentication is on.
use mathlib.Core.Path.{subst, sym}
use engram_mem.Base.{
  ℕ, ◌≡◌, ◌≢◌, refl, ◌↔◌, String, true, false, some, List, arith, str_eq, str_eq_iff, Option-cases,
  Bool-cases, inl, inr,
}
use engram_mem.Auth.{AuthContext, KeyEntry, TokenPayload, Jwt, verify_api_key, verify_jwt}
use engram_mem.Auth.Access.{
  AuthConfig, Request, granted, refused, is_public, has_bearer, cut, require_role, with_role,
  get_auth_context,
}
use engram_mem.Auth.Access.Rules.{May, require_role_iff}

module _ (hash : String → String) (jwt : Jwt) (config : AuthConfig) (keys : List KeyEntry) (now : ℕ)
    (request : Request) where
  -- The request shows a credential of this context: a bearer token that verifies or, where no
  -- bearer token is sent, an API key that verifies.
  pub data Credential (ctx : AuthContext) : Type 0 where
    token :
        (p : TokenPayload)
        → has_bearer request.authorization ≡ true
        → verify_jwt jwt (cut "Bearer " request.authorization) config.jwt_secret now ≡ some p
        → ctx ≡ record { tenant_id = p.tenant_id; role = p.role }
        → Credential ctx
    key :
        (e : KeyEntry)
        → has_bearer request.authorization ≡ false
        → request.api_key ≢ ""
        → verify_api_key hash request.api_key now keys ≡ some e
        → ctx ≡ record { tenant_id = e.tenant_id; role = e.role }
        → Credential ctx

  with_role-granted :
      (ctx ctx' : AuthContext)
      → (with_role request ctx ≡ granted ctx')
        ↔ ((ctx' ≡ ctx) × May request.path request.method ctx.role)
  with_role-granted ctx ctx' = (
    λ h. (ground arith, (require_role_iff request.path request.method ctx.role).0 (ground arith)),
    λ h. ground (arith, (require_role_iff request.path request.method ctx.role).1 h.1),
  )

  abbrev MayAs : AuthContext → Type 0
  MayAs ctx = May request.path request.method ctx.role

  granted_by :
      (own ctx : AuthContext) → with_role request own ≡ granted ctx → (ctx ≡ own) × MayAs ctx
  granted_by own ctx h = let w = (with_role-granted own ctx).0 h in (w.0, subst MayAs (sym w.0) w.1)

  granted_to : (own ctx : AuthContext) → ctx ≡ own → MayAs ctx → with_role request own ≡ granted ctx
  granted_to own ctx e m = (with_role-granted own ctx).1 (e, subst MayAs e m)

  module _ (on : config.enabled ≡ true) (private : is_public request.path ≡ false) where
    Credential-of_granted :
        (ctx : AuthContext)
        → get_auth_context hash jwt config keys now request ≡ granted ctx
        → Credential ctx × MayAs ctx
    unfolding get_auth_context
    Credential-of_granted ctx h = elim (Bool-cases (has_bearer request.authorization)) [
      | inl b ↦
          elim (Option-cases
            (verify_jwt jwt (cut "Bearer " request.authorization) config.jwt_secret now)) [
              | inl bad ↦ absurd (ground arith)
              | inr (p, good) ↦
                  let own : AuthContext = record { tenant_id = p.tenant_id; role = p.role } in
                  let w = granted_by own ctx (ground arith) in (token p b good w.0, w.1)
            ]
      | inr b ↦ elim (Option-cases (verify_api_key hash request.api_key now keys)) [
        | inl bad ↦ absurd (ground arith)
        | inr (e, good) ↦
            let own : AuthContext = record { tenant_id = e.tenant_id; role = e.role } in
            let w = granted_by own ctx (ground arith) in
            (key e b (λ q. ground (arith, str_eq_iff request.api_key "")) good w.0, w.1)
      ]
    ]

    granted_of_Credential :
        (ctx : AuthContext)
        → Credential ctx
        → MayAs ctx
        → get_auth_context hash jwt config keys now request ≡ granted ctx
    unfolding get_auth_context
    granted_of_Credential ctx (token p b good e) m =
        let own : AuthContext = record { tenant_id = p.tenant_id; role = p.role } in
        ground (arith, granted_to own ctx e m)
    granted_of_Credential ctx (key q b shown good e) m =
        let own : AuthContext = record { tenant_id = q.tenant_id; role = q.role } in
        ground (arith, granted_to own ctx e m, str_eq_iff request.api_key "")

    refused_without :
        ((ctx : AuthContext) → ¬ Credential ctx)
        → get_auth_context hash jwt config keys now request ≡ refused 401
    unfolding get_auth_context
    refused_without lacks = elim (Bool-cases (has_bearer request.authorization)) [
      | inl b ↦
          elim (Option-cases
            (verify_jwt jwt (cut "Bearer " request.authorization) config.jwt_secret now)) [
              | inl bad ↦ ground arith
              | inr (p, good) ↦
                  absurd (
                    lacks (record { tenant_id = p.tenant_id; role = p.role }) (token p b good refl))
            ]
      | inr b ↦ elim (Bool-cases (str_eq request.api_key "")) [
        | inl empty ↦ ground arith
        | inr shown ↦ elim (Option-cases (verify_api_key hash request.api_key now keys)) [
          | inl bad ↦ ground arith
          | inr (e, good) ↦ absurd (
              lacks (record { tenant_id = e.tenant_id; role = e.role })
                (key e b (λ q. ground (arith, str_eq_iff request.api_key "")) good refl))
        ]
      ]
    ]

    refused_to :
        (own ctx : AuthContext) → ctx ≡ own → ¬ MayAs ctx → with_role request own ≡ refused 403
    refused_to own ctx e barred =
        elim (Bool-cases (require_role request.path request.method own.role)) [
          | inl y ↦ absurd (
              barred
                (subst MayAs (sym e) ((require_role_iff request.path request.method own.role).0 y)))
          | inr n ↦ rw n
        ]

    refused_of_Credential :
        (ctx : AuthContext)
        → Credential ctx
        → ¬ MayAs ctx
        → get_auth_context hash jwt config keys now request ≡ refused 403
    unfolding get_auth_context
    refused_of_Credential ctx (token p b good e) barred =
        let own : AuthContext = record { tenant_id = p.tenant_id; role = p.role } in
        ground (arith, refused_to own ctx e barred)
    refused_of_Credential ctx (key q b shown good e) barred =
        let own : AuthContext = record { tenant_id = q.tenant_id; role = q.role } in
        ground (arith, refused_to own ctx e barred, str_eq_iff request.api_key "")

-- With authentication on and off the public paths, a request is granted a context exactly if it
-- shows a credential of it (a bearer token that verifies or, with no bearer token, an API key that
-- verifies) and the role of the context may make the request.
pub get_auth_context-granted_iff :
    (hash : String → String) (jwt : Jwt) (config : AuthConfig) (keys : List KeyEntry) (now : ℕ)
    (request : Request) (ctx : AuthContext)
    → config.enabled ≡ true
    → is_public request.path ≡ false
    → (get_auth_context hash jwt config keys now request ≡ granted ctx)
      ↔ (Credential hash jwt config keys now request ctx × May request.path request.method ctx.role)
get_auth_context-granted_iff hash jwt config keys now request ctx on private = (
  Credential-of_granted hash jwt config keys now request on private ctx,
  λ h. granted_of_Credential hash jwt config keys now request on private ctx h.0 h.1,
)

-- Without a credential, off the public paths and with authentication on, the answer is 401; with a
-- credential whose role may not make the request it is 403.
pub get_auth_context-refused :
    (hash : String → String) (jwt : Jwt) (config : AuthConfig) (keys : List KeyEntry) (now : ℕ)
    (request : Request)
    → config.enabled ≡ true
    → is_public request.path ≡ false
    → (((ctx : AuthContext) → ¬ Credential hash jwt config keys now request ctx)
        → get_auth_context hash jwt config keys now request ≡ refused 401)
      × ((ctx : AuthContext)
          → Credential hash jwt config keys now request ctx
          → ¬ May request.path request.method ctx.role
          → get_auth_context hash jwt config keys now request ≡ refused 403)
get_auth_context-refused hash jwt config keys now request on private = (
  refused_without hash jwt config keys now request on private,
  refused_of_Credential hash jwt config keys now request on private,
)
