-- ===== src/Auth/Tokens.antt =====
-- `create_jwt` and `verify_jwt`: a token carries its payload until it expires.
use engram_mem.Base.{
  ℕ, ◌≡◌, refl, String, none, some, arith, leb, if◌then◌else◌, Bool-cases, inl, inr,
}
use engram_mem.Auth.{
  Role, admin, agent, reader, role_value, role_of, TokenPayload, claims_of, payload_of, Jwt,
  create_jwt, verify_jwt,
}

role_of-role_value : (r : Role) → role_of (role_value r) ≡ some r
unfolding role_of role_value
role_of-role_value admin = refl
role_of-role_value agent = refl
role_of-role_value reader = refl

payload_of-claims_of : (p : TokenPayload) → payload_of (claims_of p) ≡ some p
unfolding payload_of claims_of
payload_of-claims_of p = rw (role_of-role_value p.role)

-- A token that the JWT library takes back unchanged until it expires verifies to the payload that
-- was signed before the expiry, role and tenant included, and to nothing from then on.
pub verify_jwt-create_jwt :
    (jwt : Jwt) (p : TokenPayload) (secret : String) (now : ℕ)
    → jwt.decode (jwt.encode (claims_of p) secret) secret now
      ≡ (if leb p.exp now then none else some (claims_of p))
    → verify_jwt jwt (create_jwt jwt p secret) secret now ≡ (if leb p.exp now then none else some p)
unfolding verify_jwt create_jwt
verify_jwt-create_jwt jwt p secret now library = elim (Bool-cases (leb p.exp now)) [
  | inl late ↦ ground arith
  | inr fresh ↦ ground (arith, payload_of-claims_of p)
]
