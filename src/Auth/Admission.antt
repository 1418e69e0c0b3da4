-- ===== src/Auth/Admission.antt =====
-- src/auth/mod.rs and src/auth/guard.rs: which requests the guard lets through, and what the roles of
-- a principal are.
use mathlib.Core.Path.{subst}
use zonemail.Prelude.{
  ℕ, ◌≡◌, ◌↔◌, refl, sym, inl, inr, Text, true, false, Option, none, some, Result, ok, err,
  Bool-cases, arith,
}
use zonemail.Auth.Policy.{RouteTarget, route_target, is_public, allows}
use zonemail.Auth.Keys.{Header, source_unavailable, Checked, passed, refused, JwkOps}
use zonemail.Auth.Service.{
  VerifiedClaims, JsonOps, TokenOps, AuthService, Request, Guarded, extract, alg_allowed,
  extract_bearer, key_for, validation, claims_of, decode_with, verify_header, verify_token, decide,
  enforce_token, enforce, handle,
}

module _ {Json Jwk DecodingKey : Type 0} (json : JsonOps Json) (ops : JwkOps Jwk DecodingKey)
    (tokens : TokenOps Json DecodingKey) (now later : ℕ) (s : AuthService Jwk DecodingKey) where
  -- the token is verified, and the claims are those that it carries
  pub record Verifies (token : Text) (claims : VerifiedClaims) : Type 0 where
    pub header : Header
    pub read : tokens.decode_header token ≡ ok header
    pub allowed : alg_allowed header.alg s.algorithms ≡ true
    pub key : DecodingKey
    pub resolved : (key_for json ops tokens now later s.key_material header).0 ≡ passed key
    pub raw : Json
    pub decoded : tokens.decode token key (validation json ops tokens now later s) ≡ ok raw
    pub carried : claims ≡ extract json raw s.subject_claim s.role_claims

  claims_of-passed :
      (r : Result Json) (c : VerifiedClaims)
      → claims_of json ops tokens now later s r ≡ passed c
      → (raw : Json) × (r ≡ ok raw) × (c ≡ extract json raw s.subject_claim s.role_claims)
  claims_of-passed (ok raw) c h = (raw, refl, ground (arith, h))
  claims_of-passed (err e) c h = ground (arith, h)

  decode_with-passed :
      (token : Text) (k : Checked DecodingKey) (c : VerifiedClaims)
      → decode_with json ops tokens now later s token k ≡ passed c
      → (key : DecodingKey) × (raw : Json) × (k ≡ passed key)
        × (tokens.decode token key (validation json ops tokens now later s) ≡ ok raw)
        × (c ≡ extract json raw s.subject_claim s.role_claims)
  decode_with-passed token (refused e) c h = ground (arith, h)
  decode_with-passed token (passed key) c h =
      let (raw, d, e) =
        claims_of-passed (tokens.decode token key (validation json ops tokens now later s)) c h in
      (key, raw, refl, d, e)

  verify_header-passed :
      (token : Text) (r : Result Header) (c : VerifiedClaims)
      → tokens.decode_header token ≡ r
      → (verify_header json ops tokens now later s token r).0 ≡ passed c
      → Verifies token c
  verify_header-passed token (err e) c q h = ground (arith, h)
  verify_header-passed token (ok header) c q h =
      elim (Bool-cases (alg_allowed header.alg s.algorithms)) [
        | inl a ↦
            let (key, raw, k, d, e) = decode_with-passed token _ c (rw a at h) in
            record {
              header = header;
              read = q;
              allowed = a;
              key = key;
              resolved = k;
              raw = raw;
              decoded = d;
              carried = e;
            }
        | inr a ↦ ground (arith, (rw a at h))
      ]

  verify_token-passed :
      (token : Text) (c : VerifiedClaims)
      → (verify_token json ops tokens now later s token).0 ≡ passed c
      → Verifies token c
  unfolding verify_token
  verify_token-passed token c h = verify_header-passed token (tokens.decode_header token) c refl h

  Verifies→verify_token :
      (token : Text) (c : VerifiedClaims)
      → Verifies token c
      → (verify_token json ops tokens now later s token).0 ≡ passed c
  unfolding verify_token
  Verifies→verify_token token c v =
      rw v.read (rw v.allowed (rw v.resolved (rw v.decoded (rw v.carried refl))))

  -- the guard lets the request through, with these claims for the handlers
  abbrev pub IsAdmitted : Guarded → VerifiedClaims → Type 0
  IsAdmitted g c = (g.rejection ≡ none) × (g.injected ≡ some c)

  -- a principal whose token the request bears, with the roles for the target
  abbrev pub IsEntitled : Request → RouteTarget → VerifiedClaims → Type 0
  IsEntitled req target c =
      (token : Text) × (extract_bearer req ≡ some token)
      × Verifies token c
      × (allows s.policy c.roles target ≡ true)

  decide_through :
      (target : RouteTarget) (r : Checked VerifiedClaims)
      → s.fail_closed ≡ true
      → (handle (decide json ops tokens now later s target r)).rejection ≡ none
      → (c : VerifiedClaims) × (r ≡ passed c)
        × (allows s.policy c.roles target ≡ true)
        × IsAdmitted (handle (decide json ops tokens now later s target r)) c
  unfolding handle
  decide_through target (passed d) f h = elim (Bool-cases (allows s.policy d.roles target)) [
    | inl a ↦ (d, refl, a, rw a (refl, refl))
    | inr a ↦ ground (arith, (rw a at h))
  ]
  decide_through target (refused source_unavailable) f h = ground (arith, (rw f at h))
  decide_through target (refused _) f h = ground (arith, h)

  enforce_token_through :
      (req : Request) (target : RouteTarget) (bearer : Option Text)
      → extract_bearer req ≡ bearer
      → s.fail_closed ≡ true
      → (handle (enforce_token json ops tokens now later s target bearer).0).rejection ≡ none
      → (c : VerifiedClaims) × IsEntitled req target c
        × IsAdmitted (handle (enforce_token json ops tokens now later s target bearer).0) c
  unfolding handle
  enforce_token_through req target none q f h = ground (arith, h)
  enforce_token_through req target (some token) q f h =
      let (c, p, a, i) =
        decide_through target (verify_token json ops tokens now later s token).0 f h in
      (c, (token, q, verify_token-passed token c p, a), i)

  enforce_token_entitled :
      (req : Request) (target : RouteTarget) (c : VerifiedClaims)
      → IsEntitled req target c
      → IsAdmitted
          (handle (enforce_token json ops tokens now later s target (extract_bearer req)).0)
          c
  unfolding handle
  enforce_token_entitled req target c (token, q, v, a) =
      rw q (rw (Verifies→verify_token token c v) (rw a (refl, refl)))

  module _ (req : Request) (target : RouteTarget) where
    enforce-token :
        s.enabled ≡ true
        → route_target req.path req.method ≡ some target
        → is_public s.policy target.resource ≡ false
        → enforce json ops tokens now later s req
          ≡ enforce_token json ops tokens now later s target (extract_bearer req)
    unfolding enforce
    enforce-token on t p = rw (on, enforce) (rw t (rw p refl))

    admitted :
        s.enabled ≡ true
        → s.fail_closed ≡ true
        → route_target req.path req.method ≡ some target
        → is_public s.policy target.resource ≡ false
        → (handle (enforce json ops tokens now later s req).0).rejection ≡ none
        → (c : VerifiedClaims) × IsEntitled req target c
          × IsAdmitted (handle (enforce json ops tokens now later s req).0) c
    admitted on f t p h = rw (enforce-token on t p) (
        enforce_token_through req target (extract_bearer req) refl f
          (rw (enforce-token on t p) at h))

    enforce_entitled :
        s.enabled ≡ true
        → route_target req.path req.method ≡ some target
        → is_public s.policy target.resource ≡ false
        → (c : VerifiedClaims) → IsEntitled req target c
        → IsAdmitted (handle (enforce json ops tokens now later s req).0) c
    enforce_entitled on t p c e = rw (enforce-token on t p) (enforce_token_entitled req target c e)

    -- Over an enabled service that fails closed, and for a governed target that is not public, the
    -- guard lets a request through with some claims exactly if they are those of its bearer token,
    -- which verifies, and the policy allows their roles the target; and it lets none through
    -- without claims.
    pub guard_admits_iff :
        s.enabled ≡ true
        → s.fail_closed ≡ true
        → route_target req.path req.method ≡ some target
        → is_public s.policy target.resource ≡ false
        → ((c : VerifiedClaims)
            → IsAdmitted (handle (enforce json ops tokens now later s req).0) c
              ↔ IsEntitled req target c)
          × ((handle (enforce json ops tokens now later s req).0).rejection ≡ none
              → (c : VerifiedClaims) × IsAdmitted
                  (handle (enforce json ops tokens now later s req).0)
                  c)
    guard_admits_iff on f t p = (
      λ c. (
        λ a.
            let (d, e, b) = admitted on f t p a.0 in
            let same : c ≡ d = ground (arith, a.1, b.1) in
            subst (λ z. IsEntitled req target z) (sym same) e,
        enforce_entitled on t p c,
      ),
      λ h. let (c, e, a) = admitted on f t p h in (c, a),
    )
