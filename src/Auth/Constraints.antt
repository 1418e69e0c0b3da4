-- ===== src/Auth/Constraints.antt =====
-- src/auth/mod.rs and src/auth/guard.rs: the issuer and the audience of the tokens that the guard
-- accepts.
use zonemail.Prelude.{
  ◌≡◌, ◌≢◌, refl, ℕ, Text, text_eq, true, false, Option, none, some, List, [], ◌∷◌, any, ok,
}
use zonemail.Auth.Policy.{RouteTarget, route_target, is_public}
use zonemail.Auth.Keys.{JwkOps}
use zonemail.Auth.Service.{
  VerifiedClaims, JsonOps, TokenOps, Validation, AuthService, Request, extract_bearer, enforce,
  handle,
}
use zonemail.Auth.Admission.{Verifies, guard_admits_iff}

-- The claims `iss` and `aud` of a token, and what `decode` promises of them: where the constraints
-- name an issuer, a token with an issuer has that one, and where they name audiences, a token with
-- audiences has one of them.
pub record Checks {Json DecodingKey : Type 0} (tokens : TokenOps Json DecodingKey) : Type 0 where
  pub issuer_of : Text → Option Text
  pub audience_of : Text → Option (List Text)
  pub issuer_checked :
      (token : Text) (key : DecodingKey) (v : Validation) (raw : Json) (wanted iss : Text)
      → tokens.decode token key v ≡ ok raw
      → v.issuer ≡ some wanted
      → issuer_of token ≡ some iss
      → iss ≡ wanted
  pub audience_checked :
      (token : Text) (key : DecodingKey) (v : Validation) (raw : Json) (wanted auds : List Text)
      → tokens.decode token key v ≡ ok raw
      → v.audience ≡ some wanted
      → audience_of token ≡ some auds
      → any (λ a. any (text_eq a) wanted) auds ≡ true

-- a token that is for this service, as far as its claims say
pub record IsMeant {Json Jwk DecodingKey : Type 0} {tokens : TokenOps Json DecodingKey}
    (checks : Checks tokens) (s : AuthService Jwk DecodingKey) (token : Text) : Type 0 where
  pub issuer :
      (wanted iss : Text)
      → s.issuer ≡ some wanted
      → checks.issuer_of token ≡ some iss
      → iss ≡ wanted
  pub audience :
      (auds : List Text)
      → s.audience ≢ []
      → checks.audience_of token ≡ some auds
      → any (λ a. any (text_eq a) s.audience) auds ≡ true

module _ {Json Jwk DecodingKey : Type 0} (json : JsonOps Json) (ops : JwkOps Jwk DecodingKey)
    (tokens : TokenOps Json DecodingKey) (checks : Checks tokens) (now later : ℕ)
    (s : AuthService Jwk DecodingKey) where
  wanted_audience :
      (l : List Text) → l ≢ [] → elim l [ [] ↦ none | ◌∷◌ a rest ↦ some (a ∷ rest) ] ≡ some l
  wanted_audience [] h = absurd (h refl)
  wanted_audience (a ∷ rest) h = refl

  Verifies-IsMeant :
      (token : Text) (c : VerifiedClaims)
      → Verifies json ops tokens now later s token c
      → IsMeant checks s token
  Verifies-IsMeant token c v = record {
    issuer = λ wanted iss e i. checks.issuer_checked token v.key _ v.raw wanted iss v.decoded e i;
    audience = λ auds e i.
        checks.audience_checked token v.key _ v.raw s.audience auds v.decoded
          (wanted_audience s.audience e) i;
  }

  -- Over an enabled service that fails closed, and for a governed target that is not public, a
  -- request that the guard lets through bears a token whose issuer, where the service has one and
  -- the token names one, is the service's, and whose audiences, where both name any, have one of the
  -- service's; if the token library keeps what it promises of the constraints it is given.
  pub guard_admits-IsMeant :
      (req : Request) (target : RouteTarget)
      → s.enabled ≡ true
      → s.fail_closed ≡ true
      → route_target req.path req.method ≡ some target
      → is_public s.policy target.resource ≡ false
      → (handle (enforce json ops tokens now later s req).0).rejection ≡ none
      → (token : Text) × (extract_bearer req ≡ some token) × IsMeant checks s token
  guard_admits-IsMeant req target on f t p h =
      let (entitled, through) = guard_admits_iff json ops tokens now later s req target on f t p in
      let (c, a) = through h in
      let (token, q, v, allowed) = (entitled c).0 a in (token, q, Verifies-IsMeant token c v)
