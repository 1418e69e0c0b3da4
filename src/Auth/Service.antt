-- ===== src/Auth/Service.antt =====
-- src/auth/mod.rs and src/auth/guard.rs: the claims of a token, the decision on a request, and the
-- guard. The parameters are `serde_json`'s values, `jsonwebtoken`'s parsing and verification, and
-- the keys.
use zonemail.Prelude.{
  ℕ, ◌==◌, ltb, Text, text_eq, codes, trim, split, split_whitespace, to_ascii_lowercase, Bool, true,
  false, not, any, Option, none, some, List, [], ◌∷◌, Result, ok, err, if◌then◌else◌,
}
use zonemail.Auth.Policy.{RouteTarget, AuthPolicy, route_target, is_public, allows}
use zonemail.Auth.Keys.{
  Algorithm, Header, algorithm_disallowed, source_unavailable, verify, Checked, passed, refused,
  JwkOps, KeySet, resolve,
}

-- `VerifiedClaims`
pub record VerifiedClaims : Type 0 where
  pub subject : Option Text
  pub roles : List Text

-- `Decision`
pub data Decision : Type 0 where
  continue : Option VerifiedClaims → Decision
  unauthenticated forbidden : Text → Decision

-- `serde_json`'s `as_str`, `as_array` and `get` with a name
pub record JsonOps (Json : Type 0) : Type 0 where
  pub as_str : Json → Option Text
  pub as_array : Json → Option (List Json)
  pub get : Json → Text → Option Json

-- `Validation`, as `verify` fills it
pub record Validation : Type 0 where
  pub algorithms : List Algorithm
  pub leeway : ℕ
  pub issuer : Option Text
  pub audience : Option (List Text)

-- `decode_header` and `decode`, each with the text of its error
pub record TokenOps (Json DecodingKey : Type 0) : Type 0 where
  pub decode_header : Text → Result Header
  pub decode : Text → DecodingKey → Validation → Result Json

-- `KeyMaterial`
pub data KeyMaterial (Jwk DecodingKey : Type 0) : Type 0 where
  secret : DecodingKey → KeyMaterial Jwk DecodingKey
  set : KeySet Jwk → KeyMaterial Jwk DecodingKey

-- `AuthService`
pub record AuthService (Jwk DecodingKey : Type 0) : Type 0 where
  pub enabled : Bool
  pub issuer : Option Text
  pub audience : List Text
  pub leeway : ℕ
  pub algorithms : List Algorithm
  pub subject_claim : Text
  pub role_claims : List Text
  pub policy : AuthPolicy
  pub key_material : KeyMaterial Jwk DecodingKey
  pub fail_closed : Bool

-- what is read of `salvo`'s `Request`; `authorization` is the header's value, if it is a text
pub record Request : Type 0 where
  pub path : Text
  pub method : Text
  pub authorization : Option Text

-- the derived order of `String`, and insertion into a `BTreeSet<String>`, as its sorted elements
abbrev pub text_ltb : Text → Text → Bool
text_ltb [] [] = false
text_ltb [] (d ∷ ds) = true
text_ltb (c ∷ cs) [] = false
text_ltb (c ∷ cs) (d ∷ ds) =
    let rest = text_ltb cs ds in if ltb c d then true else if c == d then rest else false

unfoldable pub insert_text : Text → List Text → List Text
insert_text t [] = t ∷ []
insert_text t (u ∷ us) =
    let rest = insert_text t us in
    if text_eq t u then u ∷ us else if text_ltb t u then t ∷ u ∷ us else u ∷ rest

module _ {Json : Type 0} (json : JsonOps Json) where
  -- `walk`, from the parts of the path
  abbrev pub walk_parts : Option Json → List Text → Option Json
  walk_parts none parts = none
  walk_parts (some v) [] = some v
  walk_parts (some v) (part ∷ parts) = walk_parts (json.get v part) parts

  -- `walk`
  abbrev pub walk : Json → Text → Option Json
  walk root path = walk_parts (some root) (split (λ c. c == b'.') path)

  -- `field_str`
  abbrev pub field_str : Json → Text → Option Text
  field_str value path = elim (walk value path) [ none ↦ none | some v ↦ json.as_str v ]

  abbrev pub insert_str : Option Text → List Text → List Text
  insert_str none out = out
  insert_str (some t) out = insert_text t out

  abbrev pub insert_items : List Json → List Text → List Text
  insert_items [] out = out
  insert_items (item ∷ items) out = insert_items items (insert_str (json.as_str item) out)

  abbrev pub insert_array : Option (List Json) → List Text → List Text
  insert_array none out = out
  insert_array (some items) out = insert_items items out

  abbrev pub insert_value : Option Json → List Text → List Text
  insert_value none out = out
  insert_value (some v) out = insert_array (json.as_array v) (insert_str (json.as_str v) out)

  -- `collect_roles`
  abbrev pub collect_roles : Json → Text → List Text → List Text
  collect_roles value path out = insert_value (walk value path) out

  -- the loop of `extract`
  abbrev pub collect_fields : Json → List Text → List Text → List Text
  collect_fields raw [] roles = roles
  collect_fields raw (field ∷ fields) roles =
      collect_fields raw fields (collect_roles raw field roles)

  -- `VerifiedClaims::extract`
  abbrev pub extract : Json → Text → List Text → VerifiedClaims
  extract raw subject_claim role_claims = record {
    subject = field_str raw subject_claim;
    roles = collect_fields raw role_claims [];
  }

-- `==` of algorithms, and the number of each
abbrev pub alg_code : Algorithm → ℕ
alg_code Algorithm.hs256 = 0
alg_code Algorithm.hs384 = 1
alg_code Algorithm.hs512 = 2
alg_code Algorithm.es256 = 3
alg_code Algorithm.es384 = 4
alg_code Algorithm.rs256 = 5
alg_code Algorithm.rs384 = 6
alg_code Algorithm.rs512 = 7
alg_code Algorithm.ps256 = 8
alg_code Algorithm.ps384 = 9
alg_code Algorithm.ps512 = 10
alg_code Algorithm.eddsa = 11

abbrev pub alg_allowed : Algorithm → List Algorithm → Bool
alg_allowed a algs = any (λ b. alg_code b == alg_code a) algs

abbrev bearer_token : List Text → Option Text
bearer_token (scheme ∷ token ∷ []) =
    if text_eq (to_ascii_lowercase scheme) (codes "bearer") then some token else none
bearer_token _ = none

-- `extract_bearer`
unfoldable pub extract_bearer : Request → Option Text
extract_bearer req = elim req.authorization [
  | none ↦ none
  | some value ↦ bearer_token (split_whitespace (trim value))
]

module _ {Json Jwk DecodingKey : Type 0} (json : JsonOps Json) (ops : JwkOps Jwk DecodingKey)
    (tokens : TokenOps Json DecodingKey) (now later : ℕ) where
  -- the key of `verify`, with the key material after it
  abbrev pub key_for :
      KeyMaterial Jwk DecodingKey → Header → Checked DecodingKey × KeyMaterial Jwk DecodingKey
  key_for (KeyMaterial.secret k) header = (passed k, KeyMaterial.secret k)
  key_for (KeyMaterial.set ks) header =
      let out = resolve ops header.kid now later ks in (out.0, KeyMaterial.set out.1)

  -- the constraints of `verify`
  abbrev pub validation : AuthService Jwk DecodingKey → Validation
  validation s = record {
    algorithms = s.algorithms;
    leeway = s.leeway;
    issuer = s.issuer;
    audience = elim s.audience [ [] ↦ none | ◌∷◌ a rest ↦ some (a ∷ rest) ];
  }

  abbrev pub claims_of : AuthService Jwk DecodingKey → Result Json → Checked VerifiedClaims
  claims_of s (err e) = refused (verify e)
  claims_of s (ok raw) = passed (extract json raw s.subject_claim s.role_claims)

  abbrev pub decode_with :
      AuthService Jwk DecodingKey → Text → Checked DecodingKey → Checked VerifiedClaims
  decode_with s token (refused e) = refused e
  decode_with s token (passed key) = claims_of s (tokens.decode token key (validation s))

  abbrev pub verify_header :
      AuthService Jwk DecodingKey
      → Text
      → Result Header
      → Checked VerifiedClaims × KeyMaterial Jwk DecodingKey
  verify_header s token (err e) = (refused (verify e), s.key_material)
  verify_header s token (ok header) =
      if alg_allowed header.alg s.algorithms
      then (let out = key_for s.key_material header in (decode_with s token out.0, out.1))
      else (refused (algorithm_disallowed header.alg), s.key_material)

  -- `AuthService::verify`, with the key material after it
  unfoldable pub verify_token :
      AuthService Jwk DecodingKey → Text → Checked VerifiedClaims × KeyMaterial Jwk DecodingKey
  verify_token s token = verify_header s token (tokens.decode_header token)

  -- `AuthService::authorize`
  abbrev pub authorize : AuthService Jwk DecodingKey → List Text → RouteTarget → Bool
  authorize s roles target = allows s.policy roles target

  -- the decision of `enforce` on the outcome of `verify`
  abbrev pub decide : AuthService Jwk DecodingKey → RouteTarget → Checked VerifiedClaims → Decision
  decide s target (passed claims) =
      if allows s.policy claims.roles target
      then Decision.continue (some claims)
      else Decision.forbidden (codes "authenticated roles do not permit this route")
  decide s target (refused source_unavailable) =
      if s.fail_closed
      then Decision.unauthenticated (codes "verification key source is unavailable")
      else Decision.continue none
  decide s target (refused _) = Decision.unauthenticated (codes "invalid or expired token")

  abbrev pub with_keys :
      AuthService Jwk DecodingKey → KeyMaterial Jwk DecodingKey → AuthService Jwk DecodingKey
  with_keys s k = record s { key_material = k }

  abbrev pub enforce_token :
      AuthService Jwk DecodingKey
      → RouteTarget
      → Option Text
      → Decision × AuthService Jwk DecodingKey
  enforce_token s target none =
      (Decision.unauthenticated (codes "missing bearer token on `Authorization`"), s)
  enforce_token s target (some token) =
      let out = verify_token s token in (decide s target out.0, with_keys s out.1)

  abbrev pub enforce_target :
      AuthService Jwk DecodingKey
      → Request
      → Option RouteTarget
      → Decision × AuthService Jwk DecodingKey
  enforce_target s req none = (Decision.continue none, s)
  enforce_target s req (some target) =
      if is_public s.policy target.resource
      then (Decision.continue none, s)
      else enforce_token s target (extract_bearer req)

  -- `AuthService::enforce`
  unfoldable pub enforce :
      AuthService Jwk DecodingKey → Request → Decision × AuthService Jwk DecodingKey
  enforce s req =
      if not s.enabled
      then (Decision.continue none, s)
      else enforce_target s req (route_target req.path req.method)

-- What the guard does to the request: the claims that it hands on, and the status and the detail of
-- the rejection that ends it.
pub record Guarded : Type 0 where
  pub injected : Option VerifiedClaims
  pub rejection : Option (ℕ × Text)

-- `AuthGuard::handle`, on the decision
unfoldable pub handle : Decision → Guarded
handle (Decision.continue claims) = record { injected = claims; rejection = none }
handle (Decision.unauthenticated detail) = record {
  injected = none;
  rejection = some (401, detail);
}
handle (Decision.forbidden detail) = record { injected = none; rejection = some (403, detail) }
