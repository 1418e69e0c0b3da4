-- ===== src/Auth/Examples/Tokens.antt =====
-- src/auth/mod.rs and src/auth/keys.rs: the theorems at one service, whose key set has one key and
-- whose tokens carry a list of texts as their claims.
use mathlib.Core.List.{Memᴰ}
use zonemail.Prelude.{
  any, update_entry, Option, Bool, Bool-cases, text_eq→≡, inl, inr, ℕ, ◌+◌, ◌≤◌, ◌≡◌, ◌↔◌, refl,
  Text, codes, text_eq, true, false, none, some, List, [], ◌∷◌, map, Result, ok, err, is_whitespace,
  lower, if◌then◌else◌,
}
use zonemail.Auth.Policy.{
  allows, close, parse_verb, parse_sides, parse_grant, matches, Verb, RouteTarget, build, is_public,
  route_target, resource_for_path, from_method,
}
use zonemail.Auth.Keys.{Algorithm, JwkOps, KeySet, remote, resolve, should_refetch, pick_key}
use zonemail.Auth.Service.{
  verify_token, extract_bearer, insert_text, VerifiedClaims, JsonOps, TokenOps, KeyMaterial,
  AuthService, Request, extract, walk, enforce, handle,
}
use zonemail.Auth.Resolve.{IsFresh, Explains, resolve-Explains, resolve_fetches}
use zonemail.Auth.Admission.{IsAdmitted, IsEntitled, guard_admits_iff}
use zonemail.Auth.Constraints.{Checks, IsMeant, guard_admits-IsMeant}
use zonemail.Auth.Roles.{IsRole, extract_roles}
use zonemail.Auth.Examples.{two_roles}

-- claims that are a list of texts, found under the name `role`
abbrev lists : JsonOps (List Text)
lists = record {
  as_str = λ v. elim v [ [] ↦ none | ◌∷◌ t rest ↦ elim rest [ [] ↦ some t | ◌∷◌ u us ↦ none ] ];
  as_array = λ v. some (map (λ t. t ∷ []) v);
  get = λ v name. if text_eq name (codes "role") then some v else none;
}

abbrev keys : JwkOps ℕ ℕ
keys = record {
  key_id = λ k. some (codes "k1");
  from_jwk = some;
  find_key = λ set kid. elim set [ [] ↦ none | ◌∷◌ k ks ↦ some k ];
}

abbrev tokens : TokenOps (List Text) ℕ
tokens = record {
  decode_header = λ t. ok (record { alg = Algorithm.hs256; kid = some (codes "k1") });
  decode = λ t k v. ok (codes "Reader" ∷ codes "guest" ∷ []);
}

abbrev fetching : KeySet ℕ
fetching = remote (λ n. ok (7 ∷ [])) 300

abbrev service : AuthService ℕ ℕ
service = record {
  enabled = true;
  issuer = none;
  audience = [];
  leeway = 30;
  algorithms = Algorithm.hs256 ∷ [];
  subject_claim = codes "sub";
  role_claims = codes "role" ∷ [];
  policy = build two_roles (codes "health" ∷ []);
  key_material = KeyMaterial.set fetching;
  fail_closed = true;
}

abbrev get_domains : Request
get_domains = record {
  path = codes "/domains/a.org";
  method = codes "GET";
  authorization = some (codes "Bearer abc");
}

abbrev read_domains : RouteTarget
read_domains = record { resource = codes "domains"; verb = Verb.read }

resolve-Explains_example :
    Explains keys (some (codes "k1")) 5 6 (resolve keys (some (codes "k1")) 5 6 fetching)
resolve-Explains_example = resolve-Explains keys (some (codes "k1")) 5 6 fetching

abbrev fetched_once : KeySet ℕ
fetched_once = (resolve keys (some (codes "k1")) 5 6 fetching).1

resolve_fetches_example :
    (fetched_once.fetches ≤ 0 + 1)
    × (IsFresh 5 fetching → fetched_once ≡ fetching)
    × (((fetch : ℕ → Result (List ℕ))
          → some (λ n. ok (7 ∷ [])) ≡ some fetch
          → (e : Text) × (fetch 0 ≡ err e))
        → fetched_once.cache ≡ none)
resolve_fetches_example = resolve_fetches keys (some (codes "k1")) 5 6 fetching

governed : route_target get_domains.path get_domains.method ≡ some read_domains
unfolding route_target resource_for_path from_method lower
governed = refl

not_public : is_public service.policy read_domains.resource ≡ false
unfolding is_public build lower
not_public = refl

guard_admits_iff_example :
    ((c : VerifiedClaims)
      → IsAdmitted lists keys tokens 5 6 service
          (handle (enforce lists keys tokens 5 6 service get_domains).0)
          c
        ↔ IsEntitled lists keys tokens 5 6 service get_domains read_domains c)
    × ((handle (enforce lists keys tokens 5 6 service get_domains).0).rejection ≡ none
        → (c : VerifiedClaims) × IsAdmitted lists keys tokens 5 6 service
            (handle (enforce lists keys tokens 5 6 service get_domains).0)
            c)
guard_admits_iff_example =
    guard_admits_iff lists keys tokens 5 6 service get_domains read_domains refl refl governed
      not_public

-- tokens whose text is their issuer, with a decoder that compares it
abbrev own_issuer : Option Text → Text → Bool
own_issuer none t = true
own_issuer (some w) t = text_eq t w

abbrev issued : TokenOps (List Text) ℕ
issued = record {
  decode_header = λ t. ok (record { alg = Algorithm.hs256; kid = some (codes "k1") });
  decode = λ t k v.
      if own_issuer v.issuer t
      then ok (codes "Reader" ∷ codes "guest" ∷ [])
      else err (codes "InvalidIssuer");
}

issued_by :
    (wanted : Option Text) (t : Text) (raw : List Text) (w iss : Text)
    → (if own_issuer wanted t
        then ok (codes "Reader" ∷ codes "guest" ∷ [])
        else err (codes "InvalidIssuer"))
      ≡ ok raw
    → wanted ≡ some w
    → some t ≡ some iss
    → iss ≡ w
issued_by none t raw w iss h e i = absurd (cc e)
issued_by (some x) t raw w iss h e i = elim (Bool-cases (text_eq t x)) [
  | inl same ↦ (let is : t ≡ x = text_eq→≡ t x same in cc (is, e, i))
  | inr other ↦ absurd (cc (other, h))
]

no_audience :
    (t : Text) (wanted auds : List Text)
    → none ≡ some auds
    → any (λ a. any (text_eq a) wanted) auds ≡ true
no_audience t wanted auds e = absurd (cc e)

abbrev checks : Checks issued
checks = record {
  issuer_of = λ t. some t;
  audience_of = λ t. none;
  issuer_checked = λ t k v raw w iss h e i. issued_by v.issuer t raw w iss h e i;
  audience_checked = λ t k v raw w auds h e i. no_audience t w auds i;
}

abbrev abc_service : AuthService ℕ ℕ
abc_service = record service { issuer = some (codes "abc") }

let_through : (handle (enforce lists keys issued 5 6 abc_service get_domains).0).rejection ≡ none
unfolding enforce verify_token handle allows build close resolve extract_bearer route_target
    resource_for_path from_method parse_verb parse_sides parse_grant matches is_public insert_text
    is_whitespace lower should_refetch pick_key update_entry
let_through = refl

guard_admits-IsMeant_example :
    (token : Text) × (some (codes "abc") ≡ some token) × IsMeant checks abc_service token
unfolding extract_bearer is_whitespace lower
guard_admits-IsMeant_example =
    guard_admits-IsMeant lists keys issued checks 5 6 abc_service get_domains read_domains refl refl
      governed not_public let_through

extract_roles_example :
    Memᴰ
      (codes "guest")
      (extract lists (codes "Reader" ∷ codes "guest" ∷ []) (codes "sub") (codes "role" ∷ [])).roles
    ↔ ((field : Text) × Memᴰ field (codes "role" ∷ [])
        × (v : List Text) × (walk lists (codes "Reader" ∷ codes "guest" ∷ []) field ≡ some v)
        × IsRole lists (codes "guest") v)
extract_roles_example =
    extract_roles lists (codes "guest") (codes "Reader" ∷ codes "guest" ∷ []) (codes "sub")
      (codes "role" ∷ [])
