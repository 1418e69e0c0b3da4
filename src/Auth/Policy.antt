-- ===== src/Auth/Policy.antt =====
-- src/auth/policy.rs: verbs, grants, the resource of a path, and `AuthPolicy`. A hash set is the list
-- of its elements, a hash map the list of its entries, in any order.
use zonemail.Prelude.{
  ℕ, zero, suc, ◌==◌, Text, codes, text_eq, is_empty, trim, trim_start_matches, split, before,
  after?, to_ascii_lowercase, Bool, true, false, ◌&&◌, ◌||◌, Option, none, some, List, [], ◌∷◌,
  ◌++◌, map, any, length, Map, get, update_entry, or_default, if◌then◌else◌,
}
use zonemail.Config.{RoleConfig}

-- `Verb`
pub data Verb : Type 0 where
  read write delete : Verb

-- `Verb`'s derived `PartialEq`
abbrev pub verb_eq : Verb → Verb → Bool
verb_eq Verb.read Verb.read = true
verb_eq Verb.write Verb.write = true
verb_eq Verb.delete Verb.delete = true
verb_eq _ _ = false

-- `Verb::from_method`, from the method's text
unfoldable pub from_method : Text → Verb
from_method m =
    if text_eq m (codes "GET") || text_eq m (codes "HEAD") || text_eq m (codes "OPTIONS")
    then Verb.read
    else if text_eq m (codes "DELETE")
    then Verb.delete
    else Verb.write

abbrev one_of : List Text → Text → Bool
one_of names t = any (text_eq t) names

-- `Verb::parse`
unfoldable pub parse_verb : Text → Option Verb
parse_verb token =
    let t = to_ascii_lowercase (trim token) in
    if one_of (codes "read" ∷ codes "get" ∷ codes "r" ∷ []) t
    then some Verb.read
    else if one_of (codes "write" ∷ codes "post" ∷ codes "put" ∷ codes "patch" ∷ codes "w" ∷ []) t
    then some Verb.write
    else if one_of (codes "delete" ∷ codes "del" ∷ codes "d" ∷ []) t
    then some Verb.delete
    else none

-- `Grant`
pub data Grant : Type 0 where
  all : Grant
  any_verb : Text → Grant
  any_resource : Verb → Grant
  exact : Text → Verb → Grant

-- `Grant`'s derived `PartialEq`
abbrev pub grant_eq : Grant → Grant → Bool
grant_eq Grant.all Grant.all = true
grant_eq (Grant.any_verb r) (Grant.any_verb s) = text_eq r s
grant_eq (Grant.any_resource v) (Grant.any_resource w) = verb_eq v w
grant_eq (Grant.exact r v) (Grant.exact s w) = text_eq r s && verb_eq v w
grant_eq _ _ = false

abbrev map_verb : (Verb → Grant) → Option Verb → Option Grant
map_verb f none = none
map_verb f (some v) = some (f v)

-- `Grant::parse` from the sides of the first colon on
unfoldable pub parse_sides : Text → Text → Option Grant
parse_sides lhs rhs =
    if text_eq rhs (codes "*") || is_empty rhs
    then some
        (if text_eq lhs (codes "*") then Grant.all else Grant.any_verb (to_ascii_lowercase lhs))
    else if text_eq lhs (codes "*")
    then map_verb Grant.any_resource (parse_verb rhs)
    else map_verb (Grant.exact (to_ascii_lowercase lhs)) (parse_verb rhs)

-- `Grant::parse`
unfoldable pub parse_grant : Text → Option Grant
unfolding parse_sides
parse_grant token =
    let raw = trim token in
    if text_eq raw (codes "*")
      || text_eq raw (codes "*:*")
      || text_eq (to_ascii_lowercase raw) (codes "all")
    then some Grant.all
    else elim (after? (λ c. c == b':') raw) [
      | none ↦ some (Grant.any_verb raw)
      | some r ↦ parse_sides (trim (before (λ c. c == b':') raw)) (trim r)
    ]

-- `Grant::matches`
unfoldable pub matches : Grant → Text → Verb → Bool
matches Grant.all resource verb = true
matches (Grant.any_verb r) resource verb = text_eq r resource
matches (Grant.any_resource v) resource verb = verb_eq v verb
matches (Grant.exact r v) resource verb = text_eq r resource && verb_eq v verb

-- `RouteTarget`
pub record RouteTarget : Type 0 where
  pub resource : Text
  pub verb : Verb

abbrev first_part : List Text → Text
first_part [] = []
first_part (part ∷ parts) = part

-- `resource_for_path`
unfoldable pub resource_for_path : Text → Option Text
resource_for_path path =
    let seg = first_part (split (λ c. c == b'/') (trim_start_matches (λ c. c == b'/') path)) in
    if is_empty seg then none else some (to_ascii_lowercase seg)

-- `route_target`
unfoldable pub route_target : Text → Text → Option RouteTarget
route_target path method = elim (resource_for_path path) [
  | none ↦ none
  | some resource ↦ some (record { resource = resource; verb = from_method method })
]

-- `AuthPolicy`
pub record AuthPolicy : Type 0 where
  pub role_grants : Map (List Grant)
  pub public : List Text

-- `HashSet::insert`
abbrev pub insert_grant : Grant → List Grant → List Grant
insert_grant g gs = if any (grant_eq g) gs then gs else g ∷ gs

-- `HashSet::extend`
abbrev pub insert_grants : List Grant → List Grant → List Grant
insert_grants [] gs = gs
insert_grants (g ∷ rest) gs = insert_grants rest (insert_grant g gs)

abbrev pub insert_parsed : Option Grant → List Grant → List Grant
insert_parsed none gs = gs
insert_parsed (some g) gs = insert_grant g gs

-- the direct grants of a role, from its tokens
abbrev pub insert_tokens : List Text → List Grant → List Grant
insert_tokens [] gs = gs
insert_tokens (t ∷ ts) gs = insert_tokens ts (insert_parsed (parse_grant t) gs)

-- the first loop of `build`, for `direct` and for `extends`
abbrev pub collect_direct : Map RoleConfig → Map (List Grant) → Map (List Grant)
collect_direct [] direct = direct
collect_direct (e ∷ es) direct =
    collect_direct es (update_entry (to_ascii_lowercase e.0) [] (insert_tokens e.1.grants) direct)

abbrev pub collect_extends : Map RoleConfig → Map (List Text) → Map (List Text)
collect_extends [] extends = extends
collect_extends (e ∷ es) extends = collect_extends es (
    update_entry (to_ascii_lowercase e.0) [] (λ deps. deps ++ map to_ascii_lowercase e.1.extends)
      extends)

-- the grants of a role, empty where it has no entry
abbrev pub grants_of : Map (List Grant) → Text → List Grant
grants_of m role = or_default (get m role) []

-- the innermost loop of `build`
abbrev pub merge : Map (List Grant) → List Text → List Grant → List Grant
merge snapshot [] merged = merged
merge snapshot (dep ∷ deps) merged =
    merge snapshot deps (insert_grants (grants_of snapshot dep) merged)

-- one entry of `extends` in a pass: `effective` and `changed`
abbrev pub visit :
    Map (List Grant) → Text → List Text → Map (List Grant) × Bool → Map (List Grant) × Bool
visit snapshot role deps state =
    let merged = merge snapshot deps (grants_of snapshot role) in
    if length merged == length (grants_of snapshot role)
    then state
    else (update_entry role [] (insert_grants merged) state.0, true)

-- the loop over `extends`
abbrev pub pass :
    Map (List Grant) → Map (List Text) → Map (List Grant) × Bool → Map (List Grant) × Bool
pass snapshot [] state = state
pass snapshot (e ∷ es) state = pass snapshot es (visit snapshot e.0 e.1 state)

-- the loop to the fixed point, of at most `guard` passes
unfoldable pub close : ℕ → Map (List Text) → Map (List Grant) → Map (List Grant)
close zero extends effective = effective
close (suc guard) extends effective =
    let state = pass effective extends (effective, false) in
    elim state.1 [ true ↦ close guard extends state.0 | false ↦ state.0 ]

-- the bound of the loop
abbrev pub max_passes : ℕ
max_passes = 10000

-- `AuthPolicy::build`
unfoldable pub build : Map RoleConfig → List Text → AuthPolicy
build roles public = record {
  role_grants = close max_passes (collect_extends roles []) (collect_direct roles []);
  public = map to_ascii_lowercase public;
}

-- `HashSet::contains`
abbrev pub contains_text : List Text → Text → Bool
contains_text names t = any (text_eq t) names

-- `AuthPolicy::is_public`
unfoldable pub is_public : AuthPolicy → Text → Bool
is_public policy resource = contains_text policy.public (to_ascii_lowercase resource)

-- `AuthPolicy::allows`
unfoldable pub allows : AuthPolicy → List Text → RouteTarget → Bool
allows policy roles target =
    let resource = to_ascii_lowercase target.resource in
    contains_text policy.public resource
    || any
        (λ role.
          any (λ g. matches g resource target.verb)
            (grants_of policy.role_grants (to_ascii_lowercase role)))
        roles
