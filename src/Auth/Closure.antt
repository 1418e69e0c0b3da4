-- ===== src/Auth/Closure.antt =====
-- src/auth/policy.rs: an account of inheritance over `extends`, and the sets of grants in a pass of
-- `AuthPolicy::build`.
pub mod Sound
pub mod Complete
use mathlib.Core.List.{Memᴰ}
use mathlib.Core.Path.{subst}
use zonemail.Prelude.{
  ℕ, suc, ◌+◌, ◌≤◌, ◌≡◌, refl, sym, ◌∙◌, inl, inr, Text, text_eq_refl, text_eq→≡, Bool, true, false,
  List, [], ◌∷◌, ◌&&◌, any, any-Memᴰ, length, All, Option, none, some, Bool-cases, Map, arith,
  to_ascii_lowercase,
}
use zonemail.Config.{RoleConfig}
use zonemail.Auth.Policy.{
  Verb, verb_eq, Grant, grant_eq, parse_grant, insert_grant, insert_grants, grants_of, merge,
}

-- `Gives roles n role g`: the configuration gives the role the grant `g` by `n` steps of `extends`.
pub data Gives (roles : Map RoleConfig) : ℕ → Text → Grant → Type 0 where
  direct :
      {role name token : Text} {cfg : RoleConfig} {g : Grant}
      → Memᴰ (name, cfg) roles
      → role ≡ to_ascii_lowercase name
      → Memᴰ token cfg.grants
      → parse_grant token ≡ some g
      → Gives roles 0 role g
  inherited :
      {n : ℕ} {role name dep : Text} {cfg : RoleConfig} {g : Grant}
      → Memᴰ (name, cfg) roles
      → role ≡ to_ascii_lowercase name
      → Memᴰ dep cfg.extends
      → Gives roles n (to_ascii_lowercase dep) g
      → Gives roles (suc n) role g

verb_eq→≡ : (v w : Verb) → verb_eq v w ≡ true → v ≡ w
verb_eq→≡ Verb.read _ h = ground arith
verb_eq→≡ Verb.write _ h = ground arith
verb_eq→≡ Verb.delete _ h = ground arith

pub grant_eq→≡ : (g h : Grant) → grant_eq g h ≡ true → g ≡ h
grant_eq→≡ Grant.all h e = ground arith
grant_eq→≡ (Grant.any_verb r) (Grant.any_verb s) e = ground (arith, text_eq→≡ r s)
grant_eq→≡ (Grant.any_resource v) (Grant.any_resource w) e = ground (arith, verb_eq→≡ v w)
grant_eq→≡ (Grant.exact r v) (Grant.exact s w) e = ground (arith, text_eq→≡ r s, verb_eq→≡ v w)
grant_eq→≡ _ _ e = ground arith

pub insert_grant_keeps :
    {x : Grant} (g : Grant) (gs : List Grant) → Memᴰ x gs → Memᴰ x (insert_grant g gs)
insert_grant_keeps g gs m = elim (Bool-cases (any (grant_eq g) gs)) [
  | inl e ↦ rw e m
  | inr e ↦ rw e (Memᴰ.tail m)
]

pub insert_grant_has : (g : Grant) (gs : List Grant) → Memᴰ g (insert_grant g gs)
insert_grant_has g gs = elim (Bool-cases (any (grant_eq g) gs)) [
  | inl e ↦
      let (y, m, q) = any-Memᴰ (grant_eq g) gs e in
      rw e (subst (λ z. Memᴰ z gs) (sym (grant_eq→≡ g y q)) m)
  | inr e ↦ rw e (Memᴰ.head refl)
]

pub insert_grants_keeps :
    {x : Grant} (hs gs : List Grant) → Memᴰ x gs → Memᴰ x (insert_grants hs gs)
insert_grants_keeps [] gs m = m
insert_grants_keeps (h ∷ hs) gs m =
    insert_grants_keeps hs (insert_grant h gs) (insert_grant_keeps h gs m)

pub insert_grants_has : {x : Grant} (hs gs : List Grant) → Memᴰ x hs → Memᴰ x (insert_grants hs gs)
insert_grants_has [] gs m = elim m [ ]
insert_grants_has {x} (h ∷ hs) gs (Memᴰ.head e) =
    insert_grants_keeps hs (insert_grant h gs)
      (subst (λ z. Memᴰ z (insert_grant h gs)) (sym e) (insert_grant_has h gs))
insert_grants_has (h ∷ hs) gs (Memᴰ.tail m) = insert_grants_has hs (insert_grant h gs) m

-- A set that did not grow is the set that it was.
insert_grants_grows : (hs gs : List Grant) → length gs ≤ length (insert_grants hs gs)
insert_grants_grows [] gs = omega arith
insert_grants_grows (h ∷ hs) gs = elim (Bool-cases (any (grant_eq h) gs)) [
  | inl e ↦ rw e (insert_grants_grows hs gs)
  | inr e ↦ rw e (omega (arith, insert_grants_grows hs (h ∷ gs)))
]

insert_grants_full :
    (hs gs : List Grant) → length (insert_grants hs gs) ≡ length gs → insert_grants hs gs ≡ gs
insert_grants_full [] gs e = refl
insert_grants_full (h ∷ hs) gs q = elim (Bool-cases (any (grant_eq h) gs)) [
  | inl e ↦ rw e (insert_grants_full hs gs (rw e at q))
  | inr e ↦ absurd (omega (arith, insert_grants_grows hs (h ∷ gs), (rw e at q)))
]

merge_grows :
    (m : Map (List Grant)) (deps : List Text) (gs : List Grant)
    → length gs ≤ length (merge m deps gs)
merge_grows m [] gs = omega arith
merge_grows m (d ∷ ds) gs = omega (
  arith,
  merge_grows m ds (insert_grants (grants_of m d) gs),
  insert_grants_grows (grants_of m d) gs,
)

pub merge_full :
    (m : Map (List Grant)) (deps : List Text) (gs : List Grant)
    → length (merge m deps gs) ≡ length gs
    → merge m deps gs ≡ gs
merge_full m [] gs e = refl
merge_full m (d ∷ ds) gs q =
    let step = insert_grants (grants_of m d) gs in
    let same : length step ≡ length gs =
      omega (arith, q, merge_grows m ds step, insert_grants_grows (grants_of m d) gs) in
    let kept = insert_grants_full (grants_of m d) gs same in
    merge_full m ds step (q ∙ sym same) ∙ kept

pub merge_keeps :
    {x : Grant} (m : Map (List Grant)) (deps : List Text) (gs : List Grant)
    → Memᴰ x gs
    → Memᴰ x (merge m deps gs)
merge_keeps m [] gs h = h
merge_keeps m (d ∷ ds) gs h =
    merge_keeps m ds (insert_grants (grants_of m d) gs) (insert_grants_keeps (grants_of m d) gs h)

pub merge_has :
    {x : Grant} {d : Text} (m : Map (List Grant)) (deps : List Text) (gs : List Grant)
    → Memᴰ d deps
    → Memᴰ x (grants_of m d)
    → Memᴰ x (merge m deps gs)
merge_has m [] gs i h = elim i [ ]
merge_has {x} m (d ∷ ds) gs (Memᴰ.head e) h =
    merge_keeps m ds (insert_grants (grants_of m d) gs)
      (insert_grants_has (grants_of m d) gs (subst (λ t. Memᴰ x (grants_of m t)) e h))
merge_has m (d ∷ ds) gs (Memᴰ.tail i) h = merge_has m ds (insert_grants (grants_of m d) gs) i h
