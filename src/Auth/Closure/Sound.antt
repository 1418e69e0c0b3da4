-- ===== src/Auth/Closure/Sound.antt =====
-- src/auth/policy.rs: the grants that `AuthPolicy::build` stores, traced back to the configuration.
use mathlib.Core.List.{Memᴰ}
use zonemail.Prelude.{
  ℕ, zero, suc, ◌≡◌, refl, inl, inr, Text, Bool, false, some, List, [], ◌∷◌, ◌++◌, map, any, length,
  All, All-imp, ◌==◌, Bool-cases, Option-cases, Map, update_entry, All-update_entry, All-values,
  All_at, to_ascii_lowercase,
}
use zonemail.Config.{RoleConfig}
use zonemail.Auth.Policy.{
  Grant, grant_eq, parse_grant, insert_grant, insert_grants, insert_tokens, grants_of, merge, visit,
  pass, close, collect_direct, collect_extends,
}
use zonemail.Auth.Closure.{Gives}

module _ (P : Grant → Type 0) where
  All-insert_grant : (g : Grant) (gs : List Grant) → P g → All P gs → All P (insert_grant g gs)
  All-insert_grant g gs p h = elim (Bool-cases (any (grant_eq g) gs)) [
    | inl e ↦ rw e h
    | inr e ↦ rw e (p, h)
  ]

  All-insert_grants : (hs gs : List Grant) → All P hs → All P gs → All P (insert_grants hs gs)
  All-insert_grants [] gs p h = h
  All-insert_grants (g ∷ hs) gs p h =
      All-insert_grants hs (insert_grant g gs) p.1 (All-insert_grant g gs p.0 h)

  All-insert_tokens :
      (ts : List Text) (gs : List Grant)
      → ((t : Text) (g : Grant) → Memᴰ t ts → parse_grant t ≡ some g → P g)
      → All P gs
      → All P (insert_tokens ts gs)
  All-insert_tokens [] gs p h = h
  All-insert_tokens (t ∷ ts) gs p h =
      let later : (u : Text) (g : Grant) → Memᴰ u ts → parse_grant u ≡ some g → P g =
        λ u g m. p u g (Memᴰ.tail m) in
      elim (Option-cases (parse_grant t)) [
        | inl e ↦ rw e (All-insert_tokens ts gs later h)
        | inr (g, e) ↦ rw e (
            All-insert_tokens ts (insert_grant g gs) later
              (All-insert_grant g gs (p t g (Memᴰ.head refl) e) h))
      ]

All-append {ℓ} :
    {A : Type ℓ} (P : A → Type 0) (xs ys : List A) → All P xs → All P ys → All P (xs ++ ys)
All-append P [] ys h k = k
All-append P (x ∷ xs) ys h k = (h.0, All-append P xs ys h.1 k)

All-map_of_Memᴰ {ℓ κ} :
    {A : Type ℓ} {B : Type κ} (P : B → Type 0) (f : A → B) (xs : List A)
    → ((x : A) → Memᴰ x xs → P (f x))
    → All P (map f xs)
All-map_of_Memᴰ P f [] h = tt
All-map_of_Memᴰ P f (x ∷ xs) h =
    (h x (Memᴰ.head refl), All-map_of_Memᴰ P f xs (λ y m. h y (Memᴰ.tail m)))

module _ (roles : Map RoleConfig) where
  abbrev IsGiven : Text → Grant → Type 0
  IsGiven role g = (n : ℕ) × Gives roles n role g

  -- what the second role has, the first inherits
  abbrev Inherits : Text → Text → Type 0
  Inherits role dep = (n : ℕ) (g : Grant) → Gives roles n dep g → Gives roles (suc n) role g

  abbrev IsSound : Map (List Grant) → Type 0
  IsSound = All (λ e. All (IsGiven e.0) e.1)

  abbrev IsLinked : Map (List Text) → Type 0
  IsLinked = All (λ e. All (Inherits e.0) e.1)

  collect_direct-IsSound :
      (es : Map RoleConfig) (m : Map (List Grant))
      → ((e : Text × RoleConfig) → Memᴰ e es → Memᴰ e roles)
      → IsSound m
      → IsSound (collect_direct es m)
  collect_direct-IsSound [] m within h = h
  collect_direct-IsSound (e ∷ es) m within h =
      let key = to_ascii_lowercase e.0 in
      let here : (t : Text) (g : Grant)
          → Memᴰ t e.1.grants
          → parse_grant t ≡ some g
          → IsGiven key g =
        λ t g i p. (0, Gives.direct (within e (Memᴰ.head refl)) refl i p) in
      collect_direct-IsSound es (update_entry key [] (insert_tokens e.1.grants) m)
        (λ x i. within x (Memᴰ.tail i))
        (All-update_entry (λ e. All (IsGiven e.0) e.1) key [] (insert_tokens e.1.grants) m
          (All-insert_tokens (IsGiven key) e.1.grants [] here tt)
          (λ v k. All-insert_tokens (IsGiven key) e.1.grants v here k) h)

  collect_extends-IsLinked :
      (es : Map RoleConfig) (m : Map (List Text))
      → ((e : Text × RoleConfig) → Memᴰ e es → Memᴰ e roles)
      → IsLinked m
      → IsLinked (collect_extends es m)
  collect_extends-IsLinked [] m within h = h
  collect_extends-IsLinked (e ∷ es) m within h =
      let key = to_ascii_lowercase e.0 in
      let deps = map to_ascii_lowercase e.1.extends in
      let here : All (Inherits key) deps =
        All-map_of_Memᴰ (Inherits key) to_ascii_lowercase e.1.extends
          (λ d i n g k. Gives.inherited (within e (Memᴰ.head refl)) refl i k) in
      collect_extends-IsLinked es (update_entry key [] (λ l. l ++ deps) m)
        (λ x i. within x (Memᴰ.tail i))
        (All-update_entry (λ e. All (Inherits e.0) e.1) key [] (λ l. l ++ deps) m here
          (λ v k. All-append (Inherits key) v deps k here) h)

  merge-IsSound :
      (m : Map (List Grant)) (role : Text) (deps : List Text) (gs : List Grant)
      → IsSound m
      → All (Inherits role) deps
      → All (IsGiven role) gs
      → All (IsGiven role) (merge m deps gs)
  merge-IsSound m role [] gs s l h = h
  merge-IsSound m role (d ∷ ds) gs s l h =
      let got = All-values IsGiven m d s in
      let passed =
        All-imp (IsGiven d) (IsGiven role) (grants_of m d) (λ g k. (suc k.0, l.0 k.0 g k.1)) got in
      merge-IsSound m role ds (insert_grants (grants_of m d) gs) s l.1
        (All-insert_grants (IsGiven role) (grants_of m d) gs passed h)

  visit-IsSound :
      (snapshot : Map (List Grant)) (role : Text) (deps : List Text)
      (state : Map (List Grant) × Bool)
      → IsSound snapshot
      → All (Inherits role) deps
      → IsSound state.0
      → IsSound (visit snapshot role deps state).0
  visit-IsSound snapshot role deps state s l h =
      let had = grants_of snapshot role in
      let merged = merge snapshot deps had in
      let got = merge-IsSound snapshot role deps had s l (All-values IsGiven snapshot role s) in
      elim (Bool-cases (length merged == length had)) [
        | inl e ↦ rw e h
        | inr e ↦ rw e (
            All-update_entry (λ e. All (IsGiven e.0) e.1) role [] (insert_grants merged) state.0
              (All-insert_grants (IsGiven role) merged [] got tt)
              (λ v k. All-insert_grants (IsGiven role) merged v got k) h)
      ]

  pass-IsSound :
      (snapshot : Map (List Grant)) (es : Map (List Text)) (state : Map (List Grant) × Bool)
      → IsSound snapshot
      → IsLinked es
      → IsSound state.0
      → IsSound (pass snapshot es state).0
  pass-IsSound snapshot [] state s l h = h
  pass-IsSound snapshot (e ∷ es) state s l h =
      pass-IsSound snapshot es (visit snapshot e.0 e.1 state) s l.1
        (visit-IsSound snapshot e.0 e.1 state s l.0 h)

  close-IsSound :
      (n : ℕ) (extends : Map (List Text)) (m : Map (List Grant))
      → IsLinked extends
      → IsSound m
      → IsSound (close n extends m)
  unfolding close
  close-IsSound zero extends m l h = h
  close-IsSound (suc n) extends m l h =
      let next = pass-IsSound m extends (m, false) h l h in
      elim (Bool-cases (pass m extends (m, false)).1) [
        | inl e ↦ rw (e, close) (close-IsSound n extends (pass m extends (m, false)).0 l next)
        | inr e ↦ rw (e, close) next
      ]

  -- whatever the bound on the passes
  pub grants-IsSound :
      (n : ℕ) (role : Text) {g : Grant}
      → Memᴰ g (grants_of (close n (collect_extends roles []) (collect_direct roles [])) role)
      → (k : ℕ) × Gives roles k role g
  grants-IsSound n role i =
      All_at (IsGiven role) _
        (All-values IsGiven _ role (
          close-IsSound n (collect_extends roles []) (collect_direct roles [])
            (collect_extends-IsLinked roles [] (λ e i. i) tt)
            (collect_direct-IsSound roles [] (λ e i. i) tt)))
        i
