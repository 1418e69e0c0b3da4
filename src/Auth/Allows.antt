-- ===== src/Auth/Allows.antt =====
-- src/auth/policy.rs: `AuthPolicy::allows` on a policy that `AuthPolicy::build` made.
use mathlib.Core.List.{Memᴰ}
use zonemail.Prelude.{
  ℕ, ◌≤◌, ◌≡◌, ◌⊎◌, inl, inr, Text, true, any, any-Memᴰ, any_of_Memᴰ, List, map, Bool-cases, Map,
  to_ascii_lowercase, arith,
}
use zonemail.Config.{RoleConfig}
use zonemail.Auth.Policy.{
  Grant, matches, RouteTarget, grants_of, contains_text, build, is_public, allows, max_passes,
}
use zonemail.Auth.Closure.{Gives}
use zonemail.Auth.Closure.Sound.{grants-IsSound}
use zonemail.Auth.Closure.Complete.{grants-IsComplete}

module _ (roles : Map RoleConfig) (public caller : List Text) (target : RouteTarget) where
  -- A target that the built policy allows is public, or one of the caller's roles is given a grant
  -- that covers it by the configuration, directly or over steps of `extends`, names compared in
  -- ASCII lower case.
  pub allows→Gives :
      allows (build roles public) caller target ≡ true
      → (is_public (build roles public) target.resource ≡ true)
        ⊎ ((role : Text) × (g : Grant) × (n : ℕ) × Memᴰ role caller
            × Gives roles n (to_ascii_lowercase role) g
            × (matches g (to_ascii_lowercase target.resource) target.verb ≡ true))
  unfolding allows build is_public
  allows→Gives h =
      elim (Bool-cases
        (contains_text (map to_ascii_lowercase public) (to_ascii_lowercase target.resource))) [
          | inl e ↦ inl e
          | inr e ↦
              let (role, i, covered) = any-Memᴰ _ caller (rw e at h) in
              let (g, j, m) = any-Memᴰ _ _ covered in
              let (n, d) = grants-IsSound roles max_passes (to_ascii_lowercase role) j in
              inr (role, g, n, i, d, m)
        ]

  -- The built policy allows a target if one of the caller's roles is given a grant that covers it
  -- by at most 10,000 steps of `extends`.
  pub Gives→allows :
      (role : Text) (g : Grant) (n : ℕ)
      → n ≤ max_passes
      → Memᴰ role caller
      → Gives roles n (to_ascii_lowercase role) g
      → matches g (to_ascii_lowercase target.resource) target.verb ≡ true
      → allows (build roles public) caller target ≡ true
  unfolding allows build
  Gives→allows role g n h i d m =
      let j = grants-IsComplete roles max_passes n (to_ascii_lowercase role) g h d in
      let covered =
        any_of_Memᴰ (λ g. matches g (to_ascii_lowercase target.resource) target.verb) _ j m in
      let one =
        any_of_Memᴰ
          (λ role.
            any (λ g. matches g (to_ascii_lowercase target.resource) target.verb)
              (grants_of (build roles public).role_grants (to_ascii_lowercase role)))
          caller i covered in
      ground (arith, one)
