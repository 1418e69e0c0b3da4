-- ===== src/Auth/Examples.antt =====
-- src/auth: the theorems at one configuration, with a role that inherits another's grant.
mod Tokens
use mathlib.Core.List.{Memᴰ}
use zonemail.Prelude.{
  ◌≡◌, refl, ◌⊎◌, ℕ, Text, codes, List, [], ◌∷◌, true, Map, update_entry, lower, is_whitespace,
  to_ascii_lowercase, arith,
}
use zonemail.Config.{RoleConfig}
use zonemail.Auth.Policy.{
  Verb, Grant, parse_grant, matches, RouteTarget, parse_verb, close, build, is_public, allows,
}
use zonemail.Auth.Closure.{Gives}
use zonemail.Auth.Allows.{allows→Gives, Gives→allows}

abbrev pub two_roles : Map RoleConfig
two_roles =
    (codes "Reader", record { grants = codes "domains:read" ∷ []; extends = [] })
    ∷ (codes "admin", record { grants = codes "mail:*" ∷ []; extends = codes "reader" ∷ [] })
    ∷ []

abbrev read_domains : RouteTarget
read_domains = record { resource = codes "domains"; verb = Verb.read }

abbrev an_admin : List Text
an_admin = codes "Admin" ∷ []

admin_allowed : allows (build two_roles []) an_admin read_domains ≡ true
unfolding allows build close update_entry lower parse_grant is_whitespace parse_verb matches
admin_allowed = refl

admin_given : Gives two_roles 1 (codes "admin") (Grant.exact (codes "domains") Verb.read)
unfolding parse_grant is_whitespace lower parse_verb
admin_given =
    Gives.inherited {dep = codes "reader"} (Memᴰ.tail (Memᴰ.head refl)) refl (Memᴰ.head refl)
      (Gives.direct {token = codes "domains:read"} (Memᴰ.head refl) refl (Memᴰ.head refl) refl)

covers_domains :
    matches (Grant.exact (codes "domains") Verb.read) (codes "domains") Verb.read ≡ true
unfolding matches
covers_domains = refl

allows→Gives_example :
    (is_public (build two_roles []) (codes "domains") ≡ true)
    ⊎ ((role : Text) × (g : Grant) × (n : ℕ) × Memᴰ role an_admin
        × Gives two_roles n (to_ascii_lowercase role) g
        × (matches g (to_ascii_lowercase (codes "domains")) Verb.read ≡ true))
allows→Gives_example = allows→Gives two_roles [] an_admin read_domains admin_allowed

Gives→allows_example : allows (build two_roles []) an_admin read_domains ≡ true
unfolding lower
Gives→allows_example =
    Gives→allows two_roles [] an_admin read_domains (codes "Admin")
      (Grant.exact (codes "domains") Verb.read) 1 (omega arith) (Memᴰ.head refl) admin_given
      covers_domains
