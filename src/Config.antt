-- ===== src/Config.antt =====
-- src/config.rs: the outbound transport's settings and the roles'.
use zonemail.Prelude.{ℕ, Text, Bool, true, false, Option, none, some, List}

-- `OutboundTlsMode`
pub data OutboundTlsMode : Type 0 where
  plain opportunistic required implicit : OutboundTlsMode

-- `OutboundRelay`
pub record OutboundRelay : Type 0 where
  pub host : Option Text
  pub port : ℕ
  pub user : Option Text
  pub password : Option Text
  pub password_env : Option Text

abbrev pub is_some {ℓ} : {A : Type ℓ} → Option A → Bool
is_some none = false
is_some (some _) = true

-- `OutboundRelay::is_configured`
abbrev pub is_configured : OutboundRelay → Bool
is_configured r = is_some r.host

-- the password of `OutboundRelay::credentials`; `env_var` is `std::env::var(…).ok()`
relay_password : (Text → Option Text) → OutboundRelay → Option Text
relay_password env_var r = elim r.password_env [ some name ↦ env_var name | none ↦ r.password ]

abbrev paired : Text → Option Text → Option (Text × Text)
paired user none = none
paired user (some pass) = some (user, pass)

-- `OutboundRelay::credentials`
unfoldable pub credentials : (Text → Option Text) → OutboundRelay → Option (Text × Text)
unfolding relay_password
credentials env_var r = elim r.user [
  | none ↦ none
  | some user ↦ paired user (relay_password env_var r)
]

-- `OutboundTransport`
pub record OutboundTransport : Type 0 where
  pub tls : OutboundTlsMode
  pub relay : Option OutboundRelay
  pub insecure : Bool

-- `OutboundTransport::tls_enabled`
abbrev pub tls_enabled : OutboundTransport → Bool
tls_enabled t = elim t.tls [ OutboundTlsMode.plain ↦ false | _ ↦ true ]

-- `OutboundTransport::relay_configured`
abbrev pub relay_configured : OutboundTransport → Bool
relay_configured t = elim t.relay [ none ↦ false | some r ↦ is_configured r ]

-- `RoleConfig`
pub record RoleConfig : Type 0 where
  pub grants : List Text
  pub extends : List Text
