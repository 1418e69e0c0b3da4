-- ===== src/Services.antt =====
-- src/services.rs: the controllable services, their names, statuses and boot modes.
pub mod Names
pub mod Manager
pub mod Consistency
pub mod Modes
mod Examples
use zonemail.Prelude.{
  Text, codes, text_eq, trim, to_ascii_lowercase, Bool, true, false, Option, none, some, List, [],
  ◌∷◌, if◌then◌else◌,
}

-- `Service`
pub data Service : Type 0 where
  api smtp smtps dns : Service

-- `Status`
pub data Status : Type 0 where
  idle running : Status

-- `BootMode`
pub data BootMode : Type 0 where
  full api smtp dns off : BootMode

-- `Service::all`
abbrev pub all : List Service
all = Service.api ∷ Service.smtp ∷ Service.smtps ∷ Service.dns ∷ []

-- `Service::as_str`
unfoldable pub as_str : Service → Text
as_str Service.api = codes "api"
as_str Service.smtp = codes "smtp"
as_str Service.smtps = codes "smtps"
as_str Service.dns = codes "dns"

-- the `match` of `Service::parse`
parse_lower : Text → Option Service
parse_lower s =
    if text_eq s (codes "api")
    then some Service.api
    else if text_eq s (codes "smtp")
    then some Service.smtp
    else if text_eq s (codes "smtps")
    then some Service.smtps
    else if text_eq s (codes "dns")
    then some Service.dns
    else none

-- `Service::parse`
unfoldable pub parse : Text → Option Service
unfolding parse_lower
parse s = parse_lower (to_ascii_lowercase (trim s))

-- The derived `==` of `Service`.
abbrev pub same : Service → Service → Bool
same Service.api Service.api = true
same Service.smtp Service.smtp = true
same Service.smtps Service.smtps = true
same Service.dns Service.dns = true
same _ _ = false

-- `BootMode::services`, as the members of the set.
unfoldable pub services : BootMode → List Service
services BootMode.full = Service.api ∷ Service.smtp ∷ Service.dns ∷ []
services BootMode.api = Service.api ∷ []
services BootMode.smtp = Service.smtp ∷ []
services BootMode.dns = Service.dns ∷ []
services BootMode.off = []

-- `HashSet::contains`
abbrev pub contains : List Service → Service → Bool
contains [] s = false
contains (x ∷ xs) s = if same x s then true else contains xs s

-- `ServiceReport`
pub record ServiceReport : Type 0 where
  pub service : Service
  pub status : Status

-- `ServiceResult`
pub record ServiceResult : Type 0 where
  pub service : Service
  pub status : Status
  pub changed : Bool
