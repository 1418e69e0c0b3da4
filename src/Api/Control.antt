-- ===== src/Api/Control.antt =====
-- src/api.rs: the handlers of `/services`, on the service manager.
use zonemail.Prelude.{ℕ, Text, codes, ◌++◌, Option, none, some, List, Result, ok, err}
use zonemail.Services.{Service, BootMode, parse, ServiceReport, ServiceResult}
use zonemail.Services.Manager.{SocketAddr, Manager, list, stop, start, apply_mode}
use zonemail.Api.{ApiProblem, Reply, done, failed, bad_request, server_error}

-- `{:?}` of a `Service`
abbrev pub debug : Service → Text
debug Service.api = codes "Api"
debug Service.smtp = codes "Smtp"
debug Service.smtps = codes "Smtps"
debug Service.dns = codes "Dns"

abbrev pub unknown_service : Text → ApiProblem
unknown_service name =
    bad_request (
      codes "unknown service '" ++ name ++ codes "'; expected one of 'api', 'smtp', 'smtps', 'dns'")

-- `list_services`
unfoldable pub list_services : Manager → Reply (List ServiceReport) × Manager
list_services m = (done (list m), m)

-- `stop_service`; the manager's `stop` returns no error
abbrev pub stop_parsed : Text → Option Service → Manager → Reply ServiceResult × Manager
stop_parsed name none m = (failed 400 (unknown_service name), m)
stop_parsed name (some svc) m = let (r, m') = stop svc m in (done r, m')

unfoldable pub stop_service : Text → Manager → Reply ServiceResult × Manager
stop_service name m = stop_parsed name (parse name) m

module _ (spawn_error : ℕ → Service → SocketAddr → Option Text) where
  abbrev pub start_reply : Service → Result ServiceResult → Reply ServiceResult
  start_reply svc (ok r) = done r
  start_reply svc (err e) =
      failed 500 (server_error (codes "failed to start " ++ debug svc ++ codes ": " ++ e))

  abbrev pub start_parsed : Text → Option Service → Manager → Reply ServiceResult × Manager
  start_parsed name none m = (failed 400 (unknown_service name), m)
  start_parsed name (some svc) m = let (r, m') = start spawn_error svc m in (start_reply svc r, m')

  -- `start_service`
  unfoldable pub start_service : Text → Manager → Reply ServiceResult × Manager
  start_service name m = start_parsed name (parse name) m

  -- `set_mode`; `none` is a body that does not parse
  unfoldable pub set_mode : Option BootMode → Manager → Reply (List ServiceReport) × Manager
  set_mode none m =
      (failed 400 (bad_request (codes "invalid mode; expected one of full|smtp|dns|api-only")), m)
  set_mode (some mode) m = let (reports, m') = apply_mode spawn_error mode m in (done reports, m')
