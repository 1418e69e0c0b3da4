-- ===== src/Services/Examples.antt =====
-- The service manager at concrete states, with a spawn function that works, and one that fails on
-- its first call.
use zonemail.Prelude.{
  ℕ, zero, suc, ◌≡◌, ◌↔◌, refl, not, Text, codes, trim, to_ascii_lowercase, Option, none, some,
  List, [], ◌∷◌, map, ok, err, if◌then◌else◌,
}
use zonemail.Services.{
  Service, idle, running, BootMode, all, as_str, parse, services, ServiceResult,
}
use zonemail.Services.Names.{parse_iff}
use zonemail.Services.Manager.{
  SocketAddr, Manager, status_of, is_running, new, stop, start, apply_mode, apply_one, wants, list,
}
use zonemail.Services.Consistency.{
  IsConsistent, Command, start_one, stop_one, mode_to, boot_with, stop_every, run, new-IsConsistent,
  run-IsConsistent,
}
use zonemail.Services.Modes.{stop_lem, start_lem, apply_mode_lem}

abbrev works : ℕ → Service → SocketAddr → Option Text
works _ _ _ = none

abbrev fails_first : ℕ → Service → SocketAddr → Option Text
fails_first zero _ _ = some (codes "in use")
fails_first (suc _) _ _ = none

abbrev at_port : ℕ → SocketAddr
at_port p = record { ip = codes "0.0.0.0"; port = p }

abbrev fresh : Manager
fresh = new (at_port 8081) (at_port 53) (at_port 25) (some (at_port 465))

fresh-IsConsistent : IsConsistent fresh
fresh-IsConsistent = new-IsConsistent (at_port 8081) (at_port 53) (at_port 25) (some (at_port 465))

-- In the mode `smtp` the SMTPS listener follows, and the API goes down.
smtp_mode :
    (apply_mode works BootMode.smtp (start works Service.api fresh).1).0
    ≡ map
        (λ s. record {
          service = s;
          status = if wants BootMode.smtp fresh s then running else idle;
        })
        all
unfolding apply_mode apply_one start stop list new services
smtp_mode = refl

parse_iff_example :
    (parse (codes " SMTPS ") ≡ some Service.smtps)
    ↔ (to_ascii_lowercase (trim (codes " SMTPS ")) ≡ as_str Service.smtps)
parse_iff_example = parse_iff (codes " SMTPS ") Service.smtps

abbrev script : List (Command fails_first)
script =
    boot_with (Service.api ∷ Service.smtp ∷ []) BootMode.full
    ∷ mode_to BootMode.dns
    ∷ start_one Service.api
    ∷ stop_one Service.dns
    ∷ stop_every
    ∷ []

run-IsConsistent_example : IsConsistent (run fails_first script fresh)
run-IsConsistent_example = run-IsConsistent fails_first script fresh-IsConsistent

apply_mode_lem_example :
    ((t : Service)
      → status_of (apply_mode works BootMode.smtp fresh).1 t
        ≡ (if wants BootMode.smtp fresh t then running else idle))
    × ((apply_mode works BootMode.smtp fresh).0
        ≡ map
            (λ t. record {
              service = t;
              status = if wants BootMode.smtp fresh t then running else idle;
            })
            all)
apply_mode_lem_example = apply_mode_lem works (λ n x b. refl) fresh-IsConsistent BootMode.smtp

start_lem_example :
    (status_of (start fails_first Service.dns fresh).1 Service.dns
      ≡ elim ((start fails_first Service.dns fresh).0) [
        | ok _ ↦ running
        | err _ ↦ status_of fresh Service.dns
      ])
    × ((r : ServiceResult)
        → (start fails_first Service.dns fresh).0 ≡ ok r
        → (r.service ≡ Service.dns)
          × (r.status ≡ running)
          × (r.changed ≡ not (is_running (status_of fresh Service.dns))))
start_lem_example = start_lem fails_first fresh Service.dns Service.dns

stop_lem_example :
    (status_of (stop Service.api fresh).1 Service.dns ≡ status_of fresh Service.dns)
    × ((stop Service.api fresh).0.changed ≡ is_running (status_of fresh Service.api))
stop_lem_example = stop_lem fresh-IsConsistent Service.api Service.dns
