-- ===== src/Services/Names.antt =====
-- src/services.rs: the wire names of the services, `Service::parse` against `Service::as_str`.
use zonemail.Prelude.{Text, text_eq_iff, codes, trim, to_ascii_lowercase, ◌≡◌, ◌↔◌, some, arith}
use zonemail.Services.{Service, as_str, parse}

parse→as_str :
    (s : Text) (svc : Service) → parse s ≡ some svc → to_ascii_lowercase (trim s) ≡ as_str svc
unfolding parse as_str
parse→as_str s svc h =
    let t = to_ascii_lowercase (trim s) in
    ground (
      arith,
      text_eq_iff t (codes "api"),
      text_eq_iff t (codes "smtp"),
      text_eq_iff t (codes "smtps"),
      text_eq_iff t (codes "dns"),
    )

parse_of_as_str :
    (s : Text) (svc : Service) → to_ascii_lowercase (trim s) ≡ as_str svc → parse s ≡ some svc
unfolding parse as_str
parse_of_as_str s Service.api h = rw h
parse_of_as_str s Service.smtp h = rw h
parse_of_as_str s Service.smtps h = rw h
parse_of_as_str s Service.dns h = rw h

-- A text is accepted as a service's name exactly when, trimmed and in ASCII lower case, it is the
-- name that `as_str` prints for that service.
pub parse_iff :
    (s : Text) (svc : Service) → (parse s ≡ some svc) ↔ (to_ascii_lowercase (trim s) ≡ as_str svc)
parse_iff s svc = (parse→as_str s svc, parse_of_as_str s svc)
