-- ===== src/Services/Manager.antt =====
-- src/services.rs: `ServiceManager`. The lock makes each method one step on the state. A task of the
-- runtime is a number, `spawned` counts the calls of the spawn function, and `alive` holds the
-- tasks that were spawned and not aborted. The spawn function is a parameter: `spawn_error n svc a`
-- is the error of call number `n`, or `none` where it spawns a task.
use zonemail.Prelude.{
  ℕ, ◌+◌, ◌==◌, Text, codes, ◌++◌, Bool, true, false, ◌&&◌, Option, none, some, List, [], ◌∷◌, map,
  Result, ok, err, if◌then◌else◌,
}
use zonemail.Services.{
  Service, Status, idle, running, BootMode, all, as_str, services, contains, ServiceReport,
  ServiceResult,
}

-- `std::net::SocketAddr`
pub record SocketAddr : Type 0 where
  pub ip : Text
  pub port : ℕ

-- `Slot`
pub record Slot : Type 0 where
  pub status : Status
  pub handle : Option ℕ

-- `Inner`
pub record Inner : Type 0 where
  pub api : Slot
  pub dns : Slot
  pub smtp : Slot
  pub smtps : Slot
  pub api_addr : SocketAddr
  pub dns_addr : SocketAddr
  pub smtp_addr : SocketAddr
  pub smtps_addr : Option SocketAddr

-- `ServiceManager`, with the tasks of the runtime
pub record Manager : Type 0 where
  pub inner : Inner
  pub spawned : ℕ
  pub alive : ℕ → Bool

abbrev idle_slot : Slot
idle_slot = record { status = idle; handle = none }

-- `ServiceManager::new`, from the addresses of the configuration
unfoldable pub new : SocketAddr → SocketAddr → SocketAddr → Option SocketAddr → Manager
new api_addr dns_addr smtp_addr smtps_addr = record {
  inner = record {
    api = idle_slot;
    dns = idle_slot;
    smtp = idle_slot;
    smtps = idle_slot;
    api_addr = api_addr;
    dns_addr = dns_addr;
    smtp_addr = smtp_addr;
    smtps_addr = smtps_addr;
  };
  spawned = 0;
  alive = λ _. false;
}

-- `Inner::slot_mut`, as a read
abbrev pub slot : Inner → Service → Slot
slot i Service.api = i.api
slot i Service.dns = i.dns
slot i Service.smtp = i.smtp
slot i Service.smtps = i.smtps

-- `Inner::slot_mut`, as a write
abbrev pub set_slot : Inner → Service → Slot → Inner
set_slot i Service.api x = record i { api = x }
set_slot i Service.dns x = record i { dns = x }
set_slot i Service.smtp x = record i { smtp = x }
set_slot i Service.smtps x = record i { smtps = x }

-- `Inner::addr`
abbrev pub addr : Inner → Service → Option SocketAddr
addr i Service.api = some i.api_addr
addr i Service.dns = some i.dns_addr
addr i Service.smtp = some i.smtp_addr
addr i Service.smtps = i.smtps_addr

-- `Inner::status_of` and `ServiceManager::status_of`
abbrev pub status_of : Manager → Service → Status
status_of m svc = (slot m.inner svc).status

-- `matches!(slot.status, Status::Running)`
abbrev pub is_running : Status → Bool
is_running idle = false
is_running running = true

-- the message of `start` for a service with no address
abbrev pub not_configured : Service → Text
not_configured svc = codes "service '" ++ as_str svc ++ codes "' is not configured"

-- `ServiceManager::list`
unfoldable pub list : Manager → List ServiceReport
list m = map (λ svc. record { service = svc; status = status_of m svc }) all

-- `ServiceManager::smtps_configured`
abbrev pub smtps_configured : Manager → Bool
smtps_configured m = elim m.inner.smtps_addr [ none ↦ false | some _ ↦ true ]

-- what `stop` does with the handle that it takes
stop_handle : Service → Option ℕ → Manager → ServiceResult × Manager
stop_handle svc none m = (record { service = svc; status = idle; changed = false }, m)
stop_handle svc (some h) m = (
  record { service = svc; status = idle; changed = true },
  record m {
    inner = set_slot m.inner svc idle_slot;
    alive = λ n. if n == h then false else m.alive n;
  },
)

-- `ServiceManager::stop`, which always returns `Ok`
unfoldable pub stop : Service → Manager → ServiceResult × Manager
unfolding stop_handle
stop svc m = stop_handle svc (slot m.inner svc).handle m

-- `ServiceManager::stop_all`
unfoldable pub stop_all : Manager → Manager
stop_all m =
    let a = (stop Service.api m).1 in
    let b = (stop Service.smtp a).1 in let c = (stop Service.smtps b).1 in (stop Service.dns c).1

-- the services that a mode wants up; SMTPS follows SMTP where it is configured
abbrev pub wants : BootMode → Manager → Service → Bool
wants mode m Service.smtps = smtps_configured m && contains (services mode) Service.smtp
wants mode m svc = contains (services mode) svc

module _ (spawn_error : ℕ → Service → SocketAddr → Option Text) where
  -- the end of `start`, from the outcome of the spawn function
  started : Service → Option Text → Manager → Result ServiceResult × Manager
  started svc (some e) m = (err e, record m { spawned = m.spawned + 1 })
  started svc none m = (
    ok (record { service = svc; status = running; changed = true }),
    record m {
      inner = set_slot m.inner svc (record { status = running; handle = some m.spawned });
      spawned = m.spawned + 1;
      alive = λ n. if n == m.spawned then true else m.alive n;
    },
  )

  start_at : Service → Option SocketAddr → Manager → Result ServiceResult × Manager
  unfolding started
  start_at svc none m = (err (not_configured svc), m)
  start_at svc (some a) m =
      if is_running (status_of m svc)
      then (ok (record { service = svc; status = running; changed = false }), m)
      else started svc (spawn_error m.spawned svc a) m

  -- `ServiceManager::start`
  unfoldable pub start : Service → Manager → Result ServiceResult × Manager
  unfolding start_at
  start svc m = start_at svc (addr m.inner svc) m

  -- the body of the loop of `apply_mode`
  unfoldable pub apply_one : Bool → Service → Manager → Manager
  apply_one want svc m = if want then (start svc m).1 else (stop svc m).1

  -- `ServiceManager::apply_mode`: the loop over `Service::all`; `m` is the state in which the wanted
  -- services were computed
  unfoldable pub apply_mode : BootMode → Manager → List ServiceReport × Manager
  apply_mode mode m =
      let a = apply_one (wants mode m Service.api) Service.api m in
      let b = apply_one (wants mode m Service.smtp) Service.smtp a in
      let c = apply_one (wants mode m Service.smtps) Service.smtps b in
      let d = apply_one (wants mode m Service.dns) Service.dns c in (list d, d)

  -- the loop of `boot`; the order is that of the hash set's iterator
  unfoldable pub start_each : List Service → Manager → Manager
  start_each [] m = m
  start_each (svc ∷ rest) m = start_each rest (start svc m).1

  -- `ServiceManager::boot`
  unfoldable pub boot : List Service → BootMode → Manager → Manager
  boot order mode m =
      let m' = start_each order m in
      if smtps_configured m' && contains (services mode) Service.smtp
      then (start Service.smtps m').1
      else m'
