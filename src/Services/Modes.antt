-- ===== src/Services/Modes.antt =====
-- src/services.rs: the statuses after `start`, `stop`, `apply_mode`, `boot` and `stop_all`.
use zonemail.Prelude.{
  ℕ, Text, ◌≡◌, refl, ap, ◌∙◌, Bool, true, false, not, Option, none, some, map, ok, err,
  Option-cases, inl, inr, if◌then◌else◌, arith,
}
use zonemail.Services.{Service, idle, running, BootMode, same, all, ServiceResult}
use zonemail.Services.Manager.{
  SocketAddr, Slot, Inner, Manager, set_slot, addr, status_of, is_running, stop, list, start,
  apply_one, apply_mode, wants,
}
use zonemail.Services.Consistency.{
  same→≡, same_self, slot-set_slot, handle_of, IsConsistent, apply_one-IsConsistent,
}

abbrev pub addrs : Manager → Service → Option SocketAddr
addrs m s = addr m.inner s

addr-set_slot : (i : Inner) (s t : Service) (x : Slot) → addr (set_slot i s x) t ≡ addr i t
addr-set_slot i Service.api Service.api x = refl
addr-set_slot i Service.api _ x = refl
addr-set_slot i Service.smtp Service.api x = refl
addr-set_slot i Service.smtp _ x = refl
addr-set_slot i Service.smtps Service.api x = refl
addr-set_slot i Service.smtps _ x = refl
addr-set_slot i Service.dns Service.api x = refl
addr-set_slot i Service.dns _ x = refl

-- `stop` leaves its service idle and every other service's status as it was, if the manager is
-- consistent, and reports a change exactly if the service was running.
pub stop_lem :
    {m : Manager}
    → IsConsistent m
    → (s t : Service)
    → (status_of (stop s m).1 t ≡ (if same s t then idle else status_of m t))
      × ((stop s m).0.changed ≡ is_running (status_of m s))
unfolding stop
stop_lem {m} c s t = (
  ground (
    arith,
    slot-set_slot m.inner s t (record { status = idle; handle = none }),
    c.running_iff s,
    same→≡ s t,
  ),
  ground (arith, c.running_iff s),
)

addr-stop : (s t : Service) (m : Manager) → addrs (stop s m).1 t ≡ addrs m t
unfolding stop
addr-stop s t m = elim (Option-cases (handle_of m s)) [
  | inl free ↦ rw free refl
  | inr (k, held) ↦ rw held (addr-set_slot m.inner s t _)
]

module _ (spawn_error : ℕ → Service → SocketAddr → Option Text) where
  addr-start : (s t : Service) (m : Manager) → addrs (start spawn_error s m).1 t ≡ addrs m t
  unfolding start
  addr-start s t m =
      ground
        (arith, addr-set_slot m.inner s t (record { status = running; handle = some m.spawned }))

  addr-apply_one :
      (want : Bool) (s t : Service) (m : Manager)
      → addrs (apply_one spawn_error want s m) t ≡ addrs m t
  unfolding apply_one
  addr-apply_one true s t m = addr-start s t m
  addr-apply_one false s t m = addr-stop s t m

  -- `start` changes no status but that of its service. Where it returns `Ok`, the service is
  -- running, and the reported change tells whether it was idle before; where it returns `Err`, its
  -- status is what it was.
  pub start_lem :
      (m : Manager) (s t : Service)
      → (status_of (start spawn_error s m).1 t ≡ (
          if same s t
          then elim ((start spawn_error s m).0) [ ok _ ↦ running | err _ ↦ status_of m s ]
          else status_of m t))
        × ((r : ServiceResult)
            → (start spawn_error s m).0 ≡ ok r
            → (r.service ≡ s)
              × (r.status ≡ running)
              × (r.changed ≡ not (is_running (status_of m s))))
  unfolding start
  start_lem m s t = (
    ground (
      arith,
      slot-set_slot m.inner s t (record { status = running; handle = some m.spawned }),
      same→≡ s t,
    ),
    λ r h. ground arith,
  )

  -- a start cannot take a service down
  start_keeps_running :
      (m : Manager) (s t : Service)
      → is_running (status_of m t) ≡ true
      → is_running (status_of (start spawn_error s m).1 t) ≡ true
  start_keeps_running m s t h = ground (arith, (start_lem m s t).0, same→≡ s t)

  module _ {m : Manager} (c : IsConsistent m) (s t : Service) where
    apply_one_stop :
        (want : Bool)
        → want ≡ false
        → status_of (apply_one spawn_error want s m) t ≡ (if same s t then idle else status_of m t)
    unfolding apply_one
    apply_one_stop false h = (stop_lem c s t).0
    apply_one_stop true h = cc

    apply_one_other :
        (want : Bool)
        → same s t ≡ false
        → status_of (apply_one spawn_error want s m) t ≡ status_of m t
    unfolding apply_one
    apply_one_other false h = ground (arith, (stop_lem c s t).0)
    apply_one_other true h = ground (arith, (start_lem m s t).0)

  module _ (works : (n : ℕ) (x : Service) (b : SocketAddr) → spawn_error n x b ≡ none) where
    -- if the spawn function works, a service that has an address starts
    start_works :
        (m : Manager) (s : Service) (a : SocketAddr)
        → addrs m s ≡ some a
        → status_of (start spawn_error s m).1 s ≡ running
    unfolding start
    start_works m s a h = ground (
      arith,
      works m.spawned s a,
      slot-set_slot m.inner s s (record { status = running; handle = some m.spawned }),
      same_self s,
    )

    apply_one_status :
        {m : Manager}
        → IsConsistent m
        → (want : Bool) (s t : Service) → (want ≡ true → (a : SocketAddr) × (addrs m s ≡ some a))
        → status_of (apply_one spawn_error want s m) t
          ≡ (if same s t then if want then running else idle else status_of m t)
    unfolding apply_one
    apply_one_status c false s t _ = (stop_lem c s t).0
    apply_one_status {m} c true s t bound =
        let (a, p) = bound refl in
        ground (arith, (start_lem m s t).0, start_works m s a p, same→≡ s t)

    module _ {m : Manager} (c : IsConsistent m) (mode : BootMode) where
      abbrev step : Service → Manager → Manager
      step s = apply_one spawn_error (wants mode m s) s

      abbrev after_api : Manager
      after_api = step Service.api m

      abbrev after_smtp : Manager
      after_smtp = step Service.smtp after_api

      abbrev after_smtps : Manager
      after_smtps = step Service.smtps after_smtp

      kept : (x : Service) (n : Manager) (s : Service) → addrs (step x n) s ≡ addrs n s
      kept x n s = addr-apply_one (wants mode m x) x s n

      smtps_bound :
          wants mode m Service.smtps ≡ true
          → (a : SocketAddr) × (addrs after_smtp Service.smtps ≡ some a)
      smtps_bound w = elim (Option-cases m.inner.smtps_addr) [
        | inl off ↦
            absurd
              (cc (ap (λ (o : Option SocketAddr). elim o [ none ↦ false | some _ ↦ true ]) off))
        | inr (a, set) ↦
            (a, kept Service.smtp after_api Service.smtps ∙ kept Service.api m Service.smtps ∙ set)
      ]

      status_apply_mode :
          (t : Service)
          → status_of (apply_mode spawn_error mode m).1 t
            ≡ (if wants mode m t then running else idle)
      unfolding apply_mode
      status_apply_mode t =
          let ca = apply_one-IsConsistent spawn_error c (wants mode m Service.api) Service.api in
          let cb = apply_one-IsConsistent spawn_error ca (wants mode m Service.smtp) Service.smtp in
          let cc' =
            apply_one-IsConsistent spawn_error cb (wants mode m Service.smtps) Service.smtps in
          ground (
            arith,
            apply_one_status c (wants mode m Service.api) Service.api t
                (λ _. (m.inner.api_addr, refl)),
            apply_one_status ca (wants mode m Service.smtp) Service.smtp t
                (λ _. (after_api.inner.smtp_addr, refl)),
            apply_one_status cb (wants mode m Service.smtps) Service.smtps t smtps_bound,
            apply_one_status cc' (wants mode m Service.dns) Service.dns t
                (λ _. (after_smtps.inner.dns_addr, refl)),
          )

      -- Over a consistent manager whose spawn function works, `apply_mode` leaves each service
      -- running if the mode wants it and idle if not, whatever ran before: SMTPS is wanted exactly
      -- if it is configured and the mode has SMTP. The list that it returns says so.
      pub apply_mode_lem :
          ((t : Service)
            → status_of (apply_mode spawn_error mode m).1 t
              ≡ (if wants mode m t then running else idle))
          × ((apply_mode spawn_error mode m).0
              ≡ map
                  (λ t. record { service = t; status = if wants mode m t then running else idle })
                  all)
      unfolding list apply_mode
      apply_mode_lem = (
        status_apply_mode,
        cc (
          status_apply_mode Service.api,
          status_apply_mode Service.smtp,
          status_apply_mode Service.smtps,
          status_apply_mode Service.dns,
        ),
      )
