-- ===== src/Services/Consistency.antt =====
-- src/services.rs: the services' slots against the tasks of the runtime.
use zonemail.Prelude.{
  ℕ, ◌+◌, ◌<◌, ◌==◌, Text, ◌≡◌, refl, Bool, true, false, Option, none, some, List, [], ◌∷◌, ◌&&◌,
  Option-cases, Bool-cases, inl, inr, if◌then◌else◌, arith,
}
use zonemail.Services.{Service, idle, running, BootMode, same, services, contains}
use zonemail.Services.Manager.{
  SocketAddr, Slot, Inner, Manager, slot, set_slot, addr, status_of, is_running, new, stop,
  stop_all, start, apply_one, apply_mode, start_each, boot, smtps_configured,
}

pub same→≡ : (s t : Service) → same s t ≡ true → s ≡ t
same→≡ Service.api Service.api h = refl
same→≡ Service.smtp Service.smtp h = refl
same→≡ Service.smtps Service.smtps h = refl
same→≡ Service.dns Service.dns h = refl
same→≡ _ _ h = cc

pub same_self : (s : Service) → same s s ≡ true
same_self Service.api = refl
same_self _ = refl

-- A write of one slot, as every slot sees it.
pub slot-set_slot :
    (i : Inner) (s t : Service) (x : Slot)
    → slot (set_slot i s x) t ≡ (if same s t then x else slot i t)
slot-set_slot i Service.api t x = ground arith
slot-set_slot i Service.smtp t x = ground arith
slot-set_slot i Service.smtps t x = ground arith
slot-set_slot i Service.dns t x = ground arith

abbrev pub handle_of : Manager → Service → Option ℕ
handle_of m s = (slot m.inner s).handle

abbrev pub has_handle : Option ℕ → Bool
has_handle none = false
has_handle (some _) = true

-- The slots and the tasks agree: a service is running exactly when its slot holds a task, each such
-- task is alive, no two slots share one, and every task that is alive is held by a slot.
pub record IsConsistent (m : Manager) : Type 0 where
  pub running_iff : (s : Service) → is_running (status_of m s) ≡ has_handle (handle_of m s)
  pub held_alive : (s : Service) (h : ℕ) → handle_of m s ≡ some h → m.alive h ≡ true
  pub alive_old : (h : ℕ) → m.alive h ≡ true → h < m.spawned
  pub held_once : (s t : Service) (h : ℕ) → handle_of m s ≡ some h → handle_of m t ≡ some h → s ≡ t
  pub alive_held : (h : ℕ) → m.alive h ≡ true → (s : Service) × (handle_of m s ≡ some h)

handle-new :
    (a d s : SocketAddr) (ss : Option SocketAddr) (t : Service) → handle_of (new a d s ss) t ≡ none
unfolding new
handle-new a d s ss Service.api = refl
handle-new a d s ss _ = refl

-- A new manager is consistent.
pub new-IsConsistent : (a d s : SocketAddr) (ss : Option SocketAddr) → IsConsistent (new a d s ss)
unfolding new
new-IsConsistent a d s ss = record {
  running_iff = running_iff;
  held_alive = λ t h e. cc (handle-new a d s ss t);
  alive_old = λ h e. cc;
  held_once = λ t u h e f. cc (handle-new a d s ss t);
  alive_held = λ h e. cc;
}
  where
    running_iff :
        (t : Service)
        → is_running (status_of (new a d s ss) t) ≡ has_handle (handle_of (new a d s ss) t)
    running_iff Service.api = refl
    running_iff _ = refl

module _ {m : Manager} (ok_m : IsConsistent m) (s : Service) where
  -- the state in which slot `s` holds the task that was spawned last
  abbrev install : Manager
  install = record m {
    inner = set_slot m.inner s (record { status = running; handle = some m.spawned });
    spawned = m.spawned + 1;
    alive = λ n. if n == m.spawned then true else m.alive n;
  }

  slot-install :
      (t : Service)
      → slot install.inner t ≡ (
          if same s t then record { status = running; handle = some m.spawned } else slot m.inner t)
  slot-install t = slot-set_slot m.inner s t _

  install-IsConsistent : handle_of m s ≡ none → IsConsistent install
  install-IsConsistent free = record {
    running_iff = λ t. ground (arith, slot-install t, ok_m.running_iff t);
    held_alive = λ t h e. ground (arith, slot-install t, ok_m.held_alive t h);
    alive_old = λ h e. ground (arith, ok_m.alive_old h);
    held_once = λ t u h e f. ground (
      arith,
      slot-install t,
      slot-install u,
      ok_m.held_once t u h,
      same→≡ s t,
      same→≡ s u,
      ok_m.held_alive t h,
      ok_m.held_alive u h,
      ok_m.alive_old h,
    );
    alive_held = λ h e. elim (Bool-cases (h == m.spawned)) [
      | inl new ↦ (s, ground (arith, slot-install s, same_self s))
      | inr old ↦
          let (t, p) = ok_m.alive_held h (ground arith) in
          (t, ground (arith, slot-install t, same→≡ s t))
    ];
  }

  -- the state in which the task `k` of slot `s` is aborted
  abbrev release : ℕ → Manager
  release k = record m {
    inner = set_slot m.inner s (record { status = idle; handle = none });
    alive = λ n. if n == k then false else m.alive n;
  }

  slot-release :
      (k : ℕ) (t : Service)
      → slot (release k).inner t
        ≡ (if same s t then record { status = idle; handle = none } else slot m.inner t)
  slot-release k t = slot-set_slot m.inner s t _

  release-IsConsistent : (k : ℕ) → handle_of m s ≡ some k → IsConsistent (release k)
  release-IsConsistent k held = record {
    running_iff = λ t. ground (arith, slot-release k t, ok_m.running_iff t);
    held_alive = λ t h e.
        ground (arith, slot-release k t, ok_m.held_alive t h, ok_m.held_once s t h, same_self s);
    alive_old = λ h e. ground (arith, ok_m.alive_old h);
    held_once =
        λ t u h e f. ground (arith, slot-release k t, slot-release k u, ok_m.held_once t u h);
    alive_held = λ h e.
        let (t, p) = ok_m.alive_held h (ground arith) in
        (t, ground (arith, slot-release k t, same→≡ s t));
  }

  stop-IsConsistent : IsConsistent (stop s m).1
  unfolding stop
  stop-IsConsistent = elim (Option-cases (handle_of m s)) [
    | inl free ↦ rw free ok_m
    | inr (k, held) ↦ rw held (release-IsConsistent k held)
  ]

  counted : IsConsistent (record m { spawned = m.spawned + 1 })
  counted = record {
    running_iff = ok_m.running_iff;
    held_alive = ok_m.held_alive;
    alive_old = λ h e. omega (arith, ok_m.alive_old h e);
    held_once = ok_m.held_once;
    alive_held = ok_m.alive_held;
  }

module _ (spawn_error : ℕ → Service → SocketAddr → Option Text) where
  start-IsConsistent :
      {m : Manager} → IsConsistent m → (s : Service) → IsConsistent (start spawn_error s m).1
  unfolding start
  start-IsConsistent {m} ok_m s = elim (Option-cases (addr m.inner s)) [
    | inl closed ↦ rw closed ok_m
    | inr (a, bound) ↦ rw bound (elim (Bool-cases (is_running (status_of m s))) [
      | inl up ↦ rw up ok_m
      | inr down ↦ rw down (elim (Option-cases (spawn_error m.spawned s a)) [
        | inl fine ↦ rw fine (install-IsConsistent ok_m s (ground (arith, ok_m.running_iff s)))
        | inr (e, fails) ↦ rw fails (counted ok_m s)
      ])
    ])
  ]

  -- One call of the manager's interface, the hash set's iteration order of `boot` included.
  pub data Command : Type 0 where
    start_one : Service → Command
    stop_one : Service → Command
    mode_to : BootMode → Command
    boot_with : List Service → BootMode → Command
    stop_every : Command

  abbrev pub execute : Command → Manager → Manager
  execute (start_one s) m = (start spawn_error s m).1
  execute (stop_one s) m = (stop s m).1
  execute (mode_to mode) m = (apply_mode spawn_error mode m).1
  execute (boot_with order mode) m = boot spawn_error order mode m
  execute stop_every m = stop_all m

  abbrev pub run : List Command → Manager → Manager
  run [] m = m
  run (c ∷ cs) m = run cs (execute c m)

  pub apply_one-IsConsistent :
      {m : Manager}
      → IsConsistent m
      → (want : Bool) (s : Service) → IsConsistent (apply_one spawn_error want s m)
  unfolding apply_one
  apply_one-IsConsistent c true s = start-IsConsistent c s
  apply_one-IsConsistent c false s = stop-IsConsistent c s

  start_each-IsConsistent :
      (order : List Service) {m : Manager}
      → IsConsistent m
      → IsConsistent (start_each spawn_error order m)
  unfolding start_each
  start_each-IsConsistent [] c = c
  start_each-IsConsistent (s ∷ rest) c = start_each-IsConsistent rest (start-IsConsistent c s)

  pub execute-IsConsistent :
      (c : Command) {m : Manager} → IsConsistent m → IsConsistent (execute c m)
  unfolding apply_mode boot stop_all
  execute-IsConsistent (start_one s) h = start-IsConsistent h s
  execute-IsConsistent (stop_one s) h = stop-IsConsistent h s
  execute-IsConsistent (mode_to mode) {m} h =
      apply_one-IsConsistent
        (apply_one-IsConsistent
          (apply_one-IsConsistent (apply_one-IsConsistent h _ Service.api) _ Service.smtp) _
          Service.smtps)
        _ Service.dns
  execute-IsConsistent (boot_with order mode) {m} h =
      let h' = start_each-IsConsistent order h in
      elim (Bool-cases (
        smtps_configured (start_each spawn_error order m)
        && contains (services mode) Service.smtp)) [
          | inl also ↦ rw also (start-IsConsistent h' Service.smtps)
          | inr alone ↦ rw alone h'
        ]
  execute-IsConsistent stop_every h =
      stop-IsConsistent
        (stop-IsConsistent (stop-IsConsistent (stop-IsConsistent h Service.api) Service.smtp)
          Service.smtps)
        Service.dns

  -- From a consistent manager, any sequence of calls, whatever the spawn function answers, leaves
  -- the slots and the tasks in agreement: no call spawns a second task for a service or leaves a
  -- task alive that no slot holds.
  pub run-IsConsistent :
      (cs : List Command) {m : Manager} → IsConsistent m → IsConsistent (run cs m)
  run-IsConsistent [] h = h
  run-IsConsistent (c ∷ cs) h = run-IsConsistent cs (execute-IsConsistent c h)
