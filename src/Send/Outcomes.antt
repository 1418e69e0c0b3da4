-- ===== src/Send/Outcomes.antt =====
-- src/send.rs: what follows for one job from the relation of Send/Lifecycle.
use mathlib.Core.Path.{subst}
use zonemail.Prelude.{ℕ, ◌+◌, ◌≤◌, ◌≡◌, ◌⊎◌, refl, ◌∙◌, List, Option, some, Distinct, arith}
use zonemail.Db.{World, Outbound, queued, in_progress, delivered, failed}
use zonemail.Db.Outbox.{outbound_at, ids}
use zonemail.Send.{Outside, OutboundWorkerConfig}
use zonemail.Send.Worker.{run_outbound_worker}
use zonemail.Send.Lifecycle.{
  Step, Reach, Way, here, next, take, reclaim, deliver, give_up, retry, absent, path,
}
use zonemail.Send.Progress.{Moves-run_outbound_worker}

abbrev pub IsTerminal : Outbound → Type 0
IsTerminal r = (r.status ≡ delivered) ⊎ (r.status ≡ failed)

-- A job waits with a count of at most `max_attempts`, and has failed with exactly one more.
pub record IsWithinCap (c : OutboundWorkerConfig) (r : Outbound) : Type 0 where
  pub waiting : (r.status ≡ queued) ⊎ (r.status ≡ in_progress) → r.attempts ≤ c.max_attempts
  pub capped : r.attempts ≤ c.max_attempts + 1
  pub exhausted : r.status ≡ failed → r.attempts ≡ c.max_attempts + 1

-- The same delivery, with no lower count of attempts.
pub record IsSameJob (r s : Outbound) : Type 0 where
  pub id : s.id ≡ r.id
  pub message_id : s.message_id ≡ r.message_id
  pub rcpt_to : s.rcpt_to ≡ r.rcpt_to
  pub sender_id : s.sender_id ≡ r.sender_id
  pub attempts : r.attempts ≤ s.attempts

module _ (c : OutboundWorkerConfig) (o : Outside) where
  Step-IsWithinCap : {r s : Outbound} → Step o c r s → IsWithinCap c r → IsWithinCap c s
  Step-IsWithinCap (take q) h = ground arith
  Step-IsWithinCap (reclaim q) h = ground arith
  Step-IsWithinCap (deliver q) h = ground arith
  Step-IsWithinCap (give_up reason q over) h = ground arith
  Step-IsWithinCap (retry reason now due q within timed) h = ground arith

  Step-IsSameJob : {r s : Outbound} → Step o c r s → IsSameJob r s
  Step-IsSameJob (take q) = ground arith
  Step-IsSameJob (reclaim q) = ground arith
  Step-IsSameJob (deliver q) = ground arith
  Step-IsSameJob (give_up reason q over) = ground arith
  Step-IsSameJob (retry reason now due q within timed) = ground arith

  Step-terminal : {r s : Outbound} → Step o c r s → IsTerminal r → ⊥
  Step-terminal (take q) h = ground arith
  Step-terminal (reclaim q) h = ground arith
  Step-terminal (deliver q) h = ground arith
  Step-terminal (give_up reason q over) h = ground arith
  Step-terminal (retry reason now due q within timed) h = ground arith

  Reach-IsWithinCap : {r s : Outbound} → Reach o c r s → IsWithinCap c r → IsWithinCap c s
  Reach-IsWithinCap here h = h
  Reach-IsWithinCap (next p st) h = Step-IsWithinCap st (Reach-IsWithinCap p h)

  IsSameJob-trans : {r s t : Outbound} → IsSameJob r s → IsSameJob s t → IsSameJob r t
  IsSameJob-trans p q = ground arith

  Reach-IsSameJob : {r s : Outbound} → Reach o c r s → IsSameJob r s
  Reach-IsSameJob here = ground arith
  Reach-IsSameJob (next p st) = IsSameJob-trans (Reach-IsSameJob p) (Step-IsSameJob st)

  Reach-terminal : {r s : Outbound} → Reach o c r s → IsTerminal r → s ≡ r
  Reach-terminal here h = refl
  Reach-terminal (next p st) h = let e = Reach-terminal p h in absurd (Step-terminal st (rw e h))

  Way-some :
      {x y : Option Outbound}
      → Way o c x y
      → (r : Outbound) → x ≡ some r
      → (s : Outbound) × (y ≡ some s) × Reach o c r s
  Way-some absent r e = absurd (cc)
  Way-some (path {r = a} {s = b} p) r e = (b, refl, subst (λ x. Reach o c x b) (ground arith) p)

  module _ (ticks : List ℕ) (w : World) (j : ℕ) (r : Outbound) where
    abbrev after : World
    after = run_outbound_worker o c ticks w

    -- A delivered or failed job stays as it is, whatever the worker does and whatever fails.
    pub run_outbound_worker-terminal :
        Distinct (ids w.outbounds)
        → outbound_at w j ≡ some r
        → IsTerminal r
        → outbound_at after j ≡ some r
    run_outbound_worker-terminal d found fin =
        let (s, e, p) = Way-some ((Moves-run_outbound_worker o c ticks w d).way j) r found in
        e ∙ rw (Reach-terminal p fin)

    -- The worker keeps each job's row, with its key, its message, its recipient and its sender, and
    -- never lowers the count in its column `attempts`. For a job within the cap, that count stays at
    -- most `max_attempts + 1`, at most `max_attempts` while the job waits, and it is exactly
    -- `max_attempts + 1` if the job has failed. The column counts the attempts whose last update was
    -- stored: one that ends in an error before is reclaimed and not counted.
    pub run_outbound_worker-job :
        Distinct (ids w.outbounds)
        → outbound_at w j ≡ some r
        → IsWithinCap c r
        → (s : Outbound) × (outbound_at after j ≡ some s) × IsSameJob r s × IsWithinCap c s
    run_outbound_worker-job d found cap =
        let (s, e, p) = Way-some ((Moves-run_outbound_worker o c ticks w d).way j) r found in
        (s, e, Reach-IsSameJob p, Reach-IsWithinCap p cap)
