-- ===== src/Send/Worker.antt =====
-- src/send.rs: `drain_once` and the poll loop.
use zonemail.Prelude.{
  ℕ, ltb, text_eq, codes, Result, ok, err, Bool, true, false, Option, none, some, List, [], ◌∷◌,
  filter, if◌then◌else◌,
}
use zonemail.Db.{World, Outbound, queued}
use zonemail.Db.Action.{Action, pure, lift, attempt, map_err, exec, ◌>>=◌, ◌>>◌}
use zonemail.Db.Outbox.{status_eq}
use zonemail.Send.{OutboundWorkerConfig, Outside}
use zonemail.Send.Queue.{claim, reclaim_in_progress}
use zonemail.Send.Delivery.{deliver_one, panic_mark}

-- `next_attempt_at` is `None` or not in the future
abbrev pub is_due : ℕ → Outbound → Bool
is_due now job = elim job.next_attempt_at [
  | none ↦ true
  | some next ↦ if ltb now next then false else true
]

-- the end of the worker's task by a panic
abbrev pub has_panicked : Result (Unit {0}) → Bool
has_panicked (ok done) = false
has_panicked (err e) = text_eq e panic_mark

-- what `drain_once` does with the outcome of a delivery: an error is logged, a panic goes on
abbrev pub logged_unless_panic : Result (Unit {0}) → Result (Unit {0})
logged_unless_panic (ok done) = ok tt
logged_unless_panic (err e) = if text_eq e panic_mark then err e else ok tt

module _ (o : Outside) (c : OutboundWorkerConfig) where
  -- what `drain_once` does with the outcome of a claim
  unfoldable pub deliver_claimed : ℕ → Option Outbound → Action (Unit {0})
  deliver_claimed now none = pure tt
  deliver_claimed now (some job) = do
    outcome ← attempt (deliver_one o c now job)
    lift (logged_unless_panic outcome)

  unfoldable pub drain_job : ℕ → Outbound → Action (Unit {0})
  unfolding deliver_claimed
  drain_job now job =
      if is_due now job then (do claimed ← claim o job.id; deliver_claimed now claimed) else pure tt

  -- the loop of `drain_once`
  unfoldable pub drain_rows : ℕ → List Outbound → Action (Unit {0})
  unfolding drain_job
  drain_rows now [] = pure tt
  drain_rows now (job ∷ rows) = do drain_job now job; drain_rows now rows

  -- the query of `drain_once`
  abbrev pub fetch_queued : Action (List Outbound)
  fetch_queued =
      map_err (codes "failed to fetch queued Outbound rows")
        (exec o.db_fault (λ v. (filter (λ job. status_eq job.status queued) v.outbounds, v)))

  -- `drain_once` at the time `now`
  unfoldable pub drain_once : ℕ → Action (Unit {0})
  drain_once now = do rows ← fetch_queued; drain_rows now rows

  -- `run_outbound_worker` over the times of its ticks: a tick that fails is logged, and one that
  -- panics is the last
  unfoldable pub run_outbound_worker : List ℕ → World → World
  run_outbound_worker [] w = w
  run_outbound_worker (now ∷ ticks) w =
      let (r, v) = drain_once now (reclaim_in_progress o w) in
      let later = run_outbound_worker ticks v in if has_panicked r then v else later
