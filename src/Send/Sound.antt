-- ===== src/Send/Sound.antt =====
-- src/send.rs: the worker against the constraints of the tables.
mod Delivery
use zonemail.Prelude.{
  ℕ, ◌+◌, ◌==◌, ◌≡◌, refl, ◌∙◌, inl, inr, Text, codes, Bool, true, ltb, Option, none, some, List,
  [], ◌∷◌, any, filter, update_where, All, All-imp, Result, ok, err, Bool-cases,
}
use zonemail.Db.{World, Message, Outbound, queued, in_progress}
use zonemail.Db.Action.{Action, follow, exec, effect, no_effect, map_err}
use zonemail.Db.Outbox.{has_id, outbound_at, update_outbound, status_eq, find?_id}
use zonemail.Db.Integrity.{IsSound, has_outbound, All-add, find_any}
use zonemail.Db.Integrity.Actions.{
  IsClosed, IsSound-IsClosed, Maintains, Maintains-pure, Maintains-lift, Maintains-bind,
  Maintains-attempt, Maintains-prefix, Maintains-ask, Maintains-exec, Maintains-transaction,
}
use zonemail.Send.{Outside, OutboundWorkerConfig, Envelope, Tls}
use zonemail.Send.Queue.{
  claimed, requeued, claim, claim_body, claim_row, commit, reclaim_in_progress, recover_each,
  recover_rows,
}
use zonemail.Send.Delivery.{
  mark_delivered, mark_failed, fail_or_requeue, record_delivery, build_outbound_tls, try_hosts,
  deliver_hosts, deliver_one, lookup_domain, lookup_mx_hosts, targets, send, after_send,
  deliver_targets, via, build_envelope, found_or_fail,
}
use zonemail.Send.Worker.{
  logged_unless_panic, has_panicked, run_outbound_worker, drain_once, drain_rows, drain_job,
  deliver_claimed, is_due,
}
use zonemail.Send.Claims.{claim-some}
use zonemail.Send.Sound.Delivery.{IsLinkless, IsSound-update_outbound, HasJob, HasJob-deliver_one}

module _ (o : Outside) where
  commit-IsSound : (p : Text) → Maintains IsSound (map_err p (commit o))
  commit-IsSound p =
      Maintains-prefix p (Maintains-exec IsSound-IsClosed o.db_fault no_effect (λ w s. s))

  claim_row-IsSound : (id : ℕ) (job : Option Outbound) → Maintains IsSound (claim_row o id job)
  unfolding claim_row
  claim_row-IsSound id none =
      Maintains-bind (commit-IsSound (codes "failed to commit empty claim"))
        (λ _. Maintains-pure none)
  claim_row-IsSound id (some job) = elim (Bool-cases (status_eq job.status queued)) [
    | inl e ↦ rw e (
        Maintains-bind
          (Maintains-prefix (codes "failed to flip Outbound InProgress") (
            Maintains-exec IsSound-IsClosed o.db_fault (effect (update_outbound id claimed)) (λ w s.
              IsSound-update_outbound id claimed
                (record { id = λ r. refl; message = λ r. refl; sender = λ r. refl }) s)))
          λ _.
            Maintains-bind (commit-IsSound (codes "failed to commit claim"))
              (λ _. Maintains-pure (some (claimed job))))
    | inr e ↦ rw e (
        Maintains-bind (commit-IsSound (codes "failed to commit discarded claim"))
          (λ _. Maintains-pure none))
  ]

  claim-IsSound : (id : ℕ) → Maintains IsSound (claim o id)
  unfolding claim claim_body
  claim-IsSound id = Maintains-transaction IsSound-IsClosed (
      Maintains-bind (commit-IsSound (codes "failed to begin claim transaction")) λ _.
        Maintains-bind
          (Maintains-prefix (codes "failed to load job for claim")
            (Maintains-exec IsSound-IsClosed o.db_fault (λ v. (outbound_at v id, v)) (λ w s. s)))
          (claim_row-IsSound id))

  module _ (c : OutboundWorkerConfig) where
    delivered-IsSound :
        (now : ℕ) (r : Result (Option Outbound)) (w : World)
        → IsSound w
        → ((job : Outbound) → r ≡ ok (some job) → has_outbound w job.id ≡ true)
        → IsSound (follow r (deliver_claimed o c now) w).1
    unfolding deliver_claimed
    delivered-IsSound now (err e) w s h = s
    delivered-IsSound now (ok none) w s h = s
    delivered-IsSound now (ok (some job)) w s h =
        ((Maintains-bind (Maintains-attempt (HasJob-deliver_one o c now job))
            (λ outcome. Maintains-lift (logged_unless_panic outcome))).at
          w (s, h job refl)).0

    -- a job that was claimed is stored
    claimed-has_outbound :
        (id : ℕ) (w : World) (job : Outbound)
        → (claim o id w).0 ≡ ok (some job)
        → has_outbound (claim o id w).1 job.id ≡ true
    claimed-has_outbound id w job h =
        let (r, at, status, same, there, others, _) = claim-some o id w job h in
        let key = find?_id id (claim o id w).1.outbounds job there in
        rw key (find_any (has_id id) (claim o id w).1.outbounds job there)

    drain_job-IsSound : (now : ℕ) (job : Outbound) → Maintains IsSound (drain_job o c now job)
    unfolding drain_job
    drain_job-IsSound now job = elim (Bool-cases (is_due now job)) [
      | inl e ↦ rw e (record {
        at = λ w s.
            delivered-IsSound now (claim o job.id w).0 (claim o job.id w).1
              ((claim-IsSound job.id).at w s) (claimed-has_outbound job.id w);
      })
      | inr e ↦ rw e (Maintains-pure tt)
    ]

    drain_rows-IsSound :
        (now : ℕ) (rows : List Outbound) → Maintains IsSound (drain_rows o c now rows)
    unfolding drain_rows
    drain_rows-IsSound now [] = Maintains-pure tt
    drain_rows-IsSound now (job ∷ rows) =
        Maintains-bind (drain_job-IsSound now job) (λ _. drain_rows-IsSound now rows)

    drain_once-IsSound : (now : ℕ) → Maintains IsSound (drain_once o c now)
    unfolding drain_once
    drain_once-IsSound now =
        Maintains-bind
          (Maintains-prefix (codes "failed to fetch queued Outbound rows")
            (Maintains-exec IsSound-IsClosed o.db_fault _ (λ w s. s)))
          (drain_rows-IsSound now)

    recover_each-IsSound :
        (rows : List Outbound) {w : World} → IsSound w → IsSound (recover_each o rows w)
    unfolding recover_each
    recover_each-IsSound [] s = s
    recover_each-IsSound (job ∷ rows) {w} s = recover_each-IsSound rows (
        (Maintains-exec IsSound-IsClosed o.db_fault (effect (update_outbound job.id requeued))
            (λ v t.
              IsSound-update_outbound job.id requeued
                (record { id = λ r. refl; message = λ r. refl; sender = λ r. refl }) t)).at
          w s)

    recovered-IsSound :
        (found : Result (List Outbound)) {w : World} → IsSound w → IsSound (recover_rows o found w)
    recovered-IsSound (ok rows) s = recover_each-IsSound rows s
    recovered-IsSound (err e) s = s

    reclaim_in_progress-IsSound : {w : World} → IsSound w → IsSound (reclaim_in_progress o w)
    unfolding reclaim_in_progress
    reclaim_in_progress-IsSound {w} s =
        let found : Action (List Outbound) =
          exec o.db_fault
            (λ v. (filter (λ job. status_eq job.status in_progress) v.outbounds, v)) in
        recovered-IsSound (found w).0 (
          (Maintains-exec IsSound-IsClosed o.db_fault
              (λ v. (filter (λ job. status_eq job.status in_progress) v.outbounds, v))
              (λ v t. t)).at
            w s)

    pub run_outbound_worker-IsSound :
        (ticks : List ℕ) {w : World} → IsSound w → IsSound (run_outbound_worker o c ticks w)
    unfolding run_outbound_worker
    run_outbound_worker-IsSound [] s = s
    run_outbound_worker-IsSound (now ∷ ticks) {w} s =
        let drained = (drain_once-IsSound now).at _ (reclaim_in_progress-IsSound s) in
        elim (Bool-cases (has_panicked (drain_once o c now (reclaim_in_progress o w)).0)) [
          | inl last ↦ rw last drained
          | inr on ↦ rw on (run_outbound_worker-IsSound ticks drained)
        ]
