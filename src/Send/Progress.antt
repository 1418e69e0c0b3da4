-- ===== src/Send/Progress.antt =====
-- src/send.rs: the worker against the life of a job, from `claim` to the poll loop.
use mathlib.Core.Path.{subst}
use zonemail.Prelude.{
  ℕ, ◌+◌, ◌==◌, ◌≡◌, ◌⊎◌, refl, sym, codes, Option, none, some, List, [], ◌∷◌, Result, ok, err,
  filter, All, All-filter, All-imp, Distinct, Option-cases, Bool-cases, inl, inr, arith,
}
use zonemail.Db.{World, Outbound, queued, in_progress}
use zonemail.Db.Action.{Action, exec, effect, follow, ◌>>=◌}
use zonemail.Db.Outbox.{
  outbound_at, update_outbound, status_eq, find?_id, ids, IsFirst, All-IsFirst, find?-update_where,
}
use zonemail.Send.{Outside, OutboundWorkerConfig}
use zonemail.Send.Queue.{claimed, requeued, claim, reclaim_in_progress, recover_each}
use zonemail.Send.Worker.{
  deliver_claimed, drain_job, drain_rows, drain_once, fetch_queued, run_outbound_worker, is_due,
  has_panicked,
}
use zonemail.Send.Claims.{claim-some, claim_written, hands_out, hands_out_job}
use zonemail.Send.Lifecycle.{Step, Reach, Moves, Moves-same, Moves-trans, Moves-update, here, next}
use zonemail.Send.Attempt.{
  Holds, IsQuiet, IsQuiet-prefix, IsQuiet-statement, Ends-deliver_one, status_eq→≡,
}

module _ (o : Outside) (c : OutboundWorkerConfig) where
  Moves-claim : (id : ℕ) (w : World) → Moves o c w (claim o id w).1
  Moves-claim id w = elim (Bool-cases (hands_out (claim o id w).0)) [
    | inl taken ↦
        let (job, e) = hands_out_job (claim o id w).0 taken in
        let (r, found, q, _, _, _, _) = claim-some o id w job e in
        Moves-update o c id r claimed (λ x. refl) (rw taken at (claim_written o id w)) found
          (next here (Step.take q))
    | inr refused ↦ Moves-same o c (rw refused at (claim_written o id w))
  ]

  Moves-deliver_claimed :
      (now : ℕ) (job : Outbound) (w : World)
      → Holds o c job w
      → Moves o c w (deliver_claimed o c now (some job) w).1
  unfolding deliver_claimed
  Moves-deliver_claimed now job w h = (Ends-deliver_one o c now job).at w h

  -- a job that a claim handed out is held by the worker
  claim-Holds :
      (id : ℕ) (w : World) (job : Outbound)
      → (claim o id w).0 ≡ ok (some job)
      → Holds o c job (claim o id w).1
  claim-Holds id w job e =
      let (r, found, q, is, left, _, _) = claim-some o id w job e in
      let same : job.id ≡ id = find?_id id (claim o id w).1.outbounds job left in
      (subst (λ k. outbound_at (claim o id w).1 k ≡ some job) (sym same) left, rw is refl)

  Moves-follow :
      {A B : Type 0} (r : Result A) (f : A → Action B) (w : World)
      → ((a : A) → r ≡ ok a → Moves o c w (f a w).1)
      → Moves o c w (follow r f w).1
  Moves-follow (ok a) f w m = m a refl
  Moves-follow (err e) f w m = Moves-same o c refl

  Moves-bind :
      {A B : Type 0} (m : Action A) (f : A → Action B) (w : World)
      → Moves o c w (m w).1
      → ((a : A) → (m w).0 ≡ ok a → Moves o c (m w).1 (f a (m w).1).1)
      → Moves o c w ((m >>= f) w).1
  Moves-bind m f w first rest = Moves-trans o c first (Moves-follow (m w).0 f (m w).1 rest)

  Moves-deliver_outcome :
      (now id : ℕ) (w : World) (got : Option Outbound)
      → (claim o id w).0 ≡ ok got
      → Moves o c (claim o id w).1 (deliver_claimed o c now got (claim o id w).1).1
  Moves-deliver_outcome now id w none e = unfold deliver_claimed in Moves-same o c refl
  Moves-deliver_outcome now id w (some job) e =
      Moves-deliver_claimed now job (claim o id w).1 (claim-Holds id w job e)

  Moves-drain_job : (now : ℕ) (job : Outbound) (w : World) → Moves o c w (drain_job o c now job w).1
  unfolding drain_job
  Moves-drain_job now job w = elim (Bool-cases (is_due now job)) [
    | inr later ↦ rw later (Moves-same o c refl)
    | inl due ↦ rw due (
        Moves-bind (claim o job.id) (deliver_claimed o c now) w (Moves-claim job.id w)
          (Moves-deliver_outcome now job.id w))
  ]

  Moves-drain_rows :
      (now : ℕ) (rows : List Outbound) (w : World) → Moves o c w (drain_rows o c now rows w).1
  unfolding drain_rows
  Moves-drain_rows now [] w = Moves-same o c refl
  Moves-drain_rows now (job ∷ rows) w =
      Moves-bind (drain_job o c now job) (λ _. drain_rows o c now rows) w
        (Moves-drain_job now job w) (λ _ _. Moves-drain_rows now rows (drain_job o c now job w).1)

  Moves-quiet : {A : Type 0} {m : Action A} (w : World) → IsQuiet o c m → Moves o c w (m w).1
  Moves-quiet w q = Moves-same o c (q.at w)

  Moves-drain_once : (now : ℕ) (w : World) → Moves o c w (drain_once o c now w).1
  unfolding drain_once
  Moves-drain_once now w =
      Moves-bind (fetch_queued o c) (drain_rows o c now) w
        (Moves-quiet w (
          IsQuiet-prefix o c (codes "failed to fetch queued Outbound rows") (
            IsQuiet-statement o c
              (λ v. (filter (λ job. status_eq job.status queued) v.outbounds, v)) (λ v. refl))))
        (λ rows _. Moves-drain_rows now rows _)

  -- a row that `reclaim_in_progress` may still write: in progress, or written already
  abbrev Recoverable : World → Outbound → Type 0
  Recoverable w job =
      (r : Outbound) × (outbound_at w job.id ≡ some r)
      × ((r.status ≡ in_progress) ⊎ (requeued r ≡ r))

  recover_step :
      (id : ℕ) (r : Outbound)
      → (r.status ≡ in_progress) ⊎ (requeued r ≡ r)
      → Reach o c r (requeued r)
  recover_step id r (inl p) = next here (Step.reclaim p)
  recover_step id r (inr p) = rw p here

  module _ (job : Outbound) (w : World) where
    after_recovery : World
    after_recovery = (exec o.db_fault (effect (update_outbound job.id requeued)) w).1

    Recoverable-kept : (j : Outbound) → Recoverable w j → Recoverable after_recovery j
    unfolding after_recovery
    Recoverable-kept j (r, found, may) = elim (Option-cases (o.db_fault w.calls)) [
      | inr (e, broken) ↦ rw (broken, after_recovery) (r, found, may)
      | inl fine ↦
          rw (fine, after_recovery)
            (let law = find?-update_where job.id j.id requeued w.outbounds (λ x. refl) in
              elim (Bool-cases (job.id == j.id)) [
                | inl same ↦ (requeued r, ground (arith, law), inr refl)
                | inr other ↦ (r, ground (arith, law), may)
              ])
    ]

    Moves-recovery : Recoverable w job → Moves o c w after_recovery
    unfolding after_recovery
    Moves-recovery (r, found, may) = elim (Option-cases (o.db_fault w.calls)) [
      | inr (e, broken) ↦ rw (broken, after_recovery) (Moves-same o c refl)
      | inl fine ↦
          rw (fine, after_recovery)
            (Moves-update o c job.id r requeued (λ x. refl) refl found (recover_step job.id r may))
    ]

  Moves-recover_each :
      (rows : List Outbound) (w : World)
      → All (Recoverable w) rows
      → Moves o c w (recover_each o rows w)
  unfolding recover_each after_recovery
  Moves-recover_each [] w h = Moves-same o c refl
  Moves-recover_each (job ∷ rows) w h = Moves-trans o c (Moves-recovery job w h.0) (
      Moves-recover_each rows (after_recovery job w) (
        All-imp (Recoverable w) (Recoverable (after_recovery job w)) rows (Recoverable-kept job w)
          h.1))

  in_progress_rows : World → List Outbound
  in_progress_rows w = filter (λ job. status_eq job.status in_progress) w.outbounds

  Recoverable-rows :
      (w : World) → Distinct (ids w.outbounds) → All (Recoverable w) (in_progress_rows w)
  unfolding in_progress_rows
  Recoverable-rows w d =
      All-imp _ (Recoverable w) (in_progress_rows w)
        (λ job h. (job, h.0, inl (status_eq→≡ job.status in_progress h.1)))
        (All-filter (IsFirst w.outbounds) (λ job. status_eq job.status in_progress) w.outbounds
          (All-IsFirst w.outbounds d))

  Moves-reclaim_in_progress :
      (w : World) → Distinct (ids w.outbounds) → Moves o c w (reclaim_in_progress o w)
  unfolding reclaim_in_progress in_progress_rows
  Moves-reclaim_in_progress w d = elim (Option-cases (o.db_fault w.calls)) [
    | inr (e, broken) ↦ rw broken (Moves-same o c refl)
    | inl fine ↦ rw fine (
        Moves-trans o c (Moves-same o c refl) (
          Moves-recover_each (in_progress_rows w) (record w { calls = w.calls + 1 })
            (Recoverable-rows w d)))
  ]

  -- The worker, over any ticks and whatever calls fail, neither loses nor adds a job, and brings
  -- each job on by the transitions of its life only, if the keys of the table differ.
  pub Moves-run_outbound_worker :
      (ticks : List ℕ) (w : World)
      → Distinct (ids w.outbounds)
      → Moves o c w (run_outbound_worker o c ticks w)
  unfolding run_outbound_worker
  Moves-run_outbound_worker [] w d = Moves-same o c refl
  Moves-run_outbound_worker (now ∷ ticks) w d =
      let tick =
        Moves-trans o c (Moves-reclaim_in_progress w d)
          (Moves-drain_once now (reclaim_in_progress o w)) in
      elim (Bool-cases (has_panicked (drain_once o c now (reclaim_in_progress o w)).0)) [
        | inl last ↦ rw last tick
        | inr on ↦ rw on (Moves-trans o c tick (Moves-run_outbound_worker ticks _ (rw tick.keys d)))
      ]
