-- ===== src/Send/Recovery.antt =====
-- src/send.rs: `reclaim_in_progress` where the database answers.
use zonemail.Prelude.{
  ℕ, ◌+◌, ◌==◌, ◌≡◌, refl, ◌∙◌, Bool, false, none, some, List, [], ◌∷◌, ok, find?, Bool-cases, inl,
  inr, any, filter, Distinct, if◌then◌else◌, arith,
}
use zonemail.Db.{World, Outbound, queued, in_progress}
use zonemail.Db.Outbox.{
  outbound_at, has_id, update_outbound, status_eq, map_option, find?-update_where, ids,
  ids-update_where,
}
use zonemail.Send.{Outside}
use zonemail.Send.Queue.{claimed, requeued, claim, reclaim_in_progress, recover_each}
use zonemail.Send.Claims.{claim-some, claim_written, hands_out}

-- what a reclaim makes of a row
abbrev pub put_back : Outbound → Outbound
put_back r = if status_eq r.status in_progress then requeued r else r

abbrev holds_id : ℕ → List Outbound → Bool
holds_id j rows = any (has_id j) rows

find?_fresh :
    (j : ℕ) (rows : List Outbound)
    → any (λ m. m == j) (ids rows) ≡ false
    → find? (has_id j) rows ≡ none
find?_fresh j [] h = refl
find?_fresh j (r ∷ rows) h = ground (arith, find?_fresh j rows)

-- whether a row is among those that the query of `reclaim_in_progress` returns
holds_id-filter :
    (j : ℕ) (rows : List Outbound)
    → Distinct (ids rows)
    → holds_id j (filter (λ r. status_eq r.status in_progress) rows)
      ≡ (elim (find? (has_id j) rows) [ none ↦ false | some r ↦ status_eq r.status in_progress ])
holds_id-filter j [] d = refl
holds_id-filter j (r ∷ rows) d =
    ground (arith, holds_id-filter j rows d.1, find?_fresh r.id rows d.0, d.0)

module _ (o : Outside) (fine : (n : ℕ) → o.db_fault n ≡ none) where
  -- what the loop makes of the row of a key
  recover_each_row :
      (j : ℕ) (rows : List Outbound) (w : World)
      → outbound_at (recover_each o rows w) j
        ≡ (if holds_id j rows then map_option requeued (outbound_at w j) else outbound_at w j)
  unfolding recover_each
  recover_each_row j [] w = refl
  recover_each_row j (job ∷ rows) w =
      rw (fine w.calls, recover_each)
        (ground (
          arith,
          recover_each_row j rows
              (update_outbound job.id requeued (record w { calls = w.calls + 1 })),
          find?-update_where job.id j requeued w.outbounds (λ x. refl),
        ))

  -- Without a database error, a reclaim puts every job that is in progress back on the queue, with
  -- no waiting time and no error text, and leaves every other row as it was.
  pub reclaim_in_progress-row :
      (j : ℕ) (w : World)
      → Distinct (ids w.outbounds)
      → outbound_at (reclaim_in_progress o w) j ≡ map_option put_back (outbound_at w j)
  unfolding reclaim_in_progress
  reclaim_in_progress-row j w d = rw (fine w.calls) (
      ground (
        arith,
        recover_each_row j (filter (λ r. status_eq r.status in_progress) w.outbounds)
            (record w { calls = w.calls + 1 }),
        holds_id-filter j w.outbounds d,
      ))

  -- A claim of a queued job succeeds, if no statement fails.
  pub claim-queued :
      (id : ℕ) (w : World) (r : Outbound)
      → outbound_at w id ≡ some r
      → r.status ≡ queued
      → (claim o id w).0 ≡ ok (some (claimed r))
  unfolding claim
  claim-queued id w r found q = ground (
    arith,
    found,
    fine w.calls,
    fine (w.calls + 1),
    fine (w.calls + 1 + 1),
    fine (w.calls + 1 + 1 + 1),
  )

  ids-claim : (id : ℕ) (w : World) → ids (claim o id w).1.outbounds ≡ ids w.outbounds
  ids-claim id w = elim (Bool-cases (hands_out (claim o id w).0)) [
    | inl taken ↦
        rw (claim_written o id w, taken)
          (ids-update_where (has_id id) claimed w.outbounds (λ x. refl))
    | inr refused ↦ rw (claim_written o id w, refused) refl
  ]

  -- A reclaim does not tell a job that a crash left behind from one that a live worker has just
  -- claimed: without a database error, after a claim of a queued job and a reclaim by another
  -- worker, a second claim hands the same job out again.
  pub reclaim_releases_claim :
      (id : ℕ) (w : World) (r : Outbound)
      → Distinct (ids w.outbounds)
      → outbound_at w id ≡ some r
      → r.status ≡ queued
      → ((claim o id w).0 ≡ ok (some (claimed r)))
        × ((claim o id (reclaim_in_progress o (claim o id w).1)).0
            ≡ ok (some (claimed (requeued (claimed r)))))
  reclaim_releases_claim id w r d found q =
      let first = claim-queued id w r found q in
      let (s, _, _, _, left, _, _) = claim-some o id w (claimed r) first in
      (
        first,
        claim-queued id (reclaim_in_progress o (claim o id w).1) (requeued (claimed r))
            (reclaim_in_progress-row id (claim o id w).1 (rw ids-claim d) ∙ rw left) refl,
      )
