-- ===== src/Send/Claims.antt =====
-- src/send.rs: `claim`, by what it returns and what it writes.
use zonemail.Prelude.{
  ℕ, ◌==◌, ◌≡◌, ◌≢◌, refl, Bool, true, false, Option, none, some, Result, ok, err, update_where,
  Option-cases, inl, inr, if◌then◌else◌, arith,
}
use zonemail.Db.{World, Outbound, queued, in_progress}
use zonemail.Db.Outbox.{outbound_at, has_id, update_outbound, map_option, find?-update_where}
use zonemail.Send.{Outside}
use zonemail.Send.Queue.{claimed, claim}

-- an update that keeps the key, as each key sees it
pub outbound_at-update :
    (i j : ℕ) (f : Outbound → Outbound) (w : World)
    → ((r : Outbound) → (f r).id ≡ r.id)
    → outbound_at (update_outbound i f w) j
      ≡ (if i == j then map_option f (outbound_at w j) else outbound_at w j)
outbound_at-update i j f w keeps = find?-update_where i j f w.outbounds keeps

-- the result of a claim that returns a job
abbrev pub hands_out : Result (Option Outbound) → Bool
hands_out (ok (some _)) = true
hands_out (ok none) = false
hands_out (err _) = false

pub hands_out_job :
    (r : Result (Option Outbound)) → hands_out r ≡ true → (job : Outbound) × (r ≡ ok (some job))
hands_out_job (ok (some job)) h = (job, refl)
hands_out_job (ok none) h = cc
hands_out_job (err _) h = cc

-- a job in progress, and else as it was
abbrev pub taken : Outbound → Outbound
taken r = record r { status = in_progress }

module _ (o : Outside) (id : ℕ) (w : World) where
  -- A claim that returns a job has found it queued under the key and left it in progress, with no
  -- other field changed, and the row of every other key as it was; no other table and no counter
  -- of keys has changed.
  pub claim-some :
      (job : Outbound)
      → (claim o id w).0 ≡ ok (some job)
      → (r : Outbound) × (outbound_at w id ≡ some r)
        × (r.status ≡ queued)
        × (job ≡ taken r)
        × (outbound_at (claim o id w).1 id ≡ some job)
        × ((j : ℕ) → j ≢ id → outbound_at (claim o id w).1 j ≡ outbound_at w j)
        × ((claim o id w).1
            ≡ record (update_outbound id taken w) { calls = (claim o id w).1.calls })
  unfolding claim
  claim-some job h = elim (Option-cases (outbound_at w id)) [
    | inl gone ↦ absurd (ground (arith, gone))
    | inr (r, found) ↦ (
      r,
      found,
      ground (arith, found),
      ground (arith, found),
      ground (arith, found, outbound_at-update id id claimed w (λ x. refl)),
      λ j ne. ground (arith, found, outbound_at-update id j claimed w (λ x. refl)),
      ground (arith, found),
    )
  ]

  -- A claim writes the table only if it returns a job; else, also if it fails, the table is as it
  -- was.
  pub claim_written : (claim o id w).1.outbounds ≡ (
      if hands_out (claim o id w).0
      then update_where (has_id id) claimed w.outbounds
      else w.outbounds)
  unfolding claim
  claim_written = elim (Option-cases (outbound_at w id)) [
    | inl gone ↦ ground (arith, gone)
    | inr (r, found) ↦ ground (arith, found)
  ]

-- Once a claim has returned a job, no claim of the same key returns one while the row stays as the
-- first claim left it, whatever else has happened to the tables and whatever fails.
pub claim_once :
    (o : Outside) (id : ℕ) (w v : World) (job : Outbound)
    → (claim o id w).0 ≡ ok (some job)
    → outbound_at v id ≡ outbound_at (claim o id w).1 id
    → (again : Outbound) → (claim o id v).0 ≢ ok (some again)
claim_once o id w v job first same again second =
    let (r, found, q, is, left, _, _) = claim-some o id w job first in
    let (s, found', q', _, _, _, _) = claim-some o id v again second in ground arith
