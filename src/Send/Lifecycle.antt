-- ===== src/Send/Lifecycle.antt =====
-- The life of a job: the transitions that the worker may make, and that it makes no others.
use zonemail.Prelude.{
  ℕ, ◌+◌, ◌<◌, ◌≤◌, ◌==◌, ◌≡◌, ◌∙◌, update_where, Text, Option, none, some, Bool-cases, inl, inr,
  arith,
}
use zonemail.Db.{World, Outbound, queued, in_progress}
use zonemail.Db.Outbox.{outbound_at, has_id, find?-update_where, ids, ids-update_where}
use zonemail.Send.{Outside, OutboundWorkerConfig, backoff_delay}
use zonemail.Send.Queue.{claimed, requeued}
use zonemail.Send.Delivery.{mark_delivered, mark_failed, mark_requeued, add_secs}

module _ (o : Outside) (c : OutboundWorkerConfig) where
  -- The transitions of a job.
  pub data Step (r : Outbound) : Outbound → Type 0 where
    take : r.status ≡ queued → Step r (claimed r)
    reclaim : r.status ≡ in_progress → Step r (requeued r)
    deliver : r.status ≡ in_progress → Step r (mark_delivered (r.attempts + 1) r)
    give_up :
        (reason : Text)
        → r.status ≡ in_progress
        → c.max_attempts < r.attempts + 1
        → Step r (mark_failed (r.attempts + 1) reason r)
    retry :
        (reason : Text) (now due : ℕ)
        → r.status ≡ in_progress
        → r.attempts + 1 ≤ c.max_attempts
        → add_secs o now (backoff_delay c (r.attempts + 1)).secs ≡ some due
        → Step r (mark_requeued (r.attempts + 1) due reason r)

  pub data Reach (r : Outbound) : Outbound → Type 0 where
    here : Reach r r
    next : {s t : Outbound} → Reach r s → Step s t → Reach r t

  pub Reach-trans : {r s t : Outbound} → Reach r s → Reach s t → Reach r t
  Reach-trans p here = p
  Reach-trans p (next q st) = next (Reach-trans p q) st

  -- How the row of a key may change: by transitions, and it neither comes nor goes.
  pub data Way : Option Outbound → Option Outbound → Type 0 where
    absent : Way none none
    path : {r s : Outbound} → Reach r s → Way (some r) (some s)

  pub Way-refl : (x : Option Outbound) → Way x x
  Way-refl none = absent
  Way-refl (some r) = path here

  pub Way-trans : {x y z : Option Outbound} → Way x y → Way y z → Way x z
  Way-trans absent absent = absent
  Way-trans (path p) (path q) = path (Reach-trans p q)

  -- No row is lost or added, and each changes by transitions.
  pub record Moves (v w : World) : Type 0 where
    pub keys : ids w.outbounds ≡ ids v.outbounds
    pub way : (j : ℕ) → Way (outbound_at v j) (outbound_at w j)

  pub Moves-same : {v w : World} → w.outbounds ≡ v.outbounds → Moves v w
  Moves-same {v} {w} h = record { keys = rw h; way = λ j. rw h (Way-refl (outbound_at v j)) }

  pub Moves-trans : {u v w : World} → Moves u v → Moves v w → Moves u w
  Moves-trans p q = record { keys = q.keys ∙ p.keys; way = λ j. Way-trans (p.way j) (q.way j) }

  -- an update of a row that it brings one transition on
  pub Moves-update :
      {v w : World} (id : ℕ) (r : Outbound) (f : Outbound → Outbound)
      → ((x : Outbound) → (f x).id ≡ x.id)
      → w.outbounds ≡ update_where (has_id id) f v.outbounds
      → outbound_at v id ≡ some r
      → Reach r (f r)
      → Moves v w
  Moves-update {v} {w} id r f keeps written found st = record {
    keys = rw written (ids-update_where (has_id id) f v.outbounds keeps);
    way = λ j.
        rw (written, find?-update_where id j f v.outbounds keeps)
          (elim (Bool-cases (id == j)) [
            | inl same ↦ (let e : id ≡ j = ground arith in rw (same, ← e, found) (path st))
            | inr other ↦ rw other (Way-refl (outbound_at v j))
          ]);
  }
