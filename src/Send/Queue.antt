-- ===== src/Send/Queue.antt =====
-- src/send.rs: the queue's statements, that is the producers, `reclaim_in_progress` and `claim`.
use zonemail.Prelude.{
  ℕ, ◌+◌, Text, codes, Option, none, some, List, [], ◌∷◌, ◌++◌, Result, ok, err, filter,
  if◌then◌else◌,
}
use zonemail.Db.{World, Outbound, queued, in_progress}
use zonemail.Db.Action.{Action, pure, map_err, exec, transaction, effect, no_effect, ◌>>=◌, ◌>>◌}
use zonemail.Db.Outbox.{outbound_at, update_outbound, status_eq}
use zonemail.Send.{Outside}

-- the new job of `enqueue_forward` and of the end of `enqueue_outbound`
abbrev pub new_job : ℕ → ℕ → Text → Text → Outbound
new_job id message_id sender rcpt = record {
  id = id;
  message_id = message_id;
  rcpt_to = rcpt;
  sender_id = sender;
  status = queued;
  attempts = 0;
  next_attempt_at = none;
  last_error = none;
}

-- `INSERT INTO outbound`, with the automatic key
abbrev pub insert_job : ℕ → Text → Text → World → ℕ × World
insert_job message_id sender rcpt w = (
  w.next_outbound,
  record w {
    outbounds = w.outbounds ++ new_job w.next_outbound message_id sender rcpt ∷ [];
    next_outbound = w.next_outbound + 1;
  },
)

-- the update of `reclaim_in_progress`
abbrev pub requeued : Outbound → Outbound
requeued job = record job { status = queued; next_attempt_at = none; last_error = none }

-- the update of `claim`
abbrev pub claimed : Outbound → Outbound
claimed job = record job { status = in_progress }

module _ (o : Outside) where
  -- `enqueue_forward`
  unfoldable pub enqueue_forward : ℕ → Text → Text → Action ℕ
  enqueue_forward message_id sender_id forward_to =
      map_err (codes "failed to enqueue forward Outbound")
        (exec o.db_fault (insert_job message_id sender_id forward_to))

  -- the loop of `reclaim_in_progress`: an update that fails is logged
  unfoldable pub recover_each : List Outbound → World → World
  recover_each [] w = w
  recover_each (job ∷ rows) w =
      recover_each rows (exec o.db_fault (effect (update_outbound job.id requeued)) w).1

  abbrev pub recover_rows : Result (List Outbound) → World → World
  recover_rows (ok rows) w = recover_each rows w
  recover_rows (err e) w = w

  -- `reclaim_in_progress`
  unfoldable pub reclaim_in_progress : World → World
  reclaim_in_progress w =
      let (rows, v) =
        exec o.db_fault (λ v. (filter (λ job. status_eq job.status in_progress) v.outbounds, v))
          w in
      recover_rows rows v

  abbrev pub commit : Action (Unit {0})
  commit = exec o.db_fault no_effect

  -- `claim` after its query, up to the commit
  unfoldable pub claim_row : ℕ → Option Outbound → Action (Option Outbound)
  claim_row id none = do map_err (codes "failed to commit empty claim") commit; pure none
  claim_row id (some job) =
      if status_eq job.status queued
      then (do
        map_err (codes "failed to flip Outbound InProgress")
            (exec o.db_fault (effect (update_outbound id claimed)))
        map_err (codes "failed to commit claim") commit
        pure (some (claimed job)))
      else (do map_err (codes "failed to commit discarded claim") commit; pure none)

  unfoldable pub claim_body : ℕ → Action (Option Outbound)
  unfolding claim_row
  claim_body id = do
    map_err (codes "failed to begin claim transaction") (exec o.db_fault no_effect)
    job ←
        map_err (codes "failed to load job for claim")
          (exec o.db_fault (λ v. (outbound_at v id, v)))
    claim_row id job

  -- `claim`
  unfoldable pub claim : ℕ → Action (Option Outbound)
  unfolding claim_body
  claim id = transaction (claim_body id)
