-- ===== src/Send/Trail.antt =====
-- src/send.rs: what an attempt leaves, by the answers of the hosts: the rows of `DeliveryStatus`, and
-- the row of the job.
use zonemail.Prelude.{
  ℕ, ◌+◌, ◌≡◌, Text, ltb, Bool, true, false, none, some, List, [], ◌∷◌, Result, ok, err,
  if◌then◌else◌,
}
use zonemail.Db.{
  World, Message, Outbound, OutboundStatus, DeliveryStatus, queued, delivered, failed,
}
use zonemail.Db.Outbox.{outbound_at}
use zonemail.Send.{Outside, OutboundWorkerConfig, Envelope, Handoff}

-- a handoff of the message and its envelope to `host` that the transport answered with `answer`
abbrev pub Answered : Outside → Message → Envelope → Text → Result Text → Type 0
Answered o message envelope host answer =
    (n : ℕ) × (h : Handoff) × (h.host ≡ host)
    × (h.envelope ≡ envelope)
    × (h.raw ≡ message.raw)
    × (o.send_raw n h ≡ answer)

-- The rows that an attempt on `job` appends: each host in turn is handed the message and refuses it,
-- until one accepts (`true`) or none is left (`false`); the row carries the host's response or its
-- error.
pub data Trail (o : Outside) (message : Message) (envelope : Envelope) (job : ℕ)
    : List Text → Bool → List DeliveryStatus → Type 0 where
  exhausted : Trail o message envelope job [] false []
  accepted :
      {host response : Text} {rest : List Text} {row : DeliveryStatus}
      → Answered o message envelope host (ok response)
      → row.outbound_id ≡ job
      → row.peer_host ≡ host
      → row.code ≡ some 250
      → row.message ≡ some response
      → Trail o message envelope job (host ∷ rest) true (row ∷ [])
  refused :
      {host e : Text} {rest : List Text} {b : Bool} {row : DeliveryStatus}
      {rows : List DeliveryStatus}
      → Answered o message envelope host (err e)
      → row.outbound_id ≡ job
      → row.peer_host ≡ host
      → row.code ≡ none
      → row.message ≡ some e
      → Trail o message envelope job rest b rows
      → Trail o message envelope job (host ∷ rest) b (row ∷ rows)

-- the status in which an attempt leaves a job
abbrev pub final_status : OutboundWorkerConfig → Outbound → Bool → OutboundStatus
final_status c job true = delivered
final_status c job false = if ltb c.max_attempts (job.attempts + 1) then failed else queued

-- The job's row after the attempt.
pub record IsResolved (c : OutboundWorkerConfig) (job : Outbound) (taken : Bool) (w : World)
    : Type 0 where
  pub row : Outbound
  pub stored : outbound_at w job.id ≡ some row
  pub status : row.status ≡ final_status c job taken
  pub attempts : row.attempts ≡ job.attempts + 1
