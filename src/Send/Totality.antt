-- ===== src/Send/Totality.antt =====
-- src/send.rs: when `deliver_hosts` returns.
use zonemail.Prelude.{
  ℕ, ◌+◌, ◌≡◌, Text, ltb, Option, none, some, List, [], ◌∷◌, Result, ok, err, Bool-cases, inl, inr,
}
use zonemail.Config.{tls_enabled}
use zonemail.Db.{World, Message, Outbound}
use zonemail.Db.Action.{Action, tick}
use zonemail.Send.{Outside, OutboundWorkerConfig, Envelope, Tls, TlsParameters, backoff_delay}
use zonemail.Send.Delivery.{
  add_secs, fail_or_requeue, record_delivery, build_outbound_tls, try_hosts, deliver_hosts,
  deliver_targets, targets, send, after_send, tls_parameters, tls_with,
}

module _ (o : Outside) (c : OutboundWorkerConfig) (now : ℕ) (job : Outbound) (message : Message)
    (envelope : Envelope) (fine : (n : ℕ) → o.db_fault n ≡ none) (due : ℕ)
    (timed : add_secs o now (backoff_delay c (job.attempts + 1)).secs ≡ some due)
    (builds : (p : TlsParameters) → (q : TlsParameters) × (o.build_native p ≡ ok q)) where
  fail_or_requeue-returns :
      (reason : Text) (w : World) → (fail_or_requeue o c now job reason w).0 ≡ ok tt
  unfolding fail_or_requeue
  fail_or_requeue-returns reason w = elim (Bool-cases (ltb c.max_attempts (job.attempts + 1))) [
    | inl over ↦ rw (over, fine w.calls)
    | inr within ↦ rw (within, timed, fine w.calls)
  ]

  tls_builds : (host : Text) → (t : Tls) × (build_outbound_tls o c.transport host ≡ ok t)
  unfolding build_outbound_tls
  tls_builds host = elim (Bool-cases (tls_enabled c.transport)) [
    | inl secure ↦
        let (q, e) = builds (tls_parameters c.transport host) in
        (tls_with c.transport.tls q, rw (secure, e))
    | inr clear ↦ (Tls.none, rw clear)
  ]

  after_send-returns :
      (host : Text) (sent : Result Text) (next : Text → Action (Unit {0})) (w : World)
      → ((reason : Text) (v : World) → (next reason v).0 ≡ ok tt)
      → (after_send o c now job message envelope host sent next w).0 ≡ ok tt
  unfolding after_send record_delivery
  after_send-returns host (ok response) next w ih = rw (fine w.calls, fine (w.calls + 1))
  after_send-returns host (err e) next w ih = rw (fine w.calls) (ih _ _)

  try_hosts-returns :
      (last : Option Text) (hosts : List Text) (w : World)
      → (try_hosts o c now job message envelope last hosts w).0 ≡ ok tt
  unfolding try_hosts send
  try_hosts-returns last [] w = fail_or_requeue-returns _ w
  try_hosts-returns last (host ∷ rest) w =
      let (t, e) = tls_builds host in
      rw e
        (after_send-returns host _ _ (tick w) (λ reason v. try_hosts-returns (some reason) rest v))

  pub deliver_hosts-returns :
      (hosts chosen : List Text) (w : World)
      → targets c hosts ≡ ok chosen
      → (deliver_hosts o c now job message envelope hosts w).0 ≡ ok tt
  unfolding deliver_hosts deliver_targets
  deliver_hosts-returns hosts [] w t = rw t (fail_or_requeue-returns _ w)
  deliver_hosts-returns hosts (host ∷ rest) w t = rw t (try_hosts-returns none (host ∷ rest) w)
