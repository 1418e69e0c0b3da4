-- ===== src/Send/Delivery.antt =====
-- src/send.rs: one delivery attempt on a claimed job, from the MX lookup to the job's next status.
use zonemail.Prelude.{
  ℕ, ◌+◌, ◌==◌, leb, ltb, Text, codes, split, trim, trim_end_matches, is_empty, Option, none, some,
  List, [], ◌∷◌, ◌++◌, Result, ok, err, find?, if◌then◌else◌,
}
use mathlib.Core.List.{get_last?}
use zonemail.Config.{OutboundTlsMode, OutboundTransport, credentials, tls_enabled, relay_configured}
use zonemail.Db.{World, Message, Outbound, DeliveryStatus, queued, delivered, failed}
use zonemail.Db.Action.{
  Action, pure, fail, map_err, with_prefix, lift, ask, exec, effect, ◌>>=◌, ◌>>◌,
}
use zonemail.Db.Outbox.{update_outbound}
use zonemail.Send.{
  OutboundWorkerConfig, backoff_delay, Mx, TlsParameters, Tls, Envelope, Handoff, Outside, as_i64,
}

-- `record_delivery`'s `INSERT`
abbrev pub insert_delivery : ℕ → Text → Option ℕ → Option Text → World → Unit {0} × World
insert_delivery outbound_id peer_host code message w =
    let row : DeliveryStatus = record {
      id = w.next_delivery;
      outbound_id = outbound_id;
      peer_host = peer_host;
      code = code;
      message = message;
    } in
    (
      tt,
      record w {
        delivery_statuses = w.delivery_statuses ++ row ∷ [];
        next_delivery = w.next_delivery + 1;
      },
    )

-- the three updates that end an attempt
abbrev pub mark_delivered : ℕ → Outbound → Outbound
mark_delivered attempts job = record job {
  status = delivered;
  attempts = attempts;
  next_attempt_at = none;
  last_error = none;
}

abbrev pub mark_failed : ℕ → Text → Outbound → Outbound
mark_failed attempts reason job = record job {
  status = failed;
  attempts = attempts;
  next_attempt_at = none;
  last_error = some reason;
}

abbrev pub mark_requeued : ℕ → ℕ → Text → Outbound → Outbound
mark_requeued attempts next reason job = record job {
  status = queued;
  attempts = attempts;
  next_attempt_at = some next;
  last_error = some reason;
}

-- The error that stands for a panic of the worker's task: no `String` holds this code.
abbrev pub panic_mark : Text
panic_mark = 1114112 ∷ []

-- `sort_by_key(|mx| mx.preference())`, which is stable
unfoldable pub insert_mx : Mx → List Mx → List Mx
insert_mx x [] = x ∷ []
insert_mx x (y ∷ ys) =
    let rest = insert_mx x ys in if leb x.preference y.preference then x ∷ y ∷ ys else y ∷ rest

unfoldable pub sort_mx : List Mx → List Mx
unfolding insert_mx
sort_mx [] = []
sort_mx (x ∷ xs) = insert_mx x (sort_mx xs)

-- the loop of `lookup_mx_hosts`
unfoldable pub mx_hosts : List Mx → List Text
mx_hosts [] = []
mx_hosts (mx ∷ rest) =
    let host = trim_end_matches (λ c. c == b'.') mx.exchange in
    let hosts = mx_hosts rest in if is_empty host then hosts else host ∷ hosts

-- `recipient.split('@').last()`
unfoldable pub recipient_domain : Text → Option Text
recipient_domain recipient = get_last? (split (λ c. c == b'@') recipient)

-- `build_outbound_tls`'s parameters
abbrev pub tls_parameters : OutboundTransport → Text → TlsParameters
tls_parameters transport domain = record {
  domain = domain;
  accept_invalid_hostnames = transport.insecure;
  accept_invalid_certs = transport.insecure;
}

abbrev pub tls_with : OutboundTlsMode → TlsParameters → Tls
tls_with OutboundTlsMode.opportunistic p = Tls.opportunistic p
tls_with OutboundTlsMode.required p = Tls.required p
tls_with OutboundTlsMode.implicit p = Tls.wrapper p
tls_with OutboundTlsMode.plain p = Tls.none

abbrev pub map_result {ℓ κ} : {A : Type ℓ} {B : Type κ} → (A → B) → Result A → Result B
map_result f (ok a) = ok (f a)
map_result f (err e) = err e

-- The port of `deliver_hosts`: a relay's own, unless it is 0.
unfoldable pub dial_port : OutboundWorkerConfig → ℕ
dial_port c = elim c.transport.relay [
  | none ↦ c.submission_port
  | some r ↦ if r.port == 0 then c.submission_port else r.port
]

abbrev no_relay_host : Text
no_relay_host = codes "outbound relay is configured but has no `host`"

-- The targets of `deliver_hosts`: the relay where one is configured, else the MX hosts.
unfoldable pub targets : OutboundWorkerConfig → List Text → Result (List Text)
targets c hosts =
    if relay_configured c.transport
    then elim c.transport.relay [
      | none ↦ err no_relay_host
      | some r ↦ elim r.host [ none ↦ err no_relay_host | some host ↦ ok (host ∷ []) ]
    ]
    else ok hosts

-- `format!("via {host}: {e}")`
abbrev pub via : Text → Text → Text
via host e = codes "via " ++ (host ++ (codes ": " ++ e))

abbrev pub or_default : Option Text → Text → Text
or_default none d = d
or_default (some t) d = t

module _ (o : Outside) where
  -- `now + jiff::Span::new().seconds(delay.as_secs() as i64)`, or `none` where it panics
  abbrev pub add_secs : ℕ → ℕ → Option ℕ
  add_secs now s = o.add_span now (as_i64 s)

  -- `build_outbound_tls`
  unfoldable pub build_outbound_tls : OutboundTransport → Text → Result Tls
  build_outbound_tls transport domain =
      if tls_enabled transport
      then map_result (tls_with transport.tls) (o.build_native (tls_parameters transport domain))
      else ok Tls.none

  -- `build_envelope`
  unfoldable pub build_envelope : Text → Text → Result Envelope
  build_envelope mail_from recipient =
      let sender : Result (Option Text) =
        if is_empty (trim mail_from)
        then ok none
        else map_result some
            (with_prefix (codes "invalid MAIL FROM") (o.parse_address mail_from)) in
      elim sender [
        | err e ↦ err e
        | ok from ↦ elim (with_prefix (codes "invalid RCPT TO") (o.parse_address recipient)) [
          | err e ↦ err e
          | ok to ↦ with_prefix (codes "failed to build envelope") (o.envelope_new from (to ∷ []))
        ]
      ]

  -- `lookup_mx_hosts` from the domain on
  unfoldable pub lookup_domain : Option Text → Action (List Text)
  lookup_domain none = fail (codes "invalid RCPT TO: no domain part: recipient")
  lookup_domain (some domain) = do
    map_err (codes "failed to build DNS resolver") (ask o.system_conf)
    response ← map_err (codes "MX lookup failed") (ask (λ n. o.mx_lookup n domain))
    pure (mx_hosts (sort_mx response))

  -- `lookup_mx_hosts`
  unfoldable pub lookup_mx_hosts : Text → Action (List Text)
  unfolding lookup_domain
  lookup_mx_hosts recipient = lookup_domain (recipient_domain recipient)

  -- `record_delivery`
  unfoldable pub record_delivery : ℕ → Text → Option ℕ → Option Text → Action (Unit {0})
  record_delivery outbound_id peer_host code message =
      map_err (codes "failed to record DeliveryStatus")
        (exec o.db_fault (insert_delivery outbound_id peer_host code message))

  abbrev pub found_or_fail : Option Message → Action Message
  found_or_fail none = fail o.not_found
  found_or_fail (some m) = pure m

  -- `Message::get_by_id`
  abbrev pub get_message : ℕ → Action Message
  get_message id = do
    found ← exec o.db_fault (λ v. (find? (λ m. m.id == id) v.messages, v))
    found_or_fail found

  module _ (c : OutboundWorkerConfig) (now : ℕ) where
    -- the second branch of `fail_or_requeue`, from the time of the next attempt on
    abbrev pub requeue : Outbound → ℕ → Text → Option ℕ → Action (Unit {0})
    requeue job attempts reason none = fail panic_mark
    requeue job attempts reason (some next) =
        map_err (codes "failed to requeue Outbound")
          (exec o.db_fault (effect (update_outbound job.id (mark_requeued attempts next reason))))

    -- `fail_or_requeue`
    unfoldable pub fail_or_requeue : Outbound → Text → Action (Unit {0})
    fail_or_requeue job reason =
        let attempts = job.attempts + 1 in
        if ltb c.max_attempts attempts
        then map_err (codes "failed to mark Outbound Failed")
            (exec o.db_fault (effect (update_outbound job.id (mark_failed attempts reason))))
        else requeue job attempts reason (add_secs now (backoff_delay c attempts).secs)

    module _ (job : Outbound) (message : Message) (envelope : Envelope) where
      -- the handoff to one host, at the state in which it is made
      abbrev pub handoff : Text → Tls → World → Handoff
      handoff host tls w = record {
        host = host;
        port = dial_port c;
        tls = tls;
        credentials = elim c.transport.relay [
          | none ↦ none
          | some r ↦ credentials (o.env_var w.calls) r
        ];
        envelope = envelope;
        raw = message.raw;
      }

      unfoldable pub send : Text → Tls → Action (Result Text)
      send host tls w = ask (λ n. ok (o.send_raw n (handoff host tls w))) w

      -- what follows a handoff; `next` goes on with the remaining hosts
      unfoldable pub after_send :
          Text → Result Text → (Text → Action (Unit {0})) → Action (Unit {0})
      after_send host (ok response) next = do
        record_delivery job.id host (some 250) (some response)
        map_err (codes "failed to mark Outbound Delivered")
            (exec o.db_fault (effect (update_outbound job.id (mark_delivered (job.attempts + 1)))))
      after_send host (err e) next = do record_delivery job.id host none (some e); next (via host e)

      -- the loop of `deliver_hosts`
      unfoldable pub try_hosts : Option Text → List Text → Action (Unit {0})
      unfolding send after_send
      try_hosts last_error [] =
          fail_or_requeue job (or_default last_error (codes "all MX attempts failed"))
      try_hosts last_error (host ∷ rest) = do
        tls ← lift (build_outbound_tls c.transport host)
        sent ← send host tls
        after_send host sent (λ reason. try_hosts (some reason) rest)

      unfoldable pub deliver_targets : List Text → Action (Unit {0})
      deliver_targets [] = fail_or_requeue job (codes "no MX records for domain")
      deliver_targets (host ∷ rest) = try_hosts none (host ∷ rest)

      -- `deliver_hosts`
      unfoldable pub deliver_hosts : List Text → Action (Unit {0})
      unfolding deliver_targets
      deliver_hosts hosts = do chosen ← lift (targets c hosts); deliver_targets chosen

    -- `deliver_one`
    unfoldable pub deliver_one : Outbound → Action (Unit {0})
    deliver_one job = do
      message ← map_err (codes "failed to load Message for Outbound") (get_message job.message_id)
      envelope ← lift (build_envelope message.mail_from job.rcpt_to)
      hosts ← map_err (codes "failed to look up MX hosts") (lookup_mx_hosts job.rcpt_to)
      deliver_hosts job message envelope hosts
