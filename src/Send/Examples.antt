-- ===== src/Send/Examples.antt =====
-- The worker at concrete states: a queued job for a recipient with two MX hosts, of which the second
-- accepts.
use zonemail.Prelude.{
  ◌+◌, ℕ, ◌≡◌, ◌≢◌, ◌≤◌, ◌*◌, ◌^◌, refl, min, Text, codes, text_eq, none, some, List, [], ◌∷◌, ok,
  err, inl, if◌then◌else◌, arith, update_where, is_whitespace,
}
use zonemail.Db.{World, Message, Outbound, queued}
use zonemail.Db.Outbox.{outbound_at, has_id, map_option, update_outbound}
use zonemail.Send.{Outside, Mx, Envelope, default_config, backoff_delay, ahead, back}
use zonemail.Send.Queue.{new_job, claimed, requeued, claim, reclaim_in_progress, recover_each}
use zonemail.Send.Delivery.{
  add_secs, mark_delivered, deliver_hosts, sort_mx, mx_hosts, recipient_domain, try_hosts,
  deliver_targets, send, after_send, record_delivery, build_outbound_tls, targets, deliver_one,
  lookup_mx_hosts, build_envelope,
}
use zonemail.Send.Worker.{run_outbound_worker, drain_once, drain_rows, drain_job, deliver_claimed}
use zonemail.Send.Lifecycle.{Moves}
use zonemail.Send.Progress.{Moves-run_outbound_worker}
use zonemail.Send.Outcomes.{
  IsWithinCap, IsSameJob, run_outbound_worker-terminal, run_outbound_worker-job,
}
use zonemail.Send.Claims.{hands_out, taken, claim-some, claim_written, claim_once}
use zonemail.Send.Recovery.{put_back, reclaim_in_progress-row, reclaim_releases_claim}
use zonemail.Send.Audit.{Leaves, deliver_hosts_audit}
use zonemail.Send.Totality.{deliver_hosts-returns}
use zonemail.Send.Backoff.{delay, backoff_delay_lem, backoff_delay_mono}
use zonemail.Send.Hosts.{IsRanked, lookup_mx_hosts-IsRanked}

abbrev first_mx : Mx
first_mx = record { preference = 10; exchange = codes "mx1.example.org." }

abbrev second_mx : Mx
second_mx = record { preference = 20; exchange = codes "mx2.example.org." }

-- the database answers, and only the second host accepts
abbrev calm : Outside
calm = record {
  db_fault = λ _. none;
  not_found = codes "record not found";
  env_var = λ _ _. none;
  parse_address = λ a. ok a;
  envelope_new = λ from to. ok (record { from = from; to = to });
  system_conf = λ _. ok tt;
  mx_lookup = λ _ _. ok (second_mx ∷ first_mx ∷ []);
  build_native = λ p. ok p;
  add_span = λ now s. elim s [ ahead n ↦ some (now + n * 1000000000) | back n ↦ none ];
  send_raw = λ _ h.
      if text_eq h.host (codes "mx2.example.org") then ok (codes "250") else err (codes "refused");
}

abbrev job : Outbound
job = new_job 1 1 (codes "a@z.net") (codes "b@example.org")

abbrev message : Message
message = record {
  id = 1;
  mail_from = codes "a@z.net";
  raw = codes "Subject: x";
  subject = none;
  message_id_header = none;
  content_type = none;
  from_address = none;
  to = [];
  cc = [];
  bcc = [];
}

abbrev world : List Outbound → World
world jobs = record {
  domains = [];
  records = [];
  mailboxes = [];
  messages = message ∷ [];
  inbounds = [];
  outbounds = jobs;
  delivery_statuses = [];
  next_record = 1;
  next_message = 2;
  next_inbound = 1;
  next_outbound = 2;
  next_delivery = 1;
  calls = 0;
}

-- One tick delivers the job over the second host, at its first attempt.
tick_delivers :
    (run_outbound_worker calm default_config (5 ∷ []) (world (job ∷ []))).outbounds
    ≡ mark_delivered 1 job ∷ []
unfolding run_outbound_worker drain_once drain_rows drain_job deliver_claimed claim
    reclaim_in_progress deliver_one build_envelope lookup_mx_hosts sort_mx mx_hosts recipient_domain
    deliver_hosts deliver_targets try_hosts send after_send record_delivery build_outbound_tls
    targets recover_each is_whitespace
tick_delivers = refl

abbrev hosts : List Text
hosts = codes "mx1.example.org" ∷ codes "mx2.example.org" ∷ []

abbrev envelope : Envelope
envelope = record { from = none; to = codes "b@example.org" ∷ [] }

first_claim : (claim calm 1 (world (job ∷ []))).0 ≡ ok (some (claimed job))
unfolding claim
first_claim = refl

job-IsWithinCap : IsWithinCap default_config job
job-IsWithinCap = ground arith

mx_targets : targets default_config hosts ≡ ok hosts
unfolding targets
mx_targets = refl

Moves-run_outbound_worker_example :
    Moves calm default_config
      (world (job ∷ []))
      (run_outbound_worker calm default_config (5 ∷ []) (world (job ∷ [])))
Moves-run_outbound_worker_example =
    Moves-run_outbound_worker calm default_config (5 ∷ []) (world (job ∷ [])) (refl, tt)

run_outbound_worker-terminal_example :
    outbound_at
      (run_outbound_worker calm default_config (5 ∷ 10 ∷ []) (world (mark_delivered 1 job ∷ [])))
      1
    ≡ some (mark_delivered 1 job)
run_outbound_worker-terminal_example =
    run_outbound_worker-terminal default_config calm (5 ∷ 10 ∷ [])
      (world (mark_delivered 1 job ∷ [])) 1 (mark_delivered 1 job) (refl, tt) refl (inl refl)

run_outbound_worker-job_example :
    (s : Outbound) × (outbound_at
        (run_outbound_worker calm default_config (5 ∷ []) (world (job ∷ [])))
        1
      ≡ some s)
    × IsSameJob job s
    × IsWithinCap default_config s
run_outbound_worker-job_example =
    run_outbound_worker-job default_config calm (5 ∷ []) (world (job ∷ [])) 1 job (refl, tt) refl
      job-IsWithinCap

claim-some_example :
    (r : Outbound) × (outbound_at (world (job ∷ [])) 1 ≡ some r)
    × (r.status ≡ queued)
    × (claimed job ≡ taken r)
    × (outbound_at (claim calm 1 (world (job ∷ []))).1 1 ≡ some (claimed job))
    × ((j : ℕ)
        → j ≢ 1
        → outbound_at (claim calm 1 (world (job ∷ []))).1 j ≡ outbound_at (world (job ∷ [])) j)
    × ((claim calm 1 (world (job ∷ []))).1 ≡ record (update_outbound 1 taken (world (job ∷ []))) {
      calls = (claim calm 1 (world (job ∷ []))).1.calls;
    })
claim-some_example = claim-some calm 1 (world (job ∷ [])) (claimed job) first_claim

claim_written_example : (claim calm 1 (world (job ∷ []))).1.outbounds ≡ (
    if hands_out (claim calm 1 (world (job ∷ []))).0
    then update_where (has_id 1) claimed (job ∷ [])
    else job ∷ [])
claim_written_example = claim_written calm 1 (world (job ∷ []))

claim_once_example : (claim calm 1 (claim calm 1 (world (job ∷ []))).1).0 ≢ ok (some (claimed job))
claim_once_example =
    claim_once calm 1 (world (job ∷ [])) (claim calm 1 (world (job ∷ []))).1 (claimed job)
      first_claim refl (claimed job)

reclaim_in_progress-row_example :
    outbound_at (reclaim_in_progress calm (world (claimed job ∷ []))) 1
    ≡ map_option put_back (some (claimed job))
reclaim_in_progress-row_example =
    reclaim_in_progress-row calm (λ n. refl) 1 (world (claimed job ∷ [])) (refl, tt)

reclaim_releases_claim_example :
    ((claim calm 1 (world (job ∷ []))).0 ≡ ok (some (claimed job)))
    × ((claim calm 1 (reclaim_in_progress calm (claim calm 1 (world (job ∷ []))).1)).0
        ≡ ok (some (claimed (requeued (claimed job)))))
reclaim_releases_claim_example =
    reclaim_releases_claim calm (λ n. refl) 1 (world (job ∷ [])) job (refl, tt) refl refl

next_due :
    add_secs calm 5 (backoff_delay default_config ((claimed job).attempts + 1)).secs
    ≡ some 60000000005
unfolding backoff_delay
next_due = refl

deliver_hosts-returns_example :
    (deliver_hosts calm default_config 5
      (claimed job)
      message
      envelope
      hosts
      (world (claimed job ∷ []))).0
    ≡ ok tt
deliver_hosts-returns_example =
    deliver_hosts-returns calm default_config 5 (claimed job) message envelope (λ n. refl)
      60000000005 next_due (λ p. (p, refl)) hosts hosts (world (claimed job ∷ [])) mx_targets

deliver_hosts_audit_example :
    Leaves calm default_config 5
      (claimed job)
      message
      envelope
      hosts
      (world (claimed job ∷ []))
      (deliver_hosts calm default_config 5
        (claimed job)
        message
        envelope
        hosts
        (world (claimed job ∷ []))).1
deliver_hosts_audit_example =
    deliver_hosts_audit calm default_config 5 (claimed job) message envelope hosts hosts
      (world (claimed job ∷ [])) mx_targets refl deliver_hosts-returns_example

backoff_delay_lem_example : delay default_config 4 ≡ min (60 * 2 ^ 3) 3600
backoff_delay_lem_example = backoff_delay_lem default_config 3 (omega arith) (omega arith)

backoff_delay_mono_example :
    (delay default_config 2 ≤ delay default_config 9) × (delay default_config 9 ≤ 3600)
backoff_delay_mono_example = backoff_delay_mono default_config 2 9 (omega arith)

looked_up : (lookup_mx_hosts calm (codes "b@example.org") (world [])).0 ≡ ok hosts
unfolding lookup_mx_hosts sort_mx mx_hosts recipient_domain
looked_up = refl

domain_found : recipient_domain (codes "b@example.org") ≡ some (codes "example.org")
unfolding recipient_domain
domain_found = refl

lookup_mx_hosts-IsRanked_example :
    (response : List Mx) × (calm.mx_lookup 1 (codes "example.org") ≡ ok response)
    × IsRanked response hosts
lookup_mx_hosts-IsRanked_example =
    lookup_mx_hosts-IsRanked calm (codes "b@example.org") (codes "example.org") (world []) hosts
      domain_found looked_up
