-- ===== src/Send/Audit.antt =====
-- src/send.rs: the rows of `DeliveryStatus` that an attempt leaves.
use zonemail.Prelude.{
  ℕ, ◌+◌, ◌≡◌, refl, sym, ◌∙◌, ap, Text, codes, ltb, Bool, true, false, Option, none, some, List,
  [], ◌∷◌, ◌++◌, Result, ok, err, Option-cases, Bool-cases, inl, inr, arith,
}
use mathlib.Core.List.{append-nil, append_assoc}
use zonemail.Db.{World, Message, Outbound, DeliveryStatus}
use zonemail.Db.Action.{Action, exec, effect, follow, tick, map_err, ◌>>=◌, ◌>>◌}
use zonemail.Db.Outbox.{outbound_at, update_outbound, find?-update_where}
use zonemail.Send.{Outside, OutboundWorkerConfig, Envelope, Tls}
use zonemail.Send.Trail.{Answered, Trail, exhausted, accepted, refused, IsResolved}
use zonemail.Send.Delivery.{
  insert_delivery, mark_delivered, mark_failed, mark_requeued, requeue, fail_or_requeue,
  record_delivery, build_outbound_tls, try_hosts, deliver_hosts, deliver_targets, targets, send,
  after_send, handoff, via,
}

-- a block that returned has run its first action to the end
follow-ok :
    {A B : Type 0} (r : Result A) (f : A → Action B) (v : World) {b : B}
    → (follow r f v).0 ≡ ok b
    → (a : A) × (r ≡ ok a) × (follow r f v ≡ f a v)
follow-ok (ok a) f v h = (a, refl, refl)
follow-ok (err e) f v h = cc

module _ (o : Outside) (c : OutboundWorkerConfig) (now : ℕ) (job : Outbound) where
  -- a statement that returned has taken effect
  statement-ok :
      (p : Text) (g : World → Unit {0} × World) (w : World)
      → (map_err p (exec o.db_fault g) w).0 ≡ ok tt
      → (map_err p (exec o.db_fault g) w).1 ≡ (g (tick w)).1
  statement-ok p g w h = elim (Option-cases (o.db_fault w.calls)) [
    | inl fine ↦ rw fine
    | inr (e, broken) ↦ absurd (ground (arith, broken))
  ]

  -- the update that ends an attempt, where it returns
  module _ (f : Outbound → Outbound) (p : Text) (w : World)
      (found : outbound_at w job.id ≡ some job) (keeps : (x : Outbound) → (f x).id ≡ x.id)
      (h : (map_err p (exec o.db_fault (effect (update_outbound job.id f))) w).0 ≡ ok tt) where
    row_updated :
        outbound_at (map_err p (exec o.db_fault (effect (update_outbound job.id f))) w).1 job.id
        ≡ some (f job)
    row_updated =
        ap (λ v. outbound_at v job.id) (statement-ok p (effect (update_outbound job.id f)) w h)
        ∙ ground (arith, find?-update_where job.id job.id f w.outbounds keeps)

    trail_kept :
        (map_err p (exec o.db_fault (effect (update_outbound job.id f))) w).1.delivery_statuses
        ≡ w.delivery_statuses
    trail_kept =
        ap (λ (v : World). v.delivery_statuses)
          (statement-ok p (effect (update_outbound job.id f)) w h)

  requeue-IsResolved :
      (reason : Text) (due : Option ℕ) (w : World)
      → outbound_at w job.id ≡ some job
      → ltb c.max_attempts (job.attempts + 1) ≡ false
      → (requeue o c now job (job.attempts + 1) reason due w).0 ≡ ok tt
      → IsResolved c job false (requeue o c now job (job.attempts + 1) reason due w).1
        × ((requeue o c now job (job.attempts + 1) reason due w).1.delivery_statuses
            ≡ w.delivery_statuses)
  requeue-IsResolved reason none w found within h = absurd (cc h)
  requeue-IsResolved reason (some due) w found within h =
      let f = mark_requeued (job.attempts + 1) due reason in
      let p = codes "failed to requeue Outbound" in
      (
        record {
          row = f job;
          stored = row_updated f p w found (λ x. refl) h;
          status = rw within;
          attempts = refl;
        },
        trail_kept f p w found (λ x. refl) h,
      )

  -- what `fail_or_requeue` leaves, where it returns
  fail_or_requeue-IsResolved :
      (reason : Text) (w : World)
      → outbound_at w job.id ≡ some job
      → (fail_or_requeue o c now job reason w).0 ≡ ok tt
      → IsResolved c job false (fail_or_requeue o c now job reason w).1
        × ((fail_or_requeue o c now job reason w).1.delivery_statuses ≡ w.delivery_statuses)
  unfolding fail_or_requeue
  fail_or_requeue-IsResolved reason w found h =
      elim (Bool-cases (ltb c.max_attempts (job.attempts + 1))) [
        | inl over ↦
            let f = mark_failed (job.attempts + 1) reason in
            let p = codes "failed to mark Outbound Failed" in
            let h' = rw over at h in
            rw over (
              record {
                row = f job;
                stored = row_updated f p w found (λ x. refl) h';
                status = rw over;
                attempts = refl;
              },
              trail_kept f p w found (λ x. refl) h',
            )
        | inr within ↦ rw within (requeue-IsResolved reason _ w found within (rw within at h))
      ]

  record_delivery-ok :
      (host : Text) (code : Option ℕ) (text : Option Text) (w : World)
      → (record_delivery o job.id host code text w).0 ≡ ok tt
      → (record_delivery o job.id host code text w).1
        ≡ (insert_delivery job.id host code text (tick w)).1
  unfolding record_delivery
  record_delivery-ok host code text w h =
      statement-ok (codes "failed to record DeliveryStatus") (insert_delivery job.id host code text)
        w h

  abbrev audit_row : ℕ → Text → Option ℕ → Option Text → DeliveryStatus
  audit_row id host code text = record {
    id = id;
    outbound_id = job.id;
    peer_host = host;
    code = code;
    message = text;
  }

  -- a block that records an audit row and returns has gone on from a state with that row
  recorded :
      (host : Text) (code : Option ℕ) (text : Option Text) (k : Action (Unit {0})) (w : World)
      → outbound_at w job.id ≡ some job
      → ((record_delivery o job.id host code text >> k) w).0 ≡ ok tt
      → (v : World) × ((record_delivery o job.id host code text >> k) w ≡ k v)
        × (outbound_at v job.id ≡ some job)
        × (v.delivery_statuses
            ≡ w.delivery_statuses ++ audit_row w.next_delivery host code text ∷ [])
  recorded host code text k w found h =
      let m = record_delivery o job.id host code text in
      let (_, sure, same) = follow-ok (m w).0 (λ _. k) (m w).1 h in
      let is = record_delivery-ok host code text w sure in
      ((insert_delivery job.id host code text (tick w)).1, same ∙ ap k is, found, refl)

  module _ (message : Message) (envelope : Envelope) where
    -- What an attempt on the hosts leaves, where it returns: a trail of them on the audit table, and
    -- the job's row as the trail's end says.
    abbrev pub Leaves : List Text → World → World → Type 0
    Leaves hosts w v =
        (b : Bool) × (rows : List DeliveryStatus) × Trail o message envelope job.id hosts b rows
        × (v.delivery_statuses ≡ w.delivery_statuses ++ rows)
        × IsResolved c job b v

    try : Option Text → List Text → Action (Unit {0})
    try = try_hosts o c now job message envelope

    Leaves-end :
        (last : Option Text) (w : World)
        → outbound_at w job.id ≡ some job
        → (try last [] w).0 ≡ ok tt
        → Leaves [] w (try last [] w).1
    unfolding try try_hosts
    Leaves-end last w found h =
        let (resolved, same) = fail_or_requeue-IsResolved _ w found h in
        (false, [], exhausted, same ∙ sym (append-nil w.delivery_statuses), resolved)

    -- after a handoff that was answered at the state `w`
    Leaves-after_send :
        (host : Text) (rest : List Text) (sent : Result Text) (w : World)
        → ((reason : Text) (v : World)
            → outbound_at v job.id ≡ some job
            → (try (some reason) rest v).0 ≡ ok tt
            → Leaves rest v (try (some reason) rest v).1)
        → outbound_at w job.id ≡ some job
        → Answered o message envelope host sent
        → (after_send o c now job message envelope host sent (λ r. try (some r) rest) w).0 ≡ ok tt
        → Leaves
            (host ∷ rest)
            w
            (after_send o c now job message envelope host sent (λ r. try (some r) rest) w).1
    unfolding after_send
    Leaves-after_send host rest (ok response) w ih found answer h =
        let f = mark_delivered (job.attempts + 1) in
        let p = codes "failed to mark Outbound Delivered" in
        let k = map_err p (exec o.db_fault (effect (update_outbound job.id f))) in
        let (v, same, found', more) = recorded host (some 250) (some response) k w found h in
        let h' = rw same at h in
        rw same (
          true,
          audit_row w.next_delivery host (some 250) (some response) ∷ [],
          accepted answer refl refl refl refl,
          trail_kept f p v found' (λ x. refl) h' ∙ more,
          record {
            row = f job;
            stored = row_updated f p v found' (λ x. refl) h';
            status = refl;
            attempts = refl;
          },
        )
    Leaves-after_send host rest (err e) w ih found answer h =
        let k = try (some (via host e)) rest in
        let (v, same, found', more) = recorded host none (some e) k w found h in
        let (b, rows, trail, grown, resolved) = ih (via host e) v found' (rw same at h) in
        let row = audit_row w.next_delivery host none (some e) in
        rw same (
          b,
          row ∷ rows,
          refused answer refl refl refl refl trail,
          grown ∙ ap (λ l. l ++ rows) more ∙ append_assoc w.delivery_statuses (row ∷ []) rows,
          resolved,
        )

    Leaves-try :
        (last : Option Text) (hosts : List Text) (w : World)
        → outbound_at w job.id ≡ some job
        → (try last hosts w).0 ≡ ok tt
        → Leaves hosts w (try last hosts w).1
    unfolding try try_hosts send
    Leaves-try last [] w found h = Leaves-end last w found h
    Leaves-try last (host ∷ rest) w found h =
        let tls? = build_outbound_tls o c.transport host in
        let f : Tls → Action (Unit {0}) = λ tls.
          send o c now job message envelope host tls >>= λ sent.
          after_send o c now job message envelope host sent (λ r. try (some r) rest) in
        let (tls, _, same) = follow-ok tls? f w h in
        rw same (
          Leaves-after_send host rest _ (tick w) (λ reason v. Leaves-try (some reason) rest v) found
            (w.calls, handoff o c now job message envelope host tls w, refl, refl, refl, refl)
            (rw same at h))

    -- An attempt that returns has left on the audit table one row for each host tried, in order: for
    -- each host that refused the message its error, up to the host that took it, with its response
    -- and the code 250, and nothing after it. The job's row has one more attempt, and is delivered
    -- exactly if a host took the message; else it is failed if that was past the cap, and queued
    -- again if not.
    pub deliver_hosts_audit :
        (hosts chosen : List Text) (w : World)
        → targets c hosts ≡ ok chosen
        → outbound_at w job.id ≡ some job
        → (deliver_hosts o c now job message envelope hosts w).0 ≡ ok tt
        → Leaves chosen w (deliver_hosts o c now job message envelope hosts w).1
    unfolding deliver_hosts deliver_targets try try_hosts
    deliver_hosts_audit hosts chosen w t found h = rw t (go chosen (rw t at h))
      where
        go :
            (l : List Text)
            → (deliver_targets o c now job message envelope l w).0 ≡ ok tt
            → Leaves l w (deliver_targets o c now job message envelope l w).1
        go [] h =
            let (resolved, same) = fail_or_requeue-IsResolved _ w found h in
            (false, [], exhausted, same ∙ sym (append-nil w.delivery_statuses), resolved)
        go (host ∷ rest) h = Leaves-try none (host ∷ rest) w found h
