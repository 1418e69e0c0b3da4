-- ===== src/Send/Attempt.antt =====
-- src/send.rs: one delivery attempt, and the actions in it, against the life of a job.
use zonemail.Prelude.{
  ℕ, ◌+◌, ◌≤◌, ◌≡◌, refl, ◌∙◌, Text, codes, ltb, true, Option, none, some, List, [], ◌∷◌, Result,
  ok, err, Option-cases, Bool-cases, inl, inr, arith,
}
use zonemail.Db.{World, Message, Outbound, OutboundStatus, queued, in_progress, delivered, failed}
use zonemail.Db.Action.{Action, exec, effect, follow, lift, ask, map_err, ◌>>=◌}
use zonemail.Db.Outbox.{outbound_at, update_outbound, status_eq}
use zonemail.Send.{Outside, OutboundWorkerConfig, Envelope, Tls, backoff_delay}
use zonemail.Send.Delivery.{
  mark_delivered, mark_failed, mark_requeued, fail_or_requeue, requeue, add_secs, record_delivery,
  build_outbound_tls, try_hosts, deliver_hosts, deliver_one, lookup_domain, lookup_mx_hosts,
  targets, send, after_send, deliver_targets, via, build_envelope, get_message, found_or_fail,
}
use zonemail.Send.Lifecycle.{Step, Moves, Moves-same, Moves-trans, Moves-update, here, next}

pub status_eq→≡ : (a b : OutboundStatus) → status_eq a b ≡ true → a ≡ b
status_eq→≡ queued queued h = refl
status_eq→≡ in_progress in_progress h = refl
status_eq→≡ delivered delivered h = refl
status_eq→≡ failed failed h = refl
status_eq→≡ _ _ h = cc

module _ (o : Outside) (c : OutboundWorkerConfig) where
  -- a claimed job whose row is as it was claimed
  abbrev pub Holds : Outbound → World → Type 0
  Holds job w = (outbound_at w job.id ≡ some job) × (job.status ≡ in_progress)

  -- an action that leaves the queue alone
  pub record IsQuiet {A : Type 0} (m : Action A) : Type 0 where
    pub at : (w : World) → (m w).1.outbounds ≡ w.outbounds

  -- an action that may end the attempt on `job`
  pub record Ends (job : Outbound) {A : Type 0} (m : Action A) : Type 0 where
    pub at : (w : World) → Holds job w → Moves o c w (m w).1

  pub IsQuiet-prefix : {A : Type 0} (p : Text) {m : Action A} → IsQuiet m → IsQuiet (map_err p m)
  IsQuiet-prefix p q = record { at = q.at }

  IsQuiet-follow :
      {A B : Type 0} (r : Result A) (f : A → Action B)
      → ((a : A) → IsQuiet (f a))
      → IsQuiet (follow r f)
  IsQuiet-follow (ok a) f q = q a
  IsQuiet-follow (err e) f q = record { at = λ w. refl }

  IsQuiet-bind :
      {A B : Type 0} (m : Action A) (f : A → Action B)
      → IsQuiet m
      → ((a : A) → IsQuiet (f a))
      → IsQuiet (m >>= f)
  IsQuiet-bind m f qm qf = record { at = λ w. (IsQuiet-follow (m w).0 f qf).at (m w).1 ∙ qm.at w }

  pub IsQuiet-statement :
      {A : Type 0} (f : World → A × World)
      → ((w : World) → (f w).1.outbounds ≡ w.outbounds)
      → IsQuiet (exec o.db_fault f)
  IsQuiet-statement f keeps = record {
    at = λ w. elim (Option-cases (o.db_fault w.calls)) [
      | inl fine ↦ rw fine (keeps _)
      | inr (e, broken) ↦ rw broken refl
    ];
  }

  IsQuiet-lift : {A : Type 0} (r : Result A) → IsQuiet (lift r)
  IsQuiet-lift r = record { at = λ w. refl }

  IsQuiet-ask : {A : Type 0} (answer : ℕ → Result A) → IsQuiet (ask answer)
  IsQuiet-ask answer = record { at = λ w. refl }

  IsQuiet-record_delivery :
      (id : ℕ) (host : Text) (code : Option ℕ) (text : Option Text)
      → IsQuiet (record_delivery o id host code text)
  unfolding record_delivery
  IsQuiet-record_delivery id host code text =
      IsQuiet-prefix (codes "failed to record DeliveryStatus") (IsQuiet-statement _ (λ w. refl))

  IsQuiet-send :
      (now : ℕ) (job : Outbound) (message : Message) (envelope : Envelope) (host : Text) (tls : Tls)
      → IsQuiet (send o c now job message envelope host tls)
  unfolding send
  IsQuiet-send now job message envelope host tls = record { at = λ w. refl }

  module _ {job : Outbound} where
    Ends-quiet : {A : Type 0} {m : Action A} → IsQuiet m → Ends job m
    Ends-quiet q = record { at = λ w h. Moves-same o c (q.at w) }

    Ends-follow :
        {A B : Type 0} (r : Result A) (f : A → Action B)
        → ((a : A) → Ends job (f a))
        → Ends job (follow r f)
    Ends-follow (ok a) f ends = ends a
    Ends-follow (err e) f ends = record { at = λ w h. Moves-same o c refl }

    Ends-prefix : {A : Type 0} (p : Text) {m : Action A} → Ends job m → Ends job (map_err p m)
    Ends-prefix p ends = record { at = ends.at }

    -- what comes before the end leaves the queue alone
    Ends-bind :
        {A B : Type 0} (m : Action A) (f : A → Action B)
        → IsQuiet m
        → ((a : A) → Ends job (f a))
        → Ends job (m >>= f)
    Ends-bind m f quiet ends = record {
      at = λ w h.
          Moves-trans o c (Moves-same o c (quiet.at w))
            ((Ends-follow (m w).0 f ends).at (m w).1 (rw (quiet.at w) h.0, h.1));
    }

    -- a statement that brings the job's row one transition on
    Ends-update :
        (f : Outbound → Outbound)
        → ((x : Outbound) → (f x).id ≡ x.id)
        → (job.status ≡ in_progress → Step o c job (f job))
        → Ends job (exec o.db_fault (effect (update_outbound job.id f)))
    Ends-update f keeps st = record {
      at = λ w h. elim (Option-cases (o.db_fault w.calls)) [
        | inl fine ↦ rw fine (Moves-update o c job.id job f keeps refl h.0 (next here (st h.1)))
        | inr (e, broken) ↦ rw broken (Moves-same o c refl)
      ];
    }

    module _ (now : ℕ) where
      Ends-requeue :
          (reason : Text) (due : Option ℕ)
          → add_secs o now (backoff_delay c (job.attempts + 1)).secs ≡ due
          → job.attempts + 1 ≤ c.max_attempts
          → Ends job (requeue o c now job (job.attempts + 1) reason due)
      Ends-requeue reason none e h = record { at = λ w held. Moves-same o c refl }
      Ends-requeue reason (some due) e h = Ends-prefix (codes "failed to requeue Outbound") (
          Ends-update (mark_requeued (job.attempts + 1) due reason) (λ x. refl)
            (λ p. Step.retry reason now due p h e))

      Ends-fail_or_requeue : (reason : Text) → Ends job (fail_or_requeue o c now job reason)
      unfolding fail_or_requeue
      Ends-fail_or_requeue reason = elim (Bool-cases (ltb c.max_attempts (job.attempts + 1))) [
        | inl over ↦ rw over (
            Ends-prefix (codes "failed to mark Outbound Failed") (
              Ends-update (mark_failed (job.attempts + 1) reason) (λ x. refl)
                (λ p. Step.give_up reason p (ground arith))))
        | inr within ↦ rw within (
            Ends-requeue reason (add_secs o now (backoff_delay c (job.attempts + 1)).secs) refl
              (ground arith))
      ]

      module _ (message : Message) (envelope : Envelope) where
        Ends-after_send :
            (host : Text) (sent : Result Text) (rest : Text → Action (Unit {0}))
            → ((reason : Text) → Ends job (rest reason))
            → Ends job (after_send o c now job message envelope host sent rest)
        unfolding after_send
        Ends-after_send host (ok response) rest ends =
            Ends-bind _ _ (IsQuiet-record_delivery job.id host (some 250) (some response)) (λ _.
              Ends-prefix (codes "failed to mark Outbound Delivered")
                (Ends-update (mark_delivered (job.attempts + 1)) (λ x. refl) (λ p. Step.deliver p)))
        Ends-after_send host (err e) rest ends =
            Ends-bind _ _ (IsQuiet-record_delivery job.id host none (some e))
              (λ _. ends (via host e))

        Ends-try_hosts :
            (last : Option Text) (hosts : List Text)
            → Ends job (try_hosts o c now job message envelope last hosts)
        unfolding try_hosts
        Ends-try_hosts last [] = Ends-fail_or_requeue _
        Ends-try_hosts last (host ∷ rest) =
            Ends-bind _ _ (IsQuiet-lift (build_outbound_tls o c.transport host)) λ tls.
              Ends-bind _ _ (IsQuiet-send now job message envelope host tls)
                λ sent. Ends-after_send host sent _ (λ reason. Ends-try_hosts (some reason) rest)

        Ends-targets :
            (chosen : List Text) → Ends job (deliver_targets o c now job message envelope chosen)
        unfolding deliver_targets
        Ends-targets [] = Ends-fail_or_requeue _
        Ends-targets (host ∷ rest) = Ends-try_hosts none (host ∷ rest)

        Ends-deliver_hosts :
            (hosts : List Text) → Ends job (deliver_hosts o c now job message envelope hosts)
        unfolding deliver_hosts
        Ends-deliver_hosts hosts = Ends-bind _ _ (IsQuiet-lift (targets c hosts)) Ends-targets

  IsQuiet-lookup_domain : (domain : Option Text) → IsQuiet (lookup_domain o domain)
  unfolding lookup_domain
  IsQuiet-lookup_domain none = record { at = λ w. refl }
  IsQuiet-lookup_domain (some domain) =
      IsQuiet-bind _ _
        (IsQuiet-prefix (codes "failed to build DNS resolver") (IsQuiet-ask o.system_conf))
        λ _.
          IsQuiet-bind _ _
            (IsQuiet-prefix (codes "MX lookup failed") (IsQuiet-ask (λ n. o.mx_lookup n domain)))
            λ response. record { at = λ w. refl }

  found_or_fail-IsQuiet : (found : Option Message) → IsQuiet (found_or_fail o found)
  found_or_fail-IsQuiet none = record { at = λ w. refl }
  found_or_fail-IsQuiet (some m) = record { at = λ w. refl }

  IsQuiet-get_message : (id : ℕ) → IsQuiet (get_message o id)
  IsQuiet-get_message id = IsQuiet-bind _ _ (IsQuiet-statement _ (λ w. refl)) found_or_fail-IsQuiet

  pub Ends-deliver_one : (now : ℕ) (job : Outbound) → Ends job (deliver_one o c now job)
  unfolding deliver_one lookup_mx_hosts
  Ends-deliver_one now job =
      Ends-bind _ _
        (IsQuiet-prefix (codes "failed to load Message for Outbound")
          (IsQuiet-get_message job.message_id))
        λ message.
          Ends-bind _ _ (IsQuiet-lift (build_envelope o message.mail_from job.rcpt_to)) λ envelope.
            Ends-bind _ _
              (IsQuiet-prefix (codes "failed to look up MX hosts") (IsQuiet-lookup_domain _))
              λ hosts. Ends-deliver_hosts now message envelope hosts
