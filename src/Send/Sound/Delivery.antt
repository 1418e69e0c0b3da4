-- ===== src/Send/Sound/Delivery.antt =====
-- src/send.rs: one delivery against the constraints of the tables.
use zonemail.Prelude.{
  ℕ, ◌+◌, ◌<◌, if◌then◌else◌, ◌==◌, ◌≡◌, refl, ◌∙◌, inl, inr, Text, codes, Bool, true, ltb, Option,
  none, some, List, [], ◌∷◌, any, update_where, All, All-imp, Result, ok, err, Bool-cases,
}
use zonemail.Db.{World, Message, Outbound}
use zonemail.Db.Action.{Action, exec, effect}
use zonemail.Db.Outbox.{has_id, update_outbound}
use zonemail.Db.Integrity.{
  IsSound, has_outbound, All-add, DistinctBy-update, same_by, outbound_key, delivery_key, Keyed-add,
}
use zonemail.Db.Integrity.Actions.{
  IsClosed, IsSound-IsClosed, Maintains, Maintains-lift, Maintains-bind, Maintains-prefix,
  Maintains-ask, Maintains-exec,
}
use zonemail.Send.{Outside, OutboundWorkerConfig, Envelope, Tls}
use zonemail.Send.Delivery.{
  mark_delivered, mark_failed, mark_requeued, panic_mark, requeue, fail_or_requeue, record_delivery,
  build_outbound_tls, try_hosts, deliver_hosts, deliver_one, lookup_domain, lookup_mx_hosts,
  targets, send, after_send, deliver_targets, via, build_envelope, found_or_fail,
}

-- an update that changes no key and no link
pub record IsLinkless (f : Outbound → Outbound) : Type 0 where
  pub id : (r : Outbound) → (f r).id ≡ r.id
  pub message : (r : Outbound) → (f r).message_id ≡ r.message_id
  pub sender : (r : Outbound) → (f r).sender_id ≡ r.sender_id

module _ (f : Outbound → Outbound) (keeps : IsLinkless f) (p : Outbound → Bool) where
  All-update :
      (Q : Outbound → Type 0) (rows : List Outbound)
      → ((r : Outbound) → Q r → Q (f r))
      → All Q rows
      → All Q (update_where p f rows)
  All-update Q [] step h = tt
  All-update Q (r ∷ rows) step h = elim (Bool-cases (p r)) [
    | inl e ↦ rw e (step r h.0, All-update Q rows step h.1)
    | inr e ↦ rw e (h.0, All-update Q rows step h.1)
  ]

  any-update :
      (id : ℕ) (rows : List Outbound)
      → any (λ r. r.id == id) (update_where p f rows) ≡ any (λ r. r.id == id) rows
  any-update id [] = refl
  any-update id (r ∷ rows) = elim (Bool-cases (p r)) [
    | inl e ↦ rw e (cc (keeps.id r, any-update id rows))
    | inr e ↦ rw e (cc (any-update id rows))
  ]

  key_kept : (x : Outbound) → outbound_key (if p x then f x else x) ≡ outbound_key x
  key_kept x = elim (Bool-cases (p x)) [ inl e ↦ rw e (keeps.id x) | inr e ↦ rw e refl ]

pub IsSound-update_outbound :
    (id : ℕ) (f : Outbound → Outbound) {w : World}
    → IsLinkless f
    → IsSound w
    → IsSound (update_outbound id f w)
IsSound-update_outbound id f {w} keeps s = record {
  domains = s.domains;
  mailboxes = s.mailboxes;
  triples = s.triples;
  keys = s.keys;
  fresh = s.fresh;
  inbound_links = s.inbound_links;
  outbound_links =
      All-update f keeps _ _ w.outbounds (λ r q. rw (keeps.message r) q) s.outbound_links;
  senders = All-update f keeps _ _ w.outbounds (λ r q. rw (keeps.sender r) q) s.senders;
  deliveries =
      All-imp _ _ _ (λ d h. rw (any-update f keeps (has_id id) d.outbound_id w.outbounds) h)
        s.deliveries;
  numbered = (
    s.numbered.0,
    s.numbered.1,
    (
      All-update f keeps (has_id id) (λ r. r.id < w.next_outbound) w.outbounds
          (λ r q. rw (keeps.id r) q) s.numbered.2.0,
      DistinctBy-update (same_by outbound_key) (has_id id) f w.outbounds
          (λ x y. cc (key_kept f keeps (has_id id) x, key_kept f keeps (has_id id) y))
          s.numbered.2.1,
    ),
    s.numbered.3,
  );
}

-- the constraints, and that a job of this key is stored
abbrev pub HasJob : ℕ → World → Type 0
HasJob id w = IsSound w × (has_outbound w id ≡ true)

HasJob-IsClosed : (id : ℕ) → IsClosed (HasJob id)
HasJob-IsClosed id = record { calls = λ n p. (IsSound-IsClosed.calls n p.0, p.1) }

HasJob-update :
    (i id : ℕ) (f : Outbound → Outbound) (w : World)
    → IsLinkless f
    → HasJob id w
    → HasJob id (update_outbound i f w)
HasJob-update i id f w keeps p =
    (IsSound-update_outbound i f keeps p.0, any-update f keeps (has_id i) id w.outbounds ∙ p.1)

module _ (o : Outside) where
  HasJob-record_delivery :
      (id : ℕ) (host : Text) (code : Option ℕ) (text : Option Text)
      → Maintains (HasJob id) (record_delivery o id host code text)
  unfolding record_delivery
  HasJob-record_delivery id host code text =
      Maintains-prefix (codes "failed to record DeliveryStatus") (
        Maintains-exec (HasJob-IsClosed id) o.db_fault _ (λ w (s, j). (
          record {
            domains = s.domains;
            mailboxes = s.mailboxes;
            triples = s.triples;
            keys = s.keys;
            fresh = s.fresh;
            inbound_links = s.inbound_links;
            outbound_links = s.outbound_links;
            senders = s.senders;
            deliveries = All-add _ w.delivery_statuses _ s.deliveries j;
            numbered = (
              s.numbered.0,
              s.numbered.1,
              s.numbered.2,
              Keyed-add delivery_key w.next_delivery _ w.delivery_statuses refl s.numbered.3,
            );
          },
          j,
        )))

  module _ (c : OutboundWorkerConfig) (now : ℕ) (job : Outbound) where
    HasJob-mark :
        (f : Outbound → Outbound)
        → IsLinkless f
        → Maintains (HasJob job.id) (exec o.db_fault (effect (update_outbound job.id f)))
    HasJob-mark f keeps =
        Maintains-exec (HasJob-IsClosed job.id) o.db_fault _
          (λ w p. HasJob-update job.id job.id f w keeps p)

    HasJob-requeue :
        (reason : Text) (due : Option ℕ)
        → Maintains (HasJob job.id) (requeue o c now job (job.attempts + 1) reason due)
    HasJob-requeue reason none = Maintains-lift (err panic_mark)
    HasJob-requeue reason (some due) = Maintains-prefix (codes "failed to requeue Outbound") (
        HasJob-mark (mark_requeued (job.attempts + 1) due reason)
          (record { id = λ r. refl; message = λ r. refl; sender = λ r. refl }))

    HasJob-fail_or_requeue :
        (reason : Text) → Maintains (HasJob job.id) (fail_or_requeue o c now job reason)
    unfolding fail_or_requeue
    HasJob-fail_or_requeue reason = elim (Bool-cases (ltb c.max_attempts (job.attempts + 1))) [
      | inl over ↦ rw over (
          Maintains-prefix (codes "failed to mark Outbound Failed") (
            HasJob-mark (mark_failed (job.attempts + 1) reason)
              (record { id = λ r. refl; message = λ r. refl; sender = λ r. refl })))
      | inr within ↦ rw within (HasJob-requeue reason _)
    ]

    module _ (message : Message) (envelope : Envelope) where
      HasJob-after_send :
          (host : Text) (sent : Result Text) (rest : Text → Action (Unit {0}))
          → ((reason : Text) → Maintains (HasJob job.id) (rest reason))
          → Maintains (HasJob job.id) (after_send o c now job message envelope host sent rest)
      unfolding after_send
      HasJob-after_send host (ok response) rest k =
          Maintains-bind (HasJob-record_delivery job.id host (some 250) (some response)) (λ _.
            Maintains-prefix (codes "failed to mark Outbound Delivered") (
              HasJob-mark (mark_delivered (job.attempts + 1))
                (record { id = λ r. refl; message = λ r. refl; sender = λ r. refl })))
      HasJob-after_send host (err e) rest k =
          Maintains-bind (HasJob-record_delivery job.id host none (some e)) (λ _. k (via host e))

      HasJob-send :
          (host : Text) (tls : Tls)
          → Maintains (HasJob job.id) (send o c now job message envelope host tls)
      unfolding send
      HasJob-send host tls = record { at = λ w p. (HasJob-IsClosed job.id).calls (w.calls + 1) p }

      HasJob-try_hosts :
          (last : Option Text) (hosts : List Text)
          → Maintains (HasJob job.id) (try_hosts o c now job message envelope last hosts)
      unfolding try_hosts
      HasJob-try_hosts last [] = HasJob-fail_or_requeue _
      HasJob-try_hosts last (host ∷ rest) =
          Maintains-bind (Maintains-lift (build_outbound_tls o c.transport host)) λ tls.
            Maintains-bind (HasJob-send host tls)
              λ sent. HasJob-after_send host sent _ (λ reason. HasJob-try_hosts (some reason) rest)

      HasJob-deliver_targets :
          (chosen : List Text)
          → Maintains (HasJob job.id) (deliver_targets o c now job message envelope chosen)
      unfolding deliver_targets
      HasJob-deliver_targets [] = HasJob-fail_or_requeue _
      HasJob-deliver_targets (host ∷ rest) = HasJob-try_hosts none (host ∷ rest)

      HasJob-deliver_hosts :
          (hosts : List Text)
          → Maintains (HasJob job.id) (deliver_hosts o c now job message envelope hosts)
      unfolding deliver_hosts
      HasJob-deliver_hosts hosts =
          Maintains-bind (Maintains-lift (targets c hosts)) HasJob-deliver_targets

  HasJob-lookup_domain :
      (id : ℕ) (domain : Option Text) → Maintains (HasJob id) (lookup_domain o domain)
  unfolding lookup_domain
  HasJob-lookup_domain id none = Maintains-lift (err _)
  HasJob-lookup_domain id (some domain) =
      let closed = HasJob-IsClosed id in
      Maintains-bind
        (Maintains-prefix (codes "failed to build DNS resolver")
          (Maintains-ask closed o.system_conf))
        λ _.
          Maintains-bind
            (Maintains-prefix (codes "MX lookup failed")
              (Maintains-ask closed (λ n. o.mx_lookup n domain)))
            λ response. record { at = λ w p. p }

  HasJob-found_or_fail :
      (id : ℕ) (found : Option Message) → Maintains (HasJob id) (found_or_fail o found)
  HasJob-found_or_fail id none = record { at = λ w p. p }
  HasJob-found_or_fail id (some m) = record { at = λ w p. p }

  pub HasJob-deliver_one :
      (c : OutboundWorkerConfig) (now : ℕ) (job : Outbound)
      → Maintains (HasJob job.id) (deliver_one o c now job)
  unfolding deliver_one lookup_mx_hosts
  HasJob-deliver_one c now job =
      Maintains-bind
        (Maintains-prefix (codes "failed to load Message for Outbound") (
          Maintains-bind (Maintains-exec (HasJob-IsClosed job.id) o.db_fault _ (λ w p. p))
            (HasJob-found_or_fail job.id)))
        λ message.
          Maintains-bind (Maintains-lift (build_envelope o message.mail_from job.rcpt_to))
            λ envelope.
              Maintains-bind
                (Maintains-prefix (codes "failed to look up MX hosts")
                  (HasJob-lookup_domain job.id _))
                λ hosts. HasJob-deliver_hosts c now job message envelope hosts
