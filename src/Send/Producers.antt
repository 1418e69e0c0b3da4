-- ===== src/Send/Producers.antt =====
-- src/send.rs: the insert of a job against the constraints of the tables.
use zonemail.Prelude.{ℕ, ◌==◌, ◌≡◌, refl, inl, inr, Text, true, All-imp, Option-cases}
use zonemail.Db.{World}
use zonemail.Db.Integrity.{
  IsSound, has_message, has_mailbox, any-append_left, All-add, Keyed-add, outbound_key,
}
use zonemail.Db.Integrity.Statements.{IsSound-tick}
use zonemail.Send.{Outside}
use zonemail.Send.Queue.{insert_job, enqueue_forward}

-- the constraints, and that the sender has a mailbox
abbrev pub HasSender : Text → World → Type 0
HasSender sender w = IsSound w × (has_mailbox w sender ≡ true)

-- also that the message is stored
abbrev pub HasBoth : ℕ → Text → World → Type 0
HasBoth id sender w = HasSender sender w × (has_message w id ≡ true)

pub IsSound-insert_job :
    (id : ℕ) (sender rcpt : Text) {w : World}
    → HasBoth id sender w
    → IsSound (insert_job id sender rcpt w).1
IsSound-insert_job id sender rcpt {w} ((s, m), g) = record {
  domains = s.domains;
  mailboxes = s.mailboxes;
  triples = s.triples;
  keys = s.keys;
  fresh = s.fresh;
  inbound_links = s.inbound_links;
  outbound_links = All-add _ w.outbounds _ s.outbound_links g;
  senders = All-add _ w.outbounds _ s.senders m;
  deliveries =
      All-imp _ _ _ (λ d h. any-append_left (λ r. r.id == d.outbound_id) w.outbounds _ h)
        s.deliveries;
  numbered = (
    s.numbered.0,
    s.numbered.1,
    Keyed-add outbound_key w.next_outbound _ w.outbounds refl s.numbered.2,
    s.numbered.3,
  );
}

-- `enqueue_forward`, whether its statement fails or not
pub HasBoth-enqueue_forward :
    (o : Outside) (id : ℕ) (sender rcpt : Text) (w : World)
    → HasBoth id sender w
    → HasBoth id sender (enqueue_forward o id sender rcpt w).1
unfolding enqueue_forward
HasBoth-enqueue_forward o id sender rcpt w p = elim (Option-cases (o.db_fault w.calls)) [
  | inl e ↦
      rw e ((IsSound-insert_job id sender rcpt ((IsSound-tick p.0.0, p.0.1), p.1), p.0.1), p.1)
  | inr (t, e) ↦ rw e ((IsSound-tick p.0.0, p.0.1), p.1)
]
