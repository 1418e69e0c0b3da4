-- ===== src/Db/Integrity/Deletes.antt =====
-- src/db.rs: the updates of mailboxes and the cascading deletes against the invariant.
use zonemail.Prelude.{
  ℕ, ◌==◌, ◌≡◌, refl, inl, inr, Text, text_eq, text_eq→≡, Bool, true, false, not, ◌&&◌, List, [],
  ◌∷◌, any, update_where, All, All-filter, All-imp, Bool-cases, arith, if◌then◌else◌,
}
use zonemail.Db.{World, Record, Mailbox, Message, Inbound, Outbound}
use zonemail.Db.Tables.{
  same_domain, same_mailbox, same_triple, update_mailbox, delete_outbounds, delete_inbounds,
  delete_messages, delete_records, goes, delete_mailboxes, delete_domain_row,
}
use zonemail.Db.Integrity.{
  same_key, has_message, has_outbound, has_mailbox, IsSound, any_none, any_left, All-keep,
  DistinctBy-filter, DistinctBy-update, Keyed-filter, message_key, inbound_key, outbound_key,
  delivery_key,
}

-- the mailbox rows under an update of one of them
module _ (m : Mailbox) where
  abbrev written : Mailbox → Mailbox
  written x = if same_mailbox m x then m else x

  written_id : (x : Mailbox) → (written x).id ≡ x.id
  written_id x = elim (Bool-cases (text_eq m.id x.id)) [
    | inl e ↦ rw e (text_eq→≡ m.id x.id e)
    | inr e ↦ rw e refl
  ]

  written_any :
      (id : Text) (xs : List Mailbox)
      → any (λ x. text_eq x.id id) (update_where (same_mailbox m) (λ _. m) xs)
        ≡ any (λ x. text_eq x.id id) xs
  written_any id [] = refl
  written_any id (x ∷ xs) = cc (written_id x, written_any id xs)

  pub IsSound-update_mailbox : {w : World} → IsSound w → IsSound (update_mailbox m w).1
  IsSound-update_mailbox {w} s = record {
    domains = s.domains;
    mailboxes =
        DistinctBy-update same_mailbox (same_mailbox m) (λ _. m) w.mailboxes
          (λ x y. cc (written_id x, written_id y)) s.mailboxes;
    triples = s.triples;
    keys = s.keys;
    fresh = s.fresh;
    inbound_links = s.inbound_links;
    outbound_links = s.outbound_links;
    senders = All-imp _ _ _ (λ r h. rw (written_any r.sender_id w.mailboxes) h) s.senders;
    deliveries = s.deliveries;
    numbered = s.numbered;
  }

from_not : {b : Bool} → not b ≡ true → b ≡ false
from_not h = ground (arith, h)

pub IsSound-delete_outbounds :
    (p : Outbound → Bool) {w : World} → IsSound w → IsSound (delete_outbounds p w)
IsSound-delete_outbounds p {w} s = record {
  domains = s.domains;
  mailboxes = s.mailboxes;
  triples = s.triples;
  keys = s.keys;
  fresh = s.fresh;
  inbound_links = s.inbound_links;
  outbound_links = All-keep _ _ w.outbounds s.outbound_links;
  senders = All-keep _ _ w.outbounds s.senders;
  deliveries =
      All-imp _ _ _ (λ d h. any_left (λ r. r.id == d.outbound_id) p w.outbounds h.0 (from_not h.1))
        (All-filter (λ d. has_outbound w d.outbound_id ≡ true) _ w.delivery_statuses s.deliveries);
  numbered = (
    s.numbered.0,
    s.numbered.1,
    Keyed-filter outbound_key w.next_outbound _ w.outbounds s.numbered.2,
    Keyed-filter delivery_key w.next_delivery _ w.delivery_statuses s.numbered.3,
  );
}

pub IsSound-delete_inbounds :
    (p : Inbound → Bool) {w : World} → IsSound w → IsSound (delete_inbounds p w)
IsSound-delete_inbounds p {w} s = record {
  domains = s.domains;
  mailboxes = s.mailboxes;
  triples = s.triples;
  keys = s.keys;
  fresh = s.fresh;
  inbound_links = All-keep _ _ w.inbounds s.inbound_links;
  outbound_links = s.outbound_links;
  senders = s.senders;
  deliveries = s.deliveries;
  numbered = (
    s.numbered.0,
    Keyed-filter inbound_key w.next_inbound _ w.inbounds s.numbered.1,
    s.numbered.2,
    s.numbered.3,
  );
}

pub IsSound-delete_records :
    (p : Record → Bool) {w : World} → IsSound w → IsSound (delete_records p w)
IsSound-delete_records p {w} s = record {
  domains = s.domains;
  mailboxes = s.mailboxes;
  triples = DistinctBy-filter same_triple _ w.records s.triples;
  keys = DistinctBy-filter same_key _ w.records s.keys;
  fresh = All-keep _ _ w.records s.fresh;
  inbound_links = s.inbound_links;
  outbound_links = s.outbound_links;
  senders = s.senders;
  deliveries = s.deliveries;
  numbered = s.numbered;
}

pub IsSound-delete_mailboxes :
    (p : Mailbox → Bool) {w : World} → IsSound w → IsSound (delete_mailboxes p w)
IsSound-delete_mailboxes p {w} s =
    let below = IsSound-delete_outbounds (λ r. goes p w r.sender_id) s in
    record {
      domains = s.domains;
      mailboxes = DistinctBy-filter same_mailbox _ w.mailboxes s.mailboxes;
      triples = s.triples;
      keys = s.keys;
      fresh = s.fresh;
      inbound_links = All-keep _ _ w.inbounds s.inbound_links;
      outbound_links = below.outbound_links;
      senders =
          All-imp _ _ _
            (λ r h. any_left (λ m. text_eq m.id r.sender_id) p w.mailboxes h.0 (from_not h.1))
            (All-filter (λ r. has_mailbox w r.sender_id ≡ true) _ w.outbounds s.senders);
      deliveries = below.deliveries;
      numbered = (
        s.numbered.0,
        Keyed-filter inbound_key w.next_inbound _ w.inbounds s.numbered.1,
        below.numbered.2,
        below.numbered.3,
      );
    }

pub IsSound-delete_domain_row :
    (id : Text) {w : World} → IsSound w → IsSound (delete_domain_row id w)
IsSound-delete_domain_row id {w} s =
    let mails = IsSound-delete_mailboxes (λ m. text_eq m.domain_id id) s in
    let below = IsSound-delete_records (λ r. text_eq r.domain_id id) mails in
    record {
      domains = DistinctBy-filter same_domain _ w.domains s.domains;
      mailboxes = below.mailboxes;
      triples = below.triples;
      keys = below.keys;
      fresh = below.fresh;
      inbound_links = below.inbound_links;
      outbound_links = below.outbound_links;
      senders = below.senders;
      deliveries = below.deliveries;
      numbered = below.numbered;
    }

-- the rows that link to no message of the key `id`
abbrev pub IsUnlinked : ℕ → World → Type 0
IsUnlinked id w =
    All (λ r. (r.message_id == id) ≡ false) w.inbounds
    × All (λ r. (r.message_id == id) ≡ false) w.outbounds

other_message :
    (id k : ℕ) (ms : List Message)
    → (k == id) ≡ false
    → any (λ m. (m.id == id) && (m.id == k)) ms ≡ false
other_message id k ms n = any_none _ ms (λ m. ground (arith, n))

All-both {ℓ} :
    {A : Type ℓ} (P Q : A → Type 0) (xs : List A) → All P xs → All Q xs → All (λ x. P x × Q x) xs
All-both P Q [] h k = tt
All-both P Q (x ∷ xs) h k = ((h.0, k.0), All-both P Q xs h.1 k.1)

pub IsSound-delete_messages :
    (id : ℕ) {w : World}
    → IsUnlinked id w
    → IsSound w
    → IsSound (delete_messages (λ m. m.id == id) w)
IsSound-delete_messages id {w} (i, o) s = record {
  domains = s.domains;
  mailboxes = s.mailboxes;
  triples = s.triples;
  keys = s.keys;
  fresh = s.fresh;
  inbound_links =
      All-imp _ _ w.inbounds
        (λ r h.
          any_left (λ m. m.id == r.message_id) (λ m. m.id == id) w.messages h.0
            (other_message id r.message_id w.messages h.1))
        (All-both (λ r. has_message w r.message_id ≡ true) _ w.inbounds s.inbound_links i);
  outbound_links =
      All-imp _ _ w.outbounds
        (λ r h.
          any_left (λ m. m.id == r.message_id) (λ m. m.id == id) w.messages h.0
            (other_message id r.message_id w.messages h.1))
        (All-both (λ r. has_message w r.message_id ≡ true) _ w.outbounds s.outbound_links o);
  senders = s.senders;
  deliveries = s.deliveries;
  numbered = (
    Keyed-filter message_key w.next_message _ w.messages s.numbered.0,
    s.numbered.1,
    s.numbered.2,
    s.numbered.3,
  );
}
