-- ===== src/Email/Sound.antt =====
-- src/email.rs: the receiver against the constraints of the tables.
use zonemail.Prelude.{
  ℕ, ◌≡◌, refl, inl, inr, Text, text_eq, true, Option, none, some, or_default, List, [], ◌∷◌, find?,
  Result, ok, err, Option-cases,
}
use zonemail.Db.{World, Mailbox, Message}
use zonemail.Db.Action.{Action, follow, attempt, exec, effect, tick, ◌>>=◌}
use zonemail.Db.Integrity.{
  IsSound, has_message, has_mailbox, All-add, find_any, Keyed-add, inbound_key,
}
use zonemail.Db.Integrity.Statements.{IsSound-tick}
use zonemail.Db.Integrity.Messages.{IsSound-with_message, added_last, found-has_key}
use zonemail.Db.Integrity.Actions.{
  IsClosed, IsSound-IsClosed, Maintains, Maintains-exec, Maintains-bind, Maintains-attempt,
}
use zonemail.Send.{Outside}
use zonemail.Send.Producers.{HasBoth, HasBoth-enqueue_forward}
use zonemail.Email.{
  ParsedMail, no_headers, new_message, insert_inbound, has_header, dedup_key, reused, or_unknown,
  found_mailbox, get_mailbox, clean, accept, handle_rcpt, find_existing, or_abort, store_unless,
  link_each, forward_to, forward_for, forward_each, handle_email,
}

-- the constraints, and that the message of this key is stored
abbrev HasMessage : ℕ → World → Type 0
HasMessage id w = IsSound w × (has_message w id ≡ true)

HasMessage-IsClosed : (id : ℕ) → IsClosed (HasMessage id)
HasMessage-IsClosed id = record { calls = λ n p. (IsSound-IsClosed.calls n p.0, p.1) }

-- what an action leaves, by its outcome
abbrev Leaves {ℓ} : {A : Type ℓ} → (A → World → Type 0) → Result A → World → Type 0
Leaves Q (ok a) w = Q a w
Leaves Q (err e) w = IsSound w

record Yields (P : World → Type 0) {A : Type 0} (m : Action A) (Q : A → World → Type 0)
    : Type 0 where
  at : (w : World) → P w → Leaves Q (m w).0 (m w).1

Yields-follow :
    {A B : Type 0} (Q : A → World → Type 0) (R : B → World → Type 0) (r : Result A)
    (f : A → Action B) (w : World)
    → ((a : A) → Yields (Q a) (f a) R)
    → Leaves Q r w
    → Leaves R (follow r f w).0 (follow r f w).1
Yields-follow Q R (ok a) f w k p = (k a).at w p
Yields-follow Q R (err e) f w k p = p

module _ {P : World → Type 0} where
  Yields-bind :
      {A B : Type 0} {Q : A → World → Type 0} {R : B → World → Type 0} {m : Action A}
      {f : A → Action B}
      → Yields P m Q
      → ((a : A) → Yields (Q a) (f a) R)
      → Yields P (m >>= f) R
  Yields-bind {Q = Q} {R = R} {m = m} {f = f} h k = record {
    at = λ w p. Yields-follow Q R (m w).0 f (m w).1 k (h.at w p);
  }

-- the copy that a lookup found is stored
abbrev HasCopy : Option ℕ → World → Type 0
HasCopy none w = IsSound w
HasCopy (some id) w = HasMessage id w

copy-HasCopy :
    (found : Option Message) (w : World)
    → IsSound w
    → ((m : Message) → found ≡ some m → has_message w m.id ≡ true)
    → HasCopy (reused (ok found)) w
copy-HasCopy none w s h = s
copy-HasCopy (some m) w s h = (s, h m refl)

module _ (o : Outside) where
  find_existing-HasCopy : (key : Option Text) → Yields IsSound (find_existing o key) HasCopy
  unfolding find_existing
  find_existing-HasCopy none = record { at = λ w s. s }
  find_existing-HasCopy (some key) = record {
    at = λ w s. elim (Option-cases (o.db_fault w.calls)) [
      | inl e ↦ rw e (
          copy-HasCopy (find? (has_header key) w.messages) (tick w) (IsSound-tick s)
            (λ m found. found-has_key (has_header key) w.messages m found))
      | inr (t, e) ↦ rw e (IsSound-tick s)
    ];
  }

  store_unless-HasMessage :
      (mail : ParsedMail) (raw : List ℕ) (existing : Option ℕ)
      → Yields (HasCopy existing) (store_unless o mail raw existing) HasMessage
  unfolding store_unless
  store_unless-HasMessage mail raw (some id) = record { at = λ w p. p }
  store_unless-HasMessage mail raw none = record {
    at = λ w s. elim (Option-cases (o.db_fault w.calls)) [
      | inl e ↦
          let row = new_message w.next_message mail raw in
          rw e (IsSound-with_message row refl (IsSound-tick s), added_last row w.messages)
      | inr (t, e) ↦ rw e (IsSound-tick s)
    ];
  }

  linked-HasMessage :
      (id : ℕ) (rcpt : Text)
      → Maintains (HasMessage id) (exec o.db_fault (effect (insert_inbound id rcpt)))
  linked-HasMessage id rcpt = Maintains-exec (HasMessage-IsClosed id) o.db_fault _ (λ w (s, m). (
    record {
      domains = s.domains;
      mailboxes = s.mailboxes;
      triples = s.triples;
      keys = s.keys;
      fresh = s.fresh;
      inbound_links = All-add _ w.inbounds _ s.inbound_links m;
      outbound_links = s.outbound_links;
      senders = s.senders;
      deliveries = s.deliveries;
      numbered = (
        s.numbered.0,
        Keyed-add inbound_key w.next_inbound _ w.inbounds refl s.numbered.1,
        s.numbered.2,
        s.numbered.3,
      );
    },
    m,
  ))

  or_abort-HasMessage :
      (id : ℕ) (r : Result (Unit {0})) → Yields (HasMessage id) (or_abort o r) (λ _. HasMessage id)
  or_abort-HasMessage id (ok a) = record { at = λ w p. p }
  or_abort-HasMessage id (err e) = record { at = λ w p. p.0 }

  attempted :
      (id : ℕ) {m : Action (Unit {0})}
      → Maintains (HasMessage id) m
      → Yields (HasMessage id) (attempt m) (λ _. HasMessage id)
  attempted id h = record { at = h.at }

  link_each-HasMessage :
      (id : ℕ) (rs : List Text) → Yields (HasMessage id) (link_each o id rs) (λ _. HasMessage id)
  unfolding link_each
  link_each-HasMessage id [] = record { at = λ w p. p }
  link_each-HasMessage id (r ∷ rs) =
      Yields-bind (attempted id (linked-HasMessage id r))
        λ created. Yields-bind (or_abort-HasMessage id created) λ _. link_each-HasMessage id rs

  -- a forward is queued for a mailbox that was found
  forwarded :
      (id : ℕ) (rcpt : Text) (target : Option Text) (w : World)
      → HasBoth id rcpt w
      → HasMessage id (forward_to o id rcpt target w)
  forwarded id rcpt none w p = (p.0.0, p.1)
  forwarded id rcpt (some target) w p =
      let q = HasBoth-enqueue_forward o id rcpt target w p in (q.0.0, q.1)

  mailbox_found :
      (id : ℕ) (rcpt : Text) (found : Option Mailbox) (w : World)
      → HasMessage id w
      → ((m : Mailbox) → found ≡ some m → has_mailbox w rcpt ≡ true)
      → HasMessage id
          (forward_for o id rcpt (found_mailbox o found w).0 (found_mailbox o found w).1)
  mailbox_found id rcpt none w p h = p
  mailbox_found id rcpt (some m) w p h = forwarded id rcpt m.forward_to w ((p.0, h m refl), p.1)

  one_forwarded :
      (id : ℕ) (rcpt : Text) (w : World)
      → HasMessage id w
      → HasMessage id (forward_for o id rcpt (get_mailbox o rcpt w).0 (get_mailbox o rcpt w).1)
  one_forwarded id rcpt w p = elim (Option-cases (o.db_fault w.calls)) [
    | inl e ↦ rw e (
        mailbox_found id rcpt (find? (λ m. text_eq m.id rcpt) w.mailboxes) (tick w)
          (IsSound-tick p.0, p.1)
          (λ m found. find_any (λ m. text_eq m.id rcpt) w.mailboxes m found))
    | inr (t, e) ↦ rw e (IsSound-tick p.0, p.1)
  ]

  forward_each-HasMessage :
      (id : ℕ) (rs : List Text) (w : World)
      → HasMessage id w
      → HasMessage id (forward_each o id rs w)
  unfolding forward_each
  forward_each-HasMessage id [] w p = p
  forward_each-HasMessage id (r ∷ rs) w p = forward_each-HasMessage id rs _ (one_forwarded id r w p)

  handle_email-Yields :
      (parse : List ℕ → Option ParsedMail) (raw : List ℕ) (recipients : List Text)
      → Yields IsSound (handle_email o parse raw recipients) (λ _. IsSound)
  unfolding handle_email
  handle_email-Yields parse raw recipients =
      let mail = or_default (parse raw) no_headers in
      let all = or_unknown recipients in
      Yields-bind (find_existing-HasCopy (dedup_key mail.message_id)) λ existing.
        Yields-bind (store_unless-HasMessage mail raw existing) λ id.
          Yields-bind (link_each-HasMessage id all)
            λ _. record { at = λ w p. (forward_each-HasMessage id all w p).0 }

  left : (r : Result (Unit {0})) {w : World} → Leaves (λ _. IsSound) r w → IsSound w
  left (ok a) p = p
  left (err e) p = p

  pub handle_email-IsSound :
      (parse : List ℕ → Option ParsedMail) (raw : List ℕ) (recipients : List Text) {w : World}
      → IsSound w
      → IsSound (handle_email o parse raw recipients w).1
  handle_email-IsSound parse raw recipients {w} s =
      left (handle_email o parse raw recipients w).0
        ((handle_email-Yields parse raw recipients).at w s)

  Maintains-found : (found : Option Mailbox) → Maintains IsSound (found_mailbox o found)
  Maintains-found none = record { at = λ w s. s }
  Maintains-found (some m) = record { at = λ w s. s }

  Maintains-accept :
      (address : Text) (recipients : List Text) (found : Result Mailbox)
      → Maintains IsSound (accept o address recipients found)
  Maintains-accept address recipients (ok m) = record { at = λ w s. s }
  Maintains-accept address recipients (err e) = record { at = λ w s. s }

  pub handle_rcpt-IsSound :
      (to_lowercase : Text → Text) (to : Text) (recipients : List Text) {w : World}
      → IsSound w
      → IsSound (handle_rcpt o to_lowercase to recipients w).1
  unfolding handle_rcpt
  handle_rcpt-IsSound to_lowercase to recipients {w} s =
      (Maintains-bind
          (Maintains-attempt (
            Maintains-bind (Maintains-exec IsSound-IsClosed o.db_fault _ (λ w s. s))
              Maintains-found))
          (Maintains-accept (clean o to_lowercase to) recipients)).at
        w s
