-- ===== src/Api/Contracts/Mail.antt =====
-- src/api.rs: the handler of `/mail` against the constraints of the tables, with the producers of
-- src/send.rs that it calls.
use zonemail.Prelude.{
  ℕ, ◌+◌, ◌≡◌, refl, inl, inr, Text, text_eq, true, Option, none, some, or_default, List, [], ◌∷◌,
  find?, Result, ok, err, Option-cases,
}
use zonemail.Db.{World, Mailbox}
use zonemail.Db.Action.{tick}
use zonemail.Db.Tables.{or_missing, get_mailbox_row}
use zonemail.Db.Integrity.{IsSound, has_mailbox, find_any}
use zonemail.Db.Integrity.Statements.{IsSound-tick}
use zonemail.Email.{no_headers}
use zonemail.Send.{Outside}
use zonemail.Send.Queue.{enqueue_forward}
use zonemail.Send.Enqueue.{LettreMessage, outbound_message, enqueue_outbound}
use zonemail.Db.Integrity.Messages.{IsSound-with_message, added_last}
use zonemail.Send.Producers.{HasSender, HasBoth, IsSound-insert_job, HasBoth-enqueue_forward}
use zonemail.Api.{outcome, or_500}
use zonemail.Api.Mail.{
  SendEmail, Mailer, recipients, build_send_message, provisioned, or_400, forward_rest, send_to,
  send_email,
}
use zonemail.Api.Contracts.{
  Ensures, Keeps, IsStable, IsSound-IsStable, Ensures-bind, Ensures-respond, Ensures-reject,
  Ensures-checked, Ensures-or_500, Keeps-parsed, Keeps-reject,
}

HasSender-IsStable : (sender : Text) → IsStable (HasSender sender)
HasSender-IsStable sender = record { sound = λ p. p.0; ticks = λ p. (IsSound-tick p.0, p.1) }

HasBoth-IsStable : (id : ℕ) (sender : Text) → IsStable (HasBoth id sender)
HasBoth-IsStable id sender = record {
  sound = λ p. p.0.0;
  ticks = λ p. ((IsSound-tick p.0.0, p.0.1), p.1);
}

module _ (o : Outside) (mailer : Mailer) (sender : Text) where
  forward-HasBoth :
      (id : ℕ) (rcpt : Text)
      → Ensures
          (HasBoth id sender)
          (outcome (enqueue_forward o id sender rcpt))
          (λ _. HasBoth id sender)
  forward-HasBoth id rcpt = record { at = λ w p. HasBoth-enqueue_forward o id sender rcpt w p }

  forward_rest-HasBoth :
      (id : ℕ) (rest : List Text)
      → Ensures (HasBoth id sender) (forward_rest mailer o id sender rest) (λ _. IsSound)
  unfolding forward_rest
  forward_rest-HasBoth id [] = Ensures-respond [] (λ w p. p.0.0)
  forward_rest-HasBoth id (r ∷ rs) = Ensures-bind (forward-HasBoth id r) λ queued.
      Ensures-bind (Ensures-or_500 (HasBoth-IsStable id sender) queued) λ job.
        Ensures-bind (forward_rest-HasBoth id rs) λ ids. Ensures-respond (job ∷ ids) (λ w s. s)

  abbrev Stored : Result (ℕ × ℕ) → World → Type 0
  Stored (ok (id, job)) w = HasBoth id sender w
  Stored (err e) w = HasSender sender w

  outbound-Stored :
      (rcpt : Text) (m : LettreMessage)
      → Ensures
          (HasSender sender)
          (outcome (enqueue_outbound o mailer.parse_mail sender rcpt m))
          Stored
  unfolding enqueue_outbound
  outbound-Stored rcpt m = record {
    at = λ w p.
        let row =
          outbound_message w.next_message m
            (or_default (mailer.parse_mail m.formatted) no_headers) in
        let s = IsSound-with_message row refl (IsSound-tick p.0) in
        let there = added_last row w.messages in
        elim (Option-cases (o.db_fault w.calls)) [
          | inr (t, e) ↦ rw e (IsSound-tick p.0, p.1)
          | inl e ↦ elim (Option-cases (o.db_fault (w.calls + 1))) [
            | inl e' ↦
                rw (e, e')
                  (
                    (
                      IsSound-insert_job w.next_message sender rcpt ((IsSound-tick s, p.1), there),
                      p.1,
                    ),
                    there,
                  )
            | inr (t, e') ↦ rw (e, e') (IsSound-tick s, p.1)
          ]
        ];
  }

  Stored-HasBoth :
      (stored : Result (ℕ × ℕ))
      → Ensures (Stored stored) (or_500 stored) (λ pair. HasBoth pair.0 sender)
  Stored-HasBoth (ok pair) = Ensures-respond pair (λ w p. p)
  Stored-HasBoth (err e) = Ensures-reject (HasSender-IsStable sender) 500 _

  -- a mailbox that was found is a sender
  abbrev FoundSender : Result Mailbox → World → Type 0
  FoundSender (ok m) w = HasSender sender w
  FoundSender (err e) w = IsSound w

  sender_found :
      (o' : Option Mailbox) (w : World)
      → IsSound w
      → ((m : Mailbox) → o' ≡ some m → has_mailbox w sender ≡ true)
      → FoundSender (or_missing o.not_found o' w).0 (or_missing o.not_found o' w).1
  sender_found none w s h = s
  sender_found (some m) w s h = (s, h m refl)

  lookup-FoundSender :
      Ensures IsSound (outcome (get_mailbox_row o.db_fault o.not_found sender)) FoundSender
  lookup-FoundSender =
      Ensures-checked o.db_fault _
        (λ w s.
          sender_found (find? (λ m. text_eq m.id sender) w.mailboxes) (tick w) (IsSound-tick s)
            (λ m e. find_any _ w.mailboxes m e))
        (λ e w s. IsSound-tick s)

  provisioned-HasSender :
      (found : Result Mailbox)
      → Ensures (FoundSender found) (provisioned mailer o sender found) (λ _. HasSender sender)
  provisioned-HasSender (ok m) = Ensures-respond tt (λ w p. p)
  provisioned-HasSender (err e) = Ensures-reject IsSound-IsStable 409 _

  or_400-HasSender :
      (m : Result LettreMessage)
      → Ensures (HasSender sender) (or_400 mailer o m) (λ _. HasSender sender)
  or_400-HasSender (ok m) = Ensures-respond m (λ w p. p)
  or_400-HasSender (err e) = Ensures-reject (HasSender-IsStable sender) 400 _

module _ (o : Outside) (mailer : Mailer) where
  Keeps-send_to : (body : SendEmail) (chosen : List Text) → Keeps (send_to mailer o body chosen)
  unfolding send_to
  Keeps-send_to body [] = Keeps-reject 400 _
  Keeps-send_to body (first ∷ rest) = Ensures-bind (lookup-FoundSender o mailer body.from) λ found.
      Ensures-bind (provisioned-HasSender o mailer body.from found) λ _.
        Ensures-bind (or_400-HasSender o mailer body.from (build_send_message mailer body)) λ m.
          Ensures-bind (outbound-Stored o mailer body.from first m) λ stored.
            Ensures-bind (Stored-HasBoth o mailer body.from stored) λ pair.
              Ensures-bind (forward_rest-HasBoth o mailer body.from pair.0 rest) λ ids.
                Ensures-respond (record { message_id = pair.0; outbound_ids = pair.1 ∷ ids })
                  (λ w s. s)

  pub Keeps-send_email : (body : Option SendEmail) → Keeps (send_email mailer o body)
  unfolding send_email
  Keeps-send_email body =
      Ensures-bind (Keeps-parsed body) (λ mail. Keeps-send_to mail (recipients mail))
