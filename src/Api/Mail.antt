-- ===== src/Api/Mail.antt =====
-- src/api.rs: the handler of `/mail`, which enqueues one job for each recipient. `Mailer` has the parts
-- of `lettre` and of the message parser that it calls.
use zonemail.Prelude.{
  ℕ, Text, text_eq, codes, ◌++◌, Option, none, some, List, [], ◌∷◌, any, Result, ok, err,
  if◌then◌else◌,
}
use zonemail.Db.{Mailbox}
use zonemail.Db.Tables.{get_mailbox_row}
use zonemail.Email.{ParsedMail}
use zonemail.Send.{Outside}
use zonemail.Send.Queue.{enqueue_forward}
use zonemail.Send.Enqueue.{LettreMessage, enqueue_outbound}
use zonemail.Api.{
  Handler, respond, reject, outcome, parsed, or_500, bad_request, conflict, ◌>>=◌, ◌>>◌,
}

-- `SendEmail`
pub record SendEmail : Type 0 where
  pub from : Text
  pub to : List Text
  pub cc : List Text
  pub bcc : List Text
  pub subject : Option Text
  pub body : Text
  pub content_type : Option Text

-- `SendResult`
pub record SendResult : Type 0 where
  pub message_id : ℕ
  pub outbound_ids : List ℕ

-- what is handed to `lettre`'s builder, with parsed addresses; an address is its text
pub record Draft : Type 0 where
  pub from : Text
  pub to : List Text
  pub cc : List Text
  pub bcc : List Text
  pub content_type : Option Text
  pub subject : Option Text
  pub body : Text

pub record Mailer : Type 0 where
  -- `str::parse::<lettre::message::Mailbox>` and `ContentType::parse`
  pub parse_mailbox : Text → Result Text
  pub parse_content_type : Text → Result Text
  -- the builder's `body`
  pub build : Draft → Result LettreMessage
  -- `MessageParser::default().parse`
  pub parse_mail : List ℕ → Option ParsedMail

-- `seen.insert` over the chain of the recipients: those not yet in `seen`
unfoldable pub first_seen : List Text → List Text → List Text
first_seen seen [] = []
first_seen seen (r ∷ rs) =
    let later = first_seen (r ∷ seen) rs in
    let rest = first_seen seen rs in if any (text_eq r) seen then rest else r ∷ later

-- the recipients of `send_email`
abbrev pub recipients : SendEmail → List Text
recipients body = first_seen [] (body.to ++ (body.cc ++ body.bcc))

abbrev pub then_result {ℓ κ} : {A : Type ℓ} {B : Type κ} → Result A → (A → Result B) → Result B
then_result (ok a) f = f a
then_result (err e) f = err e

abbrev prefixed {ℓ} : {A : Type ℓ} → Text → Result A → Result A
prefixed prefix (ok a) = ok a
prefixed prefix (err e) = err (prefix ++ e)

module _ (mailer : Mailer) where
  -- `parse_addrs`
  unfoldable pub parse_addrs : List Text → Result (List Text)
  parse_addrs [] = ok []
  parse_addrs (s ∷ rest) =
      then_result (mailer.parse_mailbox s)
        (λ a. then_result (parse_addrs rest) (λ later. ok (a ∷ later)))

  abbrev optional_type : Option Text → Result (Option Text)
  optional_type none = ok none
  optional_type (some t) =
      then_result
        (prefixed (codes "invalid content_type '" ++ t ++ codes "': ")
          (mailer.parse_content_type t))
        (λ h. ok (some h))

  -- `build_send_message`
  unfoldable pub build_send_message : SendEmail → Result LettreMessage
  build_send_message m =
      then_result
        (prefixed (codes "invalid From address '" ++ m.from ++ codes "': ")
          (mailer.parse_mailbox m.from))
        (λ from. then_result (parse_addrs m.to) (λ to. then_result (parse_addrs m.cc) (λ cc.
          then_result (parse_addrs m.bcc) (λ bcc.
            then_result (optional_type m.content_type) (λ content_type.
              prefixed (codes "failed to build message: ") (
                mailer.build (record {
                  from = from;
                  to = to;
                  cc = cc;
                  bcc = bcc;
                  content_type = content_type;
                  subject = m.subject;
                  body = m.body;
                })))))))

  module _ (o : Outside) where
    abbrev pub provisioned : Text → Result Mailbox → Handler (Unit {0})
    provisioned sender (ok m) = respond tt
    provisioned sender (err _) =
        reject 409 (conflict (codes "sender '" ++ sender ++ codes "' is not a provisioned mailbox"))

    abbrev pub or_400 : Result LettreMessage → Handler LettreMessage
    or_400 (ok m) = respond m
    or_400 (err e) = reject 400 (bad_request e)

    -- the loop over the recipients after the first
    unfoldable pub forward_rest : ℕ → Text → List Text → Handler (List ℕ)
    forward_rest message_id sender [] = respond []
    forward_rest message_id sender (r ∷ rs) = do
      queued ← outcome (enqueue_forward o message_id sender r)
      id ← or_500 queued
      ids ← forward_rest message_id sender rs
      respond (id ∷ ids)

    -- `send_email` from its recipients on
    unfoldable pub send_to : SendEmail → List Text → Handler SendResult
    send_to body [] =
        reject 400 (bad_request (codes "no recipients: at least one of to, cc, or bcc is required"))
    send_to body (first ∷ rest) = do
      found ← outcome (get_mailbox_row o.db_fault o.not_found body.from)
      provisioned body.from found
      m ← or_400 (build_send_message body)
      stored ← outcome (enqueue_outbound o mailer.parse_mail body.from first m)
      pair ← or_500 stored
      ids ← forward_rest pair.0 body.from rest
      respond (record { message_id = pair.0; outbound_ids = pair.1 ∷ ids })

    -- `send_email`
    unfoldable pub send_email : Option SendEmail → Handler SendResult
    send_email body = do mail ← parsed body; send_to mail (recipients mail)
