-- ===== src/Db.antt =====
-- src/db.rs: the tables' rows. The columns `created_at` and `updated_at`, which no operation
-- reads, and the deferred relations are left out. `World` holds the tables, the next automatic key
-- of each, and the number of calls made so far of code outside the repository.
pub mod RecordTypes
pub mod Action
pub mod Outbox
pub mod Tables
pub mod Integrity
use zonemail.Prelude.{ℕ, ◌+◌, Text, text_eq, ◌==◌, Bool, Option, List, ◌∷◌, []}
use zonemail.Db.RecordTypes.{RecordType}

-- `Domain`
pub record Domain : Type 0 where
  pub id : Text

-- `Record`
pub record Record : Type 0 where
  pub id : ℕ
  pub domain_id : Text
  pub record_type : RecordType
  pub value : Text
  pub ttl : ℕ

-- `Mailbox`
pub record Mailbox : Type 0 where
  pub id : Text
  pub domain_id : Text
  pub forward_to : Option Text

-- `Message`; `raw` holds bytes
pub record Message : Type 0 where
  pub id : ℕ
  pub mail_from : Text
  pub raw : List ℕ
  pub subject : Option Text
  pub message_id_header : Option Text
  pub content_type : Option Text
  pub from_address : Option Text
  pub to : List Text
  pub cc : List Text
  pub bcc : List Text

-- `Inbound`
pub record Inbound : Type 0 where
  pub id : ℕ
  pub message_id : ℕ
  pub rcpt_to : Text

-- `OutboundStatus`
pub data OutboundStatus : Type 0 where
  queued in_progress delivered failed : OutboundStatus

-- `Outbound`; a time stamp counts nanoseconds
pub record Outbound : Type 0 where
  pub id : ℕ
  pub message_id : ℕ
  pub rcpt_to : Text
  pub sender_id : Text
  pub status : OutboundStatus
  pub attempts : ℕ
  pub next_attempt_at : Option ℕ
  pub last_error : Option Text

-- `DeliveryStatus`
pub record DeliveryStatus : Type 0 where
  pub id : ℕ
  pub outbound_id : ℕ
  pub peer_host : Text
  pub code : Option ℕ
  pub message : Option Text

pub record World : Type 0 where
  pub domains : List Domain
  pub records : List Record
  pub mailboxes : List Mailbox
  pub messages : List Message
  pub inbounds : List Inbound
  pub outbounds : List Outbound
  pub delivery_statuses : List DeliveryStatus
  pub next_record : ℕ
  pub next_message : ℕ
  pub next_inbound : ℕ
  pub next_outbound : ℕ
  pub next_delivery : ℕ
  pub calls : ℕ
