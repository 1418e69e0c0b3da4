-- ===== src/App.antt =====
-- src/app.rs: `seed_from_config`, with `MailboxEntry` of src/config.rs and `RecordDTO` of src/db.rs.
-- The schema and the connection are the ORM's.
pub mod Seeding
pub mod Restart
mod Examples
use zonemail.Prelude.{ℕ, Text, Option, none, some, List, [], ◌∷◌, Result, ok, err}
use zonemail.Db.{World, Domain, Record, Mailbox}
use zonemail.Db.RecordTypes.{RecordType}
use zonemail.Db.Action.{Action, pure, attempt, ◌>>=◌, ◌>>◌}
use zonemail.Db.Tables.{
  exec_checked, get_domain_row, get_mailbox_row, insert_domain, insert_mailbox, insert_record,
}
use zonemail.Api.{Backend}
use zonemail.Api.Mailboxes.{try_from}

-- `MailboxEntry`
pub data MailboxEntry : Type 0 where
  simple : Text → MailboxEntry
  detailed : Text → Option Text → MailboxEntry

-- `MailboxEntry::address`
abbrev pub address : MailboxEntry → Text
address (MailboxEntry.simple s) = s
address (MailboxEntry.detailed id f) = id

-- `MailboxEntry::forward_to`
abbrev pub forward_target : MailboxEntry → Option Text
forward_target (MailboxEntry.simple s) = none
forward_target (MailboxEntry.detailed id f) = f

-- `RecordDTO`
pub record RecordDto : Type 0 where
  pub domain_id : Text
  pub record_type : RecordType
  pub value : Text
  pub ttl : ℕ

-- `From<&RecordDTO> for Record`
abbrev pub record_of : RecordDto → Record
record_of dto = record {
  id = 0;
  domain_id = dto.domain_id;
  record_type = dto.record_type;
  value = dto.value;
  ttl = dto.ttl;
}

-- the parts of `Config` that are seeded
pub record SeedConfig : Type 0 where
  pub domains : List Text
  pub mailboxes : List MailboxEntry
  pub records : List RecordDto

module _ (b : Backend) where
  -- the body of the loop over the domains, from its lookup on
  abbrev pub domain_unless : Text → Result Domain → Action (Unit {0})
  domain_unless id (ok d) = pure tt
  domain_unless id (err _) = do
    d ← exec_checked b.db_fault (insert_domain b.duplicate (record { id = id }))
    pure tt

  abbrev pub seed_domain : Text → Action (Unit {0})
  seed_domain id = do
    found ← attempt (get_domain_row b.db_fault b.missing id)
    domain_unless id found

  unfoldable pub seed_domains : List Text → Action (Unit {0})
  seed_domains [] = pure tt
  seed_domains (id ∷ ids) = do seed_domain id; seed_domains ids

  -- the mailbox of an entry; its domain keeps the case of the entry
  abbrev pub entry_mailbox : MailboxEntry → Mailbox → Mailbox
  entry_mailbox entry m = record m { id = b.to_lowercase m.id; forward_to = forward_target entry }

  abbrev pub mailbox_unless : Mailbox → Result Mailbox → Action (Unit {0})
  mailbox_unless m (ok existing) = pure tt
  mailbox_unless m (err _) = do
    created ← exec_checked b.db_fault (insert_mailbox b.duplicate m)
    pure tt

  -- the body of the loop over the mailboxes; an entry that is no address is skipped
  abbrev pub seed_mailbox : MailboxEntry → Option Mailbox → Action (Unit {0})
  seed_mailbox entry none = pure tt
  seed_mailbox entry (some m) = do
    found ← attempt (get_mailbox_row b.db_fault b.missing (entry_mailbox entry m).id)
    mailbox_unless (entry_mailbox entry m) found

  unfoldable pub seed_mailboxes : List MailboxEntry → Action (Unit {0})
  seed_mailboxes [] = pure tt
  seed_mailboxes (entry ∷ rest) = do
    seed_mailbox entry (try_from (address entry))
    seed_mailboxes rest

  -- the loop over the records
  unfoldable pub seed_records : List RecordDto → Action (Unit {0})
  seed_records [] = pure tt
  seed_records (dto ∷ rest) = do
    created ← exec_checked b.db_fault (insert_record b.duplicate (record_of dto))
    seed_records rest

  -- `seed_from_config`
  unfoldable pub seed_from_config : SeedConfig → Action (Unit {0})
  seed_from_config config = do
    seed_domains config.domains
    seed_mailboxes config.mailboxes
    seed_records config.records
