-- ===== src/App/Examples.antt =====
-- src/app.rs: two starts with a configuration that has one domain, mailbox and record.
use zonemail.Prelude.{◌≡◌, refl, Text, codes, none, some, [], ◌∷◌, ok, err}
use zonemail.Db.{World}
use zonemail.Db.RecordTypes.{RecordType}
use zonemail.Api.{Backend}
use zonemail.Api.Mailboxes.{try_from}
use zonemail.App.{
  MailboxEntry, RecordDto, SeedConfig, seed_domains, seed_mailboxes, seed_records, seed_from_config,
}
use zonemail.App.Restart.{seed_from_config_again}

abbrev backend : Backend
backend = record {
  db_fault = λ _. none;
  missing = codes "record not found";
  duplicate = codes "UNIQUE constraint failed";
  to_lowercase = λ t. t;
  type_name = λ _. codes "MX";
  parse_type = λ _. some RecordType.mx;
}

abbrev mx : RecordDto
mx = record {
  domain_id = codes "z.net";
  record_type = RecordType.mx;
  value = codes "10 mail.z.net";
  ttl = 60;
}

abbrev config : SeedConfig
config = record {
  domains = codes "z.net" ∷ [];
  mailboxes = MailboxEntry.simple (codes "ann@z.net") ∷ MailboxEntry.simple (codes "ann") ∷ [];
  records = mx ∷ [];
}

abbrev blank : World
blank = record {
  domains = [];
  records = [];
  mailboxes = [];
  messages = [];
  inbounds = [];
  outbounds = [];
  delivery_statuses = [];
  next_record = 1;
  next_message = 1;
  next_inbound = 1;
  next_outbound = 1;
  next_delivery = 1;
  calls = 0;
}

first_start : (seed_from_config backend config blank).0 ≡ ok tt
unfolding seed_from_config seed_domains seed_mailboxes seed_records try_from
first_start = refl

seed_from_config_again_example :
    (e : Text) × ((seed_from_config backend config (seed_from_config backend config blank).1).0
      ≡ err e)
seed_from_config_again_example = seed_from_config_again backend config mx [] blank refl first_start
