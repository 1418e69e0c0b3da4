-- ===== src/App/Seeding.antt =====
-- src/app.rs: what seeding keeps of the tables.
use zonemail.Prelude.{Text, Option, none, some, List, [], ◌∷◌, Result, ok, err}
use zonemail.Db.{World, Domain, Record, Mailbox}
use zonemail.Db.Tables.{insert_domain, insert_mailbox, insert_record}
use zonemail.Db.Integrity.{IsSound}
use zonemail.Db.Integrity.Statements.{
  IsSound-insert_domain, IsSound-insert_mailbox, IsSound-insert_record,
}
use zonemail.Db.Integrity.Actions.{
  IsClosed, IsSound-IsClosed, Maintains, Maintains-pure, Maintains-bind, Maintains-attempt,
  Maintains-checked, Maintains-get,
}
use zonemail.Api.{Backend}
use zonemail.Api.Mailboxes.{try_from}
use zonemail.App.{
  MailboxEntry, RecordDto, SeedConfig, address, record_of, domain_unless, seed_domains,
  entry_mailbox, mailbox_unless, seed_mailbox, seed_mailboxes, seed_records, seed_from_config,
}

module _ {P : World → Type 0} where
  module _ (closed : IsClosed P) where
    module _ (b : Backend) where
      module _ (adds : (d : Domain) (w : World) → P w → P (insert_domain b.duplicate d w).1) where
        Maintains-domain_unless :
            (id : Text) (found : Result Domain) → Maintains P (domain_unless b id found)
        Maintains-domain_unless id (ok d) = Maintains-pure tt
        Maintains-domain_unless id (err e) =
            Maintains-bind (Maintains-checked closed b.db_fault _ (adds (record { id = id })))
              (λ d. Maintains-pure tt)

        pub Maintains-seed_domains : (ids : List Text) → Maintains P (seed_domains b ids)
        unfolding seed_domains
        Maintains-seed_domains [] = Maintains-pure tt
        Maintains-seed_domains (id ∷ ids) =
            Maintains-bind
              (Maintains-bind (Maintains-attempt (Maintains-get closed b.db_fault b.missing _))
                (Maintains-domain_unless id))
              (λ _. Maintains-seed_domains ids)

      module _ (adds : (m : Mailbox) (w : World) → P w → P (insert_mailbox b.duplicate m w).1) where
        Maintains-mailbox_unless :
            (m : Mailbox) (found : Result Mailbox) → Maintains P (mailbox_unless b m found)
        Maintains-mailbox_unless m (ok existing) = Maintains-pure tt
        Maintains-mailbox_unless m (err e) =
            Maintains-bind (Maintains-checked closed b.db_fault _ (adds m)) (λ d. Maintains-pure tt)

        Maintains-seed_mailbox :
            (entry : MailboxEntry) (m : Option Mailbox) → Maintains P (seed_mailbox b entry m)
        Maintains-seed_mailbox entry none = Maintains-pure tt
        Maintains-seed_mailbox entry (some m) =
            Maintains-bind (Maintains-attempt (Maintains-get closed b.db_fault b.missing _))
              (Maintains-mailbox_unless (entry_mailbox b entry m))

        pub Maintains-seed_mailboxes :
            (entries : List MailboxEntry) → Maintains P (seed_mailboxes b entries)
        unfolding seed_mailboxes
        Maintains-seed_mailboxes [] = Maintains-pure tt
        Maintains-seed_mailboxes (entry ∷ rest) =
            Maintains-bind (Maintains-seed_mailbox entry (try_from (address entry)))
              (λ _. Maintains-seed_mailboxes rest)

      module _ (adds : (r : Record) (w : World) → P w → P (insert_record b.duplicate r w).1) where
        pub Maintains-seed_records : (dtos : List RecordDto) → Maintains P (seed_records b dtos)
        unfolding seed_records
        Maintains-seed_records [] = Maintains-pure tt
        Maintains-seed_records (dto ∷ rest) =
            Maintains-bind (Maintains-checked closed b.db_fault _ (adds (record_of dto)))
              (λ _. Maintains-seed_records rest)

-- Seeding tables that keep the models' constraints leaves tables that keep them, whichever of its
-- statements fails.
pub seed_from_config-IsSound :
    (b : Backend) (config : SeedConfig) (w : World)
    → IsSound w
    → IsSound (seed_from_config b config w).1
unfolding seed_from_config
seed_from_config-IsSound b config w s =
    let closed = IsSound-IsClosed in
    (Maintains-bind
        (Maintains-seed_domains closed b (λ d w. IsSound-insert_domain b.duplicate d)
          config.domains)
        (λ _.
          Maintains-bind
            (Maintains-seed_mailboxes closed b (λ m w. IsSound-insert_mailbox b.duplicate m)
              config.mailboxes)
            (λ _.
              Maintains-seed_records closed b (λ r w. IsSound-insert_record b.duplicate r)
                config.records))).at
      w s
