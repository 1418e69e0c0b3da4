-- ===== src/Db/Tables.antt =====
-- src/db.rs: the keys and the unique constraint that the models declare, and the deletes that cascade
-- over the `has_many` relations.
use zonemail.Prelude.{
  ℕ, ◌+◌, ◌==◌, Text, text_eq, Bool, not, ◌&&◌, Option, none, some, [], ◌∷◌, ◌++◌, Result, ok, err,
  find?, filter, any, update_where, if◌then◌else◌,
}
use zonemail.Db.{World, Domain, Record, Mailbox, Message, Inbound, Outbound}
use zonemail.Db.RecordTypes.{RecordType, type_code}
use zonemail.Db.Action.{Action, tick}

-- A statement that may break a constraint: then it fails and writes nothing.
abbrev pub run_checked {ℓ} : {A : Type ℓ} → Option Text → (World → Result A × World) → Action A
run_checked none f w = f (tick w)
run_checked (some e) f w = (err e, tick w)

abbrev pub exec_checked {ℓ} :
    {A : Type ℓ} → (ℕ → Option Text) → (World → Result A × World) → Action A
exec_checked fault f w = run_checked (fault w.calls) f w

abbrev pub or_missing {ℓ} : {A : Type ℓ} → Text → Option A → World → Result A × World
or_missing missing none w = (err missing, w)
or_missing missing (some a) w = (ok a, w)

-- `PartialEq` of `RecordType`
abbrev pub type_eq : RecordType → RecordType → Bool
type_eq s t = type_code s == type_code t

abbrev pub same_domain : Domain → Domain → Bool
same_domain a b = text_eq a.id b.id

abbrev pub same_mailbox : Mailbox → Mailbox → Bool
same_mailbox a b = text_eq a.id b.id

-- the triple that is unique among the records
abbrev pub same_triple : Record → Record → Bool
same_triple a b =
    text_eq a.domain_id b.domain_id
    && (type_eq a.record_type b.record_type && text_eq a.value b.value)

-- `get_by_id` of each model
module _ (fault : ℕ → Option Text) (missing : Text) where
  abbrev pub get_domain_row : Text → Action Domain
  get_domain_row id =
      exec_checked fault (λ v. or_missing missing (find? (λ d. text_eq d.id id) v.domains) v)

  abbrev pub get_mailbox_row : Text → Action Mailbox
  get_mailbox_row id =
      exec_checked fault (λ v. or_missing missing (find? (λ m. text_eq m.id id) v.mailboxes) v)

  abbrev pub get_record_row : ℕ → Action Record
  get_record_row id =
      exec_checked fault (λ v. or_missing missing (find? (λ r. r.id == id) v.records) v)

  abbrev pub get_message_row : ℕ → Action Message
  get_message_row id =
      exec_checked fault (λ v. or_missing missing (find? (λ m. m.id == id) v.messages) v)

-- `create!` of the models with a key or a unique constraint
abbrev pub insert_domain : Text → Domain → World → Result Domain × World
insert_domain duplicate d w =
    if any (same_domain d) w.domains
    then (err duplicate, w)
    else (ok d, record w { domains = w.domains ++ d ∷ [] })

abbrev pub insert_mailbox : Text → Mailbox → World → Result Mailbox × World
insert_mailbox duplicate m w =
    if any (same_mailbox m) w.mailboxes
    then (err duplicate, w)
    else (ok m, record w { mailboxes = w.mailboxes ++ m ∷ [] })

-- the record with its automatic key
abbrev pub with_key : ℕ → Record → Record
with_key id r = record r { id = id }

abbrev pub insert_record : Text → Record → World → Result Record × World
insert_record duplicate r w = if any (same_triple r) w.records then (err duplicate, w) else (
  ok (with_key w.next_record r),
  record w {
    records = w.records ++ with_key w.next_record r ∷ [];
    next_record = w.next_record + 1;
  },
)

-- `update!` of the row with the key of `r`, which must keep the triple unique
abbrev pub update_record : Text → Record → World → Result (Unit {0}) × World
update_record duplicate r w =
    if any (λ x. not (x.id == r.id) && same_triple r x) w.records
    then (err duplicate, w)
    else (ok tt, record w { records = update_where (λ x. x.id == r.id) (λ _. r) w.records })

-- `update!` of the mailbox with the key of `m`
abbrev pub update_mailbox : Mailbox → World → Result (Unit {0}) × World
update_mailbox m w =
    (ok tt, record w { mailboxes = update_where (same_mailbox m) (λ _. m) w.mailboxes })

-- The deletes: `p` tells the rows that go. Their dependents go with them.
abbrev pub delete_outbounds : (Outbound → Bool) → World → World
delete_outbounds p w = record w {
  outbounds = filter (λ r. not (p r)) w.outbounds;
  delivery_statuses =
      filter (λ s. not (any (λ r. p r && (r.id == s.outbound_id)) w.outbounds)) w.delivery_statuses;
}

abbrev pub delete_inbounds : (Inbound → Bool) → World → World
delete_inbounds p w = record w { inbounds = filter (λ r. not (p r)) w.inbounds }

abbrev pub delete_messages : (Message → Bool) → World → World
delete_messages p w = record w { messages = filter (λ m. not (p m)) w.messages }

abbrev pub delete_records : (Record → Bool) → World → World
delete_records p w = record w { records = filter (λ r. not (p r)) w.records }

-- whether the mailbox of this key goes
abbrev pub goes : (Mailbox → Bool) → World → Text → Bool
goes p w id = any (λ m. p m && text_eq m.id id) w.mailboxes

abbrev pub delete_mailboxes : (Mailbox → Bool) → World → World
delete_mailboxes p w =
    let links =
      delete_inbounds (λ r. goes p w r.rcpt_to) (delete_outbounds (λ r. goes p w r.sender_id) w) in
    record links { mailboxes = filter (λ m. not (p m)) w.mailboxes }

abbrev pub delete_domain_row : Text → World → World
delete_domain_row id w =
    let below =
      delete_records (λ r. text_eq r.domain_id id)
        (delete_mailboxes (λ m. text_eq m.domain_id id) w) in
    record below { domains = filter (λ d. not (text_eq d.id id)) w.domains }
