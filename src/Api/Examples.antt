-- ===== src/Api/Examples.antt =====
-- src/api.rs: the handlers at concrete tables, with a database that answers.
use zonemail.Prelude.{
  ◌||◌, ◌*◌, ◌+◌, ℕ, ◌≡◌, refl, Text, codes, text_eq, any, none, some, List, [], ◌∷◌, ok, err,
  arith, if◌then◌else◌, is_empty, trim, false, is_whitespace,
}
use zonemail.Db.{World, Mailbox, Record}
use zonemail.Db.RecordTypes.{RecordType}
use zonemail.Db.Integrity.{DistinctBy}
use zonemail.Send.{Outside, ahead, back}
use zonemail.Send.Enqueue.{LettreMessage}
use zonemail.Email.{no_headers}
use zonemail.Api.{Backend, done, failed, bad_request}
use zonemail.Api.Page.{walk, page_params}
use zonemail.Api.Records.{record_row, create_record_row}
use zonemail.Api.Messages.{ListMessagesQuery, messages_params}
use zonemail.Api.Mail.{
  SendEmail, Mailer, first_seen, recipients, build_send_message, parse_addrs, send_email, send_to,
}
use zonemail.Api.KeySet.{DomainRequest, keys, answer_codes, spec_codes, answer_codes-spec_codes}
use zonemail.Api.Page.{walk-page_params}
use zonemail.Api.Listing.{walk-messages_params}
use zonemail.Api.Fanout.{IsSent, recipients_lem, send_email-IsSent, send_email_rejected}
use zonemail.Api.Mailboxes.{NewMailbox, build_mailbox, try_from}
use zonemail.Api.Addresses.{IsAddressed, build_mailbox-IsAddressed}
use zonemail.Api.Repeat.{create_record_row_again}

abbrev backend : Backend
backend = record {
  db_fault = λ _. none;
  missing = codes "record not found";
  duplicate = codes "UNIQUE constraint failed";
  to_lowercase = λ t. t;
  type_name = λ _. codes "A";
  parse_type = λ s. if text_eq s (codes "A") then some RecordType.a else none;
}

abbrev outside : Outside
outside = record {
  db_fault = λ _. none;
  not_found = codes "record not found";
  env_var = λ _ _. none;
  parse_address = λ a. ok a;
  envelope_new = λ from to. ok (record { from = from; to = to });
  system_conf = λ _. ok tt;
  mx_lookup = λ _ _. ok [];
  build_native = λ p. ok p;
  add_span = λ now s. elim s [ ahead n ↦ some (now + n * 1000000000) | back n ↦ none ];
  send_raw = λ _ h. err (codes "refused");
}

abbrev letter : LettreMessage
letter = record { envelope_from = some (codes "ann@z.net"); formatted = codes "Subject: x" }

abbrev mailer : Mailer
mailer = record {
  parse_mailbox = λ a. ok a;
  parse_content_type = λ t. ok t;
  build = λ _. ok letter;
  parse_mail = λ _. some no_headers;
}

abbrev ann_box : Mailbox
ann_box = record { id = codes "ann@z.net"; domain_id = codes "z.net"; forward_to = none }

abbrev tables : World
tables = record {
  domains = record { id = codes "z.net" } ∷ [];
  records = [];
  mailboxes = ann_box ∷ [];
  messages = [];
  inbounds = [];
  outbounds = [];
  delivery_statuses = [];
  next_record = 1;
  next_message = 1;
  next_inbound = 1;
  next_outbound = 1;
  next_delivery = 1;
  calls = 0;
}

-- one recipient twice, and another
abbrev mail : SendEmail
mail = record {
  from = codes "ann@z.net";
  to = codes "b@x.org" ∷ codes "c@x.org" ∷ [];
  cc = codes "b@x.org" ∷ [];
  bcc = [];
  subject = none;
  body = codes "hello";
  content_type = none;
}

abbrev domain_session : List DomainRequest
domain_session =
    DomainRequest.post (some (record { id = codes "x.org" }))
    ∷ DomainRequest.post (some (record { id = codes " x.org " }))
    ∷ DomainRequest.delete_at (codes "x.org")
    ∷ DomainRequest.get_at (codes "x.org")
    ∷ DomainRequest.post none
    ∷ []

answer_codes-spec_codes_example :
    answer_codes backend (λ _. refl) domain_session tables ≡ spec_codes domain_session (keys tables)
answer_codes-spec_codes_example = answer_codes-spec_codes backend (λ _. refl) domain_session tables

chosen : recipients mail ≡ codes "b@x.org" ∷ codes "c@x.org" ∷ []
unfolding first_seen
chosen = refl

built : build_send_message mailer mail ≡ ok letter
unfolding build_send_message parse_addrs
built = refl

send_email-IsSent_example :
    IsSent outside mailer
      (λ _. refl)
      letter
      mail
      (recipients mail)
      tables
      (send_email mailer outside (some mail) tables)
send_email-IsSent_example =
    send_email-IsSent outside mailer (λ _. refl) letter mail (codes "b@x.org")
      (codes "c@x.org" ∷ []) tables ann_box chosen built refl

abbrev nobody : SendEmail
nobody = record mail { to = []; cc = [] }

refused :
    (send_email mailer outside (some nobody) tables).0
    ≡ failed 400 (bad_request (codes "no recipients: at least one of to, cc, or bcc is required"))
unfolding send_email first_seen send_to
refused = refl

send_email_rejected_example :
    ((send_email mailer outside (some nobody) tables).1.messages ≡ tables.messages)
    × ((send_email mailer outside (some nobody) tables).1.outbounds ≡ tables.outbounds)
send_email_rejected_example =
    send_email_rejected outside mailer (λ _. refl) (some nobody) tables 400
      (bad_request (codes "no recipients: at least one of to, cc, or bcc is required")) refused

recipients_lem_example :
    DistinctBy text_eq (recipients mail)
    × ((r : Text)
        → any (text_eq r) (recipients mail)
          ≡ (any (text_eq r) mail.to || (any (text_eq r) mail.cc || any (text_eq r) mail.bcc)))
recipients_lem_example = recipients_lem mail

abbrev row : Record
row = record_row (codes "z.net") RecordType.a (codes "10.0.0.1") 60

create_record_row_again_example :
    ((create_record_row backend row (create_record_row backend row tables).1).0
      ≡ (create_record_row backend row tables).0)
    × ((create_record_row backend row (create_record_row backend row tables).1).1.records
        ≡ (create_record_row backend row tables).1.records)
create_record_row_again_example = create_record_row_again backend (λ _. refl) row tables

abbrev seven : List ℕ
seven = 3 ∷ 1 ∷ 4 ∷ 1 ∷ 5 ∷ 9 ∷ 2 ∷ []

walk-page_params_example : walk 8 seven (page_params (some 0) none).0 0 ≡ some seven
walk-page_params_example = walk-page_params seven (some 0) (omega arith)

abbrev limit_zero : ListMessagesQuery
limit_zero = record { direction = none; limit = some 0; offset = none }

walk-messages_params_example :
    walk 100 seven
      (messages_params (some limit_zero) (some 0) none).0
      (messages_params (some limit_zero) (some 0) none).1
    ≡ none
walk-messages_params_example =
    walk-messages_params 100 seven limit_zero (some 0) none refl refl (omega arith)

abbrev new_box : NewMailbox
new_box = record { id = codes " bob@z.net"; domain_id = some (codes "z.net"); forward_to = none }

abbrev bob_box : Mailbox
bob_box = record { id = codes "bob@z.net"; domain_id = codes "z.net"; forward_to = none }

bob_built : (build_mailbox backend new_box tables).0 ≡ done bob_box
unfolding build_mailbox try_from is_whitespace
bob_built = refl

build_mailbox-IsAddressed_example :
    (is_empty bob_box.id ≡ false)
    × IsAddressed (trim (codes " bob@z.net")) bob_box
    × (bob_box.forward_to ≡ new_box.forward_to)
build_mailbox-IsAddressed_example =
    build_mailbox-IsAddressed backend new_box tables bob_box bob_built
