-- ===== src/Email/Examples.antt =====
-- src/email.rs: the theorems at one mailbox that forwards, and one message.
use zonemail.Prelude.{
  ◌*◌, ◌+◌, ◌≡◌, refl, Text, codes, is_whitespace, none, some, [], ◌∷◌, ◌++◌, ok, err,
}
use zonemail.Db.{World, Mailbox}
use zonemail.Send.{Outside, ahead, back}
use zonemail.Email.{
  ParsedMail, no_headers, handle_rcpt, handle_email, find_existing, store_unless, link_each,
  dedup_key, clean,
}
use zonemail.Email.Receive.{mailbox_at, Receives, handle_rcpt-ok, handle_email-ok}

-- the database answers; no mail is sent here
abbrev answering : Outside
answering = record {
  db_fault = λ _. none;
  not_found = codes "record not found";
  env_var = λ _ _. none;
  parse_address = λ a. ok a;
  envelope_new = λ from to. ok (record { from = from; to = to });
  system_conf = λ _. ok tt;
  mx_lookup = λ _ _. ok [];
  build_native = λ p. ok p;
  add_span = λ now s. elim s [ ahead n ↦ some (now + n * 1000000000) | back n ↦ none ];
  send_raw = λ _ h. err (codes "refused");
}

abbrev ann : Text
ann = codes "ann@z.net"

abbrev ann_box : Mailbox
ann_box = record { id = ann; domain_id = codes "z.net"; forward_to = some (codes "ann@b.org") }

abbrev with_ann : World
with_ann = record {
  domains = [];
  records = [];
  mailboxes = ann_box ∷ [];
  messages = [];
  inbounds = [];
  outbounds = [];
  delivery_statuses = [];
  next_record = 1;
  next_message = 1;
  next_inbound = 1;
  next_outbound = 1;
  next_delivery = 1;
  calls = 0;
}

abbrev with_id : ParsedMail
with_id = record no_headers { message_id = some (codes "1@x") }

accepted : (handle_rcpt answering (λ t. t) (codes "<ann@z.net>") [] with_ann).0 ≡ ok (ann ∷ [])
unfolding handle_rcpt
accepted = refl

handle_rcpt-ok_example :
    ((m : Mailbox) × (mailbox_at with_ann (clean answering (λ t. t) (codes "<ann@z.net>"))
        ≡ some m))
    × (ann ∷ [] ≡ [] ++ clean answering (λ t. t) (codes "<ann@z.net>") ∷ [])
    × ((handle_rcpt answering (λ t. t) (codes "<ann@z.net>") [] with_ann).1
        ≡ record with_ann { calls = 1 })
handle_rcpt-ok_example =
    handle_rcpt-ok answering (λ t. t) (codes "<ann@z.net>") [] (ann ∷ []) with_ann accepted

stored : (handle_email answering (λ _. some with_id) (codes "x") (ann ∷ []) with_ann).0 ≡ ok tt
unfolding handle_email find_existing store_unless link_each dedup_key is_whitespace
stored = refl

handle_email-ok_example :
    Receives answering with_id
      (codes "x")
      (ann ∷ [])
      with_ann
      (handle_email answering (λ _. some with_id) (codes "x") (ann ∷ []) with_ann).1
handle_email-ok_example =
    handle_email-ok answering (λ _. some with_id) (codes "x") (ann ∷ []) with_ann stored
