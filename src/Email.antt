-- ===== src/Email.antt =====
-- src/email.rs: `ZonedMailHandler`, the SMTP receiver's handler. The message parser and Unicode's lower
-- case are parameters, and so is all of `Outside`.
pub mod Receive
pub mod Sound
mod Examples
use zonemail.Prelude.{
  ℕ, ◌+◌, ◌==◌, Text, codes, text_eq, is_empty, trim, trim_matches, Bool, true, false, ◌||◌, Option,
  none, some, or_default, List, [], ◌∷◌, ◌++◌, Result, ok, err, find?, if◌then◌else◌,
}
use zonemail.Db.{World, Message, Mailbox, Inbound}
use zonemail.Db.Action.{Action, pure, fail, attempt, map_err, exec, effect, ◌>>=◌, ◌>>◌}
use zonemail.Send.{Outside}
use zonemail.Send.Queue.{enqueue_forward}

-- `mail_parser`'s `Address`, by the addresses that its entries carry
pub data Address : Type 0 where
  list : List (Option Text) → Address
  group : List (List (Option Text)) → Address

-- what `handle_email` reads of `mail_parser`'s parsed message
pub record ParsedMail : Type 0 where
  pub from : Option Address
  pub subject : Option Text
  pub content_type : Option Text
  pub message_id : Option Text
  pub to : Option Address
  pub cc : Option Address
  pub bcc : Option Address

abbrev head_address : List (Option Text) → Option Text
head_address [] = none
head_address (a ∷ rest) = a

abbrev find_address : List (List (Option Text)) → Option Text
find_address [] = none
find_address (g ∷ gs) = elim (head_address g) [ none ↦ find_address gs | some a ↦ some a ]

-- `address_to_string`
abbrev pub address_to_string : Address → Text
address_to_string (Address.list l) = or_default (head_address l) []
address_to_string (Address.group gs) = or_default (find_address gs) []

abbrev present : List (Option Text) → List Text
present [] = []
present (none ∷ rest) = present rest
present (some a ∷ rest) = a ∷ present rest

abbrev present_each : List (List (Option Text)) → List Text
present_each [] = []
present_each (g ∷ gs) = present g ++ present_each gs

-- `address_list_to_strings`
abbrev pub address_list_to_strings : Address → List Text
address_list_to_strings (Address.list l) = present l
address_list_to_strings (Address.group gs) = present_each gs

abbrev addresses : Option Address → List Text
addresses none = []
addresses (some a) = address_list_to_strings a

abbrev map_address : Option Address → Option Text
map_address none = none
map_address (some a) = some (address_to_string a)

-- the headers of a message that does not parse
abbrev pub no_headers : ParsedMail
no_headers = record {
  from = none;
  subject = none;
  content_type = none;
  message_id = none;
  to = none;
  cc = none;
  bcc = none;
}

-- `Err(SmtpError::Abort)`
abbrev pub abort : Text
abort = codes "Abort"

-- the `Message` that `handle_email` stores
abbrev pub new_message : ℕ → ParsedMail → List ℕ → Message
new_message id mail raw = record {
  id = id;
  mail_from = or_default (map_address mail.from) [];
  raw = raw;
  subject = mail.subject;
  message_id_header = mail.message_id;
  content_type = mail.content_type;
  from_address = map_address mail.from;
  to = addresses mail.to;
  cc = addresses mail.cc;
  bcc = addresses mail.bcc;
}

abbrev pub insert_message : ParsedMail → List ℕ → World → ℕ × World
insert_message mail raw w = (
  w.next_message,
  record w {
    messages = w.messages ++ new_message w.next_message mail raw ∷ [];
    next_message = w.next_message + 1;
  },
)

abbrev pub new_inbound : ℕ → ℕ → Text → Inbound
new_inbound id message_id rcpt = record { id = id; message_id = message_id; rcpt_to = rcpt }

abbrev pub insert_inbound : ℕ → Text → World → World
insert_inbound message_id rcpt w = record w {
  inbounds = w.inbounds ++ new_inbound w.next_inbound message_id rcpt ∷ [];
  next_inbound = w.next_inbound + 1;
}

-- a query of the table by the header
abbrev pub has_header : Text → Message → Bool
has_header key m = elim m.message_id_header [ none ↦ false | some h ↦ text_eq h key ]

-- the key of the deduplication
unfoldable pub dedup_key : Option Text → Option Text
dedup_key none = none
dedup_key (some h) = let key = trim h in if is_empty key then none else some key

abbrev pub reused : Result (Option Message) → Option ℕ
reused (ok none) = none
reused (ok (some m)) = some m.id
reused (err e) = none

-- the recipients of `handle_email`
abbrev pub or_unknown : List Text → List Text
or_unknown [] = codes "unknown" ∷ []
or_unknown (r ∷ rs) = r ∷ rs

module _ (o : Outside) where
  abbrev found_mailbox : Option Mailbox → Action Mailbox
  found_mailbox none = fail o.not_found
  found_mailbox (some m) = pure m

  -- `Mailbox::get_by_id`
  abbrev pub get_mailbox : Text → Action Mailbox
  get_mailbox id = do
    found ← exec o.db_fault (λ v. (find? (λ m. text_eq m.id id) v.mailboxes, v))
    found_mailbox found

  -- the address of `handle_rcpt`; `to_lowercase` is `str::to_lowercase`
  abbrev pub clean : (Text → Text) → Text → Text
  clean to_lowercase to =
      to_lowercase (trim_matches (λ c. (c == b'<') || (c == b'>') || (c == b' ')) to)

  abbrev pub accept : Text → List Text → Result Mailbox → Action (List Text)
  accept address recipients (ok m) = pure (recipients ++ address ∷ [])
  accept address recipients (err e) = fail abort

  -- `handle_rcpt`: the recipients after it, or the rejection, which leaves them
  unfoldable pub handle_rcpt : (Text → Text) → Text → List Text → Action (List Text)
  handle_rcpt to_lowercase to recipients = do
    found ← attempt (get_mailbox (clean to_lowercase to))
    accept (clean to_lowercase to) recipients found

  -- the lookup of an earlier copy, which never fails
  unfoldable pub find_existing : Option Text → Action (Option ℕ)
  find_existing none = pure none
  find_existing (some key) = do
    found ← attempt (exec o.db_fault (λ v. (find? (has_header key) v.messages, v)))
    pure (reused found)

  abbrev pub or_abort {ℓ} : {A : Type ℓ} → Result A → Action A
  or_abort (ok a) = pure a
  or_abort (err e) = fail abort

  -- `create!(Message)`, unless there is a copy
  unfoldable pub store_unless : ParsedMail → List ℕ → Option ℕ → Action ℕ
  store_unless mail raw (some id) = pure id
  store_unless mail raw none = do
    created ← attempt (exec o.db_fault (insert_message mail raw))
    or_abort created

  -- the loop that creates the `Inbound` rows
  unfoldable pub link_each : ℕ → List Text → Action (Unit {0})
  link_each message_id [] = pure tt
  link_each message_id (r ∷ rs) = do
    created ← attempt (exec o.db_fault (effect (insert_inbound message_id r)))
    or_abort created
    link_each message_id rs

  abbrev pub forward_to : ℕ → Text → Option Text → World → World
  forward_to message_id rcpt none w = w
  forward_to message_id rcpt (some target) w = (enqueue_forward o message_id rcpt target w).1

  abbrev pub forward_for : ℕ → Text → Result Mailbox → World → World
  forward_for message_id rcpt (err e) w = w
  forward_for message_id rcpt (ok mailbox) w = forward_to message_id rcpt mailbox.forward_to w

  -- the loop that forwards, whose failures are logged
  unfoldable pub forward_each : ℕ → List Text → World → World
  forward_each message_id [] w = w
  forward_each message_id (r ∷ rs) w =
      let (found, v) = get_mailbox r w in
      forward_each message_id rs (forward_for message_id r found v)

  abbrev pub forward_all : ℕ → List Text → Action (Unit {0})
  forward_all message_id rs w = (ok tt, forward_each message_id rs w)

  -- `handle_email`, on the recipients that it takes; `parse` is `MessageParser::default().parse`
  unfoldable pub handle_email :
      (List ℕ → Option ParsedMail) → List ℕ → List Text → Action (Unit {0})
  handle_email parse raw recipients =
      let mail = or_default (parse raw) no_headers in
      let all = or_unknown recipients in
      (do
        existing ← find_existing (dedup_key mail.message_id)
        message_id ← store_unless mail raw existing
        link_each message_id all
        forward_all message_id all)
