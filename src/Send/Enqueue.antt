-- ===== src/Send/Enqueue.antt =====
-- src/send.rs: `enqueue_outbound`. The parameters are `lettre`'s message, by its envelope sender and
-- its bytes, and the message parser.
use zonemail.Prelude.{ℕ, ◌+◌, Text, codes, Option, none, some, or_default, List, [], ◌∷◌, ◌++◌}
use zonemail.Db.{World, Message}
use zonemail.Db.Action.{Action, pure, map_err, exec, ◌>>=◌}
use zonemail.Send.{Outside}
use zonemail.Send.Queue.{insert_job}
use zonemail.Email.{Address, ParsedMail, no_headers, address_to_string, address_list_to_strings}

-- `lettre`'s `Message`: `envelope().from()` and `formatted()`
pub record LettreMessage : Type 0 where
  pub envelope_from : Option Text
  pub formatted : List ℕ

-- `first_address`
abbrev pub first_address : Address → Text
first_address = address_to_string

-- `addrs_to_strings`
abbrev pub addrs_to_strings : Address → List Text
addrs_to_strings = address_list_to_strings

-- the `Message` of an outbound mail, with the sender of the envelope
abbrev pub outbound_message : ℕ → LettreMessage → ParsedMail → Message
outbound_message id m mail = record {
  id = id;
  mail_from = or_default m.envelope_from [];
  raw = m.formatted;
  subject = mail.subject;
  message_id_header = mail.message_id;
  content_type = mail.content_type;
  from_address = elim mail.from [ none ↦ none | some a ↦ some (first_address a) ];
  to = elim mail.to [ none ↦ [] | some a ↦ addrs_to_strings a ];
  cc = elim mail.cc [ none ↦ [] | some a ↦ addrs_to_strings a ];
  bcc = elim mail.bcc [ none ↦ [] | some a ↦ addrs_to_strings a ];
}

abbrev pub insert_outbound_message : LettreMessage → ParsedMail → World → ℕ × World
insert_outbound_message m mail w = (
  w.next_message,
  record w {
    messages = w.messages ++ outbound_message w.next_message m mail ∷ [];
    next_message = w.next_message + 1;
  },
)

-- `enqueue_outbound`
unfoldable pub enqueue_outbound :
    Outside → (List ℕ → Option ParsedMail) → Text → Text → LettreMessage → Action (ℕ × ℕ)
enqueue_outbound o parse sender recipient m = do
  message_id ←
      map_err (codes "failed to store outbound Message")
        (exec o.db_fault (insert_outbound_message m (or_default (parse m.formatted) no_headers)))
  job ←
      map_err (codes "failed to enqueue Outbound")
        (exec o.db_fault (insert_job message_id sender recipient))
  pure (message_id, job)
