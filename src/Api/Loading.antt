-- ===== src/Api/Loading.antt =====
-- src/api.rs: `load_mailbox_messages`, by the links of the mailbox and the stored messages.
use zonemail.Prelude.{ℕ, ◌==◌, ◌≡◌, Text, text_eq, Bool, ◌||◌, ◌&&◌, Option, none, List, any, map}
use zonemail.Db.{World}
use zonemail.Api.{Reply, done, Backend}
use zonemail.Api.Messages.{MessageDirection, MessageDto, want_in, want_out}

-- the keys of the messages that are listed
abbrev pub listed : List MessageDto → List ℕ
listed items = map (λ d. d.id) items

-- a message with this key is stored
abbrev pub has_message : World → ℕ → Bool
has_message w id = any (λ m. m.id == id) w.messages

-- a link of the mailbox `key` to the message `id`, in a table that the direction asks for
abbrev pub is_linked : Text → Option MessageDirection → World → ℕ → Bool
is_linked key direction w id =
    (want_in direction && any (λ r. text_eq r.rcpt_to key && (r.message_id == id)) w.inbounds)
    || (want_out direction
        && any (λ r. text_eq r.sender_id key && (r.message_id == id)) w.outbounds)

module _ (b : Backend) (show : ℕ → Text) (working : (n : ℕ) → b.db_fault n ≡ none) where
  -- an answered list of these keys
  abbrev Lists : Reply (List MessageDto) → List ℕ → Type 0
  Lists reply ids = (items : List MessageDto) × (reply ≡ done items) × (listed items ≡ ids)
