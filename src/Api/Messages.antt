-- ===== src/Api/Messages.antt =====
-- src/api.rs: the messages of a mailbox, and the handlers of `/messages`.
use zonemail.Prelude.{
  ℕ, ◌==◌, leb, Text, text_eq, codes, Bool, true, false, Option, none, some, or_default, List, [],
  ◌∷◌, ◌++◌, map, filter, Result, ok, err, if◌then◌else◌,
}
use zonemail.Db.{Message, Inbound, Outbound}
use zonemail.Db.Action.{exec, effect}
use zonemail.Db.Tables.{
  get_mailbox_row, get_message_row, delete_inbounds, delete_outbounds, delete_messages,
}
use zonemail.Api.{Backend, Handler, respond, reject, outcome, or_500, or_404, no_such, ◌>>=◌, ◌>>◌}
use zonemail.Api.Page.{Page, from_all, page_params, default_page_limit}

-- `MessageDirection`
pub data MessageDirection : Type 0 where
  both inbound outbound : MessageDirection

-- `MessageDTO`
pub record MessageDto : Type 0 where
  pub id : ℕ
  pub direction : Option Text
  pub mail_from : Text
  pub subject : Option Text
  pub message_id_header : Option Text
  pub content_type : Option Text
  pub from_address : Option Text
  pub to : List Text
  pub cc : List Text
  pub bcc : List Text

-- `From<&Message> for MessageDTO`, then its direction
abbrev pub message_dto : Option Text → Message → MessageDto
message_dto direction m = record {
  id = m.id;
  direction = direction;
  mail_from = m.mail_from;
  subject = m.subject;
  message_id_header = m.message_id_header;
  content_type = m.content_type;
  from_address = m.from_address;
  to = m.to;
  cc = m.cc;
  bcc = m.bcc;
}

-- `ListMessagesQuery`
pub record ListMessagesQuery : Type 0 where
  pub direction : Option MessageDirection
  pub limit : Option ℕ
  pub offset : Option ℕ

-- `want_in` and `want_out` of `load_mailbox_messages`
abbrev pub want_in : Option MessageDirection → Bool
want_in (some MessageDirection.outbound) = false
want_in _ = true

abbrev pub want_out : Option MessageDirection → Bool
want_out (some MessageDirection.inbound) = false
want_out _ = true

-- `sort_unstable` and `dedup`
unfoldable pub insert_id : ℕ → List ℕ → List ℕ
insert_id n [] = n ∷ []
insert_id n (m ∷ ms) =
    let rest = insert_id n ms in if n == m then m ∷ ms else if leb n m then n ∷ m ∷ ms else m ∷ rest

unfoldable pub sort_dedup : List ℕ → List ℕ
sort_dedup [] = []
sort_dedup (n ∷ ns) = insert_id n (sort_dedup ns)

-- the ids of the links, in the order in which they are pushed
abbrev pub in_ids : List Inbound → List ℕ
in_ids rows = map (λ r. r.message_id) rows

abbrev pub out_ids : List Outbound → List ℕ
out_ids rows = map (λ r. r.message_id) rows

abbrev has_link : ℕ → List ℕ → Bool
has_link id [] = false
has_link id (n ∷ ns) = if n == id then true else has_link id ns

-- the map `dirs`: an outbound link overwrites an inbound one
unfoldable pub direction_of : List ℕ → List ℕ → ℕ → Option Text
direction_of ins outs id =
    if has_link id outs
    then some (codes "outbound")
    else if has_link id ins
    then some (codes "inbound")
    else none

-- the two parameters of `list_mailbox_messages`, where the query parses or does not
unfoldable pub messages_params : Option ListMessagesQuery → Option ℕ → Option ℕ → ℕ × ℕ
messages_params none limit offset = page_params limit offset
messages_params (some q) limit offset =
    (or_default q.limit default_page_limit, or_default q.offset 0)

abbrev pub direction_param : Option ListMessagesQuery → Option MessageDirection
direction_param none = none
direction_param (some q) = q.direction

module _ (b : Backend) (show : ℕ → Text) where
  -- `ensure_mailbox_exists`
  abbrev pub ensure_mailbox_exists : Text → Handler (Unit {0})
  ensure_mailbox_exists id = do
    found ← outcome (get_mailbox_row b.db_fault b.missing (b.to_lowercase id))
    elim found [ ok m ↦ respond tt | err _ ↦ reject 404 (no_such (codes "mailbox") id) ]

  -- the two queries of `load_mailbox_messages`, each made if it is wanted
  abbrev pub received : Bool → Text → Handler (List ℕ)
  received false key = respond []
  received true key = do
    found ← outcome (exec b.db_fault (λ v. (filter (λ r. text_eq r.rcpt_to key) v.inbounds, v)))
    rows ← or_500 found
    respond (in_ids rows)

  abbrev pub sent : Bool → Text → Handler (List ℕ)
  sent false key = respond []
  sent true key = do
    found ← outcome (exec b.db_fault (λ v. (filter (λ r. text_eq r.sender_id key) v.outbounds, v)))
    rows ← or_500 found
    respond (out_ids rows)

  abbrev pub loaded : Option Text → Result Message → List MessageDto → List MessageDto
  loaded direction (ok m) items = message_dto direction m ∷ items
  loaded direction (err _) items = items

  -- the loop over the ids; a message that is gone is skipped
  unfoldable pub load_each : (ℕ → Option Text) → List ℕ → Handler (List MessageDto)
  load_each dirs [] = respond []
  load_each dirs (id ∷ ids) = do
    found ← outcome (get_message_row b.db_fault b.missing id)
    items ← load_each dirs ids
    respond (loaded (dirs id) found items)

  -- `load_mailbox_messages`, with the 500 of its callers
  unfoldable pub load_mailbox_messages : Text → Option MessageDirection → Handler (List MessageDto)
  load_mailbox_messages id direction = do
    ins ← received (want_in direction) (b.to_lowercase id)
    outs ← sent (want_out direction) (b.to_lowercase id)
    load_each (direction_of ins outs) (sort_dedup (ins ++ outs))

  abbrev pub page_of : Text → Option MessageDirection → ℕ × ℕ → Handler (Page MessageDto)
  page_of id direction params = do
    ensure_mailbox_exists id
    items ← load_mailbox_messages id direction
    respond (from_all items params.0 params.1)

  -- `list_mailbox_messages`
  unfoldable pub list_mailbox_messages :
      Text → Option ListMessagesQuery → Option ℕ → Option ℕ → Handler (Page MessageDto)
  list_mailbox_messages id query limit offset =
      page_of id (direction_param query) (messages_params query limit offset)

  -- `list_mailbox_inbox`
  unfoldable pub list_mailbox_inbox : Text → Option ℕ → Option ℕ → Handler (Page MessageDto)
  list_mailbox_inbox id limit offset =
      page_of id (some MessageDirection.inbound) (page_params limit offset)

  -- `list_mailbox_sent`
  unfoldable pub list_mailbox_sent : Text → Option ℕ → Option ℕ → Handler (Page MessageDto)
  list_mailbox_sent id limit offset =
      page_of id (some MessageDirection.outbound) (page_params limit offset)

  -- `get_message`, whose parameter is 0 where it is no number
  unfoldable pub get_message : Option ℕ → Handler MessageDto
  get_message param = do
    found ← outcome (get_message_row b.db_fault b.missing (or_default param 0))
    m ← or_404 (codes "message") (show (or_default param 0)) found
    respond (message_dto none m)

  -- `delete_message` of one key
  unfoldable pub delete_message_id : ℕ → Handler (Unit {0})
  delete_message_id id = do
    found ← outcome (get_message_row b.db_fault b.missing id)
    m ← or_404 (codes "message") (show id) found
    unlinked ← outcome (exec b.db_fault (effect (delete_inbounds (λ r. r.message_id == id))))
    or_500 unlinked
    dropped ← outcome (exec b.db_fault (effect (delete_outbounds (λ r. r.message_id == id))))
    or_500 dropped
    deleted ← outcome (exec b.db_fault (effect (delete_messages (λ m. m.id == id))))
    or_500 deleted

  -- `delete_message`
  unfoldable pub delete_message : Option ℕ → Handler (Unit {0})
  delete_message param = delete_message_id (or_default param 0)
