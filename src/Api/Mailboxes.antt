-- ===== src/Api/Mailboxes.antt =====
-- src/api.rs: the handlers of `/mailboxes`, and `Mailbox::try_from` of src/db.rs.
use zonemail.Prelude.{
  ℕ, ◌==◌, Text, text_eq, codes, ◌++◌, is_empty, trim, split, Bool, true, false, not, ◌&&◌, Option,
  none, some, List, [], ◌∷◌, map, filter, Result, ok, err, if◌then◌else◌,
}
use zonemail.Db.{World, Mailbox}
use zonemail.Db.Action.{exec, effect}
use zonemail.Db.Tables.{
  exec_checked, get_mailbox_row, insert_mailbox, update_mailbox, delete_mailboxes,
}
use zonemail.Api.{
  Backend, Handler, respond, reject, outcome, parsed, or_500, or_404, bad_request, conflict,
  server_error, ◌>>=◌,
}
use zonemail.Api.Page.{Page, from_all, page_params}

-- `MailboxDTO`
pub record MailboxDto : Type 0 where
  pub id : Text
  pub domain_id : Text
  pub forward_to : Option Text

-- `From<&Mailbox> for MailboxDTO`
abbrev pub mailbox_dto : Mailbox → MailboxDto
mailbox_dto m = record { id = m.id; domain_id = m.domain_id; forward_to = m.forward_to }

-- `NewMailbox`
pub record NewMailbox : Type 0 where
  pub id : Text
  pub domain_id : Option Text
  pub forward_to : Option Text

-- `PatchMailbox`
pub record PatchMailbox : Type 0 where
  pub domain_id : Option Text
  pub note : Option Text
  pub forward_to : Option Text

-- `split('@').nth(1)`
abbrev pub domain_part : Text → Option Text
domain_part id = elim (split (λ c. c == b'@') id) [
  | [] ↦ none
  | ◌∷◌ user rest ↦ elim rest [ [] ↦ none | ◌∷◌ domain more ↦ some domain ]
]

-- `TryFrom<String> for Mailbox`; `none` is `InvalidFormat`
unfoldable pub try_from : Text → Option Mailbox
try_from id = elim (domain_part id) [
  | none ↦ none
  | some domain ↦
      if is_empty domain
      then none
      else some (record { id = id; domain_id = domain; forward_to = none })
]

-- `==` of two `Option<String>`
abbrev pub option_eq : Option Text → Option Text → Bool
option_eq none none = true
option_eq (some s) (some t) = text_eq s t
option_eq _ _ = false

-- `mailbox_resolve`
unfoldable pub mailbox_resolve : Mailbox → Mailbox → Handler MailboxDto
mailbox_resolve existing incoming =
    if option_eq existing.forward_to incoming.forward_to
      && text_eq existing.domain_id incoming.domain_id
    then respond (mailbox_dto existing)
    else reject 409 (
        conflict (
          codes "mailbox '"
          ++ existing.id
          ++ codes "' already exists with a different configuration"))

abbrev wrong_domain : Text
wrong_domain = codes "domain_id does not match the domain part of the address"

abbrev pub or_else : Option Text → Option Text → Option Text
or_else none t = t
or_else (some s) t = some s

module _ (b : Backend) where
  -- `Mailbox::get_by_id`
  abbrev pub mailbox_by_id : Text → Handler (Result Mailbox)
  mailbox_by_id id = outcome (get_mailbox_row b.db_fault b.missing id)

  abbrev pub mailbox_query : Option Text → World → List Mailbox
  mailbox_query none v = v.mailboxes
  mailbox_query (some d) v = filter (λ m. text_eq m.domain_id d) v.mailboxes

  -- `list_mailboxes`
  unfoldable pub list_mailboxes : Option ℕ → Option ℕ → Option Text → Handler (Page MailboxDto)
  list_mailboxes limit offset domain_filter = do
    found ← outcome (exec b.db_fault (λ v. (mailbox_query domain_filter v, v)))
    rows ← or_500 found
    respond
        (from_all (map mailbox_dto rows) (page_params limit offset).0 (page_params limit offset).1)

  -- the check of an explicit `domain_id`, which sets it
  abbrev pub with_domain : Option Text → Mailbox → Handler Mailbox
  with_domain none m = respond m
  with_domain (some d) m =
      let provided = b.to_lowercase (trim d) in
      if not (text_eq provided m.domain_id)
      then reject 400 (bad_request wrong_domain)
      else respond (record m { domain_id = provided })

  abbrev pub mailbox_of : Option Mailbox → Handler Mailbox
  mailbox_of none = reject 400 (bad_request (codes "invalid email address (missing domain part)"))
  mailbox_of (some m) = respond m

  -- the mailbox that `create_mailbox` builds from its body
  unfoldable pub build_mailbox : NewMailbox → Handler Mailbox
  build_mailbox body =
      let id = b.to_lowercase (trim body.id) in
      if is_empty id
      then reject 400 (bad_request (codes "email address must not be empty"))
      else (do
        m ← mailbox_of (try_from id)
        m' ← with_domain body.domain_id m
        respond (record m' { forward_to = body.forward_to }))

  abbrev pub mailbox_raced : Mailbox → Text → Handler MailboxDto
  mailbox_raced m e = do
    again ← mailbox_by_id m.id
    elim again [ ok existing ↦ mailbox_resolve existing m | err _ ↦ reject 500 (server_error e) ]

  abbrev pub mailbox_inserted : Mailbox → Result Mailbox → Handler MailboxDto
  mailbox_inserted m (ok created) = respond (mailbox_dto created)
  mailbox_inserted m (err e) = mailbox_raced m e

  -- `create_mailbox` from the outcome of its first lookup on
  abbrev pub mailbox_or_insert : Mailbox → Result Mailbox → Handler MailboxDto
  mailbox_or_insert m (ok existing) = mailbox_resolve existing m
  mailbox_or_insert m (err _) = do
    created ← outcome (exec_checked b.db_fault (insert_mailbox b.duplicate m))
    mailbox_inserted m created

  -- `create_mailbox`
  unfoldable pub create_mailbox : Option NewMailbox → Handler MailboxDto
  create_mailbox body = do
    new ← parsed body
    m ← build_mailbox new
    found ← mailbox_by_id m.id
    mailbox_or_insert m found

  -- `get_mailbox`
  unfoldable pub get_mailbox : Text → Handler MailboxDto
  get_mailbox id = do
    found ← mailbox_by_id id
    m ← or_404 (codes "mailbox") id found
    respond (mailbox_dto m)

  abbrev pub reread_mailbox : Text → Result Mailbox → Handler MailboxDto
  reread_mailbox id (ok m) = respond (mailbox_dto m)
  reread_mailbox id (err _) = reject 500 (server_error (codes "mailbox vanished after update"))

  -- `patch_mailbox`
  unfoldable pub patch_mailbox : Text → Option PatchMailbox → Handler MailboxDto
  patch_mailbox id body = do
    patch ← parsed body
    found ← mailbox_by_id id
    m ← or_404 (codes "mailbox") id found
    m' ← with_domain patch.domain_id m
    written ← outcome (
        exec_checked b.db_fault
          (update_mailbox (record m' { forward_to = or_else patch.forward_to m'.forward_to })))
    saved ← or_500 written
    again ← mailbox_by_id id
    reread_mailbox id again

  -- `delete_mailbox`
  unfoldable pub delete_mailbox : Text → Handler (Unit {0})
  delete_mailbox id = do
    found ← mailbox_by_id id
    m ← or_404 (codes "mailbox") id found
    deleted ← outcome (exec b.db_fault (effect (delete_mailboxes (λ m. text_eq m.id id))))
    or_500 deleted
