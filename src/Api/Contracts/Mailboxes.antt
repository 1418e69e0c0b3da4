-- ===== src/Api/Contracts/Mailboxes.antt =====
-- src/api.rs: the handlers of `/mailboxes` against the constraints of the tables.
use zonemail.Prelude.{
  ℕ, Text, text_eq, codes, is_empty, trim, not, ◌&&◌, Option, none, some, map, Result, ok, err,
}
use zonemail.Db.{Mailbox}
use zonemail.Db.Tables.{exec_checked, update_mailbox}
use zonemail.Db.Integrity.Statements.{IsSound-insert_mailbox}
use zonemail.Db.Integrity.Deletes.{IsSound-update_mailbox, IsSound-delete_mailboxes}
use zonemail.Api.{Backend, reject, outcome, server_error}
use zonemail.Api.Page.{from_all, page_params}
use zonemail.Api.Mailboxes.{
  mailbox_dto, NewMailbox, PatchMailbox, try_from, option_eq, mailbox_resolve, mailbox_by_id,
  list_mailboxes, or_else, with_domain, mailbox_of, build_mailbox, mailbox_inserted,
  mailbox_or_insert, create_mailbox, get_mailbox, reread_mailbox, patch_mailbox, delete_mailbox,
}
use zonemail.Api.Contracts.{
  Keeps, Ensures-bind, Keeps-respond, Keeps-reject, Keeps-exec, Keeps-checked, Keeps-or_500,
  Keeps-or_404, Keeps-parsed, Ensures-if, Keeps-get,
}

Keeps-mailbox_resolve : (existing incoming : Mailbox) → Keeps (mailbox_resolve existing incoming)
unfolding mailbox_resolve
Keeps-mailbox_resolve existing incoming =
    Ensures-if
      (option_eq existing.forward_to incoming.forward_to
        && text_eq existing.domain_id incoming.domain_id)
      (Keeps-respond _) (Keeps-reject 409 _)

module _ (b : Backend) where
  Keeps-mailbox_by_id : (id : Text) → Keeps (mailbox_by_id b id)
  Keeps-mailbox_by_id id = Keeps-get b.db_fault b.missing _

  pub Keeps-list_mailboxes :
      (limit offset : Option ℕ) (domain_filter : Option Text)
      → Keeps (list_mailboxes b limit offset domain_filter)
  unfolding list_mailboxes
  Keeps-list_mailboxes limit offset domain_filter =
      Ensures-bind (Keeps-exec b.db_fault _ (λ w s. s)) (λ found.
        Ensures-bind (Keeps-or_500 found) (λ rows. Keeps-respond (
          from_all (map mailbox_dto rows) (page_params limit offset).0
            (page_params limit offset).1)))

  Keeps-with_domain : (d : Option Text) (m : Mailbox) → Keeps (with_domain b d m)
  Keeps-with_domain none m = Keeps-respond _
  Keeps-with_domain (some d) m =
      Ensures-if (not (text_eq (b.to_lowercase (trim d)) m.domain_id)) (Keeps-reject 400 _)
        (Keeps-respond _)

  Keeps-mailbox_of : (m : Option Mailbox) → Keeps (mailbox_of b m)
  Keeps-mailbox_of none = Keeps-reject 400 _
  Keeps-mailbox_of (some m) = Keeps-respond _

  Keeps-build_mailbox : (body : NewMailbox) → Keeps (build_mailbox b body)
  unfolding build_mailbox
  Keeps-build_mailbox body =
      Ensures-if (is_empty (b.to_lowercase (trim body.id))) (Keeps-reject 400 _) (
        Ensures-bind (Keeps-mailbox_of (try_from (b.to_lowercase (trim body.id)))) (λ m.
          Ensures-bind (Keeps-with_domain body.domain_id m)
            (λ m'. Keeps-respond (record m' { forward_to = body.forward_to }))))

  Keeps-again :
      (m : Mailbox) (e : Text) (again : Result Mailbox)
      → Keeps (elim again [
        | ok existing ↦ mailbox_resolve existing m
        | err _ ↦ reject 500 (server_error e)
      ])
  Keeps-again m e (ok existing) = Keeps-mailbox_resolve existing m
  Keeps-again m e (err _) = Keeps-reject 500 _

  Keeps-mailbox_inserted :
      (m : Mailbox) (created : Result Mailbox) → Keeps (mailbox_inserted b m created)
  Keeps-mailbox_inserted m (ok created) = Keeps-respond _
  Keeps-mailbox_inserted m (err e) = Ensures-bind (Keeps-mailbox_by_id m.id) (Keeps-again m e)

  Keeps-mailbox_or_insert :
      (m : Mailbox) (found : Result Mailbox) → Keeps (mailbox_or_insert b m found)
  Keeps-mailbox_or_insert m (ok existing) = Keeps-mailbox_resolve existing m
  Keeps-mailbox_or_insert m (err _) =
      Ensures-bind (Keeps-checked b.db_fault _ (λ w. IsSound-insert_mailbox b.duplicate m))
        (Keeps-mailbox_inserted m)

  pub Keeps-create_mailbox : (body : Option NewMailbox) → Keeps (create_mailbox b body)
  unfolding create_mailbox
  Keeps-create_mailbox body = Ensures-bind (Keeps-parsed body) (λ new.
      Ensures-bind (Keeps-build_mailbox new)
        (λ m. Ensures-bind (Keeps-mailbox_by_id m.id) (Keeps-mailbox_or_insert m)))

  pub Keeps-get_mailbox : (id : Text) → Keeps (get_mailbox b id)
  unfolding get_mailbox
  Keeps-get_mailbox id = Ensures-bind (Keeps-mailbox_by_id id) (λ found.
      Ensures-bind (Keeps-or_404 (codes "mailbox") id found) (λ m. Keeps-respond (mailbox_dto m)))

  Keeps-reread_mailbox : (id : Text) (again : Result Mailbox) → Keeps (reread_mailbox b id again)
  Keeps-reread_mailbox id (ok m) = Keeps-respond _
  Keeps-reread_mailbox id (err _) = Keeps-reject 500 _

  Keeps-update : (m : Mailbox) → Keeps (outcome (exec_checked b.db_fault (update_mailbox m)))
  Keeps-update m = Keeps-checked b.db_fault _ (λ w. IsSound-update_mailbox m)

  pub Keeps-patch_mailbox :
      (id : Text) (body : Option PatchMailbox) → Keeps (patch_mailbox b id body)
  unfolding patch_mailbox
  Keeps-patch_mailbox id body = Ensures-bind (Keeps-parsed body) λ patch.
      Ensures-bind (Keeps-mailbox_by_id id) λ found.
        Ensures-bind (Keeps-or_404 (codes "mailbox") id found) λ m.
          Ensures-bind (Keeps-with_domain patch.domain_id m) λ m'.
            Ensures-bind
              (Keeps-update (record m' { forward_to = or_else patch.forward_to m'.forward_to }))
              λ written.
                Ensures-bind (Keeps-or_500 written)
                  λ saved. Ensures-bind (Keeps-mailbox_by_id id) (Keeps-reread_mailbox id)

  pub Keeps-delete_mailbox : (id : Text) → Keeps (delete_mailbox b id)
  unfolding delete_mailbox
  Keeps-delete_mailbox id = Ensures-bind (Keeps-mailbox_by_id id) (λ found.
      Ensures-bind (Keeps-or_404 (codes "mailbox") id found) (λ m.
        Ensures-bind
          (Keeps-exec b.db_fault _ (λ w. IsSound-delete_mailboxes (λ x. text_eq x.id id)))
          Keeps-or_500))
