-- ===== src/Api/Contracts/Domains.antt =====
-- src/api.rs: the handlers of `/domains` against the constraints of the tables.
use zonemail.Prelude.{ℕ, Text, codes, is_empty, trim, Option, map, Result, ok, err}
use zonemail.Db.{Domain}
use zonemail.Db.Integrity.Statements.{IsSound-insert_domain}
use zonemail.Db.Integrity.Deletes.{IsSound-delete_domain_row}
use zonemail.Api.{Backend, respond, reject, server_error}
use zonemail.Api.Domains.{
  domain_dto, NewDomain, PatchDomain, domain_by_id, list_domains, domain_inserted, domain_or_insert,
  create_domain_id, create_domain, get_domain, patch_domain, delete_domain,
}
use zonemail.Api.Page.{from_all, page_params}
use zonemail.Api.Contracts.{
  Keeps, Ensures-bind, Keeps-respond, Keeps-reject, Keeps-exec, Keeps-checked, Keeps-or_500,
  Keeps-or_404, Keeps-parsed, Ensures-if, Keeps-get,
}

module _ (b : Backend) where
  Keeps-domain_by_id : (id : Text) → Keeps (domain_by_id b id)
  Keeps-domain_by_id id = Keeps-get b.db_fault b.missing _

  pub Keeps-list_domains : (limit offset : Option ℕ) → Keeps (list_domains b limit offset)
  unfolding list_domains
  Keeps-list_domains limit offset = Ensures-bind (Keeps-exec b.db_fault _ (λ w s. s)) (λ found.
      Ensures-bind (Keeps-or_500 found) (λ rows.
        Keeps-respond (
          from_all (map domain_dto rows) (page_params limit offset).0
            (page_params limit offset).1)))

  Keeps-reread :
      (e : Text) (again : Result Domain)
      → Keeps (elim again [ ok d ↦ respond (domain_dto d) | err _ ↦ reject 500 (server_error e) ])
  Keeps-reread e (ok d) = Keeps-respond _
  Keeps-reread e (err _) = Keeps-reject 500 _

  Keeps-domain_inserted :
      (id : Text) (created : Result Domain) → Keeps (domain_inserted b id created)
  Keeps-domain_inserted id (ok d) = Keeps-respond _
  Keeps-domain_inserted id (err e) = Ensures-bind (Keeps-domain_by_id id) (Keeps-reread e)

  Keeps-domain_or_insert : (id : Text) (found : Result Domain) → Keeps (domain_or_insert b id found)
  Keeps-domain_or_insert id (ok d) = Keeps-respond _
  Keeps-domain_or_insert id (err _) =
      Ensures-bind
        (Keeps-checked b.db_fault _ (λ w. IsSound-insert_domain b.duplicate (record { id = id })))
        (Keeps-domain_inserted id)

  Keeps-create_domain_id : (id : Text) → Keeps (create_domain_id b id)
  Keeps-create_domain_id id =
      Ensures-if (is_empty id) (Keeps-reject 400 _)
        (Ensures-bind (Keeps-domain_by_id id) (Keeps-domain_or_insert id))

  pub Keeps-create_domain : (body : Option NewDomain) → Keeps (create_domain b body)
  unfolding create_domain
  Keeps-create_domain body =
      Ensures-bind (Keeps-parsed body) (λ new. Keeps-create_domain_id (trim new.id))

  pub Keeps-get_domain : (id : Text) → Keeps (get_domain b id)
  unfolding get_domain
  Keeps-get_domain id = Ensures-bind (Keeps-domain_by_id id) (λ found.
      Ensures-bind (Keeps-or_404 (codes "domain") id found) (λ d. Keeps-respond (domain_dto d)))

  pub Keeps-patch_domain : (id : Text) (body : Option PatchDomain) → Keeps (patch_domain b id body)
  unfolding patch_domain
  Keeps-patch_domain id body = Ensures-bind (Keeps-parsed body) (λ ignored.
      Ensures-bind (Keeps-domain_by_id id) (λ found.
        Ensures-bind (Keeps-or_404 (codes "domain") id found) (λ d. Keeps-respond (domain_dto d))))

  pub Keeps-delete_domain : (id : Text) → Keeps (delete_domain b id)
  unfolding delete_domain
  Keeps-delete_domain id = Ensures-bind (Keeps-domain_by_id id) (λ found.
      Ensures-bind (Keeps-or_404 (codes "domain") id found) (λ d.
        Ensures-bind (Keeps-exec b.db_fault _ (λ w. IsSound-delete_domain_row id)) Keeps-or_500))
