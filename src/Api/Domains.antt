-- ===== src/Api/Domains.antt =====
-- src/api.rs: the handlers of `/domains`. The time stamps of the rows are left out.
use zonemail.Prelude.{ℕ, Text, codes, is_empty, trim, Option, map, Result, ok, err, if◌then◌else◌}
use zonemail.Db.{Domain}
use zonemail.Db.Action.{exec, effect}
use zonemail.Db.Tables.{exec_checked, get_domain_row, insert_domain, delete_domain_row}
use zonemail.Api.{
  Backend, Handler, respond, reject, outcome, parsed, or_500, or_404, bad_request, server_error,
  ◌>>=◌,
}
use zonemail.Api.Page.{Page, from_all, page_params}

-- `DomainDTO`
pub record DomainDto : Type 0 where
  pub id : Text

-- `From<&Domain> for DomainDTO`
abbrev pub domain_dto : Domain → DomainDto
domain_dto d = record { id = d.id }

-- `NewDomain`
pub record NewDomain : Type 0 where
  pub id : Text

-- `PatchDomain`
pub record PatchDomain : Type 0 where
  pub note : Option Text

module _ (b : Backend) where
  -- `Domain::get_by_id`
  abbrev pub domain_by_id : Text → Handler (Result Domain)
  domain_by_id id = outcome (get_domain_row b.db_fault b.missing id)

  -- `list_domains`
  unfoldable pub list_domains : Option ℕ → Option ℕ → Handler (Page DomainDto)
  list_domains limit offset = do
    found ← outcome (exec b.db_fault (λ v. (v.domains, v)))
    domains ← or_500 found
    respond (
        from_all (map domain_dto domains) (page_params limit offset).0 (page_params limit offset).1)

  -- `create_domain` after an insert that failed
  abbrev pub domain_raced : Text → Text → Handler DomainDto
  domain_raced id e = do
    again ← domain_by_id id
    elim again [ ok d ↦ respond (domain_dto d) | err _ ↦ reject 500 (server_error e) ]

  abbrev pub domain_inserted : Text → Result Domain → Handler DomainDto
  domain_inserted id (ok d) = respond (domain_dto d)
  domain_inserted id (err e) = domain_raced id e

  -- `create_domain` from the outcome of its first lookup on
  abbrev pub domain_or_insert : Text → Result Domain → Handler DomainDto
  domain_or_insert id (ok d) = respond (domain_dto d)
  domain_or_insert id (err _) = do
    created ← outcome (exec_checked b.db_fault (insert_domain b.duplicate (record { id = id })))
    domain_inserted id created

  abbrev pub create_domain_id : Text → Handler DomainDto
  create_domain_id id =
      if is_empty id
      then reject 400 (bad_request (codes "domain id must not be empty"))
      else (do found ← domain_by_id id; domain_or_insert id found)

  -- `create_domain`
  unfoldable pub create_domain : Option NewDomain → Handler DomainDto
  create_domain body = do new ← parsed body; create_domain_id (trim new.id)

  -- `get_domain`
  unfoldable pub get_domain : Text → Handler DomainDto
  get_domain id = do
    found ← domain_by_id id
    d ← or_404 (codes "domain") id found
    respond (domain_dto d)

  -- `patch_domain`
  unfoldable pub patch_domain : Text → Option PatchDomain → Handler DomainDto
  patch_domain id body = do
    ignored ← parsed body
    found ← domain_by_id id
    d ← or_404 (codes "domain") id found
    respond (domain_dto d)

  -- `delete_domain`
  unfoldable pub delete_domain : Text → Handler (Unit {0})
  delete_domain id = do
    found ← domain_by_id id
    d ← or_404 (codes "domain") id found
    deleted ← outcome (exec b.db_fault (effect (delete_domain_row id)))
    or_500 deleted
