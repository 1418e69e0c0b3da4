-- ===== src/Api/Records.antt =====
-- src/api.rs: the handlers of `/records`. A path parameter that is no number is `none`.
use zonemail.Prelude.{
  ℕ, ◌==◌, Text, text_eq, codes, ◌++◌, is_empty, trim, to_ascii_lowercase, Bool, true, not, ◌&&◌,
  Option, none, some, or_default, List, map, find?, filter, any, Result, ok, err, if◌then◌else◌,
}
use zonemail.Db.{Domain, Record}
use zonemail.Db.RecordTypes.{RecordType}
use zonemail.Db.Action.{exec, effect}
use zonemail.Db.Tables.{
  type_eq, exec_checked, get_domain_row, get_record_row, insert_record, update_record,
  delete_records,
}
use zonemail.Api.{
  ApiProblem, Reply, Backend, Handler, respond, reject, answer, outcome, parsed, or_500,
  bad_request, not_found, no_such, conflict, server_error, ◌>>=◌, ◌>>◌,
}
use zonemail.Api.Page.{Page, from_all, page_params}

-- `RecordApiDTO`
pub record RecordApiDto : Type 0 where
  pub id : ℕ
  pub domain_id : Text
  pub record_type : Text
  pub value : Text
  pub ttl : ℕ

-- `NewRecord`, with its default for an absent `ttl` not yet filled in
pub record NewRecord : Type 0 where
  pub domain_id : Text
  pub record_type : Text
  pub value : Text
  pub ttl : Option ℕ

-- `PatchRecord`
pub record PatchRecord : Type 0 where
  pub domain_id : Option Text
  pub record_type : Option Text
  pub value : Option Text
  pub ttl : Option ℕ

abbrev pub default_record_ttl : ℕ
default_record_ttl = 3600

abbrev pub record_row : Text → RecordType → Text → ℕ → Record
record_row domain_id record_type value ttl = record {
  id = 0;
  domain_id = domain_id;
  record_type = record_type;
  value = value;
  ttl = ttl;
}

-- the test of `record_resolve`
abbrev pub is_same_data : RecordType → Text → Record → Bool
is_same_data record_type value r = type_eq r.record_type record_type && text_eq r.value value

module _ (b : Backend) where
  -- `From<&Record> for RecordApiDTO`, with `record_type_to_string`
  abbrev pub record_dto : Record → RecordApiDto
  record_dto r = record {
    id = r.id;
    domain_id = r.domain_id;
    record_type = b.type_name r.record_type;
    value = r.value;
    ttl = r.ttl;
  }

  -- `parse_record_type`, whose problem each caller answers with a 400
  abbrev pub parse_record_type : Text → Handler RecordType
  parse_record_type s = elim (b.parse_type s) [
    | none ↦ reject 400 (bad_request (codes "unknown record type '" ++ s ++ codes "'"))
    | some t ↦ respond t
  ]

  abbrev pub parse_optional_type : Option Text → Handler (Option RecordType)
  parse_optional_type none = respond none
  parse_optional_type (some s) = do t ← parse_record_type (trim s); respond (some t)

  abbrev pub provisioned : Text → Result Domain → Handler (Unit {0})
  provisioned id (ok d) = respond tt
  provisioned id (err e) =
      reject 400 (bad_request (codes "domain '" ++ id ++ codes "' is not provisioned"))

  -- `validate_record_fields`, with the reply of its callers
  unfoldable pub validate_record_fields : Text → Text → Handler (Unit {0})
  validate_record_fields domain_id value =
      if is_empty (trim value)
      then reject 400 (bad_request (codes "value must not be empty"))
      else (do
        found ← outcome (get_domain_row b.db_fault b.missing domain_id)
        provisioned domain_id found)

  abbrev pub other_ttl : RecordType → Text → ApiProblem
  other_ttl record_type value = conflict (
      codes "a "
      ++ b.type_name record_type
      ++ codes " record for this domain with value '"
      ++ value
      ++ codes "' already exists with a different ttl")

  abbrev pub resolve_found : RecordType → Text → ℕ → Option Record → Option (Reply RecordApiDto)
  resolve_found record_type value ttl none = none
  resolve_found record_type value ttl (some existing) =
      if existing.ttl == ttl
      then some (Reply.done (record_dto existing))
      else some (Reply.failed 409 (other_ttl record_type value))

  -- `record_resolve`: `none` where no row matches
  unfoldable pub record_resolve : List Record → RecordType → Text → ℕ → Option (Reply RecordApiDto)
  record_resolve rows record_type value ttl =
      resolve_found record_type value ttl (find? (is_same_data record_type value) rows)

  -- the filters of `list_records`
  abbrev pub matches_domain : Option Text → Record → Bool
  matches_domain none r = true
  matches_domain (some d) r = text_eq (to_ascii_lowercase r.domain_id) (to_ascii_lowercase d)

  abbrev pub matches_type : Option RecordType → Record → Bool
  matches_type none r = true
  matches_type (some t) r = type_eq r.record_type t

  abbrev pub normalized : Option Text → Option Text
  normalized none = none
  normalized (some d) = some (b.to_lowercase (trim d))

  -- `list_records`
  unfoldable pub list_records :
      Option ℕ → Option ℕ → Option Text → Option Text → Handler (Page RecordApiDto)
  list_records limit offset domain_id record_type = do
    t ← parse_optional_type record_type
    found ← outcome (exec b.db_fault (λ v. (v.records, v)))
    rows ← or_500 found
    respond (
        from_all
          (map record_dto
            (filter (matches_type t) (filter (matches_domain (normalized domain_id)) rows)))
          (page_params limit offset).0 (page_params limit offset).1)

  -- the rows of one domain
  abbrev pub records_of : Text → Handler (Result (List Record))
  records_of id =
      outcome (exec b.db_fault (λ v. (filter (λ r. text_eq r.domain_id id) v.records, v)))

  abbrev pub or_failed : Text → Option (Reply RecordApiDto) → Handler RecordApiDto
  or_failed e none = reject 500 (server_error e)
  or_failed e (some reply) = answer reply

  -- `create_record` after an insert that failed
  abbrev pub record_raced : Record → Text → Result (List Record) → Handler RecordApiDto
  record_raced r e (ok rows) = or_failed e (record_resolve rows r.record_type r.value r.ttl)
  record_raced r e (err _) = reject 500 (server_error e)

  abbrev pub record_inserted : Record → Result Record → Handler RecordApiDto
  record_inserted r (ok created) = respond (record_dto created)
  record_inserted r (err e) = do raced ← records_of r.domain_id; record_raced r e raced

  abbrev pub insert_unless : Record → Option (Reply RecordApiDto) → Handler RecordApiDto
  insert_unless r (some reply) = answer reply
  insert_unless r none = do
    created ← outcome (exec_checked b.db_fault (insert_record b.duplicate r))
    record_inserted r created

  -- `create_record` on its normalized fields
  unfoldable pub create_record_row : Record → Handler RecordApiDto
  create_record_row r = do
    validate_record_fields r.domain_id r.value
    found ← records_of r.domain_id
    rows ← or_500 found
    insert_unless r (record_resolve rows r.record_type r.value r.ttl)

  -- `create_record`
  unfoldable pub create_record : Option NewRecord → Handler RecordApiDto
  create_record body = do
    new ← parsed body
    t ← parse_record_type (trim new.record_type)
    create_record_row (
        record_row (b.to_lowercase (trim new.domain_id)) t (trim new.value)
          (or_default new.ttl default_record_ttl))

  abbrev pub record_id : Option ℕ → Handler ℕ
  record_id none = reject 404 (not_found (codes "record not found"))
  record_id (some id) = respond id

  -- `Record::get_by_id`, and the 404; `show` prints the key
  abbrev pub record_or_404 : (ℕ → Text) → ℕ → Handler Record
  record_or_404 show id = do
    found ← outcome (get_record_row b.db_fault b.missing id)
    elim found [ ok r ↦ respond r | err _ ↦ reject 404 (no_such (codes "record") (show id)) ]

  -- `get_record`
  unfoldable pub get_record : (ℕ → Text) → Option ℕ → Handler RecordApiDto
  get_record show param = do id ← record_id param; r ← record_or_404 show id; respond (record_dto r)

  -- the row with the fields of a patch
  abbrev pub patched : PatchRecord → Option RecordType → Record → Record
  patched p t r = record r {
    domain_id = elim p.domain_id [ none ↦ r.domain_id | some d ↦ b.to_lowercase (trim d) ];
    record_type = or_default t r.record_type;
    value = elim p.value [ none ↦ r.value | some v ↦ trim v ];
    ttl = or_default p.ttl r.ttl;
  }

  -- the test for another row with the same triple
  abbrev pub collides : ℕ → Record → List Record → Bool
  collides id r rows = any (λ x. not (x.id == id) && is_same_data r.record_type r.value x) rows

  abbrev pub reread_record : Result Record → Handler RecordApiDto
  reread_record (ok r) = respond (record_dto r)
  reread_record (err _) = reject 500 (server_error (codes "record vanished after update"))

  -- `patch_record` from the update on
  abbrev pub save_record : ℕ → Record → Handler RecordApiDto
  save_record id r = do
    written ← outcome (exec_checked b.db_fault (update_record b.duplicate r))
    saved ← or_500 written
    again ← outcome (get_record_row b.db_fault b.missing id)
    reread_record again

  abbrev pub save_unless : ℕ → Record → List Record → Handler RecordApiDto
  save_unless id r rows =
      if collides id r rows
      then reject 409
          (conflict (codes "a record with the same domain, type, and value already exists"))
      else save_record id r

  -- `patch_record` on the patched row
  unfoldable pub patch_record_row : ℕ → Record → Handler RecordApiDto
  patch_record_row id r = do
    validate_record_fields r.domain_id r.value
    found ← records_of r.domain_id
    rows ← or_500 found
    save_unless id r rows

  -- `patch_record`
  unfoldable pub patch_record : (ℕ → Text) → Option ℕ → Option PatchRecord → Handler RecordApiDto
  patch_record show param body = do
    id ← record_id param
    patch ← parsed body
    r ← record_or_404 show id
    t ← parse_optional_type patch.record_type
    patch_record_row id (patched patch t r)

  -- `delete_record`
  unfoldable pub delete_record : (ℕ → Text) → Option ℕ → Handler (Unit {0})
  delete_record show param = do
    id ← record_id param
    r ← record_or_404 show id
    deleted ← outcome (exec b.db_fault (effect (delete_records (λ r. r.id == id))))
    or_500 deleted
