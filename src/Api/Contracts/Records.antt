-- ===== src/Api/Contracts/Records.antt =====
-- src/api.rs: the handlers of `/records` against the constraints of the tables.
use mathlib.Core.Path.{subst}
use zonemail.Prelude.{
  ℕ, ◌==◌, ◌<◌, ◌≡◌, refl, inl, inr, Text, codes, is_empty, trim, Bool, Option, none, some,
  or_default, List, [], ◌∷◌, map, find?, filter, All, Result, ok, err, Bool-cases, Option-cases,
}
use zonemail.Db.{World, Domain, Record}
use zonemail.Db.Action.{tick}
use zonemail.Db.Tables.{exec_checked, or_missing, update_record}
use zonemail.Db.Integrity.{IsSound}
use zonemail.Db.Integrity.Statements.{IsSound-tick, IsSound-insert_record, IsSound-update_record}
use zonemail.Db.Integrity.Deletes.{IsSound-delete_records}
use zonemail.Api.{Reply, done, failed, Backend, respond, reject, outcome, no_such}
use zonemail.Api.Page.{from_all, page_params}
use zonemail.Api.Records.{
  NewRecord, PatchRecord, RecordApiDto, default_record_ttl, record_row, record_dto,
  parse_record_type, parse_optional_type, provisioned, validate_record_fields, record_resolve,
  matches_domain, matches_type, normalized, list_records, records_of, or_failed, record_raced,
  record_inserted, insert_unless, create_record_row, create_record, record_id, record_or_404,
  get_record, patched, collides, reread_record, save_record, save_unless, patch_record_row,
  patch_record, delete_record,
}
use zonemail.Api.Contracts.{
  Post, Ensures, Keeps, IsStable, IsSound-IsStable, Ensures-bind, Ensures-respond, Ensures-checked,
  Ensures-reject, Ensures-query, Ensures-or_500, Ensures-get, Keeps-respond, Keeps-reject,
  Keeps-answer, Keeps-exec, Keeps-checked, Keeps-or_500, Keeps-parsed, Ensures-if, Keeps-get,
}

-- the constraints, and that the key of a record is given out
abbrev IsIssued : ℕ → World → Type 0
IsIssued id w = IsSound w × (id < w.next_record)

IsIssued-IsStable : (id : ℕ) → IsStable (IsIssued id)
IsIssued-IsStable id = record { sound = λ p. p.0; ticks = λ p. (IsSound-tick p.0, p.1) }

found-All :
    (P : Record → Type 0) (q : Record → Bool) (xs : List Record) (r : Record)
    → All P xs
    → find? q xs ≡ some r
    → P r
found-All P q [] r h e = cc e
found-All P q (x ∷ xs) r h e = elim (Bool-cases (q x)) [
  | inl t ↦ subst P (cc (t, e)) h.0
  | inr f ↦ found-All P q xs r h.1 (cc (f, e))
]

module _ (b : Backend) where
  -- the steps that only read
  module _ {P : World → Type 0} (stable : IsStable P) where
    parse_record_type-stable : (s : Text) → Ensures P (parse_record_type b s) (λ _. P)
    parse_record_type-stable s = elim (Option-cases (b.parse_type s)) [
      | inl e ↦ rw (e, parse_record_type) (Ensures-reject stable 400 _)
      | inr (t, e) ↦ rw (e, parse_record_type) (Ensures-respond t (λ w p. p))
    ]

    parse_optional_type-stable : (s : Option Text) → Ensures P (parse_optional_type b s) (λ _. P)
    parse_optional_type-stable none = Ensures-respond none (λ w p. p)
    parse_optional_type-stable (some s) =
        Ensures-bind (parse_record_type-stable (trim s)) (λ t. Ensures-respond (some t) (λ w p. p))

    provisioned-stable :
        (id : Text) (found : Result Domain) → Ensures P (provisioned b id found) (λ _. P)
    provisioned-stable id (ok d) = Ensures-respond tt (λ w p. p)
    provisioned-stable id (err e) = Ensures-reject stable 400 _

    validate_record_fields-stable :
        (domain_id value : Text) → Ensures P (validate_record_fields b domain_id value) (λ _. P)
    unfolding validate_record_fields
    validate_record_fields-stable domain_id value =
        Ensures-if (is_empty (trim value)) (Ensures-reject stable 400 _)
          (Ensures-bind (Ensures-get stable b.db_fault b.missing _) (provisioned-stable domain_id))

    records_of-stable : (id : Text) → Ensures P (records_of b id) (λ _. P)
    records_of-stable id = Ensures-query stable b.db_fault _

  pub Keeps-list_records :
      (limit offset : Option ℕ) (domain_id record_type : Option Text)
      → Keeps (list_records b limit offset domain_id record_type)
  unfolding list_records
  Keeps-list_records limit offset domain_id record_type =
      Ensures-bind (parse_optional_type-stable IsSound-IsStable record_type) λ t.
        Ensures-bind (Keeps-exec b.db_fault _ (λ w s. s)) λ found.
          Ensures-bind (Keeps-or_500 found) λ rows. Keeps-respond (
            from_all
              (map (record_dto b) (
                filter (matches_type b t)
                  (filter (matches_domain b (normalized b domain_id)) rows)))
              (page_params limit offset).0 (page_params limit offset).1)

  Keeps-or_failed : (e : Text) (found : Option (Reply RecordApiDto)) → Keeps (or_failed b e found)
  Keeps-or_failed e none = Keeps-reject 500 _
  Keeps-or_failed e (some reply) = Keeps-answer reply

  Keeps-record_raced :
      (r : Record) (e : Text) (raced : Result (List Record)) → Keeps (record_raced b r e raced)
  Keeps-record_raced r e (ok rows) =
      Keeps-or_failed e (record_resolve b rows r.record_type r.value r.ttl)
  Keeps-record_raced r e (err _) = Keeps-reject 500 _

  Keeps-record_inserted :
      (r : Record) (created : Result Record) → Keeps (record_inserted b r created)
  Keeps-record_inserted r (ok created) = Keeps-respond _
  Keeps-record_inserted r (err e) =
      Ensures-bind (records_of-stable IsSound-IsStable r.domain_id) (Keeps-record_raced r e)

  Keeps-insert_unless :
      (r : Record) (found : Option (Reply RecordApiDto)) → Keeps (insert_unless b r found)
  Keeps-insert_unless r (some reply) = Keeps-answer reply
  Keeps-insert_unless r none =
      Ensures-bind (Keeps-checked b.db_fault _ (λ w. IsSound-insert_record b.duplicate r))
        (Keeps-record_inserted r)

  Keeps-create_record_row : (r : Record) → Keeps (create_record_row b r)
  unfolding create_record_row
  Keeps-create_record_row r =
      Ensures-bind (validate_record_fields-stable IsSound-IsStable r.domain_id r.value) λ _.
        Ensures-bind (records_of-stable IsSound-IsStable r.domain_id) λ found.
          Ensures-bind (Keeps-or_500 found)
            λ rows. Keeps-insert_unless r (record_resolve b rows r.record_type r.value r.ttl)

  pub Keeps-create_record : (body : Option NewRecord) → Keeps (create_record b body)
  unfolding create_record
  Keeps-create_record body = Ensures-bind (Keeps-parsed body) λ new.
      Ensures-bind (parse_record_type-stable IsSound-IsStable (trim new.record_type)) λ t.
        Keeps-create_record_row (
          record_row (b.to_lowercase (trim new.domain_id)) t (trim new.value)
            (or_default new.ttl default_record_ttl))

  Keeps-record_id : (param : Option ℕ) → Keeps (record_id b param)
  Keeps-record_id none = Keeps-reject 404 _
  Keeps-record_id (some id) = Keeps-respond id

  -- a record that was found has a key that was given out
  abbrev Found : Result Record → World → Type 0
  Found (ok r) w = IsIssued r.id w
  Found (err e) w = IsSound w

  Found-or_missing :
      (o : Option Record) (w : World)
      → IsSound w
      → ((r : Record) → o ≡ some r → r.id < w.next_record)
      → Found (or_missing b.missing o w).0 (or_missing b.missing o w).1
  Found-or_missing none w s h = s
  Found-or_missing (some r) w s h = (s, h r refl)

  Found-reply :
      (show : ℕ → Text) (id : ℕ) (found : Result Record)
      → Ensures
          (Found found)
          (elim found [
            | ok r ↦ respond r
            | err _ ↦ reject 404 (no_such (codes "record") (show id))
          ])
          (λ r. IsIssued r.id)
  Found-reply show id (ok r) = Ensures-respond r (λ w p. p)
  Found-reply show id (err e) = Ensures-reject IsSound-IsStable 404 _

  record_or_404-IsIssued :
      (show : ℕ → Text) (id : ℕ) → Ensures IsSound (record_or_404 b show id) (λ r. IsIssued r.id)
  record_or_404-IsIssued show id =
      Ensures-bind {Q = Found}
        (Ensures-checked b.db_fault _
          (λ w s.
            Found-or_missing (find? (λ r. r.id == id) w.records) (tick w) (IsSound-tick s)
              (λ r e. found-All (λ x. x.id < w.next_record) _ w.records r s.fresh e))
          (λ e w s. IsSound-tick s))
        (Found-reply show id)

  Keeps-record_or_404 : (show : ℕ → Text) (id : ℕ) → Keeps (record_or_404 b show id)
  Keeps-record_or_404 show id = record {
    at = λ w s. weaker _ _ ((record_or_404-IsIssued show id).at w s);
  }
    where
      weaker :
          (r : Reply Record) (w : World) → Post (λ r. IsIssued r.id) r w → Post (λ _. IsSound) r w
      weaker (done r) w p = p.0
      weaker (failed code problem) w p = p

  pub Keeps-get_record : (show : ℕ → Text) (param : Option ℕ) → Keeps (get_record b show param)
  unfolding get_record
  Keeps-get_record show param =
      Ensures-bind (Keeps-record_id param)
        (λ id. Ensures-bind (Keeps-record_or_404 show id) (λ r. Keeps-respond (record_dto b r)))

  Keeps-reread_record : (again : Result Record) → Keeps (reread_record b again)
  Keeps-reread_record (ok r) = Keeps-respond _
  Keeps-reread_record (err _) = Keeps-reject 500 _

  update-IsIssued :
      (r : Record)
      → Ensures
          (IsIssued r.id)
          (outcome (exec_checked b.db_fault (update_record b.duplicate r)))
          (λ _. IsSound)
  update-IsIssued r =
      Ensures-checked b.db_fault _
        (λ w p. IsSound-update_record r b.duplicate p.1 (IsSound-tick p.0))
        (λ e w p. IsSound-tick p.0)

  save_record-IsIssued :
      (id : ℕ) (r : Record) → Ensures (IsIssued r.id) (save_record b id r) (λ _. IsSound)
  save_record-IsIssued id r = Ensures-bind (update-IsIssued r) λ written.
      Ensures-bind (Keeps-or_500 written) λ saved.
        Ensures-bind (Keeps-get b.db_fault b.missing (λ v. find? (λ x. x.id == id) v.records))
          Keeps-reread_record

  save_unless-IsIssued :
      (id : ℕ) (r : Record) (rows : List Record)
      → Ensures (IsIssued r.id) (save_unless b id r rows) (λ _. IsSound)
  save_unless-IsIssued id r rows =
      Ensures-if (collides b id r rows) (Ensures-reject (IsIssued-IsStable r.id) 409 _)
        (save_record-IsIssued id r)

  patch_record_row-IsIssued :
      (id : ℕ) (r : Record) → Ensures (IsIssued r.id) (patch_record_row b id r) (λ _. IsSound)
  unfolding patch_record_row
  patch_record_row-IsIssued id r =
      let stable = IsIssued-IsStable r.id in
      Ensures-bind (validate_record_fields-stable stable r.domain_id r.value) λ _.
        Ensures-bind (records_of-stable stable r.domain_id)
          λ found. Ensures-bind (Ensures-or_500 stable found) (save_unless-IsIssued id r)

  pub Keeps-patch_record :
      (show : ℕ → Text) (param : Option ℕ) (body : Option PatchRecord)
      → Keeps (patch_record b show param body)
  unfolding patch_record
  Keeps-patch_record show param body = Ensures-bind (Keeps-record_id param) λ id.
      Ensures-bind (Keeps-parsed body) λ patch. Ensures-bind (record_or_404-IsIssued show id) λ r.
        Ensures-bind (parse_optional_type-stable (IsIssued-IsStable r.id) patch.record_type)
          λ t. patch_record_row-IsIssued id (patched b patch t r)

  pub Keeps-delete_record :
      (show : ℕ → Text) (param : Option ℕ) → Keeps (delete_record b show param)
  unfolding delete_record
  Keeps-delete_record show param = Ensures-bind (Keeps-record_id param) λ id.
      Ensures-bind (Keeps-record_or_404 show id) λ r.
        Ensures-bind (Keeps-exec b.db_fault _ (λ w. IsSound-delete_records (λ x. x.id == id)))
          Keeps-or_500
