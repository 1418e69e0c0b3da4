-- ===== src/Api/Repeat.antt =====
-- src/api.rs: a POST of a record that is made twice.
use zonemail.Prelude.{
  ℕ, ◌+◌, ◌==◌, ◌≡◌, refl, ap, ◌∙◌, inl, inr, text_eq, text_eq_refl, codes, is_empty, trim, true,
  false, Option, none, some, List, [], ◌∷◌, ◌++◌, any, find?, filter, Bool-cases, Option-cases,
  arith,
}
use zonemail.Db.{World, Domain, Record}
use zonemail.Db.RecordTypes.{type_code}
use zonemail.Db.Action.{tick}
use zonemail.Db.Tables.{type_eq, same_triple, with_key, insert_record}
use zonemail.Db.Integrity.{text_eq_comm, ==_comm}
use zonemail.Api.{Reply, done, failed, Backend, bad_request}
use zonemail.Api.Records.{
  RecordApiDto, is_same_data, record_dto, other_ttl, resolve_found, validate_record_fields,
  record_resolve, create_record_row,
}

-- a record with this type and value, among those of its domain
abbrev existing : Record → List Record → Option Record
existing r xs =
    find? (is_same_data r.record_type r.value) (filter (λ x. text_eq x.domain_id r.domain_id) xs)

none≢some {ℓ} : {A : Type ℓ} {x : A} → none ≡ some x → ⊥
none≢some e = cc e

-- where there is none, the triple is free
existing_none :
    (r : Record) (xs : List Record) → existing r xs ≡ none → any (same_triple r) xs ≡ false
existing_none r [] h = refl
existing_none r (x ∷ xs) h =
    let domains = text_eq_comm x.domain_id r.domain_id in
    let values = text_eq_comm x.value r.value in
    let types = ==_comm (type_code x.record_type) (type_code r.record_type) in
    elim (Bool-cases (text_eq x.domain_id r.domain_id)) [
      | inr e ↦ ground (arith, domains, e, existing_none r xs (cc (e, h)))
      | inl e ↦ elim (Bool-cases (is_same_data r.record_type r.value x)) [
        | inl s ↦ absurd (none≢some {x = x} (cc (e, s, h)))
        | inr s ↦ ground (arith, domains, values, types, e, s, existing_none r xs (cc (e, s, h)))
      ]
    ]

-- the row that joins is then the one that is found
existing_added :
    (n : ℕ) (r : Record) (xs : List Record)
    → existing r xs ≡ none
    → existing r (xs ++ with_key n r ∷ []) ≡ some (with_key n r)
existing_added n r [] h =
    let types : type_eq r.record_type r.record_type ≡ true = ground arith in
    rw (text_eq_refl r.domain_id, text_eq_refl r.value, types) refl
existing_added n r (x ∷ xs) h = elim (Bool-cases (text_eq x.domain_id r.domain_id)) [
  | inr e ↦ rw e (existing_added n r xs (cc (e, h)))
  | inl e ↦ elim (Bool-cases (is_same_data r.record_type r.value x)) [
    | inl s ↦ absurd (none≢some {x = x} (cc (e, s, h)))
    | inr s ↦ rw (e, s) (existing_added n r xs (cc (e, s, h)))
  ]
]

module _ (b : Backend) (working : (n : ℕ) → b.db_fault n ≡ none) where
  abbrev resolved : Record → World → Option (Reply RecordApiDto)
  resolved r w =
      record_resolve b (filter (λ x. text_eq x.domain_id r.domain_id) w.records) r.record_type
        r.value r.ttl

  -- a row of the same data and ttl is answered
  resolved_same :
      (r x : Record) (w : World)
      → existing r w.records ≡ some x
      → (x.ttl == r.ttl) ≡ true
      → resolved r w ≡ some (done (record_dto b x))
  unfolding record_resolve
  resolved_same r x w e t = rw (e, t) refl

  found_none :
      (r : Record) (found : Option Record)
      → resolve_found b r.record_type r.value r.ttl found ≡ none
      → found ≡ none
  found_none r none h = refl
  found_none r (some x) h = elim (Bool-cases (x.ttl == r.ttl)) [
    | inl t ↦ absurd (none≢some {x = done (record_dto b x)} (cc (t, h)))
    | inr t ↦ absurd (
        none≢some {A = Reply RecordApiDto} {x = failed 409 (other_ttl b r.record_type r.value)}
          (cc (t, h)))
  ]

  resolved_none : (r : Record) (w : World) → resolved r w ≡ none → existing r w.records ≡ none
  unfolding record_resolve
  resolved_none r w h = found_none r (existing r w.records) h

  module _ (r : Record) (w : World) where
    run_empty :
        is_empty (trim r.value) ≡ true
        → create_record_row b r w ≡ (failed 400 (bad_request (codes "value must not be empty")), w)
    unfolding create_record_row validate_record_fields
    run_empty e = rw e refl

    run_unprovisioned :
        is_empty (trim r.value) ≡ false
        → find? (λ d. text_eq d.id r.domain_id) w.domains ≡ none
        → create_record_row b r w ≡ (
          failed 400
              (bad_request (codes "domain '" ++ r.domain_id ++ codes "' is not provisioned")),
          tick w,
        )
    unfolding create_record_row validate_record_fields
    run_unprovisioned full missing = rw (full, working w.calls, missing) refl

    module _ (d : Domain) (full : is_empty (trim r.value) ≡ false)
        (found : find? (λ d. text_eq d.id r.domain_id) w.domains ≡ some d) where
      run_existing :
          (reply : Reply RecordApiDto)
          → resolved r w ≡ some reply
          → create_record_row b r w ≡ (reply, tick (tick w))
      unfolding create_record_row validate_record_fields
      run_existing reply e =
          rw (full, working w.calls, found) (rw (working (w.calls + 1)) (rw e refl))

      run_new :
          resolved r w ≡ none
          → create_record_row b r w ≡ (
            done (record_dto b (with_key w.next_record r)),
            (insert_record b.duplicate r (tick (tick (tick w)))).1,
          )
      unfolding create_record_row validate_record_fields
      run_new e =
          rw (full, working w.calls, found)
            (rw (working (w.calls + 1)) (
              rw e (
                rw (working (w.calls + 1 + 1), existing_none r w.records (resolved_none r w e))
                  refl)))

  -- the answer to a second POST is that to the first, and it writes nothing
  abbrev Repeats : Record → World → Type 0
  Repeats r w =
      ((create_record_row b r (create_record_row b r w).1).0 ≡ (create_record_row b r w).0)
      × ((create_record_row b r (create_record_row b r w).1).1.records
          ≡ (create_record_row b r w).1.records)

  twice :
      (r : Record) (w w1 w2 : World) (reply : Reply RecordApiDto)
      → create_record_row b r w ≡ (reply, w1)
      → create_record_row b r w1 ≡ (reply, w2)
      → w2.records ≡ w1.records
      → Repeats r w
  twice r w w1 w2 reply e e' same = rw e (rw e' (refl, same))

  Repeats-provisioned :
      (r : Record) (d : Domain) (w : World)
      → is_empty (trim r.value) ≡ false
      → find? (λ d. text_eq d.id r.domain_id) w.domains ≡ some d
      → Repeats r w
  Repeats-provisioned r d w full found = elim (Option-cases (resolved r w)) [
    | inr (reply, e) ↦
        twice r w _ _ reply (run_existing r w d full found reply e)
          (run_existing r (tick (tick w)) d full found reply e) refl
    | inl e ↦
        let free = resolved_none r w e in
        let w1 = (insert_record b.duplicate r (tick (tick (tick w)))).1 in
        let row = with_key w.next_record r in
        let same : (row.ttl == r.ttl) ≡ true = ground arith in
        let joined : w1.records ≡ w.records ++ row ∷ [] =
          rw (existing_none r w.records free) refl in
        let kept : w1.domains ≡ w.domains = rw (existing_none r w.records free) refl in
        let there : existing r w1.records ≡ some row =
          ap (existing r) joined ∙ existing_added w.next_record r w.records free in
        twice r w w1 (tick (tick w1)) _ (run_new r w d full found e)
          (run_existing r w1 d full (ap (find? (λ d. text_eq d.id r.domain_id)) kept ∙ found) _
            (resolved_same r row w1 there same))
          refl
  ]

  -- While no statement fails, a POST of a record that is made again is answered as the first was,
  -- with the same row where there is one, and the records stay as the first left them.
  pub create_record_row_again :
      (r : Record) (w : World)
      → ((create_record_row b r (create_record_row b r w).1).0 ≡ (create_record_row b r w).0)
        × ((create_record_row b r (create_record_row b r w).1).1.records
            ≡ (create_record_row b r w).1.records)
  create_record_row_again r w = elim (Bool-cases (is_empty (trim r.value))) [
    | inl e ↦ twice r w w w _ (run_empty r w e) (run_empty r w e) refl
    | inr full ↦ elim (Option-cases (find? (λ d. text_eq d.id r.domain_id) w.domains)) [
      | inl missing ↦
          twice r w _ _ _ (run_unprovisioned r w full missing)
            (run_unprovisioned r (tick w) full missing) refl
      | inr (d, found) ↦ Repeats-provisioned r d w full found
    ]
  ]
