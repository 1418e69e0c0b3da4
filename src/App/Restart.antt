-- ===== src/App/Restart.antt =====
-- src/app.rs: a second start over tables that are seeded.
use mathlib.Core.Path.{subst}
use zonemail.Prelude.{
  ℕ, ◌≡◌, refl, sym, inl, inr, Text, text_eq_refl, true, List, [], ◌∷◌, ◌++◌, any, Result, ok, err,
  Option-cases, Bool-cases, arith,
}
use zonemail.Db.{World, Domain, Record, Mailbox}
use zonemail.Db.Action.{Action, follow, ◌>>=◌}
use zonemail.Db.Tables.{
  exec_checked, type_eq, same_domain, same_mailbox, same_triple, insert_domain, insert_mailbox,
  insert_record, with_key,
}
use zonemail.Db.Integrity.{any-append_left}
use zonemail.Db.Integrity.Actions.{IsClosed, Maintains}
use zonemail.Api.{Backend}
use zonemail.App.{
  RecordDto, SeedConfig, record_of, seed_domains, seed_mailboxes, seed_records, seed_from_config,
}
use zonemail.App.Seeding.{Maintains-seed_domains, Maintains-seed_mailboxes, Maintains-seed_records}

-- what holds after an action that succeeds
record Achieves (P : World → Type 0) {A : Type 0} (m : Action A) : Type 0 where
  at : (w : World) (a : A) → (m w).0 ≡ ok a → P (m w).1

-- an action that fails where `P` holds
record IsRefused (P : World → Type 0) {A : Type 0} (m : Action A) : Type 0 where
  at : (w : World) → P w → (e : Text) × ((m w).0 ≡ err e)

refused_first :
    {A B : Type 0} (r : Result A) (f : A → Action B) (w : World)
    → ((e : Text) × (r ≡ err e))
    → (e : Text) × ((follow r f w).0 ≡ err e)
refused_first (ok a) f w (e, h) = absurd (cc h)
refused_first (err e) f w h = (e, refl)

module _ {P : World → Type 0} where
  achieved_last :
      {A B : Type 0} (r : Result A) (f : A → Action B) (w : World) (y : B)
      → ((a : A) → Achieves P (f a))
      → (follow r f w).0 ≡ ok y
      → P (follow r f w).1
  achieved_last (ok a) f w y k h = (k a).at w y h
  achieved_last (err e) f w y k h = absurd (cc h)

  Achieves-last :
      {A B : Type 0} (m : Action A) {f : A → Action B}
      → ((a : A) → Achieves P (f a))
      → Achieves P (m >>= f)
  Achieves-last m {f = f} k = record { at = λ w y h. achieved_last (m w).0 f (m w).1 y k h }

  achieved_first :
      {A B : Type 0} (r : Result A) (f : A → Action B) (w : World) (y : B)
      → ((a : A) → r ≡ ok a → P w)
      → ((a : A) → Maintains P (f a))
      → (follow r f w).0 ≡ ok y
      → P (follow r f w).1
  achieved_first (ok a) f w y p k h = (k a).at w (p a refl)
  achieved_first (err e) f w y p k h = absurd (cc h)

  Achieves-first :
      {A B : Type 0} {m : Action A} {f : A → Action B}
      → Achieves P m
      → ((a : A) → Maintains P (f a))
      → Achieves P (m >>= f)
  Achieves-first {m = m} {f = f} h k = record {
    at = λ w y e. achieved_first (m w).0 f (m w).1 y (h.at w) k e;
  }

  refused_last :
      {A B : Type 0} (r : Result A) (f : A → Action B) (w : World)
      → ((a : A) → IsRefused P (f a))
      → P w
      → (e : Text) × ((follow r f w).0 ≡ err e)
  refused_last (ok a) f w k p = (k a).at w p
  refused_last (err e) f w k p = (e, refl)

  IsRefused-last :
      {A B : Type 0} {m : Action A} {f : A → Action B}
      → Maintains P m
      → ((a : A) → IsRefused P (f a))
      → IsRefused P (m >>= f)
  IsRefused-last {m = m} {f = f} h k = record {
    at = λ w p. refused_last (m w).0 f (m w).1 k (h.at w p);
  }

  IsRefused-first :
      {A B : Type 0} {m : Action A} (f : A → Action B) → IsRefused P m → IsRefused P (m >>= f)
  IsRefused-first {m = m} f h = record { at = λ w p. refused_first (m w).0 f (m w).1 (h.at w p) }

-- a stored record has the triple of `r`
abbrev HasTriple : Record → World → Type 0
HasTriple r w = any (same_triple r) w.records ≡ true

module _ (b : Backend) (r : Record) where
  HasTriple-insert_domain :
      (d : Domain) (w : World) → HasTriple r w → HasTriple r (insert_domain b.duplicate d w).1
  HasTriple-insert_domain d w h = elim (Bool-cases (any (same_domain d) w.domains)) [
    | inl e ↦ rw e h
    | inr e ↦ rw e h
  ]

  HasTriple-insert_mailbox :
      (m : Mailbox) (w : World) → HasTriple r w → HasTriple r (insert_mailbox b.duplicate m w).1
  HasTriple-insert_mailbox m w h = elim (Bool-cases (any (same_mailbox m) w.mailboxes)) [
    | inl e ↦ rw e h
    | inr e ↦ rw e h
  ]

  HasTriple-insert_record :
      (x : Record) (w : World) → HasTriple r w → HasTriple r (insert_record b.duplicate x w).1
  HasTriple-insert_record x w h = elim (Bool-cases (any (same_triple x) w.records)) [
    | inl e ↦ rw e h
    | inr e ↦ rw e (any-append_left (same_triple r) w.records _ h)
  ]

  insert_record-IsRefused :
      IsRefused (HasTriple r) (exec_checked b.db_fault (insert_record b.duplicate r))
  insert_record-IsRefused = record {
    at = λ w h. elim (Option-cases (b.db_fault w.calls)) [
      | inl e ↦ rw (e, h) (b.duplicate, refl)
      | inr (t, e) ↦ rw e (t, refl)
    ];
  }

  added_triple : (n : ℕ) (xs : List Record) → any (same_triple r) (xs ++ with_key n r ∷ []) ≡ true
  added_triple n [] =
      let types : type_eq r.record_type r.record_type ≡ true = ground arith in
      rw (text_eq_refl r.domain_id, text_eq_refl r.value, types) refl
  added_triple n (x ∷ xs) = ground (arith, added_triple n xs)

  inserted : Achieves (HasTriple r) (exec_checked b.db_fault (insert_record b.duplicate r))
  inserted = record {
    at = λ w a h. elim (Option-cases (b.db_fault w.calls)) [
      | inl e ↦ elim (Bool-cases (any (same_triple r) w.records)) [
        | inl d ↦ rw (e, d) d
        | inr d ↦ rw (e, d) (added_triple (w.next_record) w.records)
      ]
      | inr (t, e) ↦ absurd (cc (e, h))
    ];
  }

module _ (b : Backend) (config : SeedConfig) (dto : RecordDto) (rest : List RecordDto) where
  abbrev first_row : Record
  first_row = record_of dto

  closed : IsClosed (HasTriple first_row)
  closed = record { calls = λ n p. p }

  seeds_row : Achieves (HasTriple first_row) (seed_records b (dto ∷ rest))
  unfolding seed_records
  seeds_row =
      Achieves-first (inserted b first_row)
        (λ _. Maintains-seed_records closed b (HasTriple-insert_record b first_row) rest)

  seeds :
      (rows : List RecordDto)
      → rows ≡ dto ∷ rest
      → Achieves (HasTriple first_row) (seed_records b rows)
  seeds rows e = subst (λ l. Achieves (HasTriple first_row) (seed_records b l)) (sym e) seeds_row

  refuses_row : IsRefused (HasTriple first_row) (seed_records b (dto ∷ rest))
  unfolding seed_records
  refuses_row = IsRefused-first _ (insert_record-IsRefused b first_row)

  refuses :
      (rows : List RecordDto)
      → rows ≡ dto ∷ rest
      → IsRefused (HasTriple first_row) (seed_records b rows)
  refuses rows e =
      subst (λ l. IsRefused (HasTriple first_row) (seed_records b l)) (sym e) refuses_row

  -- Where the configuration has a record, a start over tables that a start with it has seeded fails,
  -- whatever the database answers.
  pub seed_from_config_again :
      (w : World)
      → config.records ≡ dto ∷ rest
      → (seed_from_config b config w).0 ≡ ok tt
      → (e : Text) × ((seed_from_config b config (seed_from_config b config w).1).0 ≡ err e)
  unfolding seed_from_config
  seed_from_config_again w rows once =
      let stored =
        (Achieves-last (seed_domains b config.domains) (λ _.
            Achieves-last (seed_mailboxes b config.mailboxes) (λ _. seeds config.records rows))).at
          w tt once in
      (IsRefused-last
          (Maintains-seed_domains closed b (HasTriple-insert_domain b first_row) config.domains)
          (λ _.
            IsRefused-last
              (Maintains-seed_mailboxes closed b (HasTriple-insert_mailbox b first_row)
                config.mailboxes)
              (λ _. refuses config.records rows))).at
        _ stored
