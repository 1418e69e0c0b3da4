-- ===== src/Db/Integrity/Statements.antt =====
-- src/db.rs: each statement on the tables against the invariant.
use zonemail.Prelude.{
  ℕ, ◌==◌, ◌<◌, ◌≡◌, refl, inl, inr, Text, text_eq, Bool, true, false, not, ◌&&◌, List, [], ◌∷◌,
  any, update_where, All, All-imp, Bool-cases, arith,
}
use zonemail.Db.{World, Domain, Record, Mailbox}
use zonemail.Db.Action.{tick}
use zonemail.Db.Tables.{
  same_domain, same_mailbox, same_triple, insert_domain, insert_mailbox, with_key, insert_record,
  update_record,
}
use zonemail.Db.Integrity.{
  DistinctBy, same_key, IsSound, any-append_left, All-add, DistinctBy-append, DistinctBy-update,
  text_eq_comm, ==_comm, same_triple_comm,
}

pub IsSound-tick : {w : World} → IsSound w → IsSound (tick w)
IsSound-tick s = record {
  domains = s.domains;
  mailboxes = s.mailboxes;
  triples = s.triples;
  keys = s.keys;
  fresh = s.fresh;
  inbound_links = s.inbound_links;
  outbound_links = s.outbound_links;
  senders = s.senders;
  deliveries = s.deliveries;
  numbered = s.numbered;
}

pub IsSound-insert_domain :
    (duplicate : Text) (d : Domain) {w : World}
    → IsSound w
    → IsSound (insert_domain duplicate d w).1
IsSound-insert_domain duplicate d {w} s = elim (Bool-cases (any (same_domain d) w.domains)) [
  | inl e ↦ rw e s
  | inr e ↦ rw e (record {
    domains = DistinctBy-append same_domain (λ x y. text_eq_comm x.id y.id) w.domains d s.domains e;
    mailboxes = s.mailboxes;
    triples = s.triples;
    keys = s.keys;
    fresh = s.fresh;
    inbound_links = s.inbound_links;
    outbound_links = s.outbound_links;
    senders = s.senders;
    deliveries = s.deliveries;
    numbered = s.numbered;
  })
]

pub IsSound-insert_mailbox :
    (duplicate : Text) (m : Mailbox) {w : World}
    → IsSound w
    → IsSound (insert_mailbox duplicate m w).1
IsSound-insert_mailbox duplicate m {w} s = elim (Bool-cases (any (same_mailbox m) w.mailboxes)) [
  | inl e ↦ rw e s
  | inr e ↦ rw e (record {
    domains = s.domains;
    mailboxes =
        DistinctBy-append same_mailbox (λ x y. text_eq_comm x.id y.id) w.mailboxes m s.mailboxes e;
    triples = s.triples;
    keys = s.keys;
    fresh = s.fresh;
    inbound_links = s.inbound_links;
    outbound_links = s.outbound_links;
    senders =
        All-imp _ _ _ (λ r h. any-append_left (λ x. text_eq x.id r.sender_id) w.mailboxes _ h)
          s.senders;
    deliveries = s.deliveries;
    numbered = s.numbered;
  })
]

-- a key that is not yet given out is no row's
fresh_key :
    (n : ℕ) (rows : List Record) (r : Record)
    → All (λ x. x.id < n) rows
    → any (same_key (with_key n r)) rows ≡ false
fresh_key n [] r h = refl
fresh_key n (x ∷ xs) r h = ground (arith, h.0, fresh_key n xs r h.1)

pub IsSound-insert_record :
    (duplicate : Text) (r : Record) {w : World}
    → IsSound w
    → IsSound (insert_record duplicate r w).1
IsSound-insert_record duplicate r {w} s = elim (Bool-cases (any (same_triple r) w.records)) [
  | inl e ↦ rw e s
  | inr e ↦ rw e (record {
    domains = s.domains;
    mailboxes = s.mailboxes;
    triples =
        DistinctBy-append same_triple same_triple_comm w.records (with_key w.next_record r)
          s.triples e;
    keys =
        DistinctBy-append same_key (λ x y. ==_comm x.id y.id) w.records (with_key w.next_record r)
          s.keys (fresh_key w.next_record w.records r s.fresh);
    fresh = All-add _ w.records _ (All-imp _ _ _ (λ x h. omega (arith, h)) s.fresh) (omega arith);
    inbound_links = s.inbound_links;
    outbound_links = s.outbound_links;
    senders = s.senders;
    deliveries = s.deliveries;
    numbered = s.numbered;
  })
]

-- the rewritten rows of `update_record`, where the key is unique and no other row has the triple
module _ (r : Record) where
  abbrev updated : List Record → List Record
  updated = update_where (λ x. x.id == r.id) (λ _. r)

  abbrev taken : List Record → Bool
  taken = any (λ x. not (x.id == r.id) && same_triple r x)

  updated_none :
      (x : Record) (ys : List Record)
      → (x.id == r.id) ≡ true
      → any (same_key x) ys ≡ false
      → taken ys ≡ false
      → any (same_triple r) (updated ys) ≡ false
  updated_none x [] e k t = refl
  updated_none x (y ∷ ys) e k t = ground (arith, e, k, t, updated_none x ys e)

  updated_other :
      (x : Record) (ys : List Record)
      → same_triple x r ≡ false
      → any (same_triple x) ys ≡ false
      → any (same_triple x) (updated ys) ≡ false
  updated_other x [] e k = refl
  updated_other x (y ∷ ys) e k = elim (Bool-cases (y.id == r.id)) [
    | inl q ↦ rw q (ground (arith, e, k, updated_other x ys e))
    | inr q ↦ rw q (ground (arith, e, k, updated_other x ys e))
  ]

  updated-DistinctBy :
      (xs : List Record)
      → DistinctBy same_key xs
      → DistinctBy same_triple xs
      → taken xs ≡ false
      → DistinctBy same_triple (updated xs)
  updated-DistinctBy [] k d t = tt
  updated-DistinctBy (x ∷ xs) k d t =
      let later = updated-DistinctBy xs k.1 d.1 in
      elim (Bool-cases (x.id == r.id)) [
        | inl e ↦
            rw e (updated_none x xs e k.0 (ground (arith, e, t)), later (ground (arith, e, t)))
        | inr e ↦ rw e (
          updated_other x xs (ground (arith, e, t, same_triple_comm x r)) d.0,
          later (ground (arith, e, t)),
        )
      ]

  updated_fresh :
      (n : ℕ) (xs : List Record)
      → r.id < n
      → All (λ x. x.id < n) xs
      → All (λ x. x.id < n) (updated xs)
  updated_fresh n [] h k = tt
  updated_fresh n (x ∷ xs) h k = elim (Bool-cases (x.id == r.id)) [
    | inl e ↦ rw e (h, updated_fresh n xs h k.1)
    | inr e ↦ rw e (k.0, updated_fresh n xs h k.1)
  ]

  pub IsSound-update_record :
      (duplicate : Text) {w : World}
      → r.id < w.next_record
      → IsSound w
      → IsSound (update_record duplicate r w).1
  IsSound-update_record duplicate {w} below s = elim (Bool-cases (taken w.records)) [
    | inl e ↦ rw e s
    | inr e ↦ rw e (record {
      domains = s.domains;
      mailboxes = s.mailboxes;
      triples = updated-DistinctBy w.records s.keys s.triples e;
      keys =
          DistinctBy-update same_key (λ x. x.id == r.id) (λ _. r) w.records (λ x y. ground arith)
            s.keys;
      fresh = updated_fresh w.next_record w.records below s.fresh;
      inbound_links = s.inbound_links;
      outbound_links = s.outbound_links;
      senders = s.senders;
      deliveries = s.deliveries;
      numbered = s.numbered;
    })
  ]
