-- ===== src/Db/Integrity.antt =====
-- src/db.rs: the constraints of the models as an invariant of the tables: keys and triples that do
-- not repeat, and links that lead to a row.
pub mod Statements
pub mod Deletes
pub mod Actions
pub mod Messages
use zonemail.Prelude.{
  ℕ, ◌+◌, ◌==◌, ◌<◌, ◌≡◌, refl, sym, ◌∙◌, inl, inr, Option, none, some, Text, text_eq, text_eq_refl,
  text_eq→≡, Bool, true, false, not, ◌&&◌, ◌||◌, List, [], ◌∷◌, ◌++◌, any, find?, filter,
  update_where, All, All-filter, All-imp, Bool-cases, arith, if◌then◌else◌,
}
use zonemail.Db.{World, Domain, Record, Mailbox, Message, Inbound, Outbound, DeliveryStatus}
use zonemail.Db.RecordTypes.{type_code}
use zonemail.Db.Tables.{type_eq, same_domain, same_mailbox, same_triple}

-- No two elements are the same.
abbrev pub DistinctBy {ℓ} : {A : Type ℓ} → (A → A → Bool) → List A → Type 0
DistinctBy same [] = Unit
DistinctBy same (x ∷ xs) = (any (same x) xs ≡ false) × DistinctBy same xs

abbrev pub same_key : Record → Record → Bool
same_key a b = a.id == b.id

abbrev pub has_message : World → ℕ → Bool
has_message w id = any (λ m. m.id == id) w.messages

abbrev pub has_outbound : World → ℕ → Bool
has_outbound w id = any (λ r. r.id == id) w.outbounds

abbrev pub has_mailbox : World → Text → Bool
has_mailbox w id = any (λ m. text_eq m.id id) w.mailboxes

abbrev pub same_by {ℓ} : {A : Type ℓ} → (A → ℕ) → A → A → Bool
same_by key a b = key a == key b

-- a table whose keys are given by a counter: below the next one, and no two the same
abbrev pub Keyed {ℓ} : {A : Type ℓ} → (A → ℕ) → ℕ → List A → Type 0
Keyed key n rows = All (λ r. key r < n) rows × DistinctBy (same_by key) rows

abbrev pub message_key : Message → ℕ
message_key m = m.id

abbrev pub inbound_key : Inbound → ℕ
inbound_key r = r.id

abbrev pub outbound_key : Outbound → ℕ
outbound_key r = r.id

abbrev pub delivery_key : DeliveryStatus → ℕ
delivery_key d = d.id

abbrev pub IsNumbered : World → Type 0
IsNumbered w =
    Keyed message_key w.next_message w.messages
    × Keyed inbound_key w.next_inbound w.inbounds
    × Keyed outbound_key w.next_outbound w.outbounds
    × Keyed delivery_key w.next_delivery w.delivery_statuses

-- the constraints of one state of the tables
pub record IsSound (w : World) : Type 0 where
  pub domains : DistinctBy same_domain w.domains
  pub mailboxes : DistinctBy same_mailbox w.mailboxes
  pub triples : DistinctBy same_triple w.records
  pub keys : DistinctBy same_key w.records
  pub fresh : All (λ r. r.id < w.next_record) w.records
  pub inbound_links : All (λ r. has_message w r.message_id ≡ true) w.inbounds
  pub outbound_links : All (λ r. has_message w r.message_id ≡ true) w.outbounds
  pub senders : All (λ r. has_mailbox w r.sender_id ≡ true) w.outbounds
  pub deliveries : All (λ s. has_outbound w s.outbound_id ≡ true) w.delivery_statuses
  pub numbered : IsNumbered w

module _ {ℓ} {A : Type ℓ} where
  pub any-append : (p : A → Bool) (xs ys : List A) → any p (xs ++ ys) ≡ (any p xs || any p ys)
  any-append p [] ys = refl
  any-append p (x ∷ xs) ys = ground (arith, any-append p xs ys)

  -- a row found before stays found when rows are added
  pub any-append_left : (p : A → Bool) (xs ys : List A) → any p xs ≡ true → any p (xs ++ ys) ≡ true
  any-append_left p xs ys h = ground (arith, any-append p xs ys)

  pub any_none : (p : A → Bool) (xs : List A) → ((x : A) → p x ≡ false) → any p xs ≡ false
  any_none p [] h = refl
  any_none p (x ∷ xs) h = ground (arith, h x, any_none p xs h)

  any_sub : (p keep : A → Bool) (xs : List A) → any p xs ≡ false → any p (filter keep xs) ≡ false
  any_sub p keep [] h = refl
  any_sub p keep (x ∷ xs) h = elim (Bool-cases (keep x)) [
    | inl e ↦ rw e (ground (arith, h, any_sub p keep xs))
    | inr e ↦ rw e (ground (arith, h, any_sub p keep xs))
  ]

  -- a row found that is not among those that go is found among the rest
  pub any_left :
      (q p : A → Bool) (xs : List A)
      → any q xs ≡ true
      → any (λ x. p x && q x) xs ≡ false
      → any q (filter (λ x. not (p x)) xs) ≡ true
  any_left q p [] h n = h
  any_left q p (x ∷ xs) h n = elim (Bool-cases (p x)) [
    | inl e ↦ rw e (ground (arith, e, h, n, any_left q p xs))
    | inr e ↦ rw e (ground (arith, e, h, n, any_left q p xs))
  ]

  pub All-keep : (P : A → Type 0) (p : A → Bool) (xs : List A) → All P xs → All P (filter p xs)
  All-keep P p xs h = All-imp _ P _ (λ x k. k.0) (All-filter P p xs h)

  pub All-add : (P : A → Type 0) (xs : List A) (x : A) → All P xs → P x → All P (xs ++ x ∷ [])
  All-add P [] x h p = (p, tt)
  All-add P (y ∷ ys) x h p = (h.0, All-add P ys x h.1 p)

  module _ (same : A → A → Bool) where
    pub DistinctBy-filter :
        (p : A → Bool) (xs : List A) → DistinctBy same xs → DistinctBy same (filter p xs)
    DistinctBy-filter p [] h = tt
    DistinctBy-filter p (x ∷ xs) h = elim (Bool-cases (p x)) [
      | inl e ↦ rw e (any_sub (same x) p xs h.0, DistinctBy-filter p xs h.1)
      | inr e ↦ rw e (DistinctBy-filter p xs h.1)
    ]

    pub DistinctBy-append :
        ((x y : A) → same x y ≡ same y x)
        → (xs : List A) (x : A) → DistinctBy same xs
        → any (same x) xs ≡ false
        → DistinctBy same (xs ++ x ∷ [])
    DistinctBy-append comm [] x h n = (refl, tt)
    DistinctBy-append comm (y ∷ ys) x h n = (
      ground (arith, any-append (same y) ys (x ∷ []), h.0, n, comm x y),
      DistinctBy-append comm ys x h.1 (ground (arith, n)),
    )

    -- a rewriting of rows that keeps what is compared
    pub DistinctBy-update :
        (p : A → Bool) (f : A → A) (xs : List A)
        → ((x y : A) → same (if p x then f x else x) (if p y then f y else y) ≡ same x y)
        → DistinctBy same xs
        → DistinctBy same (update_where p f xs)
    DistinctBy-update p f [] keeps h = tt
    DistinctBy-update p f (x ∷ xs) keeps h = (go xs h.0, DistinctBy-update p f xs keeps h.1)
      where
        go :
            (ys : List A)
            → any (same x) ys ≡ false
            → any (same (if p x then f x else x)) (update_where p f ys) ≡ false
        go [] n = refl
        go (y ∷ ys) n = ground (arith, n, keeps x y, go ys)

pub text_eq_comm : (s t : Text) → text_eq s t ≡ text_eq t s
text_eq_comm [] [] = refl
text_eq_comm [] (d ∷ ds) = refl
text_eq_comm (c ∷ cs) [] = refl
text_eq_comm (c ∷ cs) (d ∷ ds) = ground (arith, text_eq_comm cs ds)

pub ==_comm : (m n : ℕ) → (m == n) ≡ (n == m)
==_comm m n = ground arith

pub same_triple_comm : (r s : Record) → same_triple r s ≡ same_triple s r
same_triple_comm r s = cc (
  text_eq_comm r.domain_id s.domain_id,
  text_eq_comm r.value s.value,
  ==_comm (type_code r.record_type) (type_code s.record_type),
)

-- the tables with a counter, when a row is added under the next key, and when rows go
module _ {ℓ} {A : Type ℓ} (key : A → ℕ) where
  above_all :
      (n : ℕ) (x : A) (xs : List A)
      → key x ≡ n
      → All (λ r. key r < n) xs
      → any (same_by key x) xs ≡ false
  above_all n x [] e h = refl
  above_all n x (y ∷ ys) e h = ground (arith, above_all n x ys e h.1)

  pub Keyed-add :
      (n : ℕ) (x : A) (xs : List A) → key x ≡ n → Keyed key n xs → Keyed key (n + 1) (xs ++ x ∷ [])
  Keyed-add n x xs e h = (
    All-add _ xs x (All-imp _ _ xs (λ r q. omega (arith, q)) h.0) (ground (arith, e)),
    DistinctBy-append (same_by key) (λ a c. ==_comm (key a) (key c)) xs x h.1
        (above_all n x xs e h.0),
  )

  pub Keyed-filter :
      (n : ℕ) (p : A → Bool) (xs : List A) → Keyed key n xs → Keyed key n (filter p xs)
  Keyed-filter n p xs h = (All-keep _ p xs h.0, DistinctBy-filter (same_by key) p xs h.1)

-- a row that is looked up is there
pub find_any {ℓ} :
    {A : Type ℓ} (q : A → Bool) (xs : List A) (x : A) → find? q xs ≡ some x → any q xs ≡ true
find_any q [] x e = cc e
find_any q (y ∷ ys) x e = elim (Bool-cases (q y)) [
  | inl t ↦ rw t refl
  | inr f ↦ rw f (find_any q ys x (cc (f, e)))
]
