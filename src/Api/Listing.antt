-- ===== src/Api/Listing.antt =====
-- src/api.rs: the ids of a mailbox's messages, and the pages of `list_mailbox_messages`.
use zonemail.Prelude.{
  ℕ, zero, suc, ◌==◌, ◌<◌, ◌≤◌, ◌≡◌, refl, inl, inr, leb, ltb, true, ◌||◌, Option, none, some, List,
  [], ◌∷◌, any, length, All, All-imp, Bool-cases, arith,
}
use zonemail.Api.Page.{from_all, saturating_add, walk}
use zonemail.Api.Messages.{ListMessagesQuery, insert_id, sort_dedup, messages_params}

-- strictly increasing
abbrev pub IsIncreasing : List ℕ → Type 0
IsIncreasing [] = Unit
IsIncreasing (n ∷ ns) = All (λ m. n < m) ns × IsIncreasing ns

any-insert_id :
    (id n : ℕ) (ns : List ℕ)
    → any (λ m. m == id) (insert_id n ns) ≡ ((n == id) || any (λ m. m == id) ns)
unfolding insert_id
any-insert_id id n [] = refl
any-insert_id id n (m ∷ ms) = ground (arith, any-insert_id id n ms)

above_insert :
    (k n : ℕ) (ns : List ℕ) → k < n → All (λ m. k < m) ns → All (λ m. k < m) (insert_id n ns)
unfolding insert_id
above_insert k n [] h a = (h, tt)
above_insert k n (m ∷ ms) h a = elim (Bool-cases (n == m)) [
  | inl e ↦ rw e a
  | inr e ↦ rw e (elim (Bool-cases (leb n m)) [
    | inl l ↦ rw l (h, a)
    | inr l ↦ rw l (a.0, above_insert k n ms h a.1)
  ])
]

insert_id-IsIncreasing : (n : ℕ) (ns : List ℕ) → IsIncreasing ns → IsIncreasing (insert_id n ns)
unfolding insert_id
insert_id-IsIncreasing n [] h = (tt, tt)
insert_id-IsIncreasing n (m ∷ ms) h = elim (Bool-cases (n == m)) [
  | inl e ↦ rw e h
  | inr e ↦ rw e (elim (Bool-cases (leb n m)) [
    | inl l ↦
        let below : n < m = ground (arith, e, l) in
        rw l ((below, All-imp _ _ ms (λ k q. omega (arith, q, below)) h.0), h)
    | inr l ↦ rw l (above_insert m n ms (ground (arith, e, l)) h.0, insert_id-IsIncreasing n ms h.1)
  ])
]

pub sort_dedup_lem :
    (ns : List ℕ)
    → IsIncreasing (sort_dedup ns)
      × ((id : ℕ) → any (λ m. m == id) (sort_dedup ns) ≡ any (λ m. m == id) ns)
unfolding sort_dedup
sort_dedup_lem [] = (tt, λ id. refl)
sort_dedup_lem (n ∷ ns) =
    let rest = sort_dedup_lem ns in
    (
      insert_id-IsIncreasing n (sort_dedup ns) rest.0,
      λ id. ground (arith, any-insert_id id n (sort_dedup ns), rest.1 id),
    )

walk_zero {ℓ} :
    {A : Type ℓ} (rounds : ℕ) (rows : List A) → 1 ≤ length rows → walk rounds rows 0 0 ≡ none
unfolding walk from_all
walk_zero zero rows h = refl
walk_zero (suc rounds) rows h =
    let more : ltb (saturating_add 0 0) (length rows) ≡ true = ground (arith, h) in
    let same : saturating_add 0 0 ≡ 0 = ground arith in
    rw (more, walk) (rw same (rw (walk_zero rounds rows h) refl))

-- A query of `list_mailbox_messages` that parses and asks for the limit 0 gets pages that never
-- end: however many requests a client makes, it does not reach the last page of a list that is
-- not empty.
pub walk-messages_params {ℓ} :
    {A : Type ℓ} (rounds : ℕ) (rows : List A) (q : ListMessagesQuery) (limit offset : Option ℕ)
    → q.limit ≡ some 0
    → q.offset ≡ none
    → 1 ≤ length rows
    → walk rounds rows
        (messages_params (some q) limit offset).0
        (messages_params (some q) limit offset).1
      ≡ none
unfolding messages_params
walk-messages_params rounds rows q limit offset l o h = rw (l, o) (walk_zero rounds rows h)
