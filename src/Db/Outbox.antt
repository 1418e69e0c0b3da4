-- ===== src/Db/Outbox.antt =====
-- The table `Outbound` as the queue: rows by key, and the laws of its statements.
use zonemail.Prelude.{
  ℕ, ◌==◌, ◌≡◌, refl, Bool, true, false, Option, none, some, List, [], ◌∷◌, ◌++◌, find?, any,
  update_where, All, Distinct, if◌then◌else◌, arith,
}
use zonemail.Db.{World, Outbound, OutboundStatus, queued, in_progress, delivered, failed}

abbrev pub status_eq : OutboundStatus → OutboundStatus → Bool
status_eq queued queued = true
status_eq in_progress in_progress = true
status_eq delivered delivered = true
status_eq failed failed = true
status_eq _ _ = false

abbrev pub has_id : ℕ → Outbound → Bool
has_id id job = job.id == id

-- `Outbound filter .id == id`, its first row
abbrev pub outbound_at : World → ℕ → Option Outbound
outbound_at w id = find? (has_id id) w.outbounds

-- `UPDATE … WHERE id = id`: where no row has the key, nothing changes
abbrev pub update_outbound : ℕ → (Outbound → Outbound) → World → World
update_outbound id f w = record w { outbounds = update_where (has_id id) f w.outbounds }

abbrev pub map_option {ℓ κ} : {A : Type ℓ} {B : Type κ} → (A → B) → Option A → Option B
map_option f none = none
map_option f (some a) = some (f a)

-- An update that keeps the key, as each key sees it.
pub find?-update_where :
    (i j : ℕ) (f : Outbound → Outbound) (rows : List Outbound)
    → ((r : Outbound) → (f r).id ≡ r.id)
    → find? (has_id j) (update_where (has_id i) f rows)
      ≡ (if i == j then map_option f (find? (has_id j) rows) else find? (has_id j) rows)
find?-update_where i j f [] keeps = ground arith
find?-update_where i j f (r ∷ rows) keeps =
    ground (arith, keeps r, find?-update_where i j f rows keeps)

pub find?-append :
    (j : ℕ) (rows : List Outbound) (r : Outbound)
    → find? (has_id j) (rows ++ r ∷ []) ≡ (elim (find? (has_id j) rows) [
      | none ↦ if r.id == j then some r else none
      | some x ↦ some x
    ])
find?-append j [] r = refl
find?-append j (x ∷ rows) r = ground (arith, find?-append j rows r)

pub find?_id :
    (j : ℕ) (rows : List Outbound) (r : Outbound) → find? (has_id j) rows ≡ some r → r.id ≡ j
find?_id j [] r h = cc
find?_id j (x ∷ rows) r h = ground (arith, find?_id j rows r)

abbrev pub ids : List Outbound → List ℕ
ids [] = []
ids (r ∷ rows) = r.id ∷ ids rows

pub ids-update_where :
    (p : Outbound → Bool) (f : Outbound → Outbound) (rows : List Outbound)
    → ((r : Outbound) → (f r).id ≡ r.id)
    → ids (update_where p f rows) ≡ ids rows
ids-update_where p f [] keeps = refl
ids-update_where p f (r ∷ rows) keeps = ground (arith, keeps r, ids-update_where p f rows keeps)

-- the row that a lookup of its key finds
abbrev pub IsFirst : List Outbound → Outbound → Type 0
IsFirst rows job = find? (has_id job.id) rows ≡ some job

IsFirst-cons :
    (r : Outbound) (rows part : List Outbound)
    → any (λ m. m == r.id) (ids part) ≡ false
    → All (IsFirst rows) part
    → All (IsFirst (r ∷ rows)) part
IsFirst-cons r rows [] new h = tt
IsFirst-cons r rows (x ∷ part) new h =
    (ground (arith, h.0), IsFirst-cons r rows part (ground arith) h.1)

-- Where the keys differ, a lookup of each row's key finds the row.
pub All-IsFirst : (rows : List Outbound) → Distinct (ids rows) → All (IsFirst rows) rows
All-IsFirst [] d = tt
All-IsFirst (r ∷ rows) d = (ground arith, IsFirst-cons r rows rows d.0 (All-IsFirst rows d.1))
