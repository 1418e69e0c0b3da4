-- ===== src/Api/Page.antt =====
-- src/api.rs: `Page::from_all` and `page_params`.
use zonemail.Prelude.{
  ℕ, zero, suc, ◌+◌, ◌-◌, ◌^◌, ◌≤◌, ◌<◌, min, max, ◌≡◌, refl, sym, ap, ◌∙◌, ltb, Option, none, some,
  or_default, List, [], ◌∷◌, ◌++◌, length, Bool-cases, inl, inr, arith, if◌then◌else◌,
}

module _ {ℓ} {A : Type ℓ} where
  -- `skip` and `take` of an iterator
  abbrev pub drop : ℕ → List A → List A
  drop zero xs = xs
  drop (suc n) [] = []
  drop (suc n) (x ∷ xs) = drop n xs

  abbrev pub take : ℕ → List A → List A
  take zero xs = []
  take (suc n) [] = []
  take (suc n) (x ∷ xs) = x ∷ take n xs

-- `Page`
pub record Page {ℓ} (A : Type ℓ) : Type ℓ where
  pub items : List A
  pub limit : ℕ
  pub offset : ℕ
  pub next_offset : Option ℕ

abbrev pub default_page_limit : ℕ
default_page_limit = 50

abbrev pub max_page_limit : ℕ
max_page_limit = 200

-- `usize::saturating_add`
abbrev pub saturating_add : ℕ → ℕ → ℕ
saturating_add a b = min (a + b) (2 ^ 64 - 1)

-- `Page::from_all`
unfoldable pub from_all {ℓ} : {A : Type ℓ} → List A → ℕ → ℕ → Page A
from_all rows limit offset =
    let end = saturating_add offset limit in
    record {
      items = take limit (drop offset rows);
      limit = limit;
      offset = offset;
      next_offset = if ltb end (length rows) then some end else none;
    }

-- `page_params`, from the two parameters where they parse
unfoldable pub page_params : Option ℕ → Option ℕ → ℕ × ℕ
page_params limit offset = (
  min (max (or_default limit default_page_limit) 1) max_page_limit,
  min (or_default offset 0) (2 ^ 63 - 1),
)

-- A client that asks for the page at `offset`, and then for each next page while there is one: the
-- items that it has got when no page follows, or `none` if that takes more than `rounds` requests.
unfoldable pub walk {ℓ} : {A : Type ℓ} → ℕ → List A → ℕ → ℕ → Option (List A)
walk zero rows limit offset = none
walk (suc rounds) rows limit offset =
    let page = from_all rows limit offset in
    elim page.next_offset [
      | none ↦ some page.items
      | some next ↦ elim (walk rounds rows limit next) [
        | none ↦ none
        | some rest ↦ some (page.items ++ rest)
      ]
    ]

module _ {ℓ} {A : Type ℓ} where
  take-drop : (n : ℕ) (xs : List A) → take n xs ++ drop n xs ≡ xs
  take-drop zero xs = refl
  take-drop (suc n) [] = refl
  take-drop (suc n) (x ∷ xs) = ap (λ l. x ∷ l) (take-drop n xs)

  drop_add : (m n k : ℕ) (xs : List A) → k ≡ m + n → drop n (drop m xs) ≡ drop k xs
  drop_add zero n k xs e = let same : k ≡ n = omega (arith, e) in rw same refl
  drop_add (suc m) zero zero [] e = refl
  drop_add (suc m) (suc n) zero [] e = refl
  drop_add (suc m) zero (suc k) [] e = refl
  drop_add (suc m) (suc n) (suc k) [] e = refl
  drop_add (suc m) n zero (x ∷ xs) e = absurd (omega (arith, e))
  drop_add (suc m) n (suc k) (x ∷ xs) e = drop_add m n k xs (omega (arith, e))

  take_all : (n : ℕ) (xs : List A) → length xs ≤ n → take n xs ≡ xs
  take_all zero [] h = refl
  take_all zero (x ∷ xs) h = absurd (omega (arith, h))
  take_all (suc n) [] h = refl
  take_all (suc n) (x ∷ xs) h = ap (λ l. x ∷ l) (take_all n xs (omega (arith, h)))

  length-drop : (n : ℕ) (xs : List A) → length (drop n xs) ≡ length xs - n
  length-drop zero xs = omega arith
  length-drop (suc n) [] = omega arith
  length-drop (suc n) (x ∷ xs) = omega (arith, length-drop n xs)

  -- A client that follows the next offsets from one offset gets every row from there on, once and in
  -- order, in at most one request more than there are rows.
  walk-drop :
      (rounds : ℕ) (rows : List A) (limit offset : ℕ)
      → 1 ≤ limit
      → length rows < 2 ^ 64
      → length rows - offset < rounds
      → walk rounds rows limit offset ≡ some (drop offset rows)
  unfolding walk from_all
  walk-drop zero rows limit offset l b h = absurd (omega (arith, h))
  walk-drop (suc rounds) rows limit offset l b h =
      let end = saturating_add offset limit in
      elim (Bool-cases (ltb end (length rows))) [
        | inl e ↦
            let exact : end ≡ offset + limit = ground (arith, e, b) in
            let more : length rows - end < rounds = ground (arith, e, l, h, exact) in
            let tail = drop_add offset limit end rows exact in
            rw (e, walk)
              (rw (walk-drop rounds rows limit end l b more) (
                ap some (
                  ap (λ r. take limit (drop offset rows) ++ r) (sym tail)
                  ∙ take-drop limit (drop offset rows))))
        | inr e ↦
            let short : length (drop offset rows) ≤ limit =
              ground (arith, e, length-drop offset rows) in
            rw (e, walk) (ap some (take_all limit (drop offset rows) short))
      ]

  -- With the limit that `page_params` gives, whatever the query asks for, a client that starts at 0
  -- and follows the next offsets gets all rows, once and in order.
  pub walk-page_params :
      (rows : List A) (limit : Option ℕ)
      → length rows < 2 ^ 64
      → walk (suc (length rows)) rows (page_params limit none).0 0 ≡ some rows
  unfolding page_params
  walk-page_params rows limit b =
      walk-drop (suc (length rows)) rows _ 0 (omega arith) b (omega arith)
