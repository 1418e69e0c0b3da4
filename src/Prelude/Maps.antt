-- ===== src/Prelude/Maps.antt =====
-- `HashMap<String, V>` as the list of its entries, in any order, and the entries of a list.
use mathlib.Core.Path.{◌≡◌, refl, sym, subst}
use mathlib.Core.Logic.{◌≢◌, inl, inr}
use mathlib.Core.Bool.{Bool, true}
use mathlib.Core.List.{List, [], ◌∷◌, Memᴰ}
use mathlib.Core.Option.{Option, none, some}
use native.Mathlib.Omega.{arith}
use zonemail.Prelude.Tests.{if◌then◌else◌, Bool-cases, Option-cases}
use zonemail.Prelude.Lists.{All, any}
use zonemail.Prelude.Strings.{Text, text_eq, text_eq_refl, text_eq→≡}

abbrev pub Map {ℓ} : Type ℓ → Type ℓ
Map V = List (Text × V)

abbrev pub or_default {ℓ} : {A : Type ℓ} → Option A → A → A
or_default none d = d
or_default (some a) d = a

module _ {ℓ} {V : Type ℓ} where
  -- `get`
  abbrev pub get : Map V → Text → Option V
  get [] k = none
  get (e ∷ es) k = if text_eq e.0 k then some e.1 else get es k

  -- `entry(k).or_default()`, changed by `f`, where `d` is the default
  unfoldable pub update_entry : Text → V → (V → V) → Map V → Map V
  update_entry k d f [] = (k, f d) ∷ []
  update_entry k d f (e ∷ es) =
      let rest = update_entry k d f es in if text_eq e.0 k then (e.0, f e.1) ∷ es else e ∷ rest

  pub get-update_entry :
      (k : Text) (d : V) (f : V → V) (es : Map V)
      → get (update_entry k d f es) k ≡ some (f (or_default (get es k) d))
  unfolding update_entry
  get-update_entry k d f [] = ground (arith, text_eq_refl k)
  get-update_entry k d f (e ∷ es) = elim (Bool-cases (text_eq e.0 k)) [
    | inl p ↦ rw (p, p) refl
    | inr p ↦ rw (p, p) (get-update_entry k d f es)
  ]

  pub get-update_entry_other :
      (k j : Text) (d : V) (f : V → V) (es : Map V)
      → k ≢ j
      → get (update_entry k d f es) j ≡ get es j
  unfolding update_entry
  get-update_entry_other k j d f [] n = ground (arith, text_eq→≡ k j)
  get-update_entry_other k j d f (e ∷ es) n =
      ground (arith, text_eq→≡ e.0 k, text_eq→≡ e.0 j, get-update_entry_other k j d f es n)

  pub All-update_entry :
      (P : Text × V → Type 0) (k : Text) (d : V) (f : V → V) (es : Map V)
      → P (k, f d)
      → ((v : V) → P (k, v) → P (k, f v))
      → All P es
      → All P (update_entry k d f es)
  unfolding update_entry
  All-update_entry P k d f [] new step h = (new, tt)
  All-update_entry P k d f (e ∷ es) new step h = elim (Bool-cases (text_eq e.0 k)) [
    | inl p ↦ rw p (
      (let q = text_eq→≡ e.0 k p in
          subst (λ t. P (t, f e.1)) (sym q) (step e.1 (subst (λ t. P (t, e.1)) q h.0))),
      h.1,
    )
    | inr p ↦ rw p (h.0, All-update_entry P k d f es new step h.1)
  ]

  pub Memᴰ-get : (es : Map V) (k : Text) (v : V) → get es k ≡ some v → Memᴰ (k, v) es
  Memᴰ-get [] k v found = absurd (ground (arith, found))
  Memᴰ-get (e ∷ es) k v found = elim (Bool-cases (text_eq e.0 k)) [
    | inl p ↦ Memᴰ.head (ground (arith, text_eq→≡ e.0 k p))
    | inr p ↦ Memᴰ.tail (Memᴰ-get es k v (rw p at found))
  ]

module _ {ℓ} {A : Type ℓ} where
  pub All_at : (P : A → Type 0) {x : A} (xs : List A) → All P xs → Memᴰ x xs → P x
  All_at P [] h m = elim m [ ]
  All_at P (y ∷ ys) h (Memᴰ.head e) = subst P (sym e) h.0
  All_at P (y ∷ ys) h (Memᴰ.tail m) = All_at P ys h.1 m

  pub any-Memᴰ : (p : A → Bool) (xs : List A) → any p xs ≡ true → (x : A) × Memᴰ x xs × (p x ≡ true)
  any-Memᴰ p [] h = absurd (ground (arith, h))
  any-Memᴰ p (x ∷ xs) h = elim (Bool-cases (p x)) [
    | inl e ↦ (x, Memᴰ.head refl, e)
    | inr e ↦ let (y, m, q) = any-Memᴰ p xs (rw e at h) in (y, Memᴰ.tail m, q)
  ]

  pub any_of_Memᴰ : (p : A → Bool) {x : A} (xs : List A) → Memᴰ x xs → p x ≡ true → any p xs ≡ true
  any_of_Memᴰ p [] m h = elim m [ ]
  any_of_Memᴰ p (y ∷ ys) (Memᴰ.head e) h = ground (arith, e, h)
  any_of_Memᴰ p (y ∷ ys) (Memᴰ.tail m) h = ground (arith, any_of_Memᴰ p ys m h)

-- maps whose values are lists: what a key has, and how a change of one entry shows
module _ {ℓ} {A : Type ℓ} where
  abbrev pub values : Map (List A) → Text → List A
  values m k = or_default (get m k) []

  pub values-update_entry :
      (k : Text) (f : List A → List A) (m : Map (List A))
      → values (update_entry k [] f m) k ≡ f (values m k)
  values-update_entry k f m = rw (get-update_entry k [] f m) refl

  pub values-update_entry_keeps :
      (k r : Text) (f : List A → List A) (m : Map (List A)) {x : A}
      → (Memᴰ x (values m k) → Memᴰ x (f (values m k)))
      → Memᴰ x (values m r)
      → Memᴰ x (values (update_entry k [] f m) r)
  values-update_entry_keeps k r f m {x} keep h = elim (Bool-cases (text_eq k r)) [
    | inl e ↦
        let q = text_eq→≡ k r e in
        subst (λ t. Memᴰ x (values (update_entry k [] f m) t)) q
          (rw (values-update_entry k f m) (keep (subst (λ t. Memᴰ x (values m t)) (sym q) h)))
    | inr e ↦ rw (get-update_entry_other k r [] f m (λ q. ground (arith, e, q, text_eq_refl k))) h
  ]

  -- what a key has stands in an entry
  pub values-entry :
      (m : Map (List A)) (k : Text) {x : A}
      → Memᴰ x (values m k)
      → (l : List A) × Memᴰ (k, l) m × Memᴰ x l
  values-entry m k {x} h = elim (Option-cases (get m k)) [
    | inl e ↦ elim (rw e at h) [ ]
    | inr (l, e) ↦ (l, Memᴰ-get m k l e, rw e at h)
  ]

  pub All-values :
      (P : Text → A → Type 0) (m : Map (List A)) (k : Text)
      → All (λ e. All (P e.0) e.1) m
      → All (P k) (values m k)
  All-values P m k h = elim (Option-cases (get m k)) [
    | inl e ↦ rw e tt
    | inr (l, e) ↦ rw e (All_at (λ e. All (P e.0) e.1) m h (Memᴰ-get m k l e))
  ]
