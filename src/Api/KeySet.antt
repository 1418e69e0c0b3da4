-- ===== src/Api/KeySet.antt =====
-- src/api.rs: the handlers of `/domains` against a set of keys.
use mathlib.Core.Path.{fun_ext}
use zonemail.Prelude.{
  ℕ, ◌+◌, ◌≡◌, refl, sym, ap, ◌∙◌, inl, inr, ◌⊎◌, Text, text_eq, text_eq→≡, is_empty, trim, Bool,
  true, false, not, Option, none, some, List, [], ◌∷◌, ◌++◌, any, find?, filter, Bool-cases, arith,
  if◌then◌else◌,
}
use zonemail.Db.{World, Domain}
use zonemail.Db.Tables.{same_domain, get_domain_row}
use zonemail.Db.Integrity.{text_eq_comm}
use zonemail.Api.{Reply, Backend}
use zonemail.Api.Server.{code_of}
use zonemail.Api.Domains.{
  NewDomain, PatchDomain, domain_or_insert, create_domain_id, create_domain, get_domain,
  patch_domain, delete_domain,
}

pub data DomainRequest : Type 0 where
  post : Option NewDomain → DomainRequest
  get_at : Text → DomainRequest
  patch_at : Text → Option PatchDomain → DomainRequest
  delete_at : Text → DomainRequest

-- the abstract state: which keys there are
abbrev pub KeySet : Type 0
KeySet = Text → Bool

abbrev pub keys : World → KeySet
keys w id = any (λ d. text_eq d.id id) w.domains

abbrev pub with_key : Text → KeySet → KeySet
with_key id s t = if text_eq id t then true else s t

abbrev pub without_key : Text → KeySet → KeySet
without_key id s t = if text_eq id t then false else s t

-- what a request promises: the status, and the keys after it
abbrev post_spec : Bool → Text → KeySet → ℕ × KeySet
post_spec true id s = (400, s)
post_spec false id s = (200, with_key id s)

abbrev get_spec : Bool → KeySet → ℕ × KeySet
get_spec true s = (200, s)
get_spec false s = (404, s)

abbrev delete_spec : Bool → Text → KeySet → ℕ × KeySet
delete_spec true id s = (200, without_key id s)
delete_spec false id s = (404, s)

unfoldable pub domain_spec : DomainRequest → KeySet → ℕ × KeySet
domain_spec (DomainRequest.post none) s = (400, s)
domain_spec (DomainRequest.post (some new)) s = post_spec (is_empty (trim new.id)) (trim new.id) s
domain_spec (DomainRequest.get_at id) s = get_spec (s id) s
domain_spec (DomainRequest.patch_at id none) s = (400, s)
domain_spec (DomainRequest.patch_at id (some p)) s = get_spec (s id) s
domain_spec (DomainRequest.delete_at id) s = delete_spec (s id) id s

-- the statuses of a run of the specification
abbrev pub spec_codes : List DomainRequest → KeySet → List ℕ
spec_codes [] s = []
spec_codes (q ∷ qs) s = let (code, s') = domain_spec q s in code ∷ spec_codes qs s'

abbrev coded {ℓ} : {A : Type ℓ} → Reply A × World → ℕ × World
coded (r, w) = (code_of r, w)

found_or_not {ℓ} :
    {A : Type ℓ} (p : A → Bool) (xs : List A)
    → ((find? p xs ≡ none) × (any p xs ≡ false))
      ⊎ ((x : A) × (find? p xs ≡ some x) × (any p xs ≡ true))
found_or_not p [] = inl (refl, refl)
found_or_not p (x ∷ xs) = elim (Bool-cases (p x)) [
  | inl e ↦ inr (x, rw e refl, rw e refl)
  | inr e ↦ rw e (found_or_not p xs)
]

any_same :
    (id : Text) (xs : List Domain)
    → any (same_domain (record { id = id })) xs ≡ any (λ d. text_eq d.id id) xs
any_same id [] = refl
any_same id (x ∷ xs) = cc (text_eq_comm id x.id, any_same id xs)

keys_add :
    (id t : Text) (xs : List Domain)
    → any (λ d. text_eq d.id t) (xs ++ record { id = id } ∷ [])
      ≡ (if text_eq id t then true else any (λ d. text_eq d.id t) xs)
keys_add id t [] = ground arith
keys_add id t (x ∷ xs) = ground (arith, keys_add id t xs)

keys_drop :
    (id t : Text) (xs : List Domain)
    → any (λ d. text_eq d.id t) (filter (λ d. not (text_eq d.id id)) xs)
      ≡ (if text_eq id t then false else any (λ d. text_eq d.id t) xs)
keys_drop id t [] = ground arith
keys_drop id t (x ∷ xs) = elim (Bool-cases (text_eq x.id id)) [
  | inl e ↦ rw (e, text_eq→≡ x.id id e) (ground (arith, keys_drop id t xs))
  | inr e ↦ rw e (elim (Bool-cases (text_eq id t)) [
    | inl q ↦ ground (arith, keys_drop id t xs, e, q, ap (text_eq x.id) (text_eq→≡ id t q))
    | inr q ↦ ground (arith, keys_drop id t xs, q)
  ])
]

keys_have : (id : Text) (s : KeySet) → s id ≡ true → s ≡ with_key id s
keys_have id s h = fun_ext (λ t. elim (Bool-cases (text_eq id t)) [
  | inl e ↦ rw e (sym (ap s (text_eq→≡ id t e)) ∙ h)
  | inr e ↦ rw e refl
])

module _ (b : Backend) (working : (n : ℕ) → b.db_fault n ≡ none) where
  unfoldable pub answer_domain : DomainRequest → World → ℕ × World
  answer_domain (DomainRequest.post body) w = coded (create_domain b body w)
  answer_domain (DomainRequest.get_at id) w = coded (get_domain b id w)
  answer_domain (DomainRequest.patch_at id body) w = coded (patch_domain b id body w)
  answer_domain (DomainRequest.delete_at id) w = coded (delete_domain b id w)

  abbrev Meets : ℕ × World → ℕ × KeySet → Type 0
  Meets (code, w) (code', s) = (code ≡ code') × (keys w ≡ s)

  lookup-Meets :
      (id : Text) (w : World) → Meets (coded (get_domain b id w)) (get_spec (keys w id) (keys w))
  unfolding get_domain
  lookup-Meets id w = elim (found_or_not (λ d. text_eq d.id id) w.domains) [
    | inl (e, n) ↦ rw (working w.calls, e, n) (refl, refl)
    | inr (d, e, h) ↦ rw (working w.calls, e, h) (refl, refl)
  ]

  delete-Meets :
      (id : Text) (w : World)
      → Meets (coded (delete_domain b id w)) (delete_spec (keys w id) id (keys w))
  unfolding delete_domain
  delete-Meets id w = elim (found_or_not (λ d. text_eq d.id id) w.domains) [
    | inl (e, n) ↦ rw (working w.calls, e, n) (refl, refl)
    | inr (d, e, h) ↦
        rw (working w.calls, e, h)
          (rw (working (w.calls + 1)) (refl, fun_ext (λ t. keys_drop id t w.domains)))
  ]

  insert-Meets :
      (id : Text) (w : World)
      → Meets
          (coded (
            domain_or_insert b id
              (get_domain_row b.db_fault b.missing id w).0
              (get_domain_row b.db_fault b.missing id w).1))
          (200, with_key id (keys w))
  insert-Meets id w = elim (found_or_not (λ d. text_eq d.id id) w.domains) [
    | inl (e, n) ↦
        rw (working w.calls, e)
          (rw (working (w.calls + 1), any_same id w.domains, n)
            (refl, fun_ext (λ t. keys_add id t w.domains)))
    | inr (d, e, h) ↦ rw (working w.calls, e) (refl, keys_have id (keys w) h)
  ]

  post-Meets :
      (id : Text) (w : World)
      → Meets (coded (create_domain_id b id w)) (post_spec (is_empty id) id (keys w))
  post-Meets id w = elim (Bool-cases (is_empty id)) [
    | inl e ↦ rw e (refl, refl)
    | inr e ↦ rw e (insert-Meets id w)
  ]

  domain_spec-Meets :
      (q : DomainRequest) (w : World) → Meets (answer_domain q w) (domain_spec q (keys w))
  unfolding answer_domain domain_spec create_domain patch_domain get_domain
  domain_spec-Meets (DomainRequest.post none) w = (refl, refl)
  domain_spec-Meets (DomainRequest.post (some new)) w = post-Meets (trim new.id) w
  domain_spec-Meets (DomainRequest.get_at id) w = lookup-Meets id w
  domain_spec-Meets (DomainRequest.patch_at id none) w = (refl, refl)
  domain_spec-Meets (DomainRequest.patch_at id (some p)) w = lookup-Meets id w
  domain_spec-Meets (DomainRequest.delete_at id) w = delete-Meets id w

  -- the statuses of a run of the handlers
  abbrev pub answer_codes : List DomainRequest → World → List ℕ
  answer_codes [] w = []
  answer_codes (q ∷ qs) w = let (code, w') = answer_domain q w in code ∷ answer_codes qs w'

  -- While no statement fails, the handlers of `/domains` answer any sequence of requests with the
  -- statuses of a set of keys: a post adds the trimmed key and is answered 200 whether or not it
  -- was there, a get, patch or delete of a key that is not there is answered 404, and a delete
  -- takes out exactly its key.
  pub answer_codes-spec_codes :
      (qs : List DomainRequest) (w : World) → answer_codes qs w ≡ spec_codes qs (keys w)
  answer_codes-spec_codes [] w = refl
  answer_codes-spec_codes (q ∷ qs) w =
      let (code, after) = domain_spec-Meets q w in
      cc (code, after, answer_codes-spec_codes qs (answer_domain q w).1)
