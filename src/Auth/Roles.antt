-- ===== src/Auth/Roles.antt =====
-- src/auth/mod.rs: which roles `VerifiedClaims::extract` collects.
use mathlib.Core.List.{Memᴰ}
use mathlib.Core.Path.{subst}
use zonemail.Prelude.{
  ◌≡◌, ◌↔◌, ◌⊎◌, refl, sym, ap, ◌∙◌, inl, inr, Text, text_eq, text_eq→≡, Option, none, some, List,
  [], ◌∷◌, Bool-cases, arith,
}
use zonemail.Auth.Service.{
  JsonOps, text_ltb, insert_text, walk, insert_str, insert_items, insert_array, insert_value,
  collect_roles, collect_fields, extract,
}

insert_text_cases :
    (r t : Text) (us : List Text) → Memᴰ r (insert_text t us) ↔ ((r ≡ t) ⊎ Memᴰ r us)
unfolding insert_text
insert_text_cases r t us = (into us, back us)
  where
    into : (us : List Text) → Memᴰ r (insert_text t us) → (r ≡ t) ⊎ Memᴰ r us
    into [] (Memᴰ.head e) = inl e
    into [] (Memᴰ.tail i) = elim i [ ]
    into (u ∷ us) m = elim (Bool-cases (text_eq t u)) [
      | inl e ↦ inr (rw e at m)
      | inr e ↦ elim (Bool-cases (text_ltb t u)) [
        | inl l ↦ elim (rw (e, l) at m) [ Memᴰ.head q ↦ inl q | Memᴰ.tail i ↦ inr i ]
        | inr l ↦ elim (rw (e, l) at m) [
          | Memᴰ.head q ↦ inr (Memᴰ.head q)
          | Memᴰ.tail i ↦ elim (into us i) [ inl q ↦ inl q | inr j ↦ inr (Memᴰ.tail j) ]
        ]
      ]
    ]

    back : (us : List Text) → (r ≡ t) ⊎ Memᴰ r us → Memᴰ r (insert_text t us)
    back [] (inl q) = Memᴰ.head q
    back [] (inr i) = elim i [ ]
    back (u ∷ us) h = elim (Bool-cases (text_eq t u)) [
      | inl e ↦ rw e (elim h [ inl q ↦ Memᴰ.head (ground (arith, q, text_eq→≡ t u e)) | inr i ↦ i ])
      | inr e ↦ elim (Bool-cases (text_ltb t u)) [
        | inl l ↦ rw (e, l) (elim h [ inl q ↦ Memᴰ.head q | inr i ↦ Memᴰ.tail i ])
        | inr l ↦
            rw (e, l)
              (elim h [
                | inl q ↦ Memᴰ.tail (back us (inl q))
                | inr i ↦ elim i [
                  | Memᴰ.head q ↦ Memᴰ.head q
                  | Memᴰ.tail j ↦ Memᴰ.tail (back us (inr j))
                ]
              ])
      ]
    ]

some_inj : {A : Type 0} {a b : A} → some a ≡ some b → a ≡ b
some_inj e = cc e

module _ {Json : Type 0} (json : JsonOps Json) (r : Text) where
  -- the value is the role, or an array that has it
  abbrev pub IsRole : Json → Type 0
  IsRole v =
      (json.as_str v ≡ some r)
      ⊎ ((items : List Json) × (json.as_array v ≡ some items)
          × (item : Json) × Memᴰ item items
          × (json.as_str item ≡ some r))

  insert_str_cases :
      (o : Option Text) (out : List Text)
      → Memᴰ r (insert_str json o out) ↔ ((o ≡ some r) ⊎ Memᴰ r out)
  insert_str_cases none out = (inr, λ h. elim h [ inl e ↦ ground (arith, e) | inr i ↦ i ])
  insert_str_cases (some t) out = (
    λ m. elim ((insert_text_cases r t out).0 m) [ inl e ↦ inl (ap some (sym e)) | inr i ↦ inr i ],
    λ h. (insert_text_cases r t out).1 (elim h [ inl e ↦ inl (ground (arith, e)) | inr i ↦ inr i ]),
  )

  insert_items_cases :
      (items : List Json) (out : List Text)
      → Memᴰ r (insert_items json items out)
        ↔ (((item : Json) × Memᴰ item items × (json.as_str item ≡ some r)) ⊎ Memᴰ r out)
  insert_items_cases [] out = (inr, λ h. elim h [ inl (v, i, e) ↦ elim i [ ] | inr i ↦ i ])
  insert_items_cases (v ∷ vs) out =
      let later = insert_items_cases vs (insert_str json (json.as_str v) out) in
      let here = insert_str_cases (json.as_str v) out in
      (
        λ m. elim (later.0 m) [
          | inl (u, i, e) ↦ inl (u, Memᴰ.tail i, e)
          | inr k ↦ elim (here.0 k) [ inl e ↦ inl (v, Memᴰ.head refl, e) | inr k ↦ inr k ]
        ],
        λ h. later.1 (elim h [
          | inl (u, i, e) ↦ elim i [
            | Memᴰ.head q ↦ inr (here.1 (inl (ap json.as_str (sym q) ∙ e)))
            | Memᴰ.tail j ↦ inl (u, j, e)
          ]
          | inr k ↦ inr (here.1 (inr k))
        ]),
      )

  insert_array_cases :
      (o : Option (List Json)) (out : List Text)
      → Memᴰ r (insert_array json o out) ↔ (
          ((items : List Json) × (o ≡ some items)
            × (item : Json) × Memᴰ item items
            × (json.as_str item ≡ some r))
          ⊎ Memᴰ r out)
  insert_array_cases none out =
      (inr, λ h. elim h [ inl (items, e, v, i, s) ↦ ground (arith, e) | inr i ↦ i ])
  insert_array_cases (some items) out = (
    λ m. elim ((insert_items_cases items out).0 m) [
      | inl (u, i, e) ↦ inl (items, refl, u, i, e)
      | inr i ↦ inr i
    ],
    λ h. (insert_items_cases items out).1 (elim h [
      | inl (l, e, v, i, s) ↦ inl (v, subst (λ z. Memᴰ v z) (sym (some_inj e)) i, s)
      | inr i ↦ inr i
    ]),
  )

  insert_value_cases :
      (o : Option Json) (out : List Text)
      → Memᴰ r (insert_value json o out) ↔ (((v : Json) × (o ≡ some v) × IsRole v) ⊎ Memᴰ r out)
  insert_value_cases none out =
      (inr, λ h. elim h [ inl (v, e, rest) ↦ ground (arith, e) | inr i ↦ i ])
  insert_value_cases (some v) out =
      let array = insert_array_cases (json.as_array v) (insert_str json (json.as_str v) out) in
      let one = insert_str_cases (json.as_str v) out in
      (
        λ m. elim (array.0 m) [
          | inl k ↦ inl (v, refl, inr k)
          | inr k ↦ elim (one.0 k) [ inl e ↦ inl (v, refl, inl e) | inr k ↦ inr k ]
        ],
        λ h. array.1 (elim h [
          | inl (u, e, k) ↦ elim (subst IsRole (sym (some_inj e)) k) [
            | inl s ↦ inr (one.1 (inl s))
            | inr a ↦ inl a
          ]
          | inr k ↦ inr (one.1 (inr k))
        ]),
      )

  collect_fields_cases :
      (raw : Json) (fields out : List Text)
      → Memᴰ r (collect_fields json raw fields out) ↔ (
          ((field : Text) × Memᴰ field fields
            × (v : Json) × (walk json raw field ≡ some v)
            × IsRole v)
          ⊎ Memᴰ r out)
  collect_fields_cases raw [] out =
      (inr, λ h. elim h [ inl (f, i, v, e, s) ↦ elim i [ ] | inr i ↦ i ])
  collect_fields_cases raw (field ∷ fields) out =
      let later = collect_fields_cases raw fields (collect_roles json raw field out) in
      let here = insert_value_cases (walk json raw field) out in
      (
        λ m. elim (later.0 m) [
          | inl (f, i, v, e, s) ↦ inl (f, Memᴰ.tail i, v, e, s)
          | inr k ↦ elim (here.0 k) [
            | inl (v, e, s) ↦ inl (field, Memᴰ.head refl, v, e, s)
            | inr k ↦ inr k
          ]
        ],
        λ h. later.1 (elim h [
          | inl (f, i, v, e, k) ↦ elim i [
            | Memᴰ.head q ↦ inr (here.1 (inl (v, ap (walk json raw) (sym q) ∙ e, k)))
            | Memᴰ.tail j ↦ inl (f, j, v, e, k)
          ]
          | inr k ↦ inr (here.1 (inr k))
        ]),
      )

  -- The extracted roles are exactly the texts that one of the configured claims has as its value or
  -- in its array.
  pub extract_roles :
      (raw : Json) (subject_claim : Text) (role_claims : List Text)
      → Memᴰ r (extract json raw subject_claim role_claims).roles ↔ (
          (field : Text) × Memᴰ field role_claims
          × (v : Json) × (walk json raw field ≡ some v)
          × IsRole v)
  extract_roles raw subject_claim role_claims =
      let (there, back) = collect_fields_cases raw role_claims [] in
      (λ m. elim (there m) [ inl k ↦ k | inr i ↦ elim i [ ] ], λ k. back (inl k))
