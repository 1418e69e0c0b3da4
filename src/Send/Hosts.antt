-- ===== src/Send/Hosts.antt =====
-- src/send.rs: the order in which a job's MX hosts are tried.
use zonemail.Prelude.{
  ℕ, ◌+◌, ◌≤◌, ◌==◌, leb, ◌≡◌, refl, sym, ap, List, [], ◌∷◌, All, filter, map, not, Text, is_empty,
  trim_end_matches, some, Result, ok, err, ok-injective, Bool-cases, Result-cases, inl, inr, ◌∙◌,
  arith,
}
use mathlib.Core.List.{Perm}
use mathlib.Core.List.Perm
use zonemail.Db.{World}
use zonemail.Db.Action.{follow, pure}
use zonemail.Send.{Mx, Outside}
use zonemail.Send.Delivery.{insert_mx, sort_mx, mx_hosts, recipient_domain, lookup_mx_hosts}

abbrev pub IsSorted : List Mx → Type 0
IsSorted [] = Unit
IsSorted (x ∷ xs) = All (λ y. x.preference ≤ y.preference) xs × IsSorted xs

-- the records of one preference, in their order
abbrev pub at_preference : ℕ → List Mx → List Mx
at_preference p = filter (λ mx. mx.preference == p)

All-insert_mx :
    (p : ℕ) (x : Mx) (xs : List Mx)
    → p ≤ x.preference
    → All (λ y. p ≤ y.preference) xs
    → All (λ y. p ≤ y.preference) (insert_mx x xs)
unfolding insert_mx
All-insert_mx p x [] h all = ground arith
All-insert_mx p x (y ∷ ys) h all = ground (arith, All-insert_mx p x ys h all.1)

All-trans :
    (p q : ℕ) (xs : List Mx)
    → p ≤ q
    → All (λ y. q ≤ y.preference) xs
    → All (λ y. p ≤ y.preference) xs
All-trans p q [] h all = tt
All-trans p q (x ∷ xs) h all = (omega arith, All-trans p q xs h all.1)

insert_mx-IsSorted : (x : Mx) (xs : List Mx) → IsSorted xs → IsSorted (insert_mx x xs)
unfolding insert_mx
insert_mx-IsSorted x [] s = (tt, tt)
insert_mx-IsSorted x (y ∷ ys) s = elim (Bool-cases (leb x.preference y.preference)) [
  | inl first ↦
      rw first ((ground arith, All-trans x.preference y.preference ys (ground arith) s.0), s)
  | inr later ↦
      rw later (All-insert_mx y.preference x ys (ground arith) s.0, insert_mx-IsSorted x ys s.1)
]

insert_mx-perm : (x : Mx) (xs : List Mx) → Perm (insert_mx x xs) (x ∷ xs)
unfolding insert_mx
insert_mx-perm x [] = Perm.refl (x ∷ [])
insert_mx-perm x (y ∷ ys) = elim (Bool-cases (leb x.preference y.preference)) [
  | inl first ↦ rw first (Perm.refl (x ∷ y ∷ ys))
  | inr later ↦ rw later (Perm.trans (Perm.cons y (insert_mx-perm x ys)) (Perm.swap x y ys))
]

insert_mx-at_preference :
    (p : ℕ) (x : Mx) (xs : List Mx)
    → IsSorted xs
    → at_preference p (insert_mx x xs) ≡ at_preference p (x ∷ xs)
unfolding insert_mx
insert_mx-at_preference p x [] s = refl
insert_mx-at_preference p x (y ∷ ys) s = ground (arith, insert_mx-at_preference p x ys s.1)

sort_mx-IsSorted : (xs : List Mx) → IsSorted (sort_mx xs)
unfolding sort_mx
sort_mx-IsSorted [] = tt
sort_mx-IsSorted (x ∷ xs) = insert_mx-IsSorted x (sort_mx xs) (sort_mx-IsSorted xs)

sort_mx-perm : (xs : List Mx) → Perm (sort_mx xs) xs
unfolding sort_mx
sort_mx-perm [] = Perm.refl []
sort_mx-perm (x ∷ xs) = Perm.trans (insert_mx-perm x (sort_mx xs)) (Perm.cons x (sort_mx-perm xs))

sort_mx-at_preference : (p : ℕ) (xs : List Mx) → at_preference p (sort_mx xs) ≡ at_preference p xs
unfolding sort_mx
sort_mx-at_preference p [] = refl
sort_mx-at_preference p (x ∷ xs) =
    insert_mx-at_preference p x (sort_mx xs) (sort_mx-IsSorted xs)
    ∙ ground (arith, sort_mx-at_preference p xs)

-- the host of an MX record, without the dots at its end
abbrev pub host_of : Mx → Text
host_of mx = trim_end_matches (λ c. c == b'.') mx.exchange

-- the hosts of the records, in order, less the empty ones
abbrev pub named_hosts : List Mx → List Text
named_hosts xs = filter (λ host. not (is_empty host)) (map host_of xs)

mx_hosts-named_hosts : (xs : List Mx) → mx_hosts xs ≡ named_hosts xs
unfolding mx_hosts
mx_hosts-named_hosts [] = refl
mx_hosts-named_hosts (x ∷ xs) = elim (Bool-cases (is_empty (host_of x))) [
  | inl e ↦ rw e (mx_hosts-named_hosts xs)
  | inr e ↦ rw e (ap (λ l. host_of x ∷ l) (mx_hosts-named_hosts xs))
]

-- The records of the resolver's answer, sorted: `hosts` are those of a list that has the same
-- records in the order of their preferences, those of one preference in the resolver's order.
abbrev pub IsRanked : List Mx → List Text → Type 0
IsRanked response hosts =
    (ranked : List Mx) × IsSorted ranked
    × Perm ranked response
    × ((p : ℕ) → at_preference p ranked ≡ at_preference p response)
    × (hosts ≡ named_hosts ranked)

module _ (o : Outside) where
  from_answer :
      (answer : Result (List Mx)) (w : World) (hosts : List Text)
      → (follow answer (λ response. pure (mx_hosts (sort_mx response))) w).0 ≡ ok hosts
      → (response : List Mx) × (answer ≡ ok response) × IsRanked response hosts
  from_answer (err e) w hosts h = cc h
  from_answer (ok response) w hosts h = (
    response,
    refl,
    (
      sort_mx response,
      sort_mx-IsSorted response,
      sort_mx-perm response,
      λ p. sort_mx-at_preference p response,
      sym (ok-injective h) ∙ mx_hosts-named_hosts (sort_mx response),
    ),
  )

  -- The hosts that a lookup returns are those of the resolver's answer for the recipient's domain, in
  -- the order of the records' preferences, ties in the resolver's order, without their final dots
  -- and less those that are empty.
  pub lookup_mx_hosts-IsRanked :
      (recipient domain : Text) (w : World) (hosts : List Text)
      → recipient_domain recipient ≡ some domain
      → (lookup_mx_hosts o recipient w).0 ≡ ok hosts
      → (response : List Mx) × (o.mx_lookup (w.calls + 1) domain ≡ ok response)
        × IsRanked response hosts
  unfolding lookup_mx_hosts
  lookup_mx_hosts-IsRanked recipient domain w hosts d h =
      elim (Result-cases (o.system_conf w.calls)) [
        | inr (e, broken) ↦ absurd (ground (arith, d, broken, h))
        | inl (t, fine) ↦ elim (Result-cases (o.mx_lookup (w.calls + 1) domain)) [
          | inr (e, broken) ↦ absurd (ground (arith, d, fine, broken, h))
          | inl (response, answered) ↦
              rw answered (from_answer (ok response) w hosts (rw (d, fine, answered) at h))
        ]
      ]
