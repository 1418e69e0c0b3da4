-- ===== src/Auth/Closure/Complete.antt =====
-- src/auth/policy.rs: the grants of the configuration, followed through the passes of
-- `AuthPolicy::build`.
use mathlib.Core.List.{Memᴰ}
use mathlib.Core.List.Memᴰ as Memᴰ
use mathlib.Core.Path.{subst}
use zonemail.Prelude.{
  ℕ, zero, suc, ◌+◌, ◌≤◌, ◌≡◌, refl, sym, ap, ◌∙◌, inl, inr, Text, Bool, false, some, List, [], ◌∷◌,
  ◌++◌, map, length, ◌==◌, Bool-cases, Option-cases, Map, update_entry, values, values-update_entry,
  values-update_entry_keeps, values-entry, to_ascii_lowercase, arith,
}
use zonemail.Config.{RoleConfig}
use zonemail.Auth.Policy.{
  Grant, parse_grant, insert_grant, insert_grants, insert_tokens, grants_of, merge, visit, pass,
  close, collect_direct, collect_extends,
}
use zonemail.Auth.Closure.{
  Gives, insert_grant_keeps, insert_grant_has, insert_grants_keeps, insert_grants_has, merge_full,
  merge_has,
}

insert_tokens_keeps :
    {x : Grant} (ts : List Text) (gs : List Grant) → Memᴰ x gs → Memᴰ x (insert_tokens ts gs)
insert_tokens_keeps [] gs h = h
insert_tokens_keeps (t ∷ ts) gs h = elim (Option-cases (parse_grant t)) [
  | inl e ↦ rw e (insert_tokens_keeps ts gs h)
  | inr (g, e) ↦ rw e (insert_tokens_keeps ts (insert_grant g gs) (insert_grant_keeps g gs h))
]

insert_tokens_has :
    {g : Grant} {t : Text} (ts : List Text) (gs : List Grant)
    → Memᴰ t ts
    → parse_grant t ≡ some g
    → Memᴰ g (insert_tokens ts gs)
insert_tokens_has [] gs i p = elim i [ ]
insert_tokens_has {g} {t} (u ∷ ts) gs (Memᴰ.head q) p =
    rw (subst (λ z. parse_grant z ≡ some g) q p)
      (insert_tokens_keeps ts (insert_grant g gs) (insert_grant_has g gs))
insert_tokens_has (u ∷ ts) gs (Memᴰ.tail i) p = elim (Option-cases (parse_grant u)) [
  | inl e ↦ rw e (insert_tokens_has ts gs i p)
  | inr (g, e) ↦ rw e (insert_tokens_has ts (insert_grant g gs) i p)
]

collect_direct_keeps :
    {x : Grant} (r : Text) (es : Map RoleConfig) (m : Map (List Grant))
    → Memᴰ x (grants_of m r)
    → Memᴰ x (grants_of (collect_direct es m) r)
collect_direct_keeps r [] m h = h
collect_direct_keeps r (e ∷ es) m h =
    let key = to_ascii_lowercase e.0 in
    collect_direct_keeps r es (update_entry key [] (insert_tokens e.1.grants) m) (
      values-update_entry_keeps key r (insert_tokens e.1.grants) m
        (insert_tokens_keeps e.1.grants (values m key)) h)

collect_direct_has :
    {name t : Text} {cfg : RoleConfig} {g : Grant} (es : Map RoleConfig) (m : Map (List Grant))
    → Memᴰ (name, cfg) es
    → Memᴰ t cfg.grants
    → parse_grant t ≡ some g
    → Memᴰ g (grants_of (collect_direct es m) (to_ascii_lowercase name))
collect_direct_has [] m i j p = elim i [ ]
collect_direct_has {name} {t} {cfg} {g} (e ∷ es) m (Memᴰ.head q) j p =
    let key = to_ascii_lowercase e.0 in
    let put = update_entry key [] (insert_tokens e.1.grants) m in
    let here : Memᴰ g (insert_tokens e.1.grants (values m key)) =
      insert_tokens_has e.1.grants (values m key) (subst (λ z. Memᴰ t z.1.grants) q j) p in
    let stored : Memᴰ g (values put key) =
      rw (values-update_entry key (insert_tokens e.1.grants) m) here in
    subst (λ z. Memᴰ g (grants_of (collect_direct es put) (to_ascii_lowercase z.0))) (sym q)
      (collect_direct_keeps key es put stored)
collect_direct_has (e ∷ es) m (Memᴰ.tail i) j p =
    collect_direct_has es (update_entry (to_ascii_lowercase e.0) [] (insert_tokens e.1.grants) m) i
      j p

collect_extends_keeps :
    {d : Text} (r : Text) (es : Map RoleConfig) (m : Map (List Text))
    → Memᴰ d (values m r)
    → Memᴰ d (values (collect_extends es m) r)
collect_extends_keeps r [] m h = h
collect_extends_keeps r (e ∷ es) m h =
    let key = to_ascii_lowercase e.0 in
    let push : List Text → List Text = λ l. l ++ map to_ascii_lowercase e.1.extends in
    collect_extends_keeps r es (update_entry key [] push m)
      (values-update_entry_keeps key r push m (Memᴰ.append_left _) h)

collect_extends_has :
    {name d : Text} {cfg : RoleConfig} (es : Map RoleConfig) (m : Map (List Text))
    → Memᴰ (name, cfg) es
    → Memᴰ d cfg.extends
    → Memᴰ (to_ascii_lowercase d) (values (collect_extends es m) (to_ascii_lowercase name))
collect_extends_has [] m i j = elim i [ ]
collect_extends_has {name} {d} {cfg} (e ∷ es) m (Memᴰ.head q) j =
    let key = to_ascii_lowercase e.0 in
    let push : List Text → List Text = λ l. l ++ map to_ascii_lowercase e.1.extends in
    let put = update_entry key [] push m in
    let low = to_ascii_lowercase d in
    let here : Memᴰ low (push (values m key)) =
      Memᴰ.append_right (values m key)
        (Memᴰ.map to_ascii_lowercase (subst (λ z. Memᴰ d z.1.extends) q j)) in
    let stored : Memᴰ low (values put key) = rw (values-update_entry key push m) here in
    subst (λ z. Memᴰ low (values (collect_extends es put) (to_ascii_lowercase z.0))) (sym q)
      (collect_extends_keeps key es put stored)
collect_extends_has (e ∷ es) m (Memᴰ.tail i) j = collect_extends_has es _ i j

module _ (snapshot : Map (List Grant)) where
  visit_keeps :
      {g : Grant} (r : Text) (role : Text) (deps : List Text) (state : Map (List Grant) × Bool)
      → Memᴰ g (grants_of state.0 r)
      → Memᴰ g (grants_of (visit snapshot role deps state).0 r)
  visit_keeps r role deps state h =
      let had = grants_of snapshot role in
      let merged = merge snapshot deps had in
      elim (Bool-cases (length merged == length had)) [
        | inl e ↦ rw e h
        | inr e ↦ rw e (
            values-update_entry_keeps role r (insert_grants merged) state.0
              (insert_grants_keeps merged (values state.0 role)) h)
      ]

  visit_has :
      {g : Grant} {d : Text} (role : Text) (deps : List Text) (state : Map (List Grant) × Bool)
      → ((x : Grant) → Memᴰ x (grants_of snapshot role) → Memᴰ x (grants_of state.0 role))
      → Memᴰ d deps
      → Memᴰ g (grants_of snapshot d)
      → Memᴰ g (grants_of (visit snapshot role deps state).0 role)
  visit_has {g} {d} role deps state above i h =
      let had = grants_of snapshot role in
      let merged = merge snapshot deps had in
      let got : Memᴰ g merged = merge_has snapshot deps had i h in
      elim (Bool-cases (length merged == length had)) [
        | inl e ↦
            let same = merge_full snapshot deps had (ground (arith, e)) in
            rw e (above g (subst (λ l. Memᴰ g l) same got))
        | inr e ↦ rw e (
            rw (values-update_entry role (insert_grants merged) state.0)
              (insert_grants_has merged (values state.0 role) got))
      ]

  pass_keeps :
      {g : Grant} (r : Text) (es : Map (List Text)) (state : Map (List Grant) × Bool)
      → Memᴰ g (grants_of state.0 r)
      → Memᴰ g (grants_of (pass snapshot es state).0 r)
  pass_keeps r [] state h = h
  pass_keeps r (e ∷ es) state h =
      pass_keeps r es (visit snapshot e.0 e.1 state) (visit_keeps r e.0 e.1 state h)

  pass_has :
      {g : Grant} {r d : Text} {deps : List Text} (es : Map (List Text))
      (state : Map (List Grant) × Bool)
      → ((x : Grant) (r : Text) → Memᴰ x (grants_of snapshot r) → Memᴰ x (grants_of state.0 r))
      → Memᴰ (r, deps) es
      → Memᴰ d deps
      → Memᴰ g (grants_of snapshot d)
      → Memᴰ g (grants_of (pass snapshot es state).0 r)
  pass_has [] state above i j h = elim i [ ]
  pass_has {g} {r} {d} {deps} (e ∷ es) state above (Memᴰ.head q) j h =
      let here = visit_has e.0 e.1 state (λ x. above x e.0) (subst (λ z. Memᴰ d z.1) q j) h in
      pass_keeps r es (visit snapshot e.0 e.1 state)
        (subst (λ z. Memᴰ g (grants_of (visit snapshot e.0 e.1 state).0 z.0)) (sym q) here)
  pass_has (e ∷ es) state above (Memᴰ.tail i) j h =
      pass_has es (visit snapshot e.0 e.1 state)
        (λ x r k. visit_keeps r e.0 e.1 state (above x r k)) i j h

  -- a pass that reports no change has made none
  visit_marks :
      (role : Text) (deps : List Text) (state : Map (List Grant) × Bool)
      → (visit snapshot role deps state).1 ≡ false
      → visit snapshot role deps state ≡ state
  visit_marks role deps state =
      elim (Bool-cases (
        length (merge snapshot deps (grants_of snapshot role))
        == length (grants_of snapshot role))) [
          | inl e ↦ rw e (λ h. refl)
          | inr e ↦ rw e (λ h. absurd (ground (arith, h)))
        ]

  pass_unchanged :
      (es : Map (List Text)) (state : Map (List Grant) × Bool)
      → (pass snapshot es state).1 ≡ false
      → pass snapshot es state ≡ state
  pass_unchanged [] state h = refl
  pass_unchanged (e ∷ es) state h =
      let later = pass_unchanged es (visit snapshot e.0 e.1 state) h in
      later ∙ visit_marks e.0 e.1 state (ap (λ s. s.1) (sym later) ∙ h)

module _ (roles : Map RoleConfig) where
  -- every grant given by at most `n` steps is there
  abbrev IsComplete : ℕ → Map (List Grant) → Type 0
  IsComplete n m =
      (k : ℕ) (r : Text) (g : Grant) → k ≤ n → Gives roles k r g → Memᴰ g (grants_of m r)

  abbrev extends : Map (List Text)
  extends = collect_extends roles []

  start-IsComplete : IsComplete 0 (collect_direct roles [])
  start-IsComplete k r g h (Gives.direct i q j p) = rw q (collect_direct_has roles [] i j p)
  start-IsComplete (suc k) r g h (Gives.inherited i q j d) = absurd (omega arith)

  step :
      {n : ℕ} (m next : Map (List Grant))
      → ((r : Text) (g : Grant) → Memᴰ g (grants_of m r) → Memᴰ g (grants_of next r))
      → ((r d : Text) (deps : List Text) (g : Grant)
          → Memᴰ (r, deps) extends
          → Memᴰ d deps
          → Memᴰ g (grants_of m d)
          → Memᴰ g (grants_of next r))
      → IsComplete n m
      → IsComplete (suc n) next
  step m next keep pull c k r g h (Gives.direct i q j p) =
      keep r g (c 0 r g (omega arith) (Gives.direct i q j p))
  step m next keep pull c (suc k) r g h (Gives.inherited {dep = dep} i q j d) =
      let below = c k (to_ascii_lowercase dep) g (omega arith) d in
      let (deps, e, l) = values-entry extends _ (collect_extends_has roles [] i j) in
      rw q (pull _ _ deps g e l below)

  pass-IsComplete :
      {n : ℕ} (m : Map (List Grant))
      → IsComplete n m
      → IsComplete (suc n) (pass m extends (m, false)).0
  pass-IsComplete m c =
      step m (pass m extends (m, false)).0 (λ r g h. pass_keeps m r extends (m, false) h)
        (λ r d deps g e l h. pass_has m extends (m, false) (λ x r k. k) e l h) c

  -- A table that a pass does not change has every grant, however many steps give it.
  closed-IsComplete :
      (m : Map (List Grant))
      → pass m extends (m, false) ≡ (m, false)
      → IsComplete 0 m
      → (n : ℕ) → IsComplete n m
  closed-IsComplete m same c zero = c
  closed-IsComplete m same c (suc n) =
      subst (λ s. IsComplete (suc n) s.0) same
        (pass-IsComplete {n = n} m (closed-IsComplete m same c n))

  close-IsComplete :
      (guard n : ℕ) (m : Map (List Grant))
      → IsComplete n m
      → IsComplete (guard + n) (close guard extends m)
  unfolding close
  close-IsComplete zero n m c = λ k r g h. c k r g (omega (arith, h))
  close-IsComplete (suc guard) n m c = elim (Bool-cases (pass m extends (m, false)).1) [
    | inl e ↦
        rw (e, close)
          (λ k r g h.
            close-IsComplete guard (suc n) (pass m extends (m, false)).0 (pass-IsComplete m c) k r g
              (omega (arith, h)))
    | inr e ↦
        let same = pass_unchanged m extends (m, false) e in
        rw (e, close)
          (rw same
            (closed-IsComplete m same (λ k r g h. c k r g (omega (arith, h))) (suc guard + n)))
  ]

  pub grants-IsComplete :
      (guard k : ℕ) (role : Text) (g : Grant)
      → k ≤ guard
      → Gives roles k role g
      → Memᴰ g (grants_of (close guard extends (collect_direct roles [])) role)
  grants-IsComplete guard k role g h d =
      close-IsComplete guard 0 (collect_direct roles []) start-IsComplete k role g
        (omega (arith, h)) d
