-- ===== src/Api/Addresses.antt =====
-- src/api.rs: the mailbox that `create_mailbox` builds from its body.
use mathlib.Core.Path.{subst}
use zonemail.Prelude.{
  append_nil, ℕ, ◌==◌, ◌≡◌, refl, ap, ◌∙◌, sym, inl, inr, Text, text_eq, text_eq→≡, is_empty, trim,
  split, cons_head, List, [], ◌∷◌, ◌++◌, any, Bool, true, false, Option, none, some, Bool-cases,
  Option-cases, arith,
}
use zonemail.Db.{World, Mailbox}
use zonemail.Api.{failed≢done, done-injective, Reply, done, failed, Backend, go_on, respond, ◌>>=◌}
use zonemail.Api.Mailboxes.{
  NewMailbox, domain_part, try_from, with_domain, mailbox_of, build_mailbox,
}

-- the at sign in a text
abbrev pub has_at : Text → Bool
has_at = any (λ c. c == b'@')

-- the end of a text, or an at sign
abbrev pub ends_part : Text → Bool
ends_part [] = true
ends_part (c ∷ cs) = c == b'@'

-- `domain` stands in `id` between the first at sign and the next, or the end
pub record IsDomain (id domain : Text) : Type 0 where
  pub user : Text
  pub rest : Text
  pub whole : id ≡ user ++ b'@' ∷ (domain ++ rest)
  pub user_plain : has_at user ≡ false
  pub domain_plain : has_at domain ≡ false
  pub end : ends_part rest ≡ true

-- a mailbox of this address, in the domain that the address names
pub record IsAddressed (id : Text) (m : Mailbox) : Type 0 where
  pub address : m.id ≡ id
  pub domain : IsDomain id m.domain_id
  pub named : is_empty m.domain_id ≡ false

-- a text and its parts between the at signs
data Parts : Text → List Text → Type 0 where
  last : {t : Text} → has_at t ≡ false → Parts t (t ∷ [])
  more :
      {t rest : Text} {parts : List Text}
      → has_at t ≡ false
      → Parts rest parts
      → Parts (t ++ b'@' ∷ rest) (t ∷ parts)

Parts-cons_head :
    (c : ℕ) {cs : Text} {parts : List Text}
    → (c == b'@') ≡ false
    → Parts cs parts
    → Parts (c ∷ cs) (cons_head c parts)
Parts-cons_head c e (last h) = last (ground (arith, e, h))
Parts-cons_head c e (more {t = t} h p) = more {t = c ∷ t} (ground (arith, e, h)) p

split-Parts : (id : Text) → Parts id (split (λ c. c == b'@') id)
split-Parts [] = last refl
split-Parts (c ∷ cs) = elim (Bool-cases (c == b'@')) [
  | inl e ↦
      let at : c ≡ b'@' = ground (arith, e) in rw (e, at) (more {t = []} refl (split-Parts cs))
  | inr e ↦ rw e (Parts-cons_head c e (split-Parts cs))
]

abbrev second : List Text → Option Text
second parts = elim parts [
  | [] ↦ none
  | ◌∷◌ user rest ↦ elim rest [ [] ↦ none | ◌∷◌ domain others ↦ some domain ]
]

Parts-IsDomain :
    {id : Text} {parts : List Text} (d : Text)
    → Parts id parts
    → second parts ≡ some d
    → IsDomain id d
Parts-IsDomain d (last h) e = absurd (cc e)
Parts-IsDomain d (more {t = t} h (last {t = u} h')) e =
    let same : u ≡ d = cc e in
    rw (sym same) (record {
      user = t;
      rest = [];
      whole = ap (λ l. t ++ b'@' ∷ l) (sym (append_nil u));
      user_plain = h;
      domain_plain = h';
      end = refl;
    })
Parts-IsDomain d (more {t = t} h (more {t = u} {rest = rest} h' p)) e =
    let same : u ≡ d = cc e in
    rw (sym same) (record {
      user = t;
      rest = b'@' ∷ rest;
      whole = refl;
      user_plain = h;
      domain_plain = h';
      end = refl;
    })

domain_part-IsDomain : (id d : Text) → domain_part id ≡ some d → IsDomain id d
domain_part-IsDomain id d e = Parts-IsDomain d (split-Parts id) e

try_from-IsAddressed : (id : Text) (m : Mailbox) → try_from id ≡ some m → IsAddressed id m
unfolding try_from
try_from-IsAddressed id m h = elim (Option-cases (domain_part id)) [
  | inl e ↦ absurd (cc (e, h))
  | inr (d, e) ↦ elim (Bool-cases (is_empty d)) [
    | inl t ↦ absurd (cc (e, t, h))
    | inr f ↦
        let same : record { id = id; domain_id = d; forward_to = none } ≡ m = cc (e, f, h) in
        record {
          address = sym (ap (λ x. x.id) same);
          domain = domain_part-IsDomain id m.domain_id (e ∙ ap (λ x. some x.domain_id) same);
          named = sym (ap (λ x. is_empty x.domain_id) same) ∙ f;
        }
  ]
]

module _ (b : Backend) where
  -- the check of an explicit domain changes nothing
  with_domain_same :
      (d : Option Text) (m m' : Mailbox) (w : World) → (with_domain b d m w).0 ≡ done m' → m ≡ m'
  with_domain_same none m m' w h = done-injective h
  with_domain_same (some d) m m' w h =
      elim (Bool-cases (text_eq (b.to_lowercase (trim d)) m.domain_id)) [
        | inl e ↦
            let own = text_eq→≡ (b.to_lowercase (trim d)) m.domain_id e in
            let kept : record m { domain_id = b.to_lowercase (trim d) } ≡ m' =
              done-injective (rw e at h) in
            ap (λ t. record m { domain_id = t }) (sym own) ∙ kept
        | inr e ↦ absurd (failed≢done (rw e at h))
      ]

  -- what goes on to a reply came from a step that went on
  went_on :
      (r : Reply Mailbox) (f : Mailbox → Mailbox) (w : World) (x : Mailbox)
      → (go_on r (λ m. respond (f m)) w).0 ≡ done x
      → (m : Mailbox) × (r ≡ done m) × (f m ≡ x)
  went_on (done m) f w x h = (m, refl, done-injective h)
  went_on (failed code problem) f w x h = absurd (failed≢done h)

  built_from :
      (body : NewMailbox) (found : Option Mailbox) (w : World) (x : Mailbox)
      → ((mailbox_of b found >>= λ m. with_domain b body.domain_id m >>= λ m'.
            respond (record m' { forward_to = body.forward_to }))
          w).0
        ≡ done x
      → (m : Mailbox) × (found ≡ some m) × (record m { forward_to = body.forward_to } ≡ x)
  built_from body none w x h = absurd (failed≢done h)
  built_from body (some m) w x h =
      let targeted : Mailbox → Mailbox = λ v. record v { forward_to = body.forward_to } in
      let (m', given, same) =
        went_on (with_domain b body.domain_id m w).0 targeted (with_domain b body.domain_id m w).1 x
          h in
      let kept = with_domain_same body.domain_id m m' w given in (m, refl, ap targeted kept ∙ same)

  -- A mailbox that `create_mailbox` builds has the trimmed lower-case form of the given address, which
  -- is not empty, as its key, the part of that address between its first `@` and the next, which is
  -- not empty either, as its domain, whatever domain the body names, and the body's forward target.
  pub build_mailbox-IsAddressed :
      (body : NewMailbox) (w : World) (m : Mailbox)
      → (build_mailbox b body w).0 ≡ done m
      → (is_empty m.id ≡ false)
        × IsAddressed (b.to_lowercase (trim body.id)) m
        × (m.forward_to ≡ body.forward_to)
  unfolding build_mailbox
  build_mailbox-IsAddressed body w m h =
      let id = b.to_lowercase (trim body.id) in
      elim (Bool-cases (is_empty id)) [
        | inl e ↦ absurd (failed≢done (rw e at h))
        | inr e ↦
            let (m0, found, same) = built_from body (try_from id) w m (rw e at h) in
            let a = try_from-IsAddressed id m0 found in
            (
              ap is_empty (sym (ap (λ v. v.id) same) ∙ a.address) ∙ e,
              record {
                address = sym (ap (λ v. v.id) same) ∙ a.address;
                domain = subst (λ v. IsDomain id v.domain_id) same a.domain;
                named = sym (ap (λ v. is_empty v.domain_id) same) ∙ a.named;
              },
              sym (ap (λ v. v.forward_to) same),
            )
      ]
