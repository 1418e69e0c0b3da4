-- ===== src/Email/Receive.antt =====
-- src/email.rs: the tables after `handle_rcpt` and `handle_email`.
use mathlib.Core.List.{Memᴰ}
use mathlib.Core.Path.{subst}
use zonemail.Prelude.{
  ℕ, ◌+◌, ◌≡◌, ◌⊎◌, refl, sym, ap, ◌∙◌, inl, inr, Text, text_eq, text_eq→≡, trim, is_empty, Bool,
  true, false, Option, none, some, or_default, List, [], ◌∷◌, ◌++◌, Result, ok, err, find?,
  Bool-cases, Option-cases, Result-cases, arith,
}
use zonemail.Db.{World, Message, Mailbox, Inbound}
use zonemail.Db.Action.{Action, ◌>>=◌, ◌>>◌, tick}
use zonemail.Send.{Outside}
use zonemail.Send.Queue.{enqueue_forward}
use zonemail.Email.{
  ParsedMail, no_headers, new_message, new_inbound, insert_inbound, has_header, dedup_key,
  get_mailbox, clean, handle_rcpt, find_existing, store_unless, link_each, forward_for,
  forward_each, or_unknown, handle_email, forward_all,
}

find?_Memᴰ {ℓ} :
    {A : Type ℓ} (p : A → Bool) (xs : List A) (x : A)
    → find? p xs ≡ some x
    → Memᴰ x xs × (p x ≡ true)
find?_Memᴰ p [] x h = absurd (ground (arith, h))
find?_Memᴰ p (y ∷ ys) x h = elim (Bool-cases (p y)) [
  | inl e ↦ (Memᴰ.head (ground (arith, e, h)), ground (arith, e, h))
  | inr e ↦ let (there, holds) = find?_Memᴰ p ys x (rw e at h) in (Memᴰ.tail there, holds)
]

append_nil {ℓ} : {A : Type ℓ} (xs : List A) → xs ++ [] ≡ xs
append_nil [] = refl
append_nil (x ∷ xs) = ap (λ l. x ∷ l) (append_nil xs)

append_assoc {ℓ} : {A : Type ℓ} (xs ys zs : List A) → (xs ++ ys) ++ zs ≡ xs ++ (ys ++ zs)
append_assoc [] ys zs = refl
append_assoc (x ∷ xs) ys zs = ap (λ l. x ∷ l) (append_assoc xs ys zs)

-- the row of a mailbox, by its address
abbrev pub mailbox_at : World → Text → Option Mailbox
mailbox_at w id = find? (λ m. text_eq m.id id) w.mailboxes

-- the rows that link a message to its recipients, numbered from `n`
abbrev pub links : ℕ → ℕ → List Text → List Inbound
links n message_id [] = []
links n message_id (r ∷ rs) = new_inbound n message_id r ∷ links (n + 1) message_id rs

-- a stored message with the key `id` and the header's `Message-ID`, trimmed and not empty
abbrev pub IsCopy : Option Text → ℕ → List Message → Type 0
IsCopy header id messages =
    (m : Message) × (h : Text) × Memᴰ m messages
    × (m.id ≡ id)
    × (header ≡ some h)
    × (is_empty (trim h) ≡ false)
    × (m.message_id_header ≡ some (trim h))

-- The tables of messages before and after: the same with an earlier copy of the mail under the key
-- `id`, or with the mail added at the end under the next key.
abbrev pub Keeps : ParsedMail → List ℕ → ℕ → World → List Message → Type 0
Keeps mail raw id before after =
    ((after ≡ before.messages) × IsCopy mail.message_id id before.messages)
    ⊎ ((id ≡ before.next_message) × (after ≡ before.messages ++ new_message id mail raw ∷ []))

has_header_lem :
    (key : Text) (m : Message) → has_header key m ≡ true → m.message_id_header ≡ some key
has_header_lem key m h = elim (Option-cases m.message_id_header) [
  | inl e ↦ absurd (cc (e, h))
  | inr (t, e) ↦
      let same : text_eq t key ≡ true = cc (e, h) in e ∙ ap (λ k. some k) (text_eq→≡ t key same)
]

dedup_key_lem :
    (header : Option Text) (key : Text)
    → dedup_key header ≡ some key
    → (h : Text) × (header ≡ some h) × (is_empty (trim h) ≡ false) × (key ≡ trim h)
unfolding dedup_key
dedup_key_lem none key e = absurd (cc e)
dedup_key_lem (some h) key e = elim (Bool-cases (is_empty (trim h))) [
  | inl empty ↦ absurd (ground (arith, empty, e))
  | inr full ↦ (h, refl, full, ground (arith, full, e))
]

bind-ok {ℓ κ} :
    {A : Type ℓ} {B : Type κ} (m : Action A) (f : A → Action B) (w : World) (b : B)
    → ((m >>= f) w).0 ≡ ok b
    → (a : A) × ((m w).0 ≡ ok a) × ((f a (m w).1).0 ≡ ok b) × ((m >>= f) w ≡ f a (m w).1)
bind-ok m f w b h = elim (Result-cases (m w).0) [
  | inl (a, e) ↦ (a, e, rw e at h, rw e refl)
  | inr (x, e) ↦ absurd (ground (arith, (rw e at h)))
]

module _ (o : Outside) where
  -- A recipient is accepted only if its cleaned address is that of a mailbox; then it is the last of
  -- the recipients, and no table has changed.
  pub handle_rcpt-ok :
      (to_lowercase : Text → Text) (to : Text) (before after : List Text) (w : World)
      → (handle_rcpt o to_lowercase to before w).0 ≡ ok after
      → ((m : Mailbox) × (mailbox_at w (clean o to_lowercase to) ≡ some m))
        × (after ≡ before ++ clean o to_lowercase to ∷ [])
        × ((handle_rcpt o to_lowercase to before w).1 ≡ record w { calls = w.calls + 1 })
  unfolding handle_rcpt
  handle_rcpt-ok to_lowercase to before after w h = elim (Option-cases (o.db_fault w.calls)) [
    | inr (e, f) ↦ ground (arith, f, h)
    | inl f ↦ elim (Option-cases (mailbox_at w (clean o to_lowercase to))) [
      | inl gone ↦ ground (arith, f, gone, h)
      | inr (m, found) ↦ ((m, found), ground (arith, f, found, h), ground (arith, f, found))
    ]
  ]

  -- what the lookup of an earlier copy leaves, and finds
  find_existing_lem :
      (header key : Option Text) (w : World) (found : Option ℕ)
      → dedup_key header ≡ key
      → (find_existing o key w).0 ≡ ok found
      → ((n : ℕ) × ((find_existing o key w).1 ≡ record w { calls = n }))
        × ((id : ℕ) → found ≡ some id → IsCopy header id w.messages)
  unfolding find_existing
  find_existing_lem header none w found d h = ((w.calls, refl), λ id e. absurd (cc (e, h)))
  find_existing_lem header (some key) w found d h = elim (Option-cases (o.db_fault w.calls)) [
    | inr (e, f) ↦ rw f ((w.calls + 1, refl), λ id q. absurd (ground (arith, f, h, q)))
    | inl f ↦ rw f (
      (w.calls + 1, refl),
      λ id q. elim (Option-cases (find? (has_header key) w.messages)) [
        | inl gone ↦ absurd (ground (arith, f, gone, h, q))
        | inr (m, e) ↦
            let (in_table, holds) = find?_Memᴰ (has_header key) w.messages m e in
            let (t, given, full, same) = dedup_key_lem header key d in
            (
              m,
              t,
              in_table,
              ground (arith, f, e, h, q),
              given,
              full,
              has_header_lem key m holds ∙ ap (λ k. some k) same,
            )
      ],
    )
  ]

  store_unless_lem :
      (mail : ParsedMail) (raw : List ℕ) (found : Option ℕ) (w : World) (id : ℕ)
      → (store_unless o mail raw found w).0 ≡ ok id
      → ((m : ℕ) → found ≡ some m → IsCopy mail.message_id m w.messages)
      → ((store_unless o mail raw found w).1.inbounds ≡ w.inbounds)
        × ((store_unless o mail raw found w).1.next_inbound ≡ w.next_inbound)
        × Keeps mail raw id w (store_unless o mail raw found w).1.messages
  unfolding store_unless
  store_unless_lem mail raw (some m) w id h k =
      (refl, refl, inl (refl, k id (ap some (ground (arith, h)))))
  store_unless_lem mail raw none w id h k = elim (Option-cases (o.db_fault w.calls)) [
    | inr (e, f) ↦ ground (arith, f, h)
    | inl f ↦ rw f (refl, refl, inr (ground (arith, f, h), ground (arith, f, h)))
  ]

  link_each_lem :
      (id : ℕ) (rs : List Text) (w : World)
      → (link_each o id rs w).0 ≡ ok tt
      → ((link_each o id rs w).1.inbounds ≡ w.inbounds ++ links w.next_inbound id rs)
        × ((link_each o id rs w).1.messages ≡ w.messages)
  unfolding link_each
  link_each_lem id [] w h = (sym (append_nil w.inbounds), refl)
  link_each_lem id (r ∷ rs) w h = elim (Option-cases (o.db_fault w.calls)) [
    | inr (e, f) ↦ ground (arith, f, h)
    | inl f ↦
        let v = insert_inbound id r (tick w) in
        let (there, same) = link_each_lem id rs v (rw f at h) in
        rw f (
          there
              ∙ append_assoc w.inbounds (new_inbound w.next_inbound id r ∷ [])
                  (links v.next_inbound id rs),
          same,
        )
  ]

  enqueue_forward_lem :
      (id : ℕ) (r target : Text) (w : World)
      → ((enqueue_forward o id r target w).1.inbounds ≡ w.inbounds)
        × ((enqueue_forward o id r target w).1.messages ≡ w.messages)
  unfolding enqueue_forward
  enqueue_forward_lem id r target w = elim (Option-cases (o.db_fault w.calls)) [
    | inl f ↦ rw f (refl, refl)
    | inr (x, f) ↦ rw f (refl, refl)
  ]

  forward_for_lem :
      (id : ℕ) (r : Text) (found : Result Mailbox) (w : World)
      → ((forward_for o id r found w).inbounds ≡ w.inbounds)
        × ((forward_for o id r found w).messages ≡ w.messages)
  forward_for_lem id r (err e) w = (refl, refl)
  forward_for_lem id r (ok mailbox) w = elim (Option-cases mailbox.forward_to) [
    | inl e ↦ rw e (refl, refl)
    | inr (target, e) ↦ rw e (enqueue_forward_lem id r target w)
  ]

  get_mailbox_lem :
      (r : Text) (w : World)
      → ((get_mailbox o r w).1.inbounds ≡ w.inbounds)
        × ((get_mailbox o r w).1.messages ≡ w.messages)
  get_mailbox_lem r w = elim (Option-cases (o.db_fault w.calls)) [
    | inr (e, f) ↦ ground (arith, f)
    | inl f ↦ elim (Option-cases (mailbox_at w r)) [
      | inl gone ↦ ground (arith, f, gone)
      | inr (m, found) ↦ ground (arith, f, found)
    ]
  ]

  forward_each_lem :
      (id : ℕ) (rs : List Text) (w : World)
      → ((forward_each o id rs w).inbounds ≡ w.inbounds)
        × ((forward_each o id rs w).messages ≡ w.messages)
  unfolding forward_each
  forward_each_lem id [] w = (refl, refl)
  forward_each_lem id (r ∷ rs) w =
      let (i, m) = get_mailbox_lem r w in
      let v = forward_for o id r (get_mailbox o r w).0 (get_mailbox o r w).1 in
      let (j, n) = forward_for_lem id r (get_mailbox o r w).0 (get_mailbox o r w).1 in
      let (k, p) = forward_each_lem id rs v in (k ∙ j ∙ i, p ∙ n ∙ m)

  finish_lem :
      (id : ℕ) (rs : List Text) (w : World)
      → ((link_each o id rs >> forward_all o id rs) w).0 ≡ ok tt
      → (((link_each o id rs >> forward_all o id rs) w).1.inbounds
          ≡ w.inbounds ++ links w.next_inbound id rs)
        × (((link_each o id rs >> forward_all o id rs) w).1.messages ≡ w.messages)
  finish_lem id rs w h =
      let (a, e, h1, q) = bind-ok (link_each o id rs) (λ _. forward_all o id rs) w tt h in
      let (i, m) = link_each_lem id rs w e in
      let (j, n) = forward_each_lem id rs (link_each o id rs w).1 in rw q (j ∙ i, n ∙ m)

  -- the states `before` and `after` an accepted message
  abbrev pub Receives : ParsedMail → List ℕ → List Text → World → World → Type 0
  Receives mail raw rs before after =
      (id : ℕ) × (after.inbounds ≡ before.inbounds ++ links before.next_inbound id rs)
      × Keeps mail raw id before after.messages

  store-Receives :
      (mail : ParsedMail) (raw : List ℕ) (rs : List Text) (found : Option ℕ) (w : World) (id : ℕ)
      → (store_unless o mail raw found w).0 ≡ ok id
      → ((m : ℕ) → found ≡ some m → IsCopy mail.message_id m w.messages)
      → (v : World)
      → v.inbounds
        ≡ (store_unless o mail raw found w).1.inbounds
          ++ links (store_unless o mail raw found w).1.next_inbound id rs
      → v.messages ≡ (store_unless o mail raw found w).1.messages
      → Receives mail raw rs w v
  store-Receives mail raw rs found w id h k v i m =
      let (j, n, keep) = store_unless_lem mail raw found w id h k in
      (id, i ∙ cc (j, n), subst (λ l. Keeps mail raw id w l) (sym m) keep)

  -- A message that is accepted is stored: it is added under the next key, or, where it has a
  -- Message-ID that is not blank, it may be taken to be a stored message whose header is that one,
  -- trimmed. One row for each of its recipients, in order, links them to it; no other message or
  -- link is added, and none is lost.
  pub handle_email-ok :
      (parse : List ℕ → Option ParsedMail) (raw : List ℕ) (recipients : List Text) (w : World)
      → (handle_email o parse raw recipients w).0 ≡ ok tt
      → Receives
          (or_default (parse raw) no_headers)
          raw
          (or_unknown recipients)
          w
          (handle_email o parse raw recipients w).1
  unfolding handle_email
  handle_email-ok parse raw recipients w h =
      let mail = or_default (parse raw) no_headers in
      let all = or_unknown recipients in
      let key = dedup_key mail.message_id in
      let (found, e1, h1, q1) = bind-ok (find_existing o key) _ w tt h in
      let ((n, s1), earlier) = find_existing_lem mail.message_id key w found refl e1 in
      let w1 = (find_existing o key w).1 in
      let (id, e2, h2, q2) = bind-ok (store_unless o mail raw found) _ w1 tt h1 in
      let w2 = (store_unless o mail raw found w1).1 in
      let v : World = ((link_each o id all >> forward_all o id all) w2).1 in
      let (i, m) = finish_lem id all w2 h2 in
      let earlier1 : (m : ℕ) → found ≡ some m → IsCopy mail.message_id m w1.messages =
        λ m q. subst (λ v. IsCopy mail.message_id m v.messages) (sym s1) (earlier m q) in
      let there = store-Receives mail raw all found w1 id e2 earlier1 v i m in
      let at_w : Receives mail raw all (record w { calls = n }) v =
        subst (λ u. Receives mail raw all u v) s1 there in
      subst (λ s. Receives mail raw all w s.1) (sym (q1 ∙ q2)) at_w
