-- ===== src/Api/Fanout.antt =====
-- src/api.rs: `send_email` where its parts succeed: the recipients it chooses, and the jobs.
use mathlib.Core.Path.{subst}
use zonemail.Prelude.{
  append_nil, append_assoc, ℕ, ◌+◌, ◌≡◌, refl, sym, ap, ◌∙◌, inl, inr, Text, text_eq, text_eq_refl,
  text_eq→≡, not, ◌&&◌, ◌||◌, Option, none, some, or_default, List, [], ◌∷◌, ◌++◌, any, find?, ok,
  err, Bool-cases, Option-cases, Result-cases, arith,
}
use zonemail.Db.{World, Mailbox, Outbound}
use zonemail.Db.Action.{tick}
use zonemail.Db.Integrity.{DistinctBy, any-append}
use zonemail.Email.{no_headers}
use zonemail.Send.{Outside}
use zonemail.Send.Queue.{new_job, insert_job, enqueue_forward}
use zonemail.Send.Enqueue.{
  LettreMessage, outbound_message, insert_outbound_message, enqueue_outbound,
}
use zonemail.Api.{failed≢done, done-injective, ApiProblem, Reply, done, failed, respond, go_on}
use zonemail.Api.Mail.{
  SendEmail, SendResult, Mailer, first_seen, build_send_message, forward_rest, send_to, send_email,
  recipients,
}

-- the members of `first_seen`
any-first_seen :
    (r : Text) (seen xs : List Text)
    → any (text_eq r) (first_seen seen xs) ≡ (not (any (text_eq r) seen) && any (text_eq r) xs)
unfolding first_seen
any-first_seen r seen [] = ground arith
any-first_seen r seen (x ∷ xs) = elim (Bool-cases (text_eq r x)) [
  | inl e ↦
      let same = ap (λ t. any (text_eq t) seen) (text_eq→≡ r x e) in
      elim (Bool-cases (any (text_eq x) seen)) [
        | inl s ↦ rw s (ground (arith, e, s, same, any-first_seen r seen xs))
        | inr s ↦ rw s (ground (arith, e, s, same))
      ]
  | inr e ↦ elim (Bool-cases (any (text_eq x) seen)) [
    | inl s ↦ rw s (ground (arith, e, any-first_seen r seen xs))
    | inr s ↦ rw s (ground (arith, e, any-first_seen r (x ∷ seen) xs))
  ]
]

first_seen-DistinctBy : (seen xs : List Text) → DistinctBy text_eq (first_seen seen xs)
unfolding first_seen
first_seen-DistinctBy seen [] = tt
first_seen-DistinctBy seen (x ∷ xs) = elim (Bool-cases (any (text_eq x) seen)) [
  | inl s ↦ rw s (first_seen-DistinctBy seen xs)
  | inr s ↦ rw s (
    ground (arith, any-first_seen x (x ∷ seen) xs, text_eq_refl x),
    first_seen-DistinctBy (x ∷ seen) xs,
  )
]

-- The recipients of a mail are the addresses that occur in its `to`, its `cc` or its `bcc`, and no
-- other, and no two of them are the same.
pub recipients_lem :
    (body : SendEmail)
    → DistinctBy text_eq (recipients body)
      × ((r : Text)
          → any (text_eq r) (recipients body)
            ≡ (any (text_eq r) body.to || (any (text_eq r) body.cc || any (text_eq r) body.bcc)))
recipients_lem body = (
  first_seen-DistinctBy [] (body.to ++ (body.cc ++ body.bcc)),
  λ r.
      any-first_seen r [] (body.to ++ (body.cc ++ body.bcc))
      ∙ ground (
        arith,
        any-append (text_eq r) body.to (body.cc ++ body.bcc),
        any-append (text_eq r) body.cc body.bcc,
      ),
)

-- the keys from `n` on, one for each recipient, and their jobs
abbrev pub ids_from : ℕ → List Text → List ℕ
ids_from n [] = []
ids_from n (r ∷ rs) = n ∷ ids_from (n + 1) rs

abbrev pub jobs_from : ℕ → ℕ → Text → List Text → List Outbound
jobs_from n id sender [] = []
jobs_from n id sender (r ∷ rs) = new_job n id sender r ∷ jobs_from (n + 1) id sender rs

module _ (o : Outside) (mailer : Mailer) (working : (n : ℕ) → o.db_fault n ≡ none) where
  -- what a run of producers comes to
  record Queues (id : ℕ) (sender : Text) (rs : List Text) (w : World) (out : Reply (List ℕ) × World)
      : Type 0 where
    reply : out.0 ≡ done (ids_from w.next_outbound rs)
    jobs : out.1.outbounds ≡ w.outbounds ++ jobs_from w.next_outbound id sender rs
    mails : out.1.messages ≡ w.messages

  -- the reply of one more recipient
  one_more :
      (id : ℕ) (sender r : Text) (rs : List Text) (w : World) (out : Reply (List ℕ) × World)
      → Queues id sender rs (insert_job id sender r (tick w)).1 out
      → Queues id sender (r ∷ rs) w (go_on out.0 (λ ids. respond (w.next_outbound ∷ ids)) out.1)
  one_more id sender r rs w (failed code problem, v) q = absurd (failed≢done q.reply)
  one_more id sender r rs w (done ids, v) q = record {
    reply = ap (λ l. done (w.next_outbound ∷ l)) (done-injective q.reply);
    jobs = q.jobs ∙ append_assoc w.outbounds _ _;
    mails = q.mails;
  }

  forward_rest-Queues :
      (id : ℕ) (sender : Text) (rs : List Text) (w : World)
      → Queues id sender rs w (forward_rest mailer o id sender rs w)
  unfolding forward_rest enqueue_forward
  forward_rest-Queues id sender [] w = record {
    reply = refl;
    jobs = sym (append_nil w.outbounds);
    mails = refl;
  }
  forward_rest-Queues id sender (r ∷ rs) w = rw (working w.calls) (
      one_more id sender r rs w _
        (forward_rest-Queues id sender rs (insert_job id sender r (tick w)).1))

  -- what sending `body` to `chosen` comes to: one message, and one job for each recipient
  pub record IsSent (letter : LettreMessage) (body : SendEmail) (chosen : List Text) (w : World)
      (out : Reply SendResult × World) : Type 0 where
    pub reply :
        out.0
        ≡ done
            (record { message_id = w.next_message; outbound_ids = ids_from w.next_outbound chosen })
    pub mails :
        out.1.messages
        ≡ w.messages
          ++ outbound_message w.next_message letter
              (or_default (mailer.parse_mail letter.formatted) no_headers)
            ∷ []
    pub jobs :
        out.1.outbounds ≡ w.outbounds ++ jobs_from w.next_outbound w.next_message body.from chosen

  abbrev stored_world : LettreMessage → Text → Text → World → World
  stored_world letter sender first w =
      (insert_job w.next_message sender first (
        tick
          (insert_outbound_message letter
            (or_default (mailer.parse_mail letter.formatted) no_headers) (tick (tick w))).1)).1

  all_queued :
      (letter : LettreMessage) (body : SendEmail) (first : Text) (rest : List Text) (w : World)
      (out : Reply (List ℕ) × World)
      → Queues w.next_message body.from rest (stored_world letter body.from first w) out
      → IsSent letter body (first ∷ rest) w (
          go_on out.0
            (λ ids.
              respond
                (record { message_id = w.next_message; outbound_ids = w.next_outbound ∷ ids }))
            out.1)
  all_queued letter body first rest w (failed code problem, v) q = absurd (failed≢done q.reply)
  all_queued letter body first rest w (done ids, v) q = record {
    reply =
        ap (λ l. done (record { message_id = w.next_message; outbound_ids = w.next_outbound ∷ l }))
          (done-injective q.reply);
    mails = q.mails;
    jobs = q.jobs ∙ append_assoc w.outbounds _ _;
  }

  send_to-IsSent :
      (letter : LettreMessage) (body : SendEmail) (first : Text) (rest : List Text) (w : World)
      (m : Mailbox)
      → build_send_message mailer body ≡ ok letter
      → find? (λ x. text_eq x.id body.from) w.mailboxes ≡ some m
      → IsSent letter body (first ∷ rest) w (send_to mailer o body (first ∷ rest) w)
  unfolding send_to enqueue_outbound
  send_to-IsSent letter body first rest w m built found =
      rw (working w.calls, found, built)
        (rw (working (w.calls + 1), working (w.calls + 1 + 1))
          (all_queued letter body first rest w _ (
            forward_rest-Queues w.next_message body.from rest
              (stored_world letter body.from first w))))

  -- While no statement fails, a mail with recipients, from a sender that has a mailbox and with a
  -- message that builds, is answered with the keys of what was stored: one message, and one queued
  -- job for each chosen recipient, in their order and after the jobs that were there.
  pub send_email-IsSent :
      (letter : LettreMessage) (body : SendEmail) (first : Text) (rest : List Text) (w : World)
      (m : Mailbox)
      → recipients body ≡ first ∷ rest
      → build_send_message mailer body ≡ ok letter
      → find? (λ x. text_eq x.id body.from) w.mailboxes ≡ some m
      → IsSent letter body (recipients body) w (send_email mailer o (some body) w)
  unfolding send_email
  send_email-IsSent letter body first rest w m chosen built found =
      subst (λ c. IsSent letter body c w (send_to mailer o body c w)) (sym chosen)
        (send_to-IsSent letter body first rest w m built found)

  -- the tables that a mail writes are as they were
  abbrev Untouched : World → World → Type 0
  Untouched w v = (v.messages ≡ w.messages) × (v.outbounds ≡ w.outbounds)

  no_sender :
      (body : SendEmail) (first : Text) (rest : List Text) (w : World)
      → find? (λ x. text_eq x.id body.from) w.mailboxes ≡ none
      → Untouched w (send_to mailer o body (first ∷ rest) w).1
  unfolding send_to
  no_sender body first rest w missing = rw (working w.calls, missing) (refl, refl)

  not_built :
      (body : SendEmail) (first : Text) (rest : List Text) (w : World) (m : Mailbox) (e : Text)
      → find? (λ x. text_eq x.id body.from) w.mailboxes ≡ some m
      → build_send_message mailer body ≡ err e
      → Untouched w (send_to mailer o body (first ∷ rest) w).1
  unfolding send_to
  not_built body first rest w m e found broken = rw (working w.calls, found, broken) (refl, refl)

  no_recipient : (body : SendEmail) (w : World) → Untouched w (send_to mailer o body [] w).1
  unfolding send_to
  no_recipient body w = (refl, refl)

  send_to_rejected :
      (body : SendEmail) (chosen : List Text) (w : World) (code : ℕ) (problem : ApiProblem)
      → (send_to mailer o body chosen w).0 ≡ failed code problem
      → Untouched w (send_to mailer o body chosen w).1
  send_to_rejected body [] w code problem h = no_recipient body w
  send_to_rejected body (first ∷ rest) w code problem h =
      elim (Option-cases (find? (λ x. text_eq x.id body.from) w.mailboxes)) [
        | inl missing ↦ no_sender body first rest w missing
        | inr (m, found) ↦ elim (Result-cases (build_send_message mailer body)) [
          | inl (letter, built) ↦
              absurd (
                failed≢done (sym h ∙ (send_to-IsSent letter body first rest w m built found).reply))
          | inr (e, broken) ↦ not_built body first rest w m e found broken
        ]
      ]

  -- While no statement fails, a mail that is answered with a problem has stored nothing and queued
  -- nothing.
  pub send_email_rejected :
      (body : Option SendEmail) (w : World) (code : ℕ) (problem : ApiProblem)
      → (send_email mailer o body w).0 ≡ failed code problem
      → ((send_email mailer o body w).1.messages ≡ w.messages)
        × ((send_email mailer o body w).1.outbounds ≡ w.outbounds)
  unfolding send_email
  send_email_rejected none w code problem h = (refl, refl)
  send_email_rejected (some body) w code problem h =
      send_to_rejected body (recipients body) w code problem h
