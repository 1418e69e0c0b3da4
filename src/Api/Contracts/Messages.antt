-- ===== src/Api/Contracts/Messages.antt =====
-- src/api.rs: the handlers of messages against the constraints of the tables.
use zonemail.Prelude.{
  ℕ, ◌==◌, ◌≡◌, Text, codes, Bool, true, false, not, Option, none, some, or_default, List, [], ◌∷◌,
  ◌++◌, filter, All, Bool-cases, inl, inr, Result, ok, err,
}
use zonemail.Db.{World, Mailbox}
use zonemail.Db.Action.{exec, effect}
use zonemail.Db.Tables.{delete_inbounds, delete_outbounds, delete_messages}
use zonemail.Db.Integrity.{IsSound}
use zonemail.Db.Integrity.Statements.{IsSound-tick}
use zonemail.Db.Integrity.Deletes.{
  IsSound-delete_inbounds, IsSound-delete_outbounds, IsSound-delete_messages,
}
use zonemail.Api.{Backend, respond, reject, outcome, or_500, no_such}
use zonemail.Api.Page.{from_all, page_params}
use zonemail.Api.Messages.{
  MessageDirection, ListMessagesQuery, message_dto, want_in, want_out, sort_dedup, in_ids, out_ids,
  direction_of, messages_params, direction_param, ensure_mailbox_exists, received, sent, loaded,
  load_each, load_mailbox_messages, page_of, list_mailbox_messages, list_mailbox_inbox,
  list_mailbox_sent, get_message, delete_message_id, delete_message,
}
use zonemail.Api.Contracts.{
  Ensures, Keeps, IsSound-IsStable, Ensures-bind, Ensures-exec, Ensures-reject, Ensures-respond,
  Keeps-respond, Keeps-reject, Keeps-exec, Keeps-or_500, Keeps-or_404, Keeps-get,
}

-- the constraints, and that no inbound row, or no row at all, links to the message
abbrev NoInbound : ℕ → World → Type 0
NoInbound id w = IsSound w × All (λ r. (r.message_id == id) ≡ false) w.inbounds

abbrev NoLink : ℕ → World → Type 0
NoLink id w = NoInbound id w × All (λ r. (r.message_id == id) ≡ false) w.outbounds

-- what a filter leaves does not match
none_left {ℓ} :
    {A : Type ℓ} (p : A → Bool) (xs : List A) → All (λ x. p x ≡ false) (filter (λ x. not (p x)) xs)
none_left p [] = tt
none_left p (x ∷ xs) = elim (Bool-cases (p x)) [
  | inl e ↦ rw e (none_left p xs)
  | inr e ↦ rw e (e, none_left p xs)
]

-- a statement's outcome, where only its success matters
abbrev Unless : (World → Type 0) → Result (Unit {0}) → World → Type 0
Unless P (ok a) w = P w
Unless P (err e) w = IsSound w

Ensures-Unless :
    (P : World → Type 0) (r : Result (Unit {0})) → Ensures (Unless P r) (or_500 r) (λ _. P)
Ensures-Unless P (ok a) = Ensures-respond a (λ w p. p)
Ensures-Unless P (err e) = Ensures-reject IsSound-IsStable 500 _

module _ (b : Backend) (show : ℕ → Text) where
  Keeps-existing :
      (id : Text) (found : Result Mailbox)
      → Ensures IsSound
          (elim found [ ok m ↦ respond tt | err _ ↦ reject 404 (no_such (codes "mailbox") id) ])
          (λ (_ : Unit {0}). IsSound)
  Keeps-existing id (ok m) = Keeps-respond tt
  Keeps-existing id (err _) = Keeps-reject 404 _

  Keeps-ensure_mailbox_exists : (id : Text) → Keeps (ensure_mailbox_exists b show id)
  Keeps-ensure_mailbox_exists id =
      Ensures-bind (Keeps-get b.db_fault b.missing _) (Keeps-existing id)

  Keeps-received : (wanted : Bool) (key : Text) → Keeps (received b show wanted key)
  Keeps-received false key = Keeps-respond []
  Keeps-received true key =
      Ensures-bind (Keeps-exec b.db_fault _ (λ w s. s))
        (λ found. Ensures-bind (Keeps-or_500 found) (λ rows. Keeps-respond (in_ids rows)))

  Keeps-sent : (wanted : Bool) (key : Text) → Keeps (sent b show wanted key)
  Keeps-sent false key = Keeps-respond []
  Keeps-sent true key =
      Ensures-bind (Keeps-exec b.db_fault _ (λ w s. s))
        (λ found. Ensures-bind (Keeps-or_500 found) (λ rows. Keeps-respond (out_ids rows)))

  Keeps-load_each : (dirs : ℕ → Option Text) (ids : List ℕ) → Keeps (load_each b show dirs ids)
  unfolding load_each
  Keeps-load_each dirs [] = Keeps-respond []
  Keeps-load_each dirs (id ∷ ids) = Ensures-bind (Keeps-get b.db_fault b.missing _) (λ found.
      Ensures-bind (Keeps-load_each dirs ids)
        (λ items. Keeps-respond (loaded b show (dirs id) found items)))

  Keeps-load_mailbox_messages :
      (id : Text) (direction : Option MessageDirection)
      → Keeps (load_mailbox_messages b show id direction)
  unfolding load_mailbox_messages
  Keeps-load_mailbox_messages id direction =
      Ensures-bind (Keeps-received (want_in direction) (b.to_lowercase id)) λ ins.
        Ensures-bind (Keeps-sent (want_out direction) (b.to_lowercase id))
          λ outs. Keeps-load_each (direction_of ins outs) (sort_dedup (ins ++ outs))

  Keeps-page_of :
      (id : Text) (direction : Option MessageDirection) (params : ℕ × ℕ)
      → Keeps (page_of b show id direction params)
  Keeps-page_of id direction params = Ensures-bind (Keeps-ensure_mailbox_exists id) λ _.
      Ensures-bind (Keeps-load_mailbox_messages id direction)
        λ items. Keeps-respond (from_all items params.0 params.1)

  pub Keeps-list_mailbox_messages :
      (id : Text) (query : Option ListMessagesQuery) (limit offset : Option ℕ)
      → Keeps (list_mailbox_messages b show id query limit offset)
  unfolding list_mailbox_messages
  Keeps-list_mailbox_messages id query limit offset =
      Keeps-page_of id (direction_param query) (messages_params query limit offset)

  pub Keeps-list_mailbox_inbox :
      (id : Text) (limit offset : Option ℕ) → Keeps (list_mailbox_inbox b show id limit offset)
  unfolding list_mailbox_inbox
  Keeps-list_mailbox_inbox id limit offset =
      Keeps-page_of id (some MessageDirection.inbound) (page_params limit offset)

  pub Keeps-list_mailbox_sent :
      (id : Text) (limit offset : Option ℕ) → Keeps (list_mailbox_sent b show id limit offset)
  unfolding list_mailbox_sent
  Keeps-list_mailbox_sent id limit offset =
      Keeps-page_of id (some MessageDirection.outbound) (page_params limit offset)

  pub Keeps-get_message : (param : Option ℕ) → Keeps (get_message b show param)
  unfolding get_message
  Keeps-get_message param = Ensures-bind (Keeps-get b.db_fault b.missing _) (λ found.
      Ensures-bind (Keeps-or_404 (codes "message") (show (or_default param 0)) found)
        (λ m. Keeps-respond (message_dto none m)))

  inbounds_gone :
      (id : ℕ)
      → Ensures IsSound
          (outcome (exec b.db_fault (effect (delete_inbounds (λ r. r.message_id == id)))))
          (Unless (NoInbound id))
  inbounds_gone id =
      Ensures-exec b.db_fault _
        (λ w s. (IsSound-delete_inbounds _ (IsSound-tick s), none_left _ w.inbounds))
        (λ e w s. IsSound-tick s)

  outbounds_gone :
      (id : ℕ)
      → Ensures
          (NoInbound id)
          (outcome (exec b.db_fault (effect (delete_outbounds (λ r. r.message_id == id)))))
          (Unless (NoLink id))
  outbounds_gone id =
      Ensures-exec b.db_fault _
        (λ w s. ((IsSound-delete_outbounds _ (IsSound-tick s.0), s.1), none_left _ w.outbounds))
        (λ e w s. IsSound-tick s.0)

  message_gone :
      (id : ℕ)
      → Ensures
          (NoLink id)
          (outcome (exec b.db_fault (effect (delete_messages (λ m. m.id == id)))))
          (λ _. IsSound)
  message_gone id =
      Ensures-exec b.db_fault _
        (λ w s. IsSound-delete_messages id (s.0.1, s.1) (IsSound-tick s.0.0))
        (λ e w s. IsSound-tick s.0.0)

  Keeps-delete_message_id : (id : ℕ) → Keeps (delete_message_id b show id)
  unfolding delete_message_id
  Keeps-delete_message_id id = Ensures-bind (Keeps-get b.db_fault b.missing _) λ found.
      Ensures-bind (Keeps-or_404 (codes "message") (show id) found) λ m.
        Ensures-bind (inbounds_gone id) λ unlinked.
          Ensures-bind (Ensures-Unless (NoInbound id) unlinked) λ _.
            Ensures-bind (outbounds_gone id) λ dropped.
              Ensures-bind (Ensures-Unless (NoLink id) dropped)
                λ _. Ensures-bind (message_gone id) Keeps-or_500

  pub Keeps-delete_message : (param : Option ℕ) → Keeps (delete_message b show param)
  unfolding delete_message
  Keeps-delete_message param = Keeps-delete_message_id (or_default param 0)
