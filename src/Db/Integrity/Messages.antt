-- ===== src/Db/Integrity/Messages.antt =====
-- src/db.rs: a message that is added, against the constraints of the tables.
use zonemail.Prelude.{
  ◌+◌, ◌==◌, ◌≡◌, inl, inr, Bool, true, some, List, [], ◌∷◌, ◌++◌, any, find?, All-imp, Bool-cases,
  arith,
}
use zonemail.Db.{World, Message}
use zonemail.Db.Integrity.{IsSound, any-append_left, Keyed-add, message_key}

-- a message that joins the others
abbrev pub with_message : Message → World → World
with_message x w = record w { messages = w.messages ++ x ∷ []; next_message = w.next_message + 1 }

pub IsSound-with_message :
    (x : Message) {w : World} → x.id ≡ w.next_message → IsSound w → IsSound (with_message x w)
IsSound-with_message x {w} e s = record {
  domains = s.domains;
  mailboxes = s.mailboxes;
  triples = s.triples;
  keys = s.keys;
  fresh = s.fresh;
  inbound_links =
      All-imp _ _ _ (λ r h. any-append_left (λ m. m.id == r.message_id) w.messages _ h)
        s.inbound_links;
  outbound_links =
      All-imp _ _ _ (λ r h. any-append_left (λ m. m.id == r.message_id) w.messages _ h)
        s.outbound_links;
  senders = s.senders;
  deliveries = s.deliveries;
  numbered = (
    Keyed-add message_key w.next_message x w.messages e s.numbered.0,
    s.numbered.1,
    s.numbered.2,
    s.numbered.3,
  );
}

pub added_last : (x : Message) (xs : List Message) → any (λ m. m.id == x.id) (xs ++ x ∷ []) ≡ true
added_last x [] = ground arith
added_last x (y ∷ ys) = ground (arith, added_last x ys)

-- a message that a query finds is there by its key
pub found-has_key :
    (q : Message → Bool) (xs : List Message) (m : Message)
    → find? q xs ≡ some m
    → any (λ x. x.id == m.id) xs ≡ true
found-has_key q [] m e = cc e
found-has_key q (x ∷ xs) m e = elim (Bool-cases (q x)) [
  | inl t ↦ let same : x ≡ m = cc (t, e) in rw same (ground arith)
  | inr f ↦ ground (arith, found-has_key q xs m (cc (f, e)))
]
