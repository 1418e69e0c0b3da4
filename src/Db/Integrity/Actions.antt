-- ===== src/Db/Integrity/Actions.antt =====
-- src/db.rs: what an action keeps of the tables, whichever of its statements fails.
use zonemail.Prelude.{ℕ, inl, inr, Text, Option, none, some, Result, ok, err, Option-cases}
use zonemail.Db.{World}
use zonemail.Db.Action.{
  Action, pure, follow, attempt, map_err, lift, tick, ask, exec, settle, transaction, ◌>>=◌,
}
use zonemail.Db.Tables.{exec_checked, or_missing}
use zonemail.Db.Integrity.{IsSound}

-- what the number of calls does not matter to
pub record IsClosed (P : World → Type 0) : Type 0 where
  pub calls : (n : ℕ) {w : World} → P w → P (record w { calls = n })

pub IsSound-IsClosed : IsClosed IsSound
IsSound-IsClosed = record {
  calls = λ n s. record {
    domains = s.domains;
    mailboxes = s.mailboxes;
    triples = s.triples;
    keys = s.keys;
    fresh = s.fresh;
    inbound_links = s.inbound_links;
    outbound_links = s.outbound_links;
    senders = s.senders;
    deliveries = s.deliveries;
    numbered = s.numbered;
  };
}

pub record Maintains (P : World → Type 0) {A : Type 0} (m : Action A) : Type 0 where
  pub at : (w : World) → P w → P (m w).1

module _ {P : World → Type 0} where
  pub Maintains-pure : {A : Type 0} (a : A) → Maintains P (pure a)
  Maintains-pure a = record { at = λ w p. p }

  pub Maintains-lift : {A : Type 0} (r : Result A) → Maintains P (lift r)
  Maintains-lift r = record { at = λ w p. p }

  pub Maintains-follow :
      {A B : Type 0} (r : Result A) (f : A → Action B)
      → ((a : A) → Maintains P (f a))
      → Maintains P (follow r f)
  Maintains-follow (ok a) f k = k a
  Maintains-follow (err e) f k = record { at = λ w p. p }

  pub Maintains-bind :
      {A B : Type 0} {m : Action A} {f : A → Action B}
      → Maintains P m
      → ((a : A) → Maintains P (f a))
      → Maintains P (m >>= f)
  Maintains-bind {m = m} {f = f} h k = record {
    at = λ w p. (Maintains-follow (m w).0 f k).at (m w).1 (h.at w p);
  }

  pub Maintains-attempt : {A : Type 0} {m : Action A} → Maintains P m → Maintains P (attempt m)
  Maintains-attempt h = record { at = h.at }

  pub Maintains-prefix :
      {A : Type 0} (p : Text) {m : Action A} → Maintains P m → Maintains P (map_err p m)
  Maintains-prefix p h = record { at = h.at }

  module _ (closed : IsClosed P) where
    pub Maintains-ask : {A : Type 0} (answer : ℕ → Result A) → Maintains P (ask answer)
    Maintains-ask answer = record { at = λ w p. closed.calls _ p }

    pub Maintains-exec :
        {A : Type 0} (fault : ℕ → Option Text) (f : World → A × World)
        → ((w : World) → P w → P (f w).1)
        → Maintains P (exec fault f)
    Maintains-exec fault f h = record {
      at = λ w p. elim (Option-cases (fault w.calls)) [
        | inl e ↦ rw e (h (tick w) (closed.calls _ p))
        | inr (t, e) ↦ rw e (closed.calls _ p)
      ];
    }

    pub Maintains-checked :
        {A : Type 0} (fault : ℕ → Option Text) (f : World → Result A × World)
        → ((w : World) → P w → P (f w).1)
        → Maintains P (exec_checked fault f)
    Maintains-checked fault f h = record {
      at = λ w p. elim (Option-cases (fault w.calls)) [
        | inl e ↦ rw e (h (tick w) (closed.calls _ p))
        | inr (t, e) ↦ rw e (closed.calls _ p)
      ];
    }

    or_missing-keeps :
        {A : Type 0} (missing : Text) (o : Option A) (w : World)
        → P w
        → P (or_missing missing o w).1
    or_missing-keeps missing none w p = p
    or_missing-keeps missing (some a) w p = p

    pub Maintains-get :
        {A : Type 0} (fault : ℕ → Option Text) (missing : Text) (find : World → Option A)
        → Maintains P (exec_checked fault (λ v. or_missing missing (find v) v))
    Maintains-get fault missing find =
        Maintains-checked fault _ (λ w p. or_missing-keeps missing (find w) w p)

    settled : {A : Type 0} (w : World) (out : Result A × World) → P w → P out.1 → P (settle w out).1
    settled w (ok a, v) p q = q
    settled w (err e, v) p q = closed.calls _ p

    pub Maintains-transaction :
        {A : Type 0} {m : Action A} → Maintains P m → Maintains P (transaction m)
    Maintains-transaction {m = m} h = record { at = λ w p. settled w (m w) p (h.at w p) }
