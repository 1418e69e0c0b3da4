-- ===== src/Api/Contracts.antt =====
-- src/api.rs: what one step of a handler needs of the tables and what it leaves, whichever of its
-- statements fails. The rules follow the handlers' steps.
pub mod Domains
pub mod Mailboxes
pub mod Records
pub mod Messages
pub mod Mail
pub mod Server
use zonemail.Prelude.{
  ℕ, ◌≡◌, inl, inr, Text, Bool, true, false, Option, none, some, Result, ok, err, Option-cases,
  if◌then◌else◌,
}
use zonemail.Db.{World}
use zonemail.Db.Action.{Action, tick, exec, run_statement, effect}
use zonemail.Db.Tables.{exec_checked, run_checked, or_missing}
use zonemail.Db.Integrity.{IsSound}
use zonemail.Db.Integrity.Statements.{IsSound-tick}
use zonemail.Api.{
  ApiProblem, Reply, done, failed, Handler, respond, reject, answer, go_on, outcome, parsed, or_500,
  or_404, ◌>>=◌,
}

-- after a reply: `Q` where the handler goes on, the constraints where it has answered
abbrev pub Post {ℓ} : {A : Type ℓ} → (A → World → Type 0) → Reply A → World → Type 0
Post Q (done a) w = Q a w
Post Q (failed code problem) w = IsSound w

pub record Ensures {ℓ} {A : Type ℓ} (P : World → Type 0) (m : Handler A) (Q : A → World → Type 0)
    : Type ℓ where
  pub at : (w : World) → P w → Post Q (m w).0 (m w).1

-- a step that keeps the constraints
abbrev pub Keeps {ℓ} : {A : Type ℓ} → Handler A → Type ℓ
Keeps m = Ensures IsSound m (λ _. IsSound)

Ensures-go_on {ℓ κ} :
    {A : Type ℓ} {B : Type κ} (Q : A → World → Type 0) (R : B → World → Type 0) (r : Reply A)
    (f : A → Handler B) (w : World)
    → ((a : A) → Ensures (Q a) (f a) R)
    → Post Q r w
    → Post R (go_on r f w).0 (go_on r f w).1
Ensures-go_on Q R (done a) f w k p = (k a).at w p
Ensures-go_on Q R (failed code problem) f w k p = p

module _ {ℓ} {A : Type ℓ} {P : World → Type 0} where
  pub Ensures-bind {κ} :
      {B : Type κ} {Q : A → World → Type 0} {R : B → World → Type 0} {m : Handler A}
      {f : A → Handler B}
      → Ensures P m Q
      → ((a : A) → Ensures (Q a) (f a) R)
      → Ensures P (m >>= f) R
  Ensures-bind {Q} {R} {m} {f} h k = record {
    at = λ w p. Ensures-go_on Q R (m w).0 f (m w).1 k (h.at w p);
  }

  pub Ensures-respond :
      {Q : A → World → Type 0} (a : A) → ((w : World) → P w → Q a w) → Ensures P (respond a) Q
  Ensures-respond a h = record { at = h }

  -- a statement, by what it does where it takes effect and where it does not
  pub Ensures-exec :
      {Q : Result A → World → Type 0} (fault : ℕ → Option Text) (f : World → A × World)
      → ((w : World) → P w → Q (ok (f (tick w)).0) (f (tick w)).1)
      → ((e : Text) (w : World) → P w → Q (err e) (tick w))
      → Ensures P (outcome (exec fault f)) Q
  Ensures-exec fault f good bad = record {
    at = λ w p. elim (Option-cases (fault w.calls)) [
      | inl e ↦ rw e (good w p)
      | inr (t, e) ↦ rw e (bad t w p)
    ];
  }

  pub Ensures-checked :
      {Q : Result A → World → Type 0} (fault : ℕ → Option Text) (f : World → Result A × World)
      → ((w : World) → P w → Q (f (tick w)).0 (f (tick w)).1)
      → ((e : Text) (w : World) → P w → Q (err e) (tick w))
      → Ensures P (outcome (exec_checked fault f)) Q
  Ensures-checked fault f good bad = record {
    at = λ w p. elim (Option-cases (fault w.calls)) [
      | inl e ↦ rw e (good w p)
      | inr (t, e) ↦ rw e (bad t w p)
    ];
  }

-- what holds of the tables beside the constraints, and survives a statement that writes nothing
pub record IsStable (P : World → Type 0) : Type 0 where
  pub sound : {w : World} → P w → IsSound w
  pub ticks : {w : World} → P w → P (tick w)

pub IsSound-IsStable : IsStable IsSound
IsSound-IsStable = record { sound = λ s. s; ticks = IsSound-tick }

module _ {ℓ} {A : Type ℓ} {P : World → Type 0} (stable : IsStable P) where
  pub Ensures-reject :
      {Q : A → World → Type 0} (code : ℕ) (problem : ApiProblem) → Ensures P (reject code problem) Q
  Ensures-reject code problem = record { at = λ w p. stable.sound p }

  pub Ensures-query :
      (fault : ℕ → Option Text) (read : World → A)
      → Ensures P (outcome (exec fault (λ v. (read v, v)))) (λ _. P)
  Ensures-query fault read = Ensures-exec fault _ (λ w p. stable.ticks p) (λ e w p. stable.ticks p)

  pub Ensures-or_500 : (r : Result A) → Ensures P (or_500 r) (λ _. P)
  Ensures-or_500 (ok a) = Ensures-respond a (λ w p. p)
  Ensures-or_500 (err e) = Ensures-reject 500 _

  or_missing-stable :
      (missing : Text) (o : Option A) (w : World) → P w → P (or_missing missing o w).1
  or_missing-stable missing none w p = p
  or_missing-stable missing (some a) w p = p

  -- `get_by_id`
  pub Ensures-get :
      (fault : ℕ → Option Text) (missing : Text) (find : World → Option A)
      → Ensures P (outcome (exec_checked fault (λ v. or_missing missing (find v) v))) (λ _. P)
  Ensures-get fault missing find =
      Ensures-checked fault _
        (λ w p. or_missing-stable missing (find (tick w)) (tick w) (stable.ticks p))
        (λ e w p. stable.ticks p)

module _ {ℓ} {A : Type ℓ} where
  pub Keeps-respond : (a : A) → Keeps (respond a)
  Keeps-respond a = record { at = λ w s. s }

  pub Keeps-reject : (code : ℕ) (problem : ApiProblem) → Keeps (reject {A = A} code problem)
  Keeps-reject = Ensures-reject IsSound-IsStable

  pub Keeps-answer : (r : Reply A) → Keeps (answer r)
  Keeps-answer (done a) = record { at = λ w s. s }
  Keeps-answer (failed code problem) = record { at = λ w s. s }

  pub Keeps-exec :
      (fault : ℕ → Option Text) (f : World → A × World)
      → ((w : World) → IsSound w → IsSound (f w).1)
      → Keeps (outcome (exec fault f))
  Keeps-exec fault f h =
      Ensures-exec fault f (λ w s. h (tick w) (IsSound-tick s)) (λ e w s. IsSound-tick s)

  pub Keeps-checked :
      (fault : ℕ → Option Text) (f : World → Result A × World)
      → ((w : World) → IsSound w → IsSound (f w).1)
      → Keeps (outcome (exec_checked fault f))
  Keeps-checked fault f h =
      Ensures-checked fault f (λ w s. h (tick w) (IsSound-tick s)) (λ e w s. IsSound-tick s)

  pub Keeps-or_500 : (r : Result A) → Keeps (or_500 r)
  Keeps-or_500 = Ensures-or_500 IsSound-IsStable

  pub Keeps-or_404 : (kind id : Text) (r : Result A) → Keeps (or_404 kind id r)
  Keeps-or_404 kind id (ok a) = Keeps-respond a
  Keeps-or_404 kind id (err e) = Keeps-reject 404 _

  pub Keeps-parsed : (body : Option A) → Keeps (parsed body)
  Keeps-parsed none = Keeps-reject 400 _
  Keeps-parsed (some a) = Keeps-respond a

  pub Ensures-if :
      {P : World → Type 0} {Q : A → World → Type 0} (c : Bool) {m k : Handler A}
      → Ensures P m Q
      → Ensures P k Q
      → Ensures P (if c then m else k) Q
  Ensures-if true h k = h
  Ensures-if false h k = k

  pub Keeps-get :
      (fault : ℕ → Option Text) (missing : Text) (find : World → Option A)
      → Keeps (outcome (exec_checked fault (λ v. or_missing missing (find v) v)))
  Keeps-get = Ensures-get IsSound-IsStable
