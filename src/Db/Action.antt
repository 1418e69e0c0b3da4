-- ===== src/Db/Action.antt =====
-- Handlers that read and write the tables. A call of the database or of the network may fail, and
-- what was written before the failure stays written, so the state comes back beside the error too.
use zonemail.Prelude.{ℕ, ◌+◌, Text, codes, ◌++◌, Option, none, some, Result, ok, err}
use zonemail.Db.{World}

abbrev pub Action {ℓ} : Type ℓ → Type ℓ
Action A = World → Result A × World

abbrev pub pure {ℓ} : {A : Type ℓ} → A → Action A
pure a w = (ok a, w)

abbrev pub fail {ℓ} : {A : Type ℓ} → Text → Action A
fail e w = (err e, w)

abbrev pub follow {ℓ κ} : {A : Type ℓ} {B : Type κ} → Result A → (A → Action B) → Action B
follow (ok a) f w = f a w
follow (err e) f w = (err e, w)

-- `m.await?` and the rest
infixl 5 ◌>>=◌ ◌>>◌
abbrev pub ◌>>=◌ {ℓ κ} : {A : Type ℓ} {B : Type κ} → Action A → (A → Action B) → Action B
◌>>=◌ m f w = let (r, w') = m w in follow r f w'

abbrev pub ◌>>◌ {κ} : {B : Type κ} → Action (Unit {0}) → Action B → Action B
m >> k = m >>= λ _. k

-- A result whose error is not passed on.
abbrev pub attempt {ℓ} : {A : Type ℓ} → Action A → Action (Result A)
attempt m w = let (r, w') = m w in (ok r, w')

-- `format!("{prefix}: {e}")`
abbrev pub err_text : Text → Text → Text
err_text prefix e = prefix ++ (codes ": " ++ e)

-- `map_err(|e| err(prefix, e))`, also on a plain result
abbrev pub with_prefix {ℓ} : {A : Type ℓ} → Text → Result A → Result A
with_prefix prefix (ok a) = ok a
with_prefix prefix (err e) = err (err_text prefix e)

abbrev pub map_err {ℓ} : {A : Type ℓ} → Text → Action A → Action A
map_err prefix m w = let (r, w') = m w in (with_prefix prefix r, w')

abbrev pub lift {ℓ} : {A : Type ℓ} → Result A → Action A
lift r w = (r, w)

abbrev pub tick : World → World
tick w = record w { calls = w.calls + 1 }

-- A question to code outside the repository: `answer n` is what call number `n` returns.
abbrev pub ask {ℓ} : {A : Type ℓ} → (ℕ → Result A) → Action A
ask answer w = (answer w.calls, tick w)

-- A database statement: `fault n` is the error of call number `n`, or `none` where it takes effect.
abbrev pub run_statement {ℓ} : {A : Type ℓ} → Option Text → (World → A × World) → Action A
run_statement none f w = let (a, w') = f (tick w) in (ok a, w')
run_statement (some e) f w = (err e, tick w)

abbrev pub exec {ℓ} : {A : Type ℓ} → (ℕ → Option Text) → (World → A × World) → Action A
exec fault f w = run_statement (fault w.calls) f w

-- A transaction that is dropped before its commit leaves the tables as they were.
abbrev pub settle {ℓ} : {A : Type ℓ} → World → Result A × World → Result A × World
settle w (ok a, w') = (ok a, w')
settle w (err e, w') = (err e, record w { calls = w'.calls })

abbrev pub transaction {ℓ} : {A : Type ℓ} → Action A → Action A
transaction m w = settle w (m w)

-- A statement that returns nothing.
abbrev pub effect : (World → World) → World → Unit {0} × World
effect f w = (tt, f w)

abbrev pub no_effect : World → Unit {0} × World
no_effect w = (tt, w)
