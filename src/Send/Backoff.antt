-- ===== src/Send/Backoff.antt =====
-- src/send.rs: `backoff_delay`.
use zonemail.Prelude.{ℕ, suc, ◌-◌, ◌*◌, ◌^◌, ◌≤◌, ◌<◌, min, ◌≡◌, arith}
use native.Mathlib.Nat.{pow-le-pow_right}
use zonemail.Send.{OutboundWorkerConfig, backoff_delay}

abbrev pub delay : OutboundWorkerConfig → ℕ → ℕ
delay c n = (backoff_delay c n).secs

-- The delay before retry `n + 1` is `base_backoff * 2 ^ n`, capped at `max_backoff`, up to the
-- 63rd attempt: neither the bound on the shift nor the saturating product shows.
pub backoff_delay_lem :
    (c : OutboundWorkerConfig) (n : ℕ)
    → n ≤ 62
    → c.max_backoff.secs < 2 ^ 64
    → delay c (suc n) ≡ min (c.base_backoff.secs * 2 ^ n) c.max_backoff.secs
unfolding backoff_delay
backoff_delay_lem c n h cap = let e : min (suc n - 1) 62 ≡ n = omega arith in rw e (omega arith)

mul_mono : (k a b : ℕ) → a ≤ b → k * a ≤ k * b
mul_mono k a b h = grind arith

shift_mono : (a b : ℕ) → a ≤ b → 2 ^ min (a - 1) 62 ≤ 2 ^ min (b - 1) 62
shift_mono a b h = pow-le-pow_right {n = 2} (omega arith) (omega arith)

-- A later attempt never waits less than an earlier one, and no attempt more than `max_backoff`,
-- however large the attempt's number.
pub backoff_delay_mono :
    (c : OutboundWorkerConfig) (a b : ℕ)
    → a ≤ b
    → (delay c a ≤ delay c b) × (delay c b ≤ c.max_backoff.secs)
unfolding backoff_delay
backoff_delay_mono c a b h = omega (arith, mul_mono c.base_backoff.secs _ _ (shift_mono a b h))
