-- ===== src/SourceSync/Schedule.antt =====
-- The time of the next check of a source, after errors and after a success.
use prv_apt_mirror.Prelude.{ℕ, zero, suc, ◌+◌, ◌*◌, ◌-◌, ◌^◌, ◌≤◌, ◌≡◌, min, arith}
use native.Mathlib.Nat.{pow-suc}
use native.Mathlib.Decide.{dec_lt}
use prv_apt_mirror.SourceSync.{retry_seconds}

power_step : (n : ℕ) → 2 ^ suc n ≡ 2 * 2 ^ n
power_step n = omega (arith, pow-suc 2 n)

power-pos : (n : ℕ) → 1 ≤ 2 ^ n
power-pos zero = omega arith
power-pos (suc n) = omega (arith, power_step n, power-pos n)

-- The exponent grows by one or stays at its limit.
capped_step : (n k : ℕ) → (2 ^ min n k ≤ 2 ^ min (suc n) k) × (2 ^ min (suc n) k ≤ 2 * 2 ^ min n k)
capped_step n k = elim (dec_lt n k) [
  | yes below ↦
      let here : min n k ≡ n = omega arith in
      let next : min (suc n) k ≡ suc n = omega arith in
      rw (here, next) (omega (arith, power_step n))
  | no above ↦
      let here : min n k ≡ k = omega arith in
      let next : min (suc n) k ≡ k = omega arith in rw (here, next) (omega arith)
]

-- With an interval of at least a minute the wait after a failure is at least a minute and at
-- most the interval. One more failure never makes it shorter, and at most doubles it.
pub retry_seconds_backoff :
    (interval failures : ℕ)
    → 1 ≤ interval
    → 1 ≤ failures
    → (60 ≤ retry_seconds interval failures)
      × (retry_seconds interval failures ≤ interval * 60)
      × (retry_seconds interval failures ≤ retry_seconds interval (failures + 1))
      × (retry_seconds interval (failures + 1) ≤ 2 * retry_seconds interval failures)
unfolding retry_seconds
retry_seconds_backoff interval zero h p = absurd (omega arith)
retry_seconds_backoff interval (suc f) h p =
    let here : suc f - 1 ≡ f = omega arith in
    let next : suc f + 1 - 1 ≡ suc f = omega arith in
    rw (here, next) (omega (arith, capped_step f 8, power-pos (min f 8)))
