-- ===== src/Retry/Backoff.antt =====
-- The delay before a failed report is tried again (`requeue` in internal/jobs/event_retry.go).
use Prim.Native.Nat.{min}
use native.Mathlib.Nat.{pow-suc}
use autostream_discord_bot.Base.{
  ℕ, zero, suc, ◌-◌, ◌*◌, ◌^◌, ◌≤◌, ◌<◌, ◌≡◌, ap, inl, inr, arith, leb, leb→le, Bool-cases,
}
use autostream_discord_bot.Retry.{retry_base, retry_max, doubled, retry_delay}

pow_pos : (n : ℕ) → 1 ≤ 2 ^ n
pow_pos zero = omega arith
pow_pos (suc n) = omega (arith, pow-suc 2 n, pow_pos n)

grows : (n d : ℕ) → d ≤ d * 2 ^ n
grows n d = grind (arith, pow_pos n)

-- Doubling first or last comes to the same.
double_first : (n d : ℕ) → d * 2 ^ suc n ≡ d * 2 * 2 ^ n
double_first n d = omega (arith, ap (λ (t : ℕ). d * t) (pow-suc 2 n))

doubled-eq : (n d : ℕ) → d < retry_max → doubled n d ≡ min (d * 2 ^ n) retry_max
unfolding doubled
doubled-eq zero d h = omega arith
doubled-eq (suc n) d h = elim (Bool-cases (leb retry_max (d * 2))) [
  | inl over ↦ rw over (omega (arith, leb→le _ _ over, grows n (d * 2), double_first n d))
  | inr below ↦ rw (below, double_first n d) (doubled-eq n (d * 2) (ground arith))
]

-- The delay after the n-th failed try is 250 ms, doubled for each failure before it, and at most 3
-- s.
pub retry_delay-eq :
    (attempts : ℕ) → retry_delay attempts ≡ min (retry_base * 2 ^ (attempts - 1)) retry_max
unfolding retry_delay
retry_delay-eq attempts = doubled-eq (attempts - 1) retry_base (omega arith)
