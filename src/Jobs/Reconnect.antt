-- ===== src/Jobs/Reconnect.antt =====
-- The reconnect policy and its delays (internal/jobs/reconnect.go, lines 10 to 30, 85 to 90 and
-- 140 to 152). A duration is an `int64`, kept as its bit pattern.
use Prim.Native.Nat.{min}
use native.Mathlib.Nat.{pow-suc}
use autostream_discord_bot.Base.{
  ℕ, zero, suc, ◌-◌, ◌*◌, ◌%◌, ◌^◌, ◌≤◌, ◌<◌, ◌≡◌, ap, inl, inr, String, Bool, true, false, not,
  ◌&&◌, ◌||◌, arith, leb, ltb, ltb→lt, ◌==◌, if◌then◌else◌, str_eq, is_empty, Bool-cases,
}
use autostream_discord_bot.Types.{VoiceJob}
use autostream_discord_bot.Jobs.{Manager, ReconnectPolicy, seconds}

-- `negsuc n` is -(n + 1).
pub data ℤ : Type 0 where
  pos : ℕ → ℤ
  negsuc : ℕ → ℤ

-- A policy as it is configured.
pub record PolicyConfig : Type 0 where
  pub enabled : Bool
  pub max_attempts : ℤ
  pub base_delay : ℤ
  pub max_delay : ℤ

-- A number, or a default where it is 0 or less.
abbrev positive_or : ℤ → ℕ → ℕ
positive_or (pos zero) d = d
positive_or (pos (suc n)) d = suc n
positive_or (negsuc n) d = d

unfoldable pub set_reconnect_policy : Manager → PolicyConfig → Manager
set_reconnect_policy m p = record m {
  reconnect_policy = record {
    enabled = p.enabled;
    max_attempts = positive_or p.max_attempts 3;
    base_delay = positive_or p.base_delay 0;
    max_delay = positive_or p.max_delay (seconds 30);
  };
}

unfoldable pub should_rejoin_voice : String → VoiceJob → ReconnectPolicy → Bool
should_rejoin_voice reason job p =
    not (not p.enabled || is_empty job.stream_id || str_eq reason "gateway_disconnect")

-- `delay * 2` and `delay > max` on int64.
abbrev double64 : ℕ → ℕ
double64 d = d * 2 % 18446744073709551616

abbrev exceeds : ℕ → ℕ → Bool
exceeds d max = ltb d 9223372036854775808 && ltb max d

-- The loop of `reconnectDelay`, with `rounds` rounds left.
unfoldable pub raised : ℕ → ℕ → ℕ → ℕ
raised max zero delay = delay
raised max (suc rounds) delay =
    let more = raised max rounds (double64 delay) in
    if not (max == 0) && exceeds (double64 delay) max then max else more

-- The delay that the policy holds is not negative, so `delay <= 0` is that it is 0.
unfoldable pub reconnect_delay : ReconnectPolicy → ℕ → ℕ
unfolding raised
reconnect_delay p attempt =
    if p.base_delay == 0 || leb attempt 1
    then p.base_delay
    else raised p.max_delay (attempt - 1) p.base_delay

grows : (n d : ℕ) → d ≤ d * 2 ^ n
grows n d = grind (arith, pow_pos n)
  where
    pow_pos : (k : ℕ) → 1 ≤ 2 ^ k
    pow_pos zero = omega arith
    pow_pos (suc k) = omega (arith, pow-suc 2 k, pow_pos k)

double_first : (n d : ℕ) → d * 2 ^ suc n ≡ d * 2 * 2 ^ n
double_first n d = omega (arith, ap (λ (t : ℕ). d * t) (pow-suc 2 n))

raised-eq :
    (max n d : ℕ)
    → 0 < max
    → max < 4611686018427387904
    → d ≤ max
    → raised max n d ≡ min (d * 2 ^ n) max
unfolding raised
raised-eq max zero d some_max small h = omega arith
raised-eq max (suc n) d some_max small h = elim (Bool-cases (ltb max (d * 2))) [
  | inl over ↦
      let passed : (not (max == 0) && exceeds (double64 d) max) ≡ true = ground arith in
      rw passed (omega (arith, ltb→lt max (d * 2) over, grows n (d * 2), double_first n d))
  | inr below ↦
      let fits : (not (max == 0) && exceeds (double64 d) max) ≡ false = ground arith in
      let exact : double64 d ≡ d * 2 = omega arith in
      rw (fits, exact, double_first n d) (raised-eq max n (d * 2) some_max small (ground arith))
]

-- While the longest delay is below 2^62 ns and the base delay is positive and no longer than it,
-- the delay before the n-th attempt is the base delay, doubled for each attempt before it, and at
-- most the longest delay.
pub reconnect_delay-eq :
    (p : ReconnectPolicy) (attempt : ℕ)
    → 0 < p.base_delay
    → p.base_delay ≤ p.max_delay
    → p.max_delay < 4611686018427387904
    → reconnect_delay p attempt ≡ min (p.base_delay * 2 ^ (attempt - 1)) p.max_delay
unfolding reconnect_delay
reconnect_delay-eq p attempt some_base ordered small = elim (Bool-cases (leb attempt 1)) [
  | inl first ↦ let none_before : attempt - 1 ≡ 0 = ground arith in rw none_before (ground arith)
  | inr later ↦
      ground (arith, raised-eq p.max_delay (attempt - 1) p.base_delay (omega arith) small ordered)
]
