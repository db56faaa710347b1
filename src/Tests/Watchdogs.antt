-- ===== src/Tests/Watchdogs.antt =====
-- The watchdog of internal/davewatch on concrete ticks, and the reconnect policy of
-- internal/jobs/reconnect.go on a concrete setting.
use Prim.Native.Nat.{min}
use autostream_discord_bot.Base.{
  ℕ, ◌-◌, ◌*◌, ◌^◌, true, false, ◌≡◌, refl, List, [], ◌∷◌, length, arith,
}
use autostream_discord_bot.Watchdog.{
  Health, default_config, new_watchdog, effective, tick, try_reset, try_resend, prune_older_than,
}
use autostream_discord_bot.Watchdog.Limits.{Tick, run, WatchdogInv, run-start-WatchdogInv}
use autostream_discord_bot.Jobs.{ReconnectPolicy, seconds}
use autostream_discord_bot.Jobs.Reconnect.{reconnect_delay, reconnect_delay-eq}

abbrev stuck : Health
stuck = record {
  initialized = true;
  op26_sent_at = 1;
  epoch_established = false;
  op30_received = false;
  last_missing = 0;
  missing_first_seen = 0;
  proposal_failed_since = 0;
}

abbrev at : ℕ → Tick
at s = record { now = seconds s; present = true; health = stuck; resent = false; worked = true }

abbrev ticks : List Tick
ticks = at 20 ∷ at 22 ∷ at 24 ∷ at 26 ∷ at 28 ∷ []

run-start-WatchdogInv_example : WatchdogInv (run (new_watchdog default_config) ticks)
run-start-WatchdogInv_example = run-start-WatchdogInv default_config ticks

-- Each resend fails and is followed by a reset, three times; then the limits hold both back.
ticks-events : length (run (new_watchdog default_config) ticks).events ≡ 6
unfolding run new_watchdog default_config effective tick try_reset try_resend prune_older_than
ticks-events = refl

abbrev policy : ReconnectPolicy
policy = record { enabled = true; max_attempts = 3; base_delay = seconds 1; max_delay = seconds 30 }

reconnect_delay-eq_example : reconnect_delay policy 6 ≡ min (seconds 1 * 2 ^ (6 - 1)) (seconds 30)
reconnect_delay-eq_example = reconnect_delay-eq policy 6 (omega arith) (omega arith) (omega arith)
