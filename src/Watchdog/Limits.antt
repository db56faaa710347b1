-- ===== src/Watchdog/Limits.antt =====
-- How often the watchdog recovers (internal/davewatch/watchdog.go): within each window at most the
-- limit, and never without cause.
use autostream_discord_bot.Base.{
  ℕ, ◌≤◌, String, Bool, false, not, ◌&&◌, ◌||◌, ◌≡◌, List, [], ◌∷◌, ◌++◌, arith, length,
  length-append, length-keep-le, leb, ◌==◌, if_case,
}
use autostream_discord_bot.Watchdog.{
  Config, Health, Watchdog, new_watchdog, prune_older_than, is_recent, try_reset, try_resend, tick,
  is_over,
}

pub record WatchdogInv (w : Watchdog) : Type 0 where
  pub resends_limited : length w.resends ≤ w.config.resend_limit
  pub resets_limited : length w.resets ≤ w.config.reset_limit

pub new_watchdog-WatchdogInv : (c : Config) → WatchdogInv (new_watchdog c)
unfolding new_watchdog
new_watchdog-WatchdogInv c = record { resends_limited = omega arith; resets_limited = omega arith }

length-prune :
    (now window : ℕ) (stamps : List ℕ) → length (prune_older_than now window stamps) ≤ length stamps
unfolding prune_older_than
length-prune now window stamps = length-keep-le (is_recent now window) stamps

try_reset-WatchdogInv :
    (w : Watchdog) (now : ℕ) (reason : String) (worked : Bool)
    → WatchdogInv w
    → WatchdogInv (try_reset w now reason worked)
unfolding try_reset
try_reset-WatchdogInv w now reason worked v =
    let recent = prune_older_than now w.config.reset_window w.resets in
    if_case WatchdogInv (leb w.config.reset_limit (length recent))
      (λ full. record {
        resends_limited = v.resends_limited;
        resets_limited =
            omega (arith, v.resets_limited, length-prune now w.config.reset_window w.resets);
      })
      λ room. record {
        resends_limited = v.resends_limited;
        resets_limited = ground (arith, length-append recent (now ∷ []));
      }

try_resend-WatchdogInv :
    (w : Watchdog) (now : ℕ) (reason : String) (resent worked : Bool)
    → WatchdogInv w
    → WatchdogInv (try_resend w now reason resent worked)
unfolding try_resend
try_resend-WatchdogInv w now reason resent worked v =
    let recent = prune_older_than now w.config.resend_window w.resends in
    let limited : leb w.config.resend_limit (length recent) ≡ false
        → length (recent ++ now ∷ []) ≤ w.config.resend_limit =
      λ room. ground (arith, length-append recent (now ∷ [])) in
    if_case WatchdogInv (leb w.config.resend_limit (length recent))
      (λ full. record {
        resends_limited =
            omega (arith, v.resends_limited, length-prune now w.config.resend_window w.resends);
        resets_limited = v.resets_limited;
      })
      λ room.
        if_case WatchdogInv resent
          (λ went. record { resends_limited = limited room; resets_limited = v.resets_limited })
          λ failed.
            try_reset-WatchdogInv _ now "welcome_resend_failed" worked
              (record { resends_limited = limited room; resets_limited = v.resets_limited })

tick-WatchdogInv :
    (w : Watchdog) (now : ℕ) (present : Bool) (h : Health) (resent worked : Bool)
    → WatchdogInv w
    → WatchdogInv (tick w now present h resent worked)
unfolding tick
tick-WatchdogInv w now present h resent worked v =
    if_case WatchdogInv (not present || not h.initialized || h.op26_sent_at == 0) (λ _. v)
      λ _.
        if_case WatchdogInv
          (not (h.proposal_failed_since == 0)
            && is_over now h.proposal_failed_since w.config.diverged_timeout)
          (λ _. try_reset-WatchdogInv w now "epoch_diverged" worked v)
          λ _.
            if_case WatchdogInv
              (not h.epoch_established && is_over now h.op26_sent_at w.config.stuck_timeout)
              (λ _. try_resend-WatchdogInv w now "welcome_timeout" resent worked v)
              λ _.
                if_case WatchdogInv
                  (h.epoch_established
                    && not (h.last_missing == 0)
                    && not (h.missing_first_seen == 0)
                    && is_over now h.missing_first_seen w.config.missing_timeout)
                  (λ _. try_reset-WatchdogInv w now "missing_ratchets" worked v) λ _. v

-- One tick of the watchdog's clock: the time, and what the world answers then.
pub record Tick : Type 0 where
  pub now : ℕ
  pub present : Bool
  pub health : Health
  pub resent : Bool
  pub worked : Bool

-- The loop of `Run` over the ticks until its context is cancelled.
unfoldable pub run : Watchdog → List Tick → Watchdog
run w [] = w
run w (t ∷ ticks) = run (tick w t.now t.present t.health t.resent t.worked) ticks

run-WatchdogInv : (w : Watchdog) (ticks : List Tick) → WatchdogInv w → WatchdogInv (run w ticks)
unfolding run
run-WatchdogInv w [] v = v
run-WatchdogInv w (t ∷ ticks) v =
    run-WatchdogInv (tick w t.now t.present t.health t.resent t.worked) ticks
      (tick-WatchdogInv w t.now t.present t.health t.resent t.worked v)

-- After any sequence of ticks, whatever the health and the answers of the recovery calls, the
-- watchdog remembers at most resend_limit resends and reset_limit resets.
pub run-start-WatchdogInv :
    (c : Config) (ticks : List Tick) → WatchdogInv (run (new_watchdog c) ticks)
run-start-WatchdogInv c ticks = run-WatchdogInv (new_watchdog c) ticks (new_watchdog-WatchdogInv c)
