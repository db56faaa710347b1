-- ===== src/Watchdog.antt =====
-- The watchdog of Discord's DAVE encryption (internal/davewatch/watchdog.go): its policy `Tick`, with
-- the results of the recovery calls as parameters. A time is a number of nanoseconds, 0 for Go's
-- zero time; `stamp.After(now.Add(-window))` is `now < stamp + window`. `events` are the calls of
-- the reporting callback. A negative setting of `Config` is 0 here: both give way to the default.
pub mod Limits
use autostream_discord_bot.Base.{
  ℕ, zero, suc, ◌+◌, ◌-◌, String, Bool, true, false, not, ◌&&◌, ◌||◌, Option, none, some, List, [],
  ◌∷◌, ◌++◌, length, keep, leb, ltb, ◌==◌, if◌then◌else◌,
}

pub record Health : Type 0 where
  pub initialized : Bool
  pub op26_sent_at : ℕ
  pub epoch_established : Bool
  pub op30_received : Bool
  -- A count; the policy asks only whether it is positive.
  pub last_missing : ℕ
  pub missing_first_seen : ℕ
  pub proposal_failed_since : ℕ

pub record Event : Type 0 where
  pub action : String
  pub reason : String
  pub result : String
  pub attempt : ℕ
  pub limit : ℕ
  pub error_class : String

pub record Config : Type 0 where
  pub tick_every : ℕ
  pub stuck_timeout : ℕ
  pub missing_timeout : ℕ
  pub diverged_timeout : ℕ
  pub resend_limit : ℕ
  pub resend_window : ℕ
  pub reset_limit : ℕ
  pub reset_window : ℕ

unfoldable pub default_config : Config
default_config = record {
  tick_every = 2_000_000_000;
  stuck_timeout = 10_000_000_000;
  missing_timeout = 15_000_000_000;
  diverged_timeout = 5_000_000_000;
  resend_limit = 3;
  resend_window = 60_000_000_000;
  reset_limit = 3;
  reset_window = 120_000_000_000;
}

-- A setting of 0 or less, here 0, gives way to the default.
abbrev or_default : ℕ → ℕ → ℕ
or_default n d = if n == 0 then d else n

unfoldable pub effective : Config → Config
unfolding default_config
effective c = record {
  tick_every = or_default c.tick_every default_config.tick_every;
  stuck_timeout = or_default c.stuck_timeout default_config.stuck_timeout;
  missing_timeout = or_default c.missing_timeout default_config.missing_timeout;
  diverged_timeout = or_default c.diverged_timeout default_config.diverged_timeout;
  resend_limit = or_default c.resend_limit default_config.resend_limit;
  resend_window = or_default c.resend_window default_config.resend_window;
  reset_limit = or_default c.reset_limit default_config.reset_limit;
  reset_window = or_default c.reset_window default_config.reset_window;
}

-- The recoveries of the past, and the events reported so far.
pub record Watchdog : Type 0 where
  pub config : Config
  pub resends : List ℕ
  pub resets : List ℕ
  pub events : List Event

unfoldable pub new_watchdog : Config → Watchdog
unfolding effective
new_watchdog c = record { config = effective c; resends = []; resets = []; events = [] }

-- `stamp.After(now.Add(-window))`.
abbrev pub is_recent : ℕ → ℕ → ℕ → Bool
is_recent now window stamp = ltb now (stamp + window)

unfoldable pub prune_older_than : ℕ → ℕ → List ℕ → List ℕ
prune_older_than now window stamps = keep (is_recent now window) stamps

abbrev reset_event : Watchdog → List ℕ → String → Bool → Event
reset_event w resets reason worked = record {
  action = "soft_reset";
  reason = reason;
  result = if worked then "success" else "failure";
  attempt = length resets;
  limit = w.config.reset_limit;
  error_class = if worked then "" else "soft_reset_failed";
}

-- `tryReset`; `worked` tells whether `SoftReset` succeeds.
unfoldable pub try_reset : Watchdog → ℕ → String → Bool → Watchdog
unfolding prune_older_than
try_reset w now reason worked =
    let recent = prune_older_than now w.config.reset_window w.resets in
    let resets = recent ++ now ∷ [] in
    if leb w.config.reset_limit (length recent)
    then record w { resets = recent }
    else record w { resets = resets; events = w.events ++ reset_event w resets reason worked ∷ [] }

abbrev resend_event : Watchdog → List ℕ → String → Bool → Event
resend_event w resends reason worked = record {
  action = "resend_key_package";
  reason = reason;
  result = if worked then "success" else "failure";
  attempt = length resends;
  limit = w.config.resend_limit;
  error_class = if worked then "" else "key_package_resend_failed";
}

-- `tryResend`: a resend that fails leads to a reset.
unfoldable pub try_resend : Watchdog → ℕ → String → Bool → Bool → Watchdog
unfolding prune_older_than try_reset
try_resend w now reason resent worked =
    let recent = prune_older_than now w.config.resend_window w.resends in
    let resends = recent ++ now ∷ [] in
    let tried = record w {
      resends = resends;
      events = w.events ++ resend_event w resends reason resent ∷ [];
    } in
    if leb w.config.resend_limit (length recent)
    then record w { resends = recent }
    else if resent
    then tried
    else try_reset tried now "welcome_resend_failed" worked

-- `now.Sub(since) > timeout` for a time that is set.
abbrev pub is_over : ℕ → ℕ → ℕ → Bool
is_over now since timeout = ltb (since + timeout) now

-- `Tick`; `present` tells whether somebody is in the channel, `resent` and `worked` what the
-- recovery calls answer.
unfoldable pub tick : Watchdog → ℕ → Bool → Health → Bool → Bool → Watchdog
unfolding try_reset try_resend
tick w now present h resent worked =
    if not present || not h.initialized || h.op26_sent_at == 0
    then w
    else if not (h.proposal_failed_since == 0)
        && is_over now h.proposal_failed_since w.config.diverged_timeout
    then try_reset w now "epoch_diverged" worked
    else if not h.epoch_established && is_over now h.op26_sent_at w.config.stuck_timeout
    then try_resend w now "welcome_timeout" resent worked
    else if h.epoch_established
        && not (h.last_missing == 0)
        && not (h.missing_first_seen == 0)
        && is_over now h.missing_first_seen w.config.missing_timeout
    then try_reset w now "missing_ratchets" worked
    else w
