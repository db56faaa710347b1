-- ===== src/Tests/Starts.antt =====
-- Automatic starts and the configuration of streams (internal/jobs/auto_start.go and
-- voice_defaults.go), and the handlers of speakers, on concrete managers.
use autostream_discord_bot.Base.{
  none, any, ◌==◌, ◌⊎◌, String, true, false, ◌≡◌, refl, some, List, [], ◌∷◌, is_some, trim, str_eq,
  lookup,
}
use autostream_discord_bot.Types.{VoiceJoinEvent}
use autostream_discord_bot.Jobs.{Manager, VoiceDefaults, AutoStartRetry, new_manager}
use autostream_discord_bot.Jobs.Defaults.{set_stream_voice_defaults}
use autostream_discord_bot.Jobs.Defaults.Retention.{Backed, set_stream_voice_defaults-Backed}
use autostream_discord_bot.Jobs.AutoStart.{
  waits_for, match_stream, matching_auto_start_stream, trimmed_event, voice_user_joined,
  user_joined, join_waiting, reserve, rearm, reserve_start, in_flight_stream_for_voice,
  match_in_flight, authority_matches, retry_valid,
}
use autostream_discord_bot.Jobs.AutoStart.Matching.{matching_auto_start_stream_unique}
use autostream_discord_bot.Jobs.AutoStart.Reservation.{
  Reserves, reserving_state, voice_user_joined-Reserves,
}

abbrev waiting : VoiceDefaults
waiting = record {
  assignment_epoch = "epoch";
  guild_id = "guild";
  voice_channel_id = "voice";
  text_channel_id = "";
  auto_start_enabled = true;
}

abbrev elsewhere : VoiceDefaults
elsewhere = record waiting { voice_channel_id = "lobby" }

abbrev retry : AutoStartRetry
retry = record {
  id = 7;
  assignment_epoch = "epoch";
  reconnect_generation = 0;
  guild_id = "guild";
  voice_channel_id = "voice";
  capacity_busy = false;
}

-- No job runs; one stream waits for the channel and one for another, and a third was stopped.
abbrev idle : Manager
idle = record (new_manager true) {
  auto_start = record (new_manager true).auto_start {
    starter = true;
    stream_defaults = ("stream", waiting) ∷ ("other", elsewhere) ∷ [];
    stopped = ("third", elsewhere) ∷ [];
  };
}

-- The same with a start of the first one reserved.
abbrev starting : Manager
starting = record idle {
  auto_start = record idle.auto_start {
    retries = ("stream", retry) ∷ [];
    pending = ("stream", 5) ∷ [];
  };
}

abbrev joins : VoiceJoinEvent
joins = record {
  authority = some (record { stream_id = "stream"; assignment_epoch = "epoch" });
  existing_presence = false;
  guild_id = " guild";
  voice_channel_id = "voice";
  user_id = "ann";
  username = "Ann";
}

matching-idle : matching_auto_start_stream idle.auto_start "guild" "voice" ≡ "stream"
unfolding matching_auto_start_stream match_stream trim
matching-idle = refl

matching_auto_start_stream_unique_example :
    str_eq (matching_auto_start_stream idle.auto_start "guild" "voice") "other"
    ≡ waits_for (trim "guild") (trim "voice") elsewhere
matching_auto_start_stream_unique_example =
    matching_auto_start_stream_unique idle.auto_start "guild" "voice" "other" elsewhere
      (unfold lookup in (refl, (refl, tt))) (refl, (refl, tt))
      (unfold matching_auto_start_stream match_stream trim in refl) (unfold lookup in refl)

voice_user_joined-Reserves_example :
    Reserves
      (reserving_state idle (trimmed_event joins) 9 (λ m. m))
      (trimmed_event joins)
      (voice_user_joined idle joins 9 true (λ m. m))
voice_user_joined-Reserves_example = voice_user_joined-Reserves idle joins 9 true (λ m. m)

-- The start is reserved.
joins-reserves : is_some (voice_user_joined idle joins 9 true (λ m. m)).1 ≡ true
unfolding voice_user_joined user_joined in_flight_stream_for_voice match_in_flight join_waiting
    matching_auto_start_stream match_stream reserve rearm reserve_start authority_matches trim
    lookup new_manager
joins-reserves = refl

retry_valid-starting : retry_valid starting "stream" retry ≡ true
unfolding retry_valid matching_auto_start_stream match_stream trim lookup new_manager
retry_valid-starting = refl

abbrev configured : List (String × VoiceDefaults)
configured = (" stream ", waiting) ∷ ("", elsewhere) ∷ []

set_stream_voice_defaults-Backed_example :
    let u = (set_stream_voice_defaults starting configured).auto_start in
    (lookup "stream" u.retries ≡ some retry) × Backed u.stream_defaults "stream" retry
    ⊎ (lookup "stream" u.retries ≡ none) × (any (λ i. i == 7) u.cancelled ≡ true)
set_stream_voice_defaults-Backed_example =
    set_stream_voice_defaults-Backed starting configured "stream" retry
      (unfold lookup in (refl, tt)) (unfold lookup in refl)
