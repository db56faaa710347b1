-- ===== src/Jobs/AutoStart.antt =====
-- Starting a waiting stream when somebody joins its voice channel (internal/jobs/auto_start.go and
-- auto_start_capacity.go): the reservation of a start, its checks and its end. The refresh of the
-- runtime configuration and what other goroutines do while the lock is free are parameters.
pub mod Matching
pub mod Reservation
use autostream_discord_bot.Base.{
  ℕ, suc, ◌+◌, String, Bool, true, false, not, ◌&&◌, ◌||◌, Option, none, some, List, [], ◌∷◌, ltb,
  ◌==◌, if◌then◌else◌, str_eq, is_empty, append, trim, lookup, insert, delete, get_or, has_key,
}
use autostream_discord_bot.Types.{AutoStartAuthority, VoiceJoinEvent}
use autostream_discord_bot.Jobs.{
  Manager, StartState, StopState, InFlight, VoiceDefaults, AutoStartRetry, no_defaults, seconds,
}
use autostream_discord_bot.Jobs.AutoStop.{
  cancel_auto_stop, has_auto_stop_in_flight, record_rejoin_intent, within,
}

unfoldable pub set_stream_starter : Manager → Bool → Manager
set_stream_starter m present = record m { auto_start = record m.auto_start { starter = present } }

unfoldable pub set_auto_start_refresher : Manager → Bool → Manager
set_auto_start_refresher m present = record m {
  auto_start = record m.auto_start { refresher = present; refresh_at = 0 };
}

-- A waiting stream that starts by itself when somebody joins this channel.
abbrev pub waits_for : String → String → VoiceDefaults → Bool
waits_for guild voice d =
    d.auto_start_enabled && str_eq d.guild_id guild && str_eq d.voice_channel_id voice

-- The loop over the waiting streams; `matched` is "" until one is found.
unfoldable pub match_stream : String → String → String → List (String × VoiceDefaults) → String
match_stream guild voice matched [] = matched
match_stream guild voice matched ((stream, d) ∷ rest) =
    let hit = waits_for guild voice d in
    let more = match_stream guild voice (if hit then stream else matched) rest in
    if hit && not (is_empty matched) then "" else more

-- `matchingAutoStartStreamLocked`: "" if no stream waits for the channel, or more than one.
unfoldable pub matching_auto_start_stream : StartState → String → String → String
unfolding match_stream
matching_auto_start_stream a guild voice =
    if is_empty (trim guild) || is_empty (trim voice)
    then ""
    else match_stream (trim guild) (trim voice) "" a.stream_defaults

abbrev names : Option AutoStartAuthority → String → String → Bool
names none stream epoch = is_empty epoch
names (some a) stream epoch = str_eq a.stream_id stream && str_eq a.assignment_epoch epoch

-- `autoStartAuthorityMatches`.
unfoldable pub authority_matches : String → String → VoiceJoinEvent → Bool
authority_matches stream epoch event = names event.authority stream epoch

abbrev pub waiting_epoch : StartState → String → String
waiting_epoch a stream = (get_or stream no_defaults a.stream_defaults).assignment_epoch

abbrev is_of : String → String → InFlight → Bool
is_of guild voice r = str_eq r.job.guild_id guild && str_eq r.job.voice_channel_id voice

unfoldable pub match_in_flight : String → String → String → List (String × InFlight) → String
match_in_flight guild voice matched [] = matched
match_in_flight guild voice matched ((stream, r) ∷ rest) =
    let hit = is_of guild voice r in
    let more = match_in_flight guild voice (if hit then stream else matched) rest in
    if hit && not (is_empty matched) && not (str_eq matched stream) then "" else more

-- `inFlightAutoStopStreamForVoiceLocked`.
unfoldable pub in_flight_stream_for_voice : StopState → String → String → String
unfolding match_in_flight
in_flight_stream_for_voice a guild voice =
    if is_empty (trim guild) || is_empty (trim voice)
    then ""
    else match_in_flight (trim guild) (trim voice) "" a.in_flight

-- Somebody joins while a job runs: a stop of its empty channel is called off.
unfoldable pub join_running : Manager → VoiceJoinEvent → Manager
unfolding authority_matches has_auto_stop_in_flight record_rejoin_intent cancel_auto_stop
join_running m event =
    let stream = m.current.stream_id in
    let noted = record_rejoin_intent m stream event.guild_id event.voice_channel_id in
    if event.existing_presence || not (authority_matches stream m.assignment_epoch event)
    then m
    else if str_eq m.current.guild_id event.guild_id
        && str_eq m.current.voice_channel_id event.voice_channel_id
        && has_auto_stop_in_flight m.auto_stop stream
    then record noted { auto_stop = cancel_auto_stop noted.auto_stop stream }
    else m

abbrev flight_epoch : Option InFlight → String
flight_epoch none = ""
flight_epoch (some r) = r.assignment_epoch

-- Somebody joins the channel of a job that is just being stopped for being alone.
unfoldable pub join_stopping : Manager → VoiceJoinEvent → String → Manager
unfolding authority_matches record_rejoin_intent
join_stopping m event source =
    let epoch = flight_epoch (lookup source m.auto_stop.in_flight) in
    if event.existing_presence || not (authority_matches source epoch event)
    then m
    else record_rejoin_intent m source event.guild_id event.voice_channel_id

-- `shouldLogAutoStartLocked`: the state that it leaves.
unfoldable pub note_log : Manager → String → ℕ → Manager
note_log m key now =
    let a = m.auto_start in
    if str_eq key a.last_log_key && within a.last_log_at (seconds 10) now
    then m
    else record m { auto_start = record a { last_log_key = key; last_log_at = now } }

-- A stream that was stopped is armed again by a new join.
unfoldable pub rearm : Manager → String → Manager
rearm m stream =
    let a = m.auto_start in
    if has_key stream a.stopped
    then record m {
      auto_start = record a {
        stopped = delete stream a.stopped;
        pending = delete stream a.pending;
      };
    }
    else m

abbrev cools : Option ℕ → ℕ → ℕ → Bool
cools none cooldown now = false
cools (some last) cooldown now = ltb now (last + cooldown)

abbrev pub new_retry : Manager → VoiceJoinEvent → String → AutoStartRetry
new_retry m event stream = record {
  id = m.next_id;
  assignment_epoch = waiting_epoch m.auto_start stream;
  reconnect_generation = m.reconnect_generation;
  guild_id = event.guild_id;
  voice_channel_id = event.voice_channel_id;
  capacity_busy = false;
}

abbrev pub reserved : Manager → VoiceJoinEvent → ℕ → String → Manager
reserved m event now stream = record m {
  auto_start = record m.auto_start {
    pending = insert stream now m.auto_start.pending;
    retries = insert stream (new_retry m event stream) m.auto_start.retries;
  };
  last_event_at = now;
  next_id = suc m.next_id;
}

-- What a join leads to: the state, and the start that is reserved, whose requests a goroutine makes.
abbrev pub Joined : Type 0
Joined = Manager × Option (String × AutoStartRetry)

-- A start of the stream is reserved, or the last one was just reserved.
abbrev pub start_held : StartState → String → ℕ → Bool
start_held a stream now = has_key stream a.retries || cools (lookup stream a.pending) a.cooldown now

unfoldable pub reserve_start : Manager → VoiceJoinEvent → ℕ → String → Joined
reserve_start m event now stream =
    if start_held m.auto_start stream now
    then (m, none)
    else (reserved m event now stream, some (stream, new_retry m event stream))

unfoldable pub reserve : Manager → VoiceJoinEvent → ℕ → String → Joined
unfolding authority_matches note_log rearm reserve_start
reserve m event now stream =
    let a = m.auto_start in
    if is_empty stream
    then (note_log m "no-candidate" now, none)
    else if not (authority_matches stream (waiting_epoch a stream) event)
    then (m, none)
    else if not a.starter
    then (note_log m (append "starter-missing:" stream) now, none)
    else if has_key stream a.stopped && event.existing_presence
    then (m, none)
    else reserve_start (rearm m stream) event now stream

abbrev pub refresh_due : StartState → ℕ → Bool
refresh_due a now =
    a.refresher
    && (a.refresh_wait == 0 || a.refresh_at == 0 || not (ltb now (a.refresh_at + a.refresh_wait)))

-- After the refresh, if it succeeded.
unfoldable pub after_refresh : Manager → VoiceJoinEvent → ℕ → Bool → Joined
unfolding matching_auto_start_stream reserve
after_refresh m event now refreshed =
    let stream = matching_auto_start_stream m.auto_start event.guild_id event.voice_channel_id in
    if not refreshed || not (is_empty m.current.stream_id)
    then (m, none)
    else reserve m event now stream

abbrev pub refreshing : Manager → ℕ → Manager
refreshing m now = record m { auto_start = record m.auto_start { refresh_at = now } }

-- The join of a channel while no job runs. `others` acts while the configuration is refreshed, or
-- between the two sections where it is not; `refreshed` tells whether the refresh succeeds.
unfoldable pub join_waiting : Manager → VoiceJoinEvent → ℕ → Bool → (Manager → Manager) → Joined
unfolding matching_auto_start_stream after_refresh reserve
join_waiting m event now refreshed others =
    let stream = matching_auto_start_stream m.auto_start event.guild_id event.voice_channel_id in
    if is_empty stream && refresh_due m.auto_start now
    then after_refresh (others (refreshing m now)) event now refreshed
    else reserve (others m) event now stream

abbrev pub trimmed_event : VoiceJoinEvent → VoiceJoinEvent
trimmed_event event = record event {
  guild_id = trim event.guild_id;
  voice_channel_id = trim event.voice_channel_id;
  user_id = trim event.user_id;
}

-- `VoiceUserJoined` on an event with trimmed identifiers.
unfoldable pub user_joined : Manager → VoiceJoinEvent → ℕ → Bool → (Manager → Manager) → Joined
unfolding join_running join_stopping in_flight_stream_for_voice join_waiting
user_joined m event now refreshed others =
    let source = in_flight_stream_for_voice m.auto_stop event.guild_id event.voice_channel_id in
    if is_empty event.guild_id || is_empty event.voice_channel_id || is_empty event.user_id
    then (m, none)
    else if not (is_empty m.current.stream_id)
    then (join_running m event, none)
    else if not (is_empty source)
    then (join_stopping m event source, none)
    else join_waiting m event now refreshed others

unfoldable pub voice_user_joined :
    Manager → VoiceJoinEvent → ℕ → Bool → (Manager → Manager) → Joined
unfolding user_joined
voice_user_joined m event now refreshed others =
    user_joined m (trimmed_event event) now refreshed others

abbrev holds : Option AutoStartRetry → ℕ → Bool
holds none id = false
holds (some r) id = r.id == id

-- `autoStartRetryStillValidLocked`.
unfoldable pub retry_valid : Manager → String → AutoStartRetry → Bool
unfolding matching_auto_start_stream
retry_valid m stream r =
    holds (lookup stream m.auto_start.retries) r.id
    && is_empty m.current.stream_id
    && m.reconnect_generation == r.reconnect_generation
    && str_eq (waiting_epoch m.auto_start stream) r.assignment_epoch
    && str_eq (matching_auto_start_stream m.auto_start r.guild_id r.voice_channel_id) stream

-- What the client knows of people in the channel: it cannot be asked, does not know, or knows.
pub data Presence : Type 0 where
  no_view : Presence
  unknown : Presence
  known : Bool → Presence

unfoldable pub cancel_auto_start_retry : StartState → String → StartState
cancel_auto_start_retry a stream = elim (lookup stream a.retries) [
  | none ↦ a
  | some r ↦ record a { retries = delete stream a.retries; cancelled = r.id ∷ a.cancelled }
]

-- Nobody is there, as far as the client knows: the start is given up, and its cooldown with it.
unfoldable pub give_up : Manager → String → Manager
unfolding cancel_auto_start_retry
give_up m stream =
    let a = cancel_auto_start_retry m.auto_start stream in
    record m { auto_start = record a { pending = delete stream a.pending } }

unfoldable pub after_view : Manager → String → AutoStartRetry → Bool → Manager × Bool
unfolding retry_valid give_up
after_view m stream r present =
    if not (retry_valid m stream r)
    then (m, false)
    else if present
    then (m, true)
    else (give_up m stream, false)

unfoldable pub view_presence :
    Manager → String → AutoStartRetry → Presence → (Manager → Manager) → Manager × Bool
unfolding after_view
view_presence m stream r no_view others = (m, true)
view_presence m stream r unknown others = after_view (others m) stream r false
view_presence m stream r (known present) others = after_view (others m) stream r present

-- `autoStartRetryStillValid`; `others` acts while the client is asked.
unfoldable pub auto_start_retry_still_valid :
    Manager → String → AutoStartRetry → Presence → (Manager → Manager) → Manager × Bool
unfolding retry_valid view_presence
auto_start_retry_still_valid m stream r view others =
    if not (retry_valid m stream r) then (m, false) else view_presence m stream r view others

-- `noteAutoStartCapacityResult`: whether the answer was that the node is busy.
unfoldable pub note_auto_start_capacity_result :
    StartState → String → AutoStartRetry → Bool → StartState
note_auto_start_capacity_result a stream r busy =
    if holds (lookup stream a.retries) r.id
    then record a { retries = insert stream (record r { capacity_busy = busy }) a.retries }
    else a

abbrev is_busy : Option AutoStartRetry → Bool
is_busy none = false
is_busy (some r) = r.capacity_busy

-- `finishAutoStartRetry`.
unfoldable pub finish_auto_start_retry : Manager → String → AutoStartRetry → Manager
finish_auto_start_retry m stream r =
    let a = m.auto_start in
    let free = is_busy (lookup stream a.retries) && is_empty m.current.stream_id in
    if holds (lookup stream a.retries) r.id
    then record m {
      auto_start = record a {
        pending = if free then delete stream a.pending else a.pending;
        retries = delete stream a.retries;
        cancelled = r.id ∷ a.cancelled;
      };
    }
    else record m { auto_start = record a { cancelled = r.id ∷ a.cancelled } }
