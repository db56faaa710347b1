-- ===== src/Jobs/AutoStop.antt =====
-- Stopping a stream whose voice channel is empty (internal/jobs/auto_stop.go), and the record of a
-- participant who came back meanwhile (internal/jobs/auto_stop_rejoin.go, lines 14 to 112).
pub mod Cancel
pub mod Check
use autostream_discord_bot.Base.{
  ℕ, suc, ◌+◌, ◌≤◌, String, Bool, true, false, not, ◌&&◌, ◌||◌, Option, none, some, List, [], ◌∷◌,
  ◌++◌, length, is_nil, ltb, leb, ◌==◌, if◌then◌else◌, next64, str_eq, is_empty, append, trim,
  lookup, insert, delete, get_or, has_key,
}
use autostream_discord_bot.Types.{VoiceJob, same_worker_event_job}
use autostream_discord_bot.Jobs.{
  Manager, StopState, InFlight, Observation, RejoinState, RejoinIntent,
}

unfoldable pub set_stream_stopper : Manager → Bool → Manager
set_stream_stopper m present = record m { auto_stop = record m.auto_stop { stopper = present } }

unfoldable pub has_auto_stop_in_flight : StopState → String → Bool
has_auto_stop_in_flight a stream = has_key stream a.in_flight

unfoldable pub has_pending_auto_stop : StopState → String → Bool
unfolding has_auto_stop_in_flight
has_pending_auto_stop a stream =
    if get_or stream false a.pending then true else has_auto_stop_in_flight a stream

abbrev pub invalidated : StopState → String → StopState
invalidated a stream = record a {
  generation = insert stream (next64 (get_or stream 0 a.generation)) a.generation;
  pending = delete stream a.pending;
  attempts = delete stream a.attempts;
  last_attempt = delete stream a.last_attempt;
}

-- Timers and retries stop being valid; a request that is under way goes on.
unfoldable pub invalidate_auto_stop : StopState → String → StopState
invalidate_auto_stop a stream = let s = trim stream in if is_empty s then a else invalidated a s

-- The request of `stream` that is under way, if any, is cancelled and forgotten.
unfoldable pub abort_request : StopState → String → StopState
abort_request a stream = elim (lookup stream a.in_flight) [
  | none ↦ a
  | some request ↦ record a {
    in_flight = delete stream a.in_flight;
    cancelled = request.request ∷ a.cancelled;
  }
]

unfoldable pub cancel_auto_stop : StopState → String → StopState
unfolding abort_request invalidate_auto_stop
cancel_auto_stop a stream =
    let s = trim stream in if is_empty s then a else invalidate_auto_stop (abort_request a s) s

unfoldable pub clear_auto_stop_in_flight : StopState → String → ℕ → StopState
unfolding abort_request
clear_auto_stop_in_flight a stream generation = elim (lookup stream a.in_flight) [
  | none ↦ a
  | some request ↦ if not (request.generation == generation) then a else abort_request a stream
]

unfoldable pub finish_auto_stop : StopState → String → ℕ → StopState
unfolding clear_auto_stop_in_flight
finish_auto_stop a stream generation =
    let c = clear_auto_stop_in_flight a stream generation in
    if not (get_or stream 0 c.generation == generation)
    then c
    else record c { pending = delete stream c.pending; attempts = delete stream c.attempts }

unfoldable pub auto_stop_still_valid : Manager → String → ℕ → Bool
auto_stop_still_valid m stream generation =
    get_or stream 0 m.auto_stop.generation == generation
    && get_or stream false m.auto_stop.pending
    && str_eq m.current.stream_id stream
    && is_nil m.roster.participants
    && m.auto_stop.stopper

unfoldable pub auto_stop_still_valid_for_job : Manager → String → ℕ → VoiceJob → ℕ → Bool
auto_stop_still_valid_for_job m stream generation job reconnect_generation =
    auto_stop_still_valid m stream generation
    && m.reconnect_generation == reconnect_generation
    && same_worker_event_job m.current job

unfoldable pub rejoin_intent_key : String → String → String
rejoin_intent_key guild voice = append (trim guild) (append "\0" (trim voice))

abbrev same_source : Option RejoinIntent → String → Bool
same_source none source = false
same_source (some i) source = str_eq i.source_stream_id source

abbrev intent_epoch : Manager → String → String
intent_epoch m source = elim (lookup source m.auto_stop.in_flight) [
  | none ↦ m.assignment_epoch
  | some flight ↦ flight.assignment_epoch
]

-- `recordAutoStopRejoinIntentLocked` on trimmed arguments.
abbrev recorded : Manager → String → String → String → RejoinState
recorded m source guild voice =
    let key = rejoin_intent_key guild voice in
    let seq = next64 m.rejoin.sequence in
    if same_source (lookup key m.rejoin.intents) source then m.rejoin else record m.rejoin {
      sequence = seq;
      intents =
          insert key
            (record {
              assignment_epoch = intent_epoch m source;
              guild_id = guild;
              voice_channel_id = voice;
              source_stream_id = source;
              sequence = seq;
            })
            m.rejoin.intents;
    }

unfoldable pub record_rejoin_intent : Manager → String → String → String → Manager
unfolding rejoin_intent_key
record_rejoin_intent m source guild voice =
    let s = trim source in
    let g = trim guild in
    let v = trim voice in
    if is_empty s || is_empty g || is_empty v then m else record m { rejoin = recorded m s g v }

-- `now.Sub(last) < cooldown` for a time that is set.
abbrev pub within : ℕ → ℕ → ℕ → Bool
within last cooldown now = not (last == 0) && ltb now (last + cooldown)

abbrev pub schedule : StopState → String → StopState
schedule a stream = record a {
  pending = insert stream true a.pending;
  generation = insert stream (next64 (get_or stream 0 a.generation)) a.generation;
  attempts = insert stream 0 a.attempts;
}

-- Somebody is in the channel: a request that is under way is aborted, and the return is noted.
unfoldable pub note_return : Manager → VoiceJob → Manager
unfolding record_rejoin_intent has_auto_stop_in_flight
note_return m job =
    if has_auto_stop_in_flight m.auto_stop job.stream_id
    then record_rejoin_intent m job.stream_id job.guild_id job.voice_channel_id
    else m

unfoldable pub keep_running : Manager → VoiceJob → Manager
unfolding note_return cancel_auto_stop
keep_running m job =
    let noted = note_return m job in
    record noted { auto_stop = cancel_auto_stop noted.auto_stop job.stream_id }

abbrev pub observed : Manager → VoiceJob → String → ℕ → Observation
observed m job source revision = record {
  reason = "empty_participants";
  source = source;
  participant_count = length m.roster.participants;
  snapshot_revision = revision;
  participant_state_revision = m.roster.state_revision;
  reconnect_generation = m.reconnect_generation;
  auto_stop_generation = get_or job.stream_id 0 (schedule m.auto_stop job.stream_id).generation;
  empty_revalidation_passed = false;
}

-- The channel is empty and a check is due.
unfoldable pub schedule_check : Manager → VoiceJob → String → ℕ → Manager × Option Observation
schedule_check m job source revision = (
  record m { auto_stop = schedule m.auto_stop job.stream_id },
  some (observed m job source revision),
)

-- A check is under way, or the last attempt was just made.
abbrev pub is_held : StopState → String → ℕ → Bool
is_held a stream now =
    get_or stream false a.pending || within (get_or stream 0 a.last_attempt) a.cooldown now

-- `updateAutoStopForParticipantSetLocked`.
unfoldable pub update_auto_stop : Manager → VoiceJob → ℕ → String → ℕ → Manager × Option Observation
update_auto_stop m job now source revision =
    if not (is_nil m.roster.participants)
    then (keep_running m job, none)
    else if not m.auto_stop.stopper
    then (m, none)
    else if is_held m.auto_stop job.stream_id now
    then (m, none)
    else schedule_check m job source revision
