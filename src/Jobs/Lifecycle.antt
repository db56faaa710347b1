-- ===== src/Jobs/Lifecycle.antt =====
-- Starting, stopping and reconnecting a stream job (internal/jobs/manager.go, lines 127 to 270, and
-- internal/jobs/reconnect.go, lines 32 to 138). A handler lets go of the lock while it calls the
-- Discord client: what the client answers is a parameter, and so is what other goroutines do
-- meanwhile (`others`). The goroutines that a handler starts are not part of it.
pub mod Fences
pub mod Outcome
use autostream_discord_bot.Base.{
  ℕ, zero, suc, ◌+◌, String, Bool, true, false, not, ◌&&◌, ◌||◌, Option, none, some, List, [], ◌∷◌,
  ◌++◌, is_nil, ◌==◌, if◌then◌else◌, next64, str_eq, is_empty, trim, lookup, insert, delete, get_or,
  has_key,
}
use autostream_discord_bot.Types.{VoiceJob, ParticipantSnapshot, no_job, same_worker_event_job}
use autostream_discord_bot.Retry
use autostream_discord_bot.Retry.{Queue, new_queue}
use autostream_discord_bot.Jobs.{
  Manager, StartState, VoiceDefaults, AutoStartRetry, ReconnectPolicy, Error, stream_id_required,
  guild_id_required, voice_channel_id_required, job_stopping, another_job_active, no_active_job,
  stream_mismatch, voice_failed, no_defaults,
}
use autostream_discord_bot.Jobs.AutoStop.{cancel_auto_stop, invalidate_auto_stop}
use autostream_discord_bot.Jobs.AutoStop.Check.{View, no_source, unavailable, seen}
use autostream_discord_bot.Jobs.Roster.{Task}
use autostream_discord_bot.Jobs.Sync.{
  cancel_sync, restart_participant_sync, hydrate_voice_participants,
}
use autostream_discord_bot.Jobs.Defaults.{apply_voice_defaults}
use autostream_discord_bot.Jobs.Reconnect.{should_rejoin_voice}

abbrev retry_ids : List (String × AutoStartRetry) → List ℕ
retry_ids [] = []
retry_ids ((k, r) ∷ rest) = r.id ∷ retry_ids rest

unfoldable pub cancel_all_auto_start_retries : StartState → StartState
cancel_all_auto_start_retries a = record a {
  retries = [];
  cancelled = retry_ids a.retries ++ a.cancelled;
}

-- A new retry queue takes the place of the old one, which is stopped.
unfoldable pub renew_worker_retry : Manager → Manager
unfolding new_queue
renew_worker_retry m = record m {
  worker_retry = some (m.next_id, new_queue);
  next_id = suc m.next_id;
}

-- The epoch of a stream: of its waiting entry, or of the retained one.
abbrev epoch_of : StartState → String → String
epoch_of a stream = elim (lookup stream a.stream_defaults) [
  | none ↦ (get_or stream no_defaults a.last_stream_defaults).assignment_epoch
  | some d ↦ d.assignment_epoch
]

-- The checks of `Start`, on the job with its defaults.
unfoldable pub refuse_start : Manager → VoiceJob → Option Error
refuse_start m job =
    if is_empty (trim job.stream_id)
    then some stream_id_required
    else if is_empty (trim job.guild_id)
    then some guild_id_required
    else if is_empty (trim job.voice_channel_id)
    then some voice_channel_id_required
    else if m.stopping
    then some job_stopping
    else if not (is_empty m.current.stream_id) && not (str_eq m.current.stream_id job.stream_id)
    then some another_job_active
    else none

-- The section before the voice channel is joined.
unfoldable pub begin_start : Manager → VoiceJob → Manager
unfolding cancel_auto_stop
begin_start m job = record m { auto_stop = cancel_auto_stop m.auto_stop job.stream_id }

-- The section after it was joined.
unfoldable pub commit_start : Manager → VoiceJob → String → ℕ → Manager
unfolding restart_participant_sync renew_worker_retry cancel_all_auto_start_retries
commit_start m job epoch now =
    let base = renew_worker_retry (restart_participant_sync m) in
    record base {
      reconnect_generation = next64 m.reconnect_generation;
      current = job;
      assignment_epoch = epoch;
      stopping = false;
      disconnected = false;
      started_at = now;
      last_event_at = now;
      roster = record {
        participants = [];
        snapshot_revision = 0;
        state_revision = 0;
        active_speaker = "";
        active_speakers = [];
      };
      auto_start =
          cancel_all_auto_start_retries
            (record m.auto_start { pending = delete job.stream_id m.auto_start.pending });
    }

-- `Start` after its checks; `joined` tells whether `JoinVoice` succeeded, `view` what the client
-- then knows of the channel.
unfoldable pub start_checked :
    Manager → VoiceJob → Bool → (Manager → Manager) → View → ℕ → Manager × Option Error × List Task
start_checked m job joined others view now =
    let waiting = others (begin_start m job) in
    let epoch = epoch_of m.auto_start job.stream_id in
    let hydrated = hydrate_voice_participants (commit_start waiting job epoch now) view true now in
    if not joined then (waiting, some voice_failed, []) else (hydrated.0, none, hydrated.1)

unfoldable pub start :
    Manager → VoiceJob → Bool → (Manager → Manager) → View → ℕ → Manager × Option Error × List Task
start m job joined others view now =
    let full = apply_voice_defaults m.auto_start job in
    elim (refuse_start m full) [
      | none ↦ start_checked m full joined others view now
      | some e ↦ (m, some e, [])
    ]

unfoldable pub refuse_stop : Manager → String → Option Error
refuse_stop m stream =
    if is_empty m.current.stream_id
    then some no_active_job
    else if m.stopping
    then some job_stopping
    else if not (is_empty stream) && not (str_eq stream m.current.stream_id)
    then some stream_mismatch
    else none

-- The first section of `Stop`: the retries are cancelled also where the stop is refused.
unfoldable pub without_retries : Manager → Manager
unfolding cancel_all_auto_start_retries
without_retries m = record m { auto_start = cancel_all_auto_start_retries m.auto_start }

unfoldable pub begin_stop : Manager → Manager
unfolding without_retries invalidate_auto_stop
begin_stop m = record (without_retries m) {
  auto_stop = invalidate_auto_stop m.auto_stop m.current.stream_id;
  stopping = true;
  worker_retry = none;
  reconnect_generation = next64 m.reconnect_generation;
}

-- `LeaveVoice` failed: the job goes on, if it is still the one that was being stopped.
unfoldable pub resume : Manager → String → Manager
unfolding restart_participant_sync renew_worker_retry
resume m stream =
    if str_eq m.current.stream_id stream && m.stopping
    then renew_worker_retry (restart_participant_sync (record m { stopping = false }))
    else m

-- `LeaveVoice` succeeded.
unfoldable pub commit_stop : Manager → String → ℕ → Manager
commit_stop m stream now = record m {
  cancelled = cancel_sync m.sync m.cancelled;
  sync = none;
  worker_retry = none;
  auto_start = record m.auto_start {
    stopped =
        insert stream
          (record no_defaults {
            assignment_epoch = m.assignment_epoch;
            guild_id = m.current.guild_id;
            voice_channel_id = m.current.voice_channel_id;
          })
          m.auto_start.stopped;
  };
  current = no_job;
  stopping = false;
  started_at = 0;
  last_event_at = now;
  roster = record m.roster { participants = []; active_speaker = ""; active_speakers = [] };
}

abbrev pub end_stop : Manager → String → Bool → ℕ → Manager × Option Error
end_stop m stream left now =
    if left then (commit_stop m stream now, none) else (resume m stream, some voice_failed)

unfoldable pub stop : Manager → String → Bool → (Manager → Manager) → ℕ → Manager × Option Error
stop m stream left others now = elim (refuse_stop m stream) [
  | none ↦ end_stop (others (begin_stop m)) m.current.stream_id left now
  | some e ↦ (without_retries m, some e)
]

unfoldable pub discord_connected : Manager → ℕ → Manager
unfolding restart_participant_sync renew_worker_retry
discord_connected m now =
    let woken = record m { last_event_at = now; disconnected = false } in
    if not (is_empty m.current.stream_id) && not m.stopping
    then restart_participant_sync (renew_worker_retry woken)
    else record woken { worker_retry = none }

-- The state after `DiscordDisconnected`, and whether it starts to rejoin the channel.
unfoldable pub discord_disconnected : Manager → String → ℕ → Manager × Bool
unfolding without_retries
discord_disconnected m reason now = (
  record (without_retries m) {
    last_event_at = now;
    cancelled = cancel_sync m.sync m.cancelled;
    sync = none;
    disconnected = true;
    worker_retry = none;
    reconnect_generation = next64 m.reconnect_generation;
  },
  not m.stopping && should_rejoin_voice reason m.current m.reconnect_policy,
)

-- `generation` and `job` are still the current ones and the job is not being stopped.
abbrev pub is_same_run : Manager → VoiceJob → ℕ → Bool
is_same_run m job generation =
    m.reconnect_generation == generation && same_worker_event_job m.current job && not m.stopping

-- What happens in one round of the rejoin loop: other goroutines during the wait and the call, the
-- client's answers, and the clock.
pub record Round : Type 0 where
  pub waiting : Manager → Manager
  pub joined : Bool
  pub joining : Manager → Manager
  pub view : View
  pub now : ℕ

-- `previousWorkerRetry.stopAndWait()` on a queue that stays the manager's.
abbrev pub stop_queue : Option (ℕ × Queue) → Option (ℕ × Queue)
stop_queue none = none
stop_queue (some (id, q)) = some (id, Retry.stop q)

-- The end of a round whose call succeeded. The queue that was there is stopped in either case; it
-- is replaced only if the run is still the same.
unfoldable pub rejoined : Manager → VoiceJob → ℕ → Round → Manager
rejoined m job generation r =
    let woken = record m { last_event_at = r.now; disconnected = false } in
    let live = restart_participant_sync (renew_worker_retry woken) in
    if is_same_run m job generation
    then (hydrate_voice_participants live r.view false r.now).0
    else record m { worker_retry = stop_queue m.worker_retry }

unfoldable pub count_failed_rejoin : Manager → Round → Manager
count_failed_rejoin m r = record m {
  rejoin_failures = next64 m.rejoin_failures;
  last_event_at = r.now;
}

-- `rejoinVoiceWithBackoff` with the rounds that are left; what happens in the n-th round before the
-- last is `round n`.
unfoldable pub rejoin_voice : ℕ → Manager → VoiceJob → ℕ → (ℕ → Round) → Manager
unfolding count_failed_rejoin
rejoin_voice zero m job generation round = m
rejoin_voice (suc left) m job generation round =
    let r = round left in
    let waited = r.waiting m in
    let called = r.joining (record waited { rejoin_attempts = next64 waited.rejoin_attempts }) in
    let more = rejoin_voice left (count_failed_rejoin called r) job generation round in
    if not (is_same_run waited job generation)
    then waited
    else if r.joined
    then rejoined called job generation r
    else if not (called.reconnect_generation == generation)
        || not (same_worker_event_job called.current job)
    then called
    else more
