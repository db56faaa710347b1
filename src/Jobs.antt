-- ===== src/Jobs.antt =====
-- The state of the stream job manager (internal/jobs/manager.go): one record, with the fields that
-- belong together grouped in records of their own. Each operation of the modules below is a
-- critical section under `m.mu`, or a sequence of such sections with what other goroutines do in
-- between as an argument. A context, and an object compared by its address, is a number taken from
-- `next_id`; the lists `cancelled` hold the contexts whose cancel function was called.
pub mod AutoStop
pub mod Roster
pub mod Delivery
pub mod Defaults
pub mod Reconnect
pub mod Sync
pub mod Lifecycle
pub mod AutoStart
pub mod Notify
use autostream_discord_bot.Base.{ℕ, ◌*◌, String, Bool, false, Option, none, List, [], ◌∷◌}
use autostream_discord_bot.Types.{VoiceJob, Participant, no_job}
use autostream_discord_bot.Retry.{Queue}

-- `VoiceDefaults`.
pub record VoiceDefaults : Type 0 where
  pub assignment_epoch : String
  pub guild_id : String
  pub voice_channel_id : String
  pub text_channel_id : String
  pub auto_start_enabled : Bool

abbrev pub no_defaults : VoiceDefaults
no_defaults = record {
  assignment_epoch = "";
  guild_id = "";
  voice_channel_id = "";
  text_channel_id = "";
  auto_start_enabled = false;
}

-- `autoStopInFlight`; `request` is its context.
pub record InFlight : Type 0 where
  pub assignment_epoch : String
  pub generation : ℕ
  pub request : ℕ
  pub job : VoiceJob

-- `autoStopObservation`.
pub record Observation : Type 0 where
  pub reason : String
  pub source : String
  pub participant_count : ℕ
  pub snapshot_revision : ℕ
  pub participant_state_revision : ℕ
  pub reconnect_generation : ℕ
  pub auto_stop_generation : ℕ
  pub empty_revalidation_passed : Bool

-- The fields `autoStop…` of `Manager`. `stopper` tells whether `streamStopper` is set.
pub record StopState : Type 0 where
  pub stopper : Bool
  pub pending : List (String × Bool)
  pub generation : List (String × ℕ)
  pub attempts : List (String × ℕ)
  pub in_flight : List (String × InFlight)
  pub last_attempt : List (String × ℕ)
  pub delay : ℕ
  pub empty_confirm_delay : ℕ
  pub retry_delays : List ℕ
  pub cooldown : ℕ
  pub cancelled : List ℕ

-- `autoStopRejoinIntent`.
pub record RejoinIntent : Type 0 where
  pub assignment_epoch : String
  pub guild_id : String
  pub voice_channel_id : String
  pub source_stream_id : String
  pub sequence : ℕ

-- The fields `rejoin…` of `Manager`.
pub record RejoinState : Type 0 where
  pub intents : List (String × RejoinIntent)
  pub sequence : ℕ
  pub reconcile_run : List (String × Bool)
  pub reconcile_delay : List ℕ

-- `autoStartRetry`; `id` is its address and its context.
pub record AutoStartRetry : Type 0 where
  pub id : ℕ
  pub assignment_epoch : String
  pub reconnect_generation : ℕ
  pub guild_id : String
  pub voice_channel_id : String
  pub capacity_busy : Bool

-- The fields `defaults`, `streamDefaults` and `autoStart…` of `Manager`. `starter` and `refresher`
-- tell whether those callbacks are set.
pub record StartState : Type 0 where
  pub starter : Bool
  pub defaults : VoiceDefaults
  pub stream_defaults : List (String × VoiceDefaults)
  pub last_stream_defaults : List (String × VoiceDefaults)
  pub authority_streams : Option (List (String × Bool))
  pub pending : List (String × ℕ)
  pub stopped : List (String × VoiceDefaults)
  pub retries : List (String × AutoStartRetry)
  pub cooldown : ℕ
  pub retry_delays : List ℕ
  pub refresher : Bool
  pub refresh_at : ℕ
  pub refresh_wait : ℕ
  pub last_log_at : ℕ
  pub last_log_key : String
  pub cancelled : List ℕ

-- `ReconnectPolicy`, as `SetReconnectPolicy` leaves it.
pub record ReconnectPolicy : Type 0 where
  pub enabled : Bool
  pub max_attempts : ℕ
  pub base_delay : ℕ
  pub max_delay : ℕ

-- The participants and the speakers.
pub record RosterState : Type 0 where
  pub participants : List (String × Participant)
  pub snapshot_revision : ℕ
  pub state_revision : ℕ
  pub active_speaker : String
  pub active_speakers : List (String × Bool)

-- `notificationReceipt`; `id` is its address. Its time is 0 while the message is under way. A
-- receipt with an error is not kept.
pub record Receipt : Type 0 where
  pub id : ℕ
  pub stream_id : String
  pub payload_hash : String
  pub message_id : String
  pub completed_at : ℕ

pub record Manager : Type 0 where
  pub current : VoiceJob
  pub assignment_epoch : String
  pub stopping : Bool
  pub disconnected : Bool
  pub reconnect_policy : ReconnectPolicy
  pub reconnect_generation : ℕ
  pub started_at : ℕ
  pub last_event_at : ℕ
  pub roster : RosterState
  -- The context of the one loop that keeps the participants in step, if there is one.
  pub sync : Option ℕ
  pub cancelled : List ℕ
  -- The retry queue with its address. A queue that is replaced was stopped and is gone.
  pub worker_retry : Option (ℕ × Queue)
  pub reporter : Bool
  pub worker_failures : ℕ
  pub failure_log_at : List (String × ℕ)
  pub failure_log_interval : ℕ
  pub rejoin_attempts : ℕ
  pub rejoin_failures : ℕ
  pub auto_stop : StopState
  pub rejoin : RejoinState
  pub auto_start : StartState
  -- The receipts of the notifications, under the hash of the event's id.
  pub receipts : List (String × Receipt)
  pub next_id : ℕ

abbrev pub seconds : ℕ → ℕ
seconds n = n * 1_000_000_000

-- `NewManagerWithReporter`.
unfoldable pub new_manager : Bool → Manager
new_manager reporter = record {
  current = no_job;
  assignment_epoch = "";
  stopping = false;
  disconnected = false;
  reconnect_policy = record { enabled = false; max_attempts = 0; base_delay = 0; max_delay = 0 };
  reconnect_generation = 0;
  started_at = 0;
  last_event_at = 0;
  roster = record {
    participants = [];
    snapshot_revision = 0;
    state_revision = 0;
    active_speaker = "";
    active_speakers = [];
  };
  sync = none;
  cancelled = [];
  worker_retry = none;
  reporter = reporter;
  worker_failures = 0;
  failure_log_at = [];
  failure_log_interval = seconds 30;
  rejoin_attempts = 0;
  rejoin_failures = 0;
  auto_stop = record {
    stopper = false;
    pending = [];
    generation = [];
    attempts = [];
    in_flight = [];
    last_attempt = [];
    delay = seconds 2;
    empty_confirm_delay = seconds 15;
    retry_delays = seconds 5 ∷ seconds 15 ∷ seconds 45 ∷ [];
    cooldown = seconds 15;
    cancelled = [];
  };
  rejoin = record {
    intents = [];
    sequence = 0;
    reconcile_run = [];
    reconcile_delay =
        0 ∷ seconds 1 ∷ seconds 2 ∷ seconds 4 ∷ seconds 8 ∷ seconds 16 ∷ seconds 30 ∷ [];
  };
  auto_start = record {
    starter = false;
    defaults = no_defaults;
    stream_defaults = [];
    last_stream_defaults = [];
    authority_streams = none;
    pending = [];
    stopped = [];
    retries = [];
    cooldown = seconds 30;
    retry_delays = 500_000_000 ∷ seconds 2 ∷ seconds 5 ∷ [];
    refresher = false;
    refresh_at = 0;
    refresh_wait = seconds 5;
    last_log_at = 0;
    last_log_key = "";
    cancelled = [];
  };
  receipts = [];
  next_id = 1;
}

-- What an operation of the manager may answer.
pub data Error : Type 0 where
  stream_id_required guild_id_required voice_channel_id_required : Error
  job_stopping another_job_active no_active_job stream_mismatch : Error
  not_a_participant : Error
  -- An error of the Discord client, passed on.
  voice_failed : Error
