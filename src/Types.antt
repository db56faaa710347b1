-- ===== src/Types.antt =====
-- The data that the parts exchange: internal/discord/client.go (VoiceJob), internal/discord/events.go
-- (events of the Discord client) and the payloads of internal/jobs (participants.go,
-- worker_reporting.go). A time is a number of nanoseconds, and 0 is Go's zero time.
use autostream_discord_bot.Base.{ℕ, String, Bool, false, ◌&&◌, List, Option, str_eq, ◌==◌, trim}

pub record VoiceJob : Type 0 where
  pub guild_id : String
  pub voice_channel_id : String
  pub text_channel_id : String
  pub discord_target_revision : ℕ
  pub stream_id : String
  pub encoder_audio_url : String
  pub caption_audio_url : String
  pub caption_audio_token : String
  pub stream_ingest_token : String
  pub worker_events_url : String
  pub worker_events_token : String
  pub caption_audio_flush_ms : ℕ
  pub caption_audio_max_batch_packets : ℕ
  pub unresolved_ssrc_buffer_ms : ℕ
  pub unresolved_ssrc_buffer_ms_set : Bool
  pub job_generation : ℕ

-- `VoiceJob{}`.
abbrev pub no_job : VoiceJob
no_job = record {
  guild_id = "";
  voice_channel_id = "";
  text_channel_id = "";
  discord_target_revision = 0;
  stream_id = "";
  encoder_audio_url = "";
  caption_audio_url = "";
  caption_audio_token = "";
  stream_ingest_token = "";
  worker_events_url = "";
  worker_events_token = "";
  caption_audio_flush_ms = 0;
  caption_audio_max_batch_packets = 0;
  unresolved_ssrc_buffer_ms = 0;
  unresolved_ssrc_buffer_ms_set = false;
  job_generation = 0;
}

-- `sameWorkerEventJob`: the fields that tell one execution of a stream from another.
unfoldable pub same_worker_event_job : VoiceJob → VoiceJob → Bool
same_worker_event_job left right =
    str_eq (trim left.stream_id) (trim right.stream_id)
    && str_eq (trim left.guild_id) (trim right.guild_id)
    && str_eq (trim left.voice_channel_id) (trim right.voice_channel_id)
    && str_eq (trim left.text_channel_id) (trim right.text_channel_id)
    && left.discord_target_revision == right.discord_target_revision
    && left.job_generation == right.job_generation

pub record Participant : Type 0 where
  pub user_id : String
  pub username : String
  pub avatar_url : String
  pub is_bot : Bool
  pub speaking : Bool
  pub joined_at : ℕ

pub record ChatMessage : Type 0 where
  pub message_id : String
  pub user_id : String
  pub username : String
  pub avatar_url : String
  pub is_bot : Bool
  pub content : String
  pub text_channel_id : String
  pub created_at : ℕ

abbrev pub no_chat : ChatMessage
no_chat = record {
  message_id = "";
  user_id = "";
  username = "";
  avatar_url = "";
  is_bot = false;
  content = "";
  text_channel_id = "";
  created_at = 0;
}

pub record ParticipantEvent : Type 0 where
  pub stream_id : String
  pub guild_id : String
  pub voice_channel_id : String
  pub user_id : String
  pub username : String
  pub avatar_url : String
  pub is_bot : Bool
  pub present : Bool

pub record VoiceParticipant : Type 0 where
  pub user_id : String
  pub username : String
  pub avatar_url : String
  pub is_bot : Bool

pub record ParticipantSnapshot : Type 0 where
  pub stream_id : String
  pub guild_id : String
  pub voice_channel_id : String
  pub participants : List VoiceParticipant
  pub revision : ℕ

pub record AutoStartAuthority : Type 0 where
  pub stream_id : String
  pub assignment_epoch : String

pub record VoiceJoinEvent : Type 0 where
  pub authority : Option AutoStartAuthority
  pub existing_presence : Bool
  pub guild_id : String
  pub voice_channel_id : String
  pub user_id : String
  pub username : String

pub record ChatMessageEvent : Type 0 where
  pub stream_id : String
  pub guild_id : String
  pub text_channel_id : String
  pub message_id : String
  pub user_id : String
  pub username : String
  pub avatar_url : String
  pub is_bot : Bool
  pub content : String
  pub created_at : ℕ
