-- ===== src/Http/StartJob.antt =====
-- The body of POST /jobs/start (internal/httpapi/start_job_request.go): the choice between the
-- legacy and the versioned request, its checks, and the job that it becomes. The JSON decoder is an
-- argument. A text stands for the bytes of a body.
pub mod Checks
use Prim.Native.Char.{code}
use Prim.Native.String.{len}
use autostream_discord_bot.Base.{
  ℕ, zero, suc, String, Bool, true, false, not, ◌&&◌, ◌||◌, Option, none, some, if◌then◌else◌, leb,
  ltb, ◌==◌, str_eq, trim, all_chars,
}
use autostream_discord_bot.Types.{VoiceJob, no_job}

-- An `int` of the request: a natural number, or `negsuc n` for `- (n + 1)`.
pub data ℤ : Type 0 where
  pos negsuc : ℕ → ℤ

-- The number of milliseconds or packets of a job. A job with a negative one is treated as one with
-- 0 wherever it is read.
unfoldable pub to_count : ℤ → ℕ
to_count (pos n) = n
to_count (negsuc n) = 0

pub record LegacyStartJobRequest : Type 0 where
  pub guild_id : String
  pub voice_channel_id : String
  pub text_channel_id : String
  pub stream_id : String
  pub encoder_audio_url : String
  pub caption_audio_url : String
  pub caption_audio_token : String
  pub stream_ingest_token : String
  pub worker_events_url : String
  pub worker_events_token : String
  pub caption_audio_flush_ms : ℤ
  pub caption_audio_max_batch_packets : ℤ
  pub unresolved_ssrc_buffer_ms : ℤ
  pub job_generation : ℕ

pub record ResolvedDiscordTarget : Type 0 where
  pub guild_id : String
  pub text_channel_id : String
  pub voice_channel_id : String

pub record DiscordTargetSnapshot : Type 0 where
  pub revision : ℕ
  pub resolved : ResolvedDiscordTarget

-- `optionalInt`: `none` is an omitted field.
pub record V2StartJobRequest : Type 0 where
  pub schema_version : ℕ
  pub stream_id : String
  pub job_generation : ℕ
  pub discord_target : DiscordTargetSnapshot
  pub encoder_audio_url : String
  pub caption_audio_url : String
  pub caption_audio_token : String
  pub stream_ingest_token : String
  pub worker_events_url : String
  pub worker_events_token : String
  pub caption_audio_flush_ms : Option ℤ
  pub caption_audio_max_batch_packets : Option ℤ
  pub unresolved_ssrc_buffer_ms : Option ℤ

pub data Mode : Type 0 where
  legacy resolved_target_v2 : Mode

pub data RequestError : Type 0 where
  invalid_json unsupported_schema_version discord_target_invalid : RequestError

-- What follows the first value of a body.
pub data Rest : Type 0 where
  at_end another_value broken : Rest

-- `encoding/json` on a body: the envelope as the raw text of its `schema_version`, that text as a
-- number, and the two strict decodings. `none` is an error.
pub record Json : Type 0 where
  pub envelope : String → Option (Option String)
  pub version : String → Option ℕ
  pub as_legacy : String → Option (LegacyStartJobRequest × Rest)
  pub as_v2 : String → Option (V2StartJobRequest × Rest)

-- The rest of `decodeStrictJSON`: exactly one value.
unfoldable pub decode_strict {ℓ} : {A : Type ℓ} → Option (A × Rest) → Option A
decode_strict none = none
decode_strict (some (a, at_end)) = some a
decode_strict (some (a, another_value)) = none
decode_strict (some (a, broken)) = none

abbrev pub max_body_bytes : ℕ
max_body_bytes = 1_048_576

-- `readStartJobRequestBody`; `none` stands for an error of the reader. One byte more than the limit
-- is read.
unfoldable pub read_body : Option String → Option String
read_body none = none
read_body (some body) = if ltb max_body_bytes (len body) then none else some body

-- `validDiscordID`.
unfoldable pub valid_discord_id : String → Bool
valid_discord_id value =
    if ltb (len value) 1 || ltb 32 (len value)
    then false
    else all_chars (λ c. leb 48 (code c) && leb (code c) 57) value

-- `discordTargetSnapshot.valid`.
unfoldable pub valid_target : DiscordTargetSnapshot → Bool
valid_target t =
    ltb 0 t.revision
    && valid_discord_id t.resolved.guild_id
    && valid_discord_id t.resolved.text_channel_id
    && valid_discord_id t.resolved.voice_channel_id

-- `optionalInt.within`, for bounds that are not negative.
unfoldable pub within : Option ℤ → ℕ → ℕ → Bool
within none minimum maximum = true
within (some (pos n)) minimum maximum = leb minimum n && leb n maximum
within (some (negsuc n)) minimum maximum = false

-- `optionalInt.orZero`, as the number of a job.
unfoldable pub or_zero : Option ℤ → ℕ
or_zero none = 0
or_zero (some value) = to_count value

abbrev pub is_present : Option ℤ → Bool
is_present none = false
is_present (some value) = true

-- `captionTuningValid`.
unfoldable pub caption_tuning_valid : V2StartJobRequest → Bool
caption_tuning_valid r =
    within r.caption_audio_flush_ms 10 1000
    && within r.caption_audio_max_batch_packets 1 100
    && within r.unresolved_ssrc_buffer_ms 0 5000

unfoldable pub legacy_voice_job : LegacyStartJobRequest → VoiceJob
legacy_voice_job r = record no_job {
  guild_id = r.guild_id;
  voice_channel_id = r.voice_channel_id;
  text_channel_id = r.text_channel_id;
  stream_id = r.stream_id;
  encoder_audio_url = r.encoder_audio_url;
  caption_audio_url = r.caption_audio_url;
  caption_audio_token = r.caption_audio_token;
  stream_ingest_token = r.stream_ingest_token;
  worker_events_url = r.worker_events_url;
  worker_events_token = r.worker_events_token;
  caption_audio_flush_ms = to_count r.caption_audio_flush_ms;
  caption_audio_max_batch_packets = to_count r.caption_audio_max_batch_packets;
  unresolved_ssrc_buffer_ms = to_count r.unresolved_ssrc_buffer_ms;
  job_generation = r.job_generation;
}

unfoldable pub v2_voice_job : V2StartJobRequest → VoiceJob
v2_voice_job r = record no_job {
  guild_id = r.discord_target.resolved.guild_id;
  voice_channel_id = r.discord_target.resolved.voice_channel_id;
  text_channel_id = r.discord_target.resolved.text_channel_id;
  discord_target_revision = r.discord_target.revision;
  stream_id = r.stream_id;
  encoder_audio_url = r.encoder_audio_url;
  caption_audio_url = r.caption_audio_url;
  caption_audio_token = r.caption_audio_token;
  stream_ingest_token = r.stream_ingest_token;
  worker_events_url = r.worker_events_url;
  worker_events_token = r.worker_events_token;
  caption_audio_flush_ms = or_zero r.caption_audio_flush_ms;
  caption_audio_max_batch_packets = or_zero r.caption_audio_max_batch_packets;
  unresolved_ssrc_buffer_ms = or_zero r.unresolved_ssrc_buffer_ms;
  unresolved_ssrc_buffer_ms_set = is_present r.unresolved_ssrc_buffer_ms;
  job_generation = r.job_generation;
}

-- What decoding gives: a job with its mode, or the code of the refusal with the mode known so far.
pub data Decoded : Type 0 where
  accepted : VoiceJob → Mode → Decoded
  rejected : RequestError → Mode → Decoded

unfoldable pub accept_legacy : Option LegacyStartJobRequest → Decoded
accept_legacy none = rejected invalid_json legacy
accept_legacy (some r) = accepted (legacy_voice_job r) legacy

unfoldable pub accept_v2 : Option V2StartJobRequest → Decoded
accept_v2 none = rejected invalid_json resolved_target_v2
accept_v2 (some r) =
    if not (r.schema_version == 2) || not (valid_target r.discord_target)
    then rejected discord_target_invalid resolved_target_v2
    else if not (caption_tuning_valid r)
    then rejected invalid_json resolved_target_v2
    else accepted (v2_voice_job r) resolved_target_v2

module _ (json : Json) where
  unfoldable pub decode_version : String → Option ℕ → Decoded
  decode_version body none = rejected invalid_json legacy
  decode_version body (some version) =
      if not (version == 2)
      then rejected unsupported_schema_version legacy
      else accept_v2 (decode_strict (json.as_v2 body))

  unfoldable pub decode_envelope : String → Option (Option String) → Decoded
  decode_envelope body none = rejected invalid_json legacy
  decode_envelope body (some none) = accept_legacy (decode_strict (json.as_legacy body))
  decode_envelope body (some (some raw)) =
      if str_eq (trim raw) "null"
      then rejected invalid_json legacy
      else decode_version body (json.version raw)

  unfoldable pub decode_body : Option String → Decoded
  decode_body none = rejected invalid_json legacy
  decode_body (some body) = decode_envelope body (json.envelope body)

  -- `decodeStartJobRequest`.
  unfoldable pub decode_start_job_request : Option String → Decoded
  decode_start_job_request body = decode_body (read_body body)
