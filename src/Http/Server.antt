-- ===== src/Http/Server.antt =====
-- The handlers of internal/httpapi/server.go that start and stop a job or set its speaker: who may
-- call them, how a start uses the runtime configuration of the Control Panel, and the code of an
-- error. The hash function, the decoder, the Panel and the Discord client are arguments.
pub mod Access
pub mod Target
pub mod Started
pub mod Stopped
use Prim.Native.Char.{code}
use Prim.Native.String.{[], ◌∷◌ as ◌⊹◌}
use autostream_discord_bot.Base.{
  ℕ, String, Bool, true, false, not, ◌&&◌, ◌||◌, Option, none, some, List, [], ◌∷◌, if◌then◌else◌,
  ◌==◌, str_eq, is_empty, trim, any, insert, lower_eq,
}
use autostream_discord_bot.Types.{VoiceJob}
use autostream_discord_bot.Control.{
  RuntimeConfig, StreamServiceAssignment, StreamDiscordConfig, service_type,
  discord_config_for_stream,
}
use autostream_discord_bot.Jobs
use autostream_discord_bot.Jobs.{Manager}
use autostream_discord_bot.Jobs.AutoStop.Check.{View}
use autostream_discord_bot.Jobs.Defaults.{set_execution_authority_streams}
use autostream_discord_bot.Jobs.Lifecycle
use autostream_discord_bot.Jobs.Roster.{Task}
use autostream_discord_bot.Jobs.Roster.Speakers.{set_active_speaker}
use autostream_discord_bot.Http.{Reply, reply}
use autostream_discord_bot.Http.Token.{TokenVerifier, strip_prefix, verify}
use autostream_discord_bot.Http.StartJob.{
  Json, Mode, legacy, resolved_target_v2, Decoded, accepted, rejected, RequestError, invalid_json,
  unsupported_schema_version, discord_target_invalid, decode_start_job_request,
}

abbrev pub unauthorized : Reply
unauthorized = reply 401 "missing_or_invalid_service_token"

unfoldable pub is_primary_of : String → String → StreamServiceAssignment → Bool
is_primary_of stream service a =
    str_eq (trim a.stream_id) stream
    && str_eq (trim a.service_id) service
    && str_eq (trim a.service_type) service_type
    && str_eq (trim a.assignment_role) "primary"

-- `isPrimaryDiscordAssignment`.
unfoldable pub is_primary_discord_assignment : RuntimeConfig → String → Bool
is_primary_discord_assignment cfg stream =
    if is_empty (trim stream) || is_empty (trim cfg.service.service_id)
    then false
    else any (is_primary_of (trim stream) (trim cfg.service.service_id)) cfg.assignments

-- The streams of the primary assignments, as they are written.
unfoldable pub primary_streams :
    RuntimeConfig → List (String × Bool) → List StreamServiceAssignment → List (String × Bool)
primary_streams cfg acc [] = acc
primary_streams cfg acc (a ∷ rest) =
    primary_streams cfg
      (if str_eq a.service_id cfg.service.service_id
          && str_eq a.service_type service_type
          && str_eq a.assignment_role "primary"
        then insert a.stream_id true acc
        else acc)
      rest

-- What the provider of the runtime configuration gives, if the server has one.
pub data Provider : Type 0 where
  unset fetch_fails : Provider
  gives : RuntimeConfig → Provider

pub data RuntimeError : Type 0 where
  fetch_failed not_assigned gateway_failed : RuntimeError

-- A legacy request takes the channels that it leaves blank from the configuration.
unfoldable pub fill_targets : VoiceJob → Option StreamDiscordConfig → VoiceJob
fill_targets job none = job
fill_targets job (some c) = record job {
  guild_id = if is_empty (trim job.guild_id) then c.guild_id else job.guild_id;
  voice_channel_id =
      if is_empty (trim job.voice_channel_id) then c.voice_channel_id else job.voice_channel_id;
  text_channel_id =
      if is_empty (trim job.text_channel_id) then c.text_channel_id else job.text_channel_id;
}

-- A v2 request keeps the targets that the server resolved.
unfoldable pub resolve_target : VoiceJob → Mode → RuntimeConfig → VoiceJob
resolve_target job resolved_target_v2 cfg = job
resolve_target job legacy cfg = fill_targets job (discord_config_for_stream cfg job.stream_id)

-- The configuration of a stream that has a name. `reconciled` tells whether the Gateway of the
-- configuration could be reconciled.
unfoldable pub use_config :
    Manager → VoiceJob → Mode → RuntimeConfig → Bool → Manager × VoiceJob × Option RuntimeError
use_config m job mode cfg reconciled =
    let pinned = record m {
      auto_start =
          set_execution_authority_streams m.auto_start (primary_streams cfg [] cfg.assignments);
    } in
    if not (is_primary_discord_assignment cfg job.stream_id)
    then (m, job, some not_assigned)
    else if not reconciled
    then (pinned, job, some gateway_failed)
    else (pinned, resolve_target job mode cfg, none)

-- `applyRuntimeDiscordConfig`.
unfoldable pub apply_runtime_discord_config :
    Manager → VoiceJob → Mode → Provider → Bool → Manager × VoiceJob × Option RuntimeError
apply_runtime_discord_config m job mode unset reconciled = (m, job, none)
apply_runtime_discord_config m job mode fetch_fails reconciled =
    if is_empty (trim job.stream_id) then (m, job, none) else (m, job, some fetch_failed)
apply_runtime_discord_config m job mode (gives cfg) reconciled =
    if is_empty (trim job.stream_id) then (m, job, none) else use_config m job mode cfg reconciled

-- `strings.Contains`.
abbrev begins : String → String → Bool
begins p s = elim (strip_prefix p s) [ none ↦ false | some rest ↦ true ]

unfoldable pub contains : String → String → Bool
contains String.[] p = begins p ""
contains (String.◌∷◌ c s) p = begins p (String.◌∷◌ c s) || contains s p

-- `writeError` on the text of an error. The later tests win.
unfoldable pub write_error : String → Reply
write_error text =
    if contains text "not assigned"
    then reply 403 "stream_not_assigned_to_service"
    else if contains text "does not match"
        || contains text "already active"
        || contains text "no active"
    then reply 409 "invalid_stream_state"
    else if contains text "required"
    then reply 400 "validation_failed"
    else reply 409 "request_failed"

-- The texts of the errors of the manager; `voice` is that of an error of the Discord client.
unfoldable pub error_text : String → Jobs.Error → String
error_text voice Jobs.stream_id_required = "stream_id is required"
error_text voice Jobs.guild_id_required = "guild_id is required"
error_text voice Jobs.voice_channel_id_required = "voice_channel_id is required"
error_text voice Jobs.job_stopping = "stream job is stopping"
error_text voice Jobs.another_job_active = "another stream job is already active"
error_text voice Jobs.no_active_job = "no active stream job"
error_text voice Jobs.stream_mismatch = "stream_id does not match current job"
error_text voice Jobs.not_a_participant = "active speaker must be an active participant"
error_text voice Jobs.voice_failed = voice

abbrev code_of : RequestError → String
code_of invalid_json = "invalid_json"
code_of unsupported_schema_version = "unsupported_schema_version"
code_of discord_target_invalid = "discord_target_invalid"

-- What a handler meets: who calls, the Panel, the Gateway, and the voice channel
-- with the text of an error, what the client then sees of it, and what other goroutines do.
pub record World : Type 0 where
  pub verifier : TokenVerifier
  pub hash : String → String
  pub runtime_token : String
  pub authorization : String
  pub provider : Provider
  pub reconciled : Bool
  pub joined : Bool
  pub left : Bool
  pub voice_error : String
  pub view : View
  pub others : Manager → Manager
  pub now : ℕ

unfoldable pub authorized : World → Bool
authorized w = verify w.verifier w.hash w.runtime_token w.authorization

-- The result of `Start` as a response.
unfoldable pub start_reply : World → Manager × Option Jobs.Error × List Task → Manager × Reply
start_reply w (m, none, tasks) = (m, reply 202 "")
start_reply w (m, some e, tasks) = (m, write_error (error_text w.voice_error e))

-- `Start` with the configuration applied, or the error of the configuration.
unfoldable pub start_configured : World → Manager × VoiceJob × Option RuntimeError → Manager × Reply
start_configured w (m, job, none) =
    start_reply w (Lifecycle.start m job w.joined w.others w.view w.now)
start_configured w (m, job, some not_assigned) =
    (m, write_error "stream is not assigned to this discord bot as primary")
start_configured w (m, job, some fetch_failed) = (m, reply 502 "runtime_config_fetch_failed")
start_configured w (m, job, some gateway_failed) = (m, reply 502 "runtime_config_fetch_failed")

unfoldable pub start_decoded : World → Manager → Decoded → Manager × Reply
start_decoded w m (rejected e mode) = (m, reply 400 (code_of e))
start_decoded w m (accepted job mode) =
    if job.job_generation == 0
    then (m, reply 400 "job_generation_required")
    else if not (is_empty m.current.stream_id) && not (str_eq m.current.stream_id job.stream_id)
    then (m, write_error "another stream job is already active")
    else start_configured w (apply_runtime_discord_config m job mode w.provider w.reconciled)

-- POST /jobs/start.
unfoldable pub start_job : World → Json → Manager → Option String → Manager × Reply
start_job w json m body =
    if not (authorized w)
    then (m, unauthorized)
    else start_decoded w m (decode_start_job_request json body)

-- The result of `Stop` as a response; a job that is gone by now was stopped by somebody else.
unfoldable pub stop_reply : World → Manager × Option Jobs.Error → Manager × Reply
stop_reply w (m, none) = (m, reply 202 "stopped")
stop_reply w (m, some e) =
    if is_empty m.current.stream_id
    then (m, reply 202 "already_stopped")
    else (m, write_error (error_text w.voice_error e))

-- POST /jobs/{id}/stop.
unfoldable pub stop_job : World → Manager → String → Manager × Reply
stop_job w m id =
    if not (authorized w)
    then (m, unauthorized)
    else if is_empty m.current.stream_id
    then (m, reply 202 "already_stopped")
    else stop_reply w (Lifecycle.stop m (trim id) w.left w.others w.now)

unfoldable pub speaker_reply : World → Manager × Option Jobs.Error → Manager × Reply
speaker_reply w (m, none) = (m, reply 202 "")
speaker_reply w (m, some e) = (m, write_error (error_text w.voice_error e))

-- POST /streams/{id}/active-speaker; `none` is a body that is not decoded.
unfoldable pub active_speaker : World → Manager → String → Option String → Manager × Reply
active_speaker w m id body = if not (authorized w) then (m, unauthorized) else elim body [
  | none ↦ (m, reply 400 "invalid_json")
  | some user ↦ let r = set_active_speaker m id user w.now in speaker_reply w (r.0, r.1)
]
