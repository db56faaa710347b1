-- ===== src/Tests/Requests.antt =====
-- Requests over HTTP and to the Control Panel (internal/httpapi, internal/control) on concrete
-- bodies, configurations and managers.
use Prim.Native.Char.{Char}
use Prim.Native.String
use Prim.Native.String.append as append_law
use autostream_discord_bot.Base.{
  String, true, false, ◌≡◌, ◌↔◌, refl, map, ap, ◌∙◌, Option, some, none, [], ◌∷◌, arith, append,
  trim, trim_left, trim_right, is_empty, all_chars, has_char, equal_fold, fold_code, lower_eq,
  lower_code,
}
use autostream_discord_bot.Tests.{occupied}
use autostream_discord_bot.Control.{Url, RuntimeConfig}
use autostream_discord_bot.Control.Requests.{Response, decoded, StopReceipt, stop_stream, stop_done}
use autostream_discord_bot.Control.StopRequest.{stop_stream-IsDone, IsDone}
use autostream_discord_bot.Jobs.{new_manager}
use autostream_discord_bot.Jobs.AutoStop.Check.{no_source}
use autostream_discord_bot.Jobs.Lifecycle.{refuse_stop, stop, start, start_checked, refuse_start}
use autostream_discord_bot.Jobs.Defaults.{apply_voice_defaults}
use autostream_discord_bot.Jobs.Sync.{hydrate_voice_participants}
use autostream_discord_bot.Http.StartJob
use autostream_discord_bot.Http.StartJob.{
  Json, V2StartJobRequest, decode_start_job_request, at_end, decode_body,
  read_body as read_start_body, decode_envelope, decode_version, accept_v2, decode_strict,
  valid_target, valid_discord_id, caption_tuning_valid, within, v2_voice_job, or_zero, to_count,
}
use autostream_discord_bot.Http.Server.{
  World, gives, start_job, stop_job, authorized, start_decoded, start_configured,
  apply_runtime_discord_config, use_config, resolve_target, is_primary_discord_assignment,
  is_primary_of, start_reply, stop_reply,
}
use autostream_discord_bot.Http.Token.{verify, strip_prefix, knows}
use autostream_discord_bot.Http.Server.Started.{Passed, start_job-Passed}
use autostream_discord_bot.Http.Server.Stopped.{stop_job-idle}
use autostream_discord_bot.Http.Identity.{Env, new_latch, resolve_all}
use autostream_discord_bot.Http.Identity.Latch.{
  answered, first_usable, identity_for, resolve_all-map,
}
use autostream_discord_bot.Http.Youtube.{
  validate_watch_url, watch_url, valid_video_id, check_watch_url, check_video_id, video_id,
  is_id_char,
}
use autostream_discord_bot.Http.Youtube.Canonical.{validate_watch_url_idem, ParsesTo}

abbrev receipt : StopReceipt
receipt = record { already_stopping = false; already_stopped = true }

abbrev stopped : Response StopReceipt
stopped = record { status_code = 202; body = decoded receipt; error_code = none }

stop_stream-IsDone_example :
    (stop_stream none "stream" "/stop" (some stopped) ≡ stop_done)
    ↔ IsDone none "stream" (some stopped)
stop_stream-IsDone_example = stop_stream-IsDone none "stream" "/stop" (some stopped)

abbrev v2 : V2StartJobRequest
v2 = record {
  schema_version = 2;
  stream_id = "stream";
  job_generation = 3;
  discord_target = record {
    revision = 1;
    resolved = record { guild_id = "11"; text_channel_id = "12"; voice_channel_id = "13" };
  };
  encoder_audio_url = "";
  caption_audio_url = "";
  caption_audio_token = "";
  stream_ingest_token = "";
  worker_events_url = "";
  worker_events_token = "";
  caption_audio_flush_ms = none;
  caption_audio_max_batch_packets = some (StartJob.pos 7);
  unresolved_ssrc_buffer_ms = none;
}

-- A decoder that reads this request out of every body.
abbrev json : Json
json = record {
  envelope = λ body. some (some "2");
  version = λ raw. some 2;
  as_legacy = λ body. none;
  as_v2 = λ body. some (v2, at_end);
}

abbrev config : RuntimeConfig
config = record {
  service = record { service_id = "bot" };
  assignments =
      record {
        stream_id = "stream";
        service_id = "bot";
        service_type = "discord_bot";
        assignment_role = "primary";
      }
      ∷ [];
  stream_discord_configs = [];
}

abbrev world : World
world = record {
  verifier = record { plain_token = "token"; sha256_hex = "" };
  hash = λ s. s;
  runtime_token = "";
  authorization = "Bearer token";
  provider = gives config;
  reconciled = true;
  joined = true;
  left = true;
  voice_error = "";
  view = no_source;
  others = λ m. m;
  now = 9;
}

started : (start_job world json (new_manager true) (some "body")).1.status ≡ 202
unfolding start_job authorized verify strip_prefix trim knows start_decoded decode_start_job_request
    decode_body read_start_body decode_envelope decode_version accept_v2 decode_strict valid_target
    valid_discord_id all_chars caption_tuning_valid within v2_voice_job or_zero to_count new_manager
    start_configured apply_runtime_discord_config use_config resolve_target
    is_primary_discord_assignment is_primary_of start start_checked refuse_start
    apply_voice_defaults start_reply hydrate_voice_participants
started = refl

stops : (stop_job world occupied "stream").1.status ≡ 202
unfolding stop_job authorized verify strip_prefix trim knows stop_reply stop refuse_stop new_manager
stops = refl

start_job-Passed_example :
    (authorized world ≡ true)
    × Passed world json (some "body") (start_job world json (new_manager true) (some "body"))
start_job-Passed_example = start_job-Passed world json (new_manager true) (some "body") started

known : authorized world ≡ true
unfolding authorized verify strip_prefix trim knows
known = refl

stop_job-idle_example :
    ((stop_job world occupied "stream").1.status ≡ 202)
    ↔ (is_empty (stop_job world occupied "stream").0.current.stream_id ≡ true)
stop_job-idle_example = stop_job-idle world occupied "stream" known

abbrev env : Env
env = record { pending = false; config_error = ""; service_id = "bot"; config_revision = 1 }

abbrev moved_env : Env
moved_env = record env { config_revision = 2 }

resolve_all-map_example :
    map answered (resolve_all (new_latch "discord_bot") (env ∷ moved_env ∷ env ∷ []))
    ≡ map
        (identity_for
          (trim "discord_bot")
          (first_usable (trim "discord_bot") (env ∷ moved_env ∷ env ∷ [])))
        (env ∷ moved_env ∷ env ∷ [])
resolve_all-map_example = resolve_all-map "discord_bot" (env ∷ moved_env ∷ env ∷ [])

-- A parser of the canonical form only.
abbrev page_url : Option String → Option Url
page_url none = none
page_url (some id) = some (record {
  scheme = "https";
  host = "www.youtube.com";
  hostname = "www.youtube.com";
  port = "";
  has_user = false;
  raw_query = append "v=" id;
  fragment = "";
  path = "/watch";
  query_v = id;
})

abbrev page : String → Option Url
page text = page_url (strip_prefix "https://www.youtube.com/watch?v=" text)

prefix_step :
    (c : Char) (p s : String) → strip_prefix (String.◌∷◌ c p) (String.◌∷◌ c s) ≡ strip_prefix p s
unfolding strip_prefix
prefix_step c p s = ground arith

strip_prefix-append : (p s : String) → strip_prefix p (String.◌++◌ p s) ≡ some s
unfolding strip_prefix
strip_prefix-append String.[] s = ap (strip_prefix "") (λ i. append_law.nil s i)
strip_prefix-append (String.◌∷◌ c p) s =
    ap (strip_prefix (String.◌∷◌ c p)) (λ i. append_law.cons c p s i)
    ∙ prefix_step c p (String.◌++◌ p s)
    ∙ strip_prefix-append p s

page_parses : (id : String) → valid_video_id id ≡ true → ParsesTo page (watch_url (λ s. s) id) id
unfolding append
page_parses id valid =
    (append "v=" id, ap page_url (strip_prefix-append "https://www.youtube.com/watch?v=" id))

canonical :
    validate_watch_url page (λ s. s) "https://www.youtube.com/watch?v=dQw4w9WgXcQ "
    ≡ some "https://www.youtube.com/watch?v=dQw4w9WgXcQ"
unfolding validate_watch_url trim has_char check_watch_url strip_prefix equal_fold fold_code
    check_video_id video_id lower_eq lower_code valid_video_id all_chars is_id_char append
canonical = refl

validate_watch_url_idem_example :
    validate_watch_url page (λ s. s) "https://www.youtube.com/watch?v=dQw4w9WgXcQ"
    ≡ some "https://www.youtube.com/watch?v=dQw4w9WgXcQ"
validate_watch_url_idem_example =
    validate_watch_url_idem page (λ s. s) "https://www.youtube.com/watch?v=dQw4w9WgXcQ "
      "https://www.youtube.com/watch?v=dQw4w9WgXcQ" page_parses
      (unfold trim trim_left trim_right in refl) (unfold has_char in refl) (omega arith) canonical
