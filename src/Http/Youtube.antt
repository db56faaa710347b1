-- ===== src/Http/Youtube.antt =====
-- POST /streams/{id}/notifications/youtube-live (internal/httpapi/youtube_live.go): the checks on
-- the request, the choice of the text channel, and the code of an error. `url.Parse` and
-- `url.QueryEscape` are arguments.
pub mod Canonical
use Prim.Native.Char.{Char, code}
use Prim.Native.String.{len}
use autostream_discord_bot.Base.{
  ℕ, ◌+◌, ◌-◌, ◌/◌, String, Bool, true, false, not, ◌&&◌, ◌||◌, Option, none, some, if◌then◌else◌,
  ltb, leb, ◌==◌, str_eq, is_empty, trim, append, all_chars, has_char, trim_of, lower_eq,
  equal_fold,
}
use autostream_discord_bot.Control.{
  Url, RuntimeConfig, StreamDiscordConfig, discord_config_for_stream,
}
use autostream_discord_bot.Jobs.{Manager}
use autostream_discord_bot.Jobs.Notify
use autostream_discord_bot.Jobs.Notify.{
  Answer, NotifyError, SendError, Sent, notify_youtube_live, active_live_job_text_channel_id,
}
use autostream_discord_bot.Http.{Reply, reply}
use autostream_discord_bot.Http.Server.{
  World, authorized, unauthorized, Provider, unset, fetch_fails, gives,
  is_primary_discord_assignment,
}

abbrev pub max_event_id_length : ℕ
max_event_id_length = 256

abbrev pub max_watch_url_length : ℕ
max_watch_url_length = 1900

-- A letter, a digit, `-` or `_`.
unfoldable pub is_id_char : Char → Bool
is_id_char c =
    let n = code c in
    (leb 97 n && leb n 122)
    || (leb 65 n && leb n 90)
    || (leb 48 n && leb n 57)
    || n == 45
    || n == 95

-- `validYouTubeVideoID`.
unfoldable pub valid_video_id : String → Bool
valid_video_id value =
    if ltb (len (trim value)) 6 || ltb 32 (len (trim value))
    then false
    else all_chars is_id_char (trim value)

abbrev pub is_slash : Char → Bool
is_slash c = code c == 47

abbrev pub is_hash : Char → Bool
is_hash c = code c == 35

-- The id that a URL names by its host and its path.
unfoldable pub video_id : Url → Option String
video_id u =
    if lower_eq u.hostname "youtube.com"
      || lower_eq u.hostname "www.youtube.com"
      || lower_eq u.hostname "m.youtube.com"
    then (if str_eq u.path "/watch" then some u.query_v else none)
    else if lower_eq u.hostname "youtu.be"
    then (if has_char is_slash (trim_of is_slash u.path)
        then none
        else some (trim_of is_slash u.path))
    else none

abbrev pub watch_url : (String → String) → String → String
watch_url escape id = append "https://www.youtube.com/watch?v=" (escape id)

unfoldable pub check_video_id : (String → String) → Option String → Option String
check_video_id escape none = none
check_video_id escape (some id) = if valid_video_id id then some (watch_url escape id) else none

unfoldable pub check_watch_url : (String → String) → Option Url → Option String
check_watch_url escape none = none
check_watch_url escape (some u) =
    if not (equal_fold u.scheme "https")
      || is_empty u.host
      || u.has_user
      || not (is_empty u.fragment)
      || not (is_empty u.port)
    then none
    else check_video_id escape (video_id u)

-- `validateYouTubeWatchURL`.
unfoldable pub validate_watch_url :
    (String → Option Url) → (String → String) → String → Option String
validate_watch_url parse escape raw =
    if is_empty (trim raw)
      || ltb max_watch_url_length (len (trim raw))
      || has_char is_hash (trim raw)
    then none
    else check_watch_url escape (parse (trim raw))

-- A response to a notification: `retry_after` is the header in seconds, 0 where it is not set.
pub record NotificationReply : Type 0 where
  pub status : ℕ
  pub code : String
  pub retryable : Bool
  pub retry_after : ℕ
  pub message_id : String
  pub already_sent : Bool

abbrev pub refusal : ℕ → String → Bool → NotificationReply
refusal status code retryable = record {
  status = status;
  code = code;
  retryable = retryable;
  retry_after = 0;
  message_id = "";
  already_sent = false;
}

-- `writeDiscordSendError`; the seconds are rounded up, and at least one.
unfoldable pub discord_send_error : SendError → NotificationReply
discord_send_error e =
    let seconds = (e.retry_after + 999_999_999) / 1_000_000_000 in
    if str_eq e.code "discord_rate_limited"
    then record (refusal 429 e.code e.retryable) {
      retry_after = if ltb seconds 1 then 1 else seconds;
    }
    else if str_eq e.code "discord_missing_permissions" || str_eq e.code "discord_missing_access"
    then refusal 403 e.code e.retryable
    else if str_eq e.code "discord_channel_not_found"
    then refusal 422 e.code e.retryable
    else if str_eq e.code "discord_message_invalid"
    then refusal 500 e.code e.retryable
    else refusal 502 e.code e.retryable

-- `writeYouTubeLiveNotificationError`.
unfoldable pub notification_error : NotifyError → NotificationReply
notification_error Notify.no_active_live_job = refusal 409 "live_job_not_active" false
notification_error Notify.live_job_stream_mismatch = refusal 409 "live_job_stream_mismatch" false
notification_error Notify.text_channel_missing = refusal 409 "text_channel_not_configured" false
notification_error Notify.text_channel_mismatch = refusal 409 "text_channel_mismatch" false
notification_error Notify.event_id_conflict = refusal 409 "event_id_conflict" false
notification_error Notify.receipt_capacity = refusal 503 "notification_capacity_reached" true
notification_error (Notify.send_failed e) = discord_send_error e
notification_error Notify.stream_id_required = refusal 502 "discord_unavailable" true
notification_error Notify.event_id_required = refusal 502 "discord_unavailable" true
notification_error Notify.watch_url_required = refusal 502 "discord_unavailable" true

-- The text channel of the configuration, or else that of the running job.
unfoldable pub text_channel : Manager → String → Option StreamDiscordConfig → String
text_channel m stream config =
    let configured : String = elim config [ none ↦ "" | some c ↦ trim c.text_channel_id ] in
    if is_empty configured
    then elim (active_live_job_text_channel_id m stream) [ none ↦ "" | some channel ↦ channel ]
    else configured

unfoldable pub answer_reply : Manager × Answer → Manager × NotificationReply
answer_reply (m, Notify.failed e) = (m, notification_error e)
answer_reply (m, Notify.notified id already) =
    (m, record (refusal 200 "sent" false) { message_id = id; already_sent = already })

-- The body of the request: the event and the URL.
pub record NotificationRequest : Type 0 where
  pub event_id : String
  pub watch_url : String

-- What the handler meets beside the `World`: the hash function, the URL library, the client, how
-- the call ends that is waited for, and the time at the end.
pub record Outside : Type 0 where
  pub hash : String → String
  pub parse : String → Option Url
  pub escape : String → String
  pub client : Option (String → String → Sent)
  pub later : Option Sent
  pub done : ℕ

module _ (w : World) (o : Outside) (m : Manager) where
  -- The channel is known.
  unfoldable pub notify_channel :
      String → String → String → Bool → String → Manager × NotificationReply
  notify_channel stream event url configured channel =
      if is_empty channel
      then (
        m,
        refusal 409
            (if configured then "text_channel_not_configured" else "discord_config_not_found")
            false,
      )
      else answer_reply (
          notify_youtube_live o.hash o.client m stream event channel url w.now o.later w.others
            o.done)

  abbrev is_configured : Option StreamDiscordConfig → Bool
  is_configured none = false
  is_configured (some c) = true

  unfoldable pub notify_configured :
      String → String → String → Provider → Manager × NotificationReply
  notify_configured stream event url unset = (m, refusal 503 "runtime_config_unavailable" true)
  notify_configured stream event url fetch_fails =
      (m, refusal 502 "runtime_config_fetch_failed" true)
  notify_configured stream event url (gives cfg) =
      if not (is_primary_discord_assignment cfg stream)
      then (m, refusal 403 "stream_not_assigned_to_service" false)
      else notify_channel stream event url (is_configured (discord_config_for_stream cfg stream))
          (text_channel m stream (discord_config_for_stream cfg stream))

  unfoldable pub notify_request : String → Option NotificationRequest → Manager × NotificationReply
  notify_request stream none = (m, refusal 400 "invalid_json" false)
  notify_request stream (some r) =
      if is_empty (trim r.event_id) || ltb max_event_id_length (len (trim r.event_id))
      then (m, refusal 400 "invalid_event_id" false)
      else elim (validate_watch_url o.parse o.escape r.watch_url) [
        | none ↦ (m, refusal 400 "invalid_watch_url" false)
        | some url ↦ notify_configured stream (trim r.event_id) url w.provider
      ]

  -- The handler.
  unfoldable pub youtube_live_notification :
      String → Option NotificationRequest → Manager × NotificationReply
  youtube_live_notification id body =
      if not (authorized w)
      then (m, refusal 401 "missing_or_invalid_service_token" false)
      else if is_empty (trim id)
      then (m, refusal 400 "invalid_stream_id" false)
      else notify_request (trim id) body
