-- ===== src/Control.antt =====
-- The data of the Control Panel and the checks on it (internal/control/client.go): the runtime
-- configuration with its lookups, the node's own configuration, and the classification of a refused
-- request. `url.Parse` is an argument; `Url` holds what the program reads of its answer.
pub mod Requests
pub mod StopRequest
use autostream_discord_bot.Base.{
  ℕ, String, Bool, true, false, not, ◌&&◌, ◌||◌, Option, none, some, List, [], ◌∷◌, if◌then◌else◌,
  leb, ltb, ◌==◌, str_eq, is_empty, trim, any, brackets, trim_of, lower_eq, equal_fold, append,
}

-- `RegisteredService`, the fields that are read.
pub record RegisteredService : Type 0 where
  pub service_id : String

pub record StreamServiceAssignment : Type 0 where
  pub stream_id : String
  pub service_id : String
  pub service_type : String
  pub assignment_role : String

pub record StreamDiscordConfig : Type 0 where
  pub stream_id : String
  pub assignment_role : String
  pub guild_id : String
  pub voice_channel_id : String
  pub text_channel_id : String

-- `RuntimeConfig`, the fields that the HTTP handlers read.
pub record RuntimeConfig : Type 0 where
  pub service : RegisteredService
  pub assignments : List StreamServiceAssignment
  pub stream_discord_configs : List StreamDiscordConfig

abbrev pub service_type : String
service_type = "discord_bot"

-- The entry that the loop of `DiscordConfigForStream` answers with.
unfoldable pub is_config_for : String → StreamDiscordConfig → Bool
is_config_for stream item =
    str_eq (trim item.stream_id) stream
    && str_eq (trim item.assignment_role) "primary"
    && not (is_empty (trim item.guild_id) || is_empty (trim item.voice_channel_id))

unfoldable pub find_config : String → List StreamDiscordConfig → Option StreamDiscordConfig
find_config stream [] = none
find_config stream (item ∷ rest) =
    if is_config_for stream item then some item else find_config stream rest

-- `DiscordConfigForStream`.
unfoldable pub discord_config_for_stream : RuntimeConfig → String → Option StreamDiscordConfig
discord_config_for_stream cfg stream =
    if is_empty (trim stream) then none else find_config (trim stream) cfg.stream_discord_configs

-- What is read of `url.URL`. `query_v` is `Query().Get("v")`.
pub record Url : Type 0 where
  pub scheme : String
  pub host : String
  pub hostname : String
  pub port : String
  pub has_user : Bool
  pub raw_query : String
  pub fragment : String
  pub path : String
  pub query_v : String

-- `isLocalDevHost`.
unfoldable pub is_local_dev_host : String → Bool
is_local_dev_host host =
    let normalized = trim_of brackets (trim host) in
    lower_eq normalized "localhost"
    || lower_eq normalized "127.0.0.1"
    || lower_eq normalized "host.docker.internal"

-- `isExactAllowedHost`.
unfoldable pub is_exact_allowed_host : String → String → Bool
is_exact_allowed_host host allowed = not (is_empty allowed) && equal_fold (trim host) allowed

pub data UrlError : Type 0 where
  not_absolute bad_scheme has_credentials has_query not_https : UrlError

unfoldable pub check_url : String → Url → Option UrlError
check_url allowed u =
    if is_empty u.scheme || is_empty u.host
    then some not_absolute
    else if not (str_eq u.scheme "http") && not (str_eq u.scheme "https")
    then some bad_scheme
    else if u.has_user
    then some has_credentials
    else if not (is_empty u.raw_query) || not (is_empty u.fragment)
    then some has_query
    else if str_eq u.scheme "http"
        && not (is_local_dev_host u.hostname)
        && not (is_exact_allowed_host u.hostname allowed)
    then some not_https
    else none

-- `validateHTTPURL`.
unfoldable pub validate_http_url : (String → Option Url) → String → String → Option UrlError
validate_http_url parse raw allowed = elim (parse raw) [
  | none ↦ some not_absolute
  | some u ↦ check_url allowed u
]

-- `Config`, the fields that `Validate` reads.
pub record Config : Type 0 where
  pub control_panel_url : String
  pub token : String
  pub service_id : String
  pub service_name : String
  pub service_public_url : String
  pub config_error : String

pub data ConfigError : Type 0 where
  node_config_error : String → ConfigError
  panel_url_required token_required node_id_required node_name_required : ConfigError
  bad_panel_url bad_public_url : UrlError → ConfigError

-- The two URLs, the Panel's first.
unfoldable pub validate_urls : Option UrlError → Option UrlError → Option ConfigError
validate_urls (some e) public_url = some (bad_panel_url e)
validate_urls none (some e) = some (bad_public_url e)
validate_urls none none = none

-- `Config.Validate`.
unfoldable pub validate : (String → Option Url) → Config → Option ConfigError
validate parse c =
    if not (is_empty (trim c.config_error))
    then some (node_config_error c.config_error)
    else if is_empty (trim c.control_panel_url)
    then some panel_url_required
    else if is_empty (trim c.token)
    then some token_required
    else if is_empty (trim c.service_id)
    then some node_id_required
    else if is_empty (trim c.service_name)
    then some node_name_required
    else validate_urls (validate_http_url parse c.control_panel_url "")
        (validate_http_url parse c.service_public_url "discord-bot")

-- `ControlPanelError`.
pub record ControlPanelError : Type 0 where
  pub endpoint : String
  pub status_code : ℕ
  pub code : String

-- `RetryableAutoStop`.
unfoldable pub retryable_auto_stop : ControlPanelError → Bool
retryable_auto_stop e = e.status_code == 429 || (leb 500 e.status_code && ltb e.status_code 600)

-- `RetryableAutoStart`.
unfoldable pub retryable_auto_start : ControlPanelError → Bool
retryable_auto_start e =
    (e.status_code == 409
      && (str_eq e.code "service_update_in_progress" || str_eq e.code "node_execution_busy"))
    || e.status_code == 408
    || e.status_code == 429
    || (leb 500 e.status_code && ltb e.status_code 600)
