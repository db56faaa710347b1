-- ===== src/Jobs/Defaults.antt =====
-- The configured channels of streams (internal/jobs/voice_defaults.go, lines 54 to 192, and
-- `SetExecutionAuthorityStreams` of internal/jobs/runtime_gateway.go).
pub mod Retention
use autostream_discord_bot.Base.{
  ℕ, String, Bool, false, not, ◌&&◌, ◌||◌, Option, none, some, List, [], ◌∷◌, ◌++◌, keep, is_nil,
  if◌then◌else◌, str_eq, is_empty, trim, lookup, insert, delete, get_or, has_key,
}
use autostream_discord_bot.Types.{VoiceJob}
use autostream_discord_bot.Jobs.{Manager, StartState, VoiceDefaults, AutoStartRetry, no_defaults}

unfoldable pub set_voice_defaults : StartState → VoiceDefaults → StartState
set_voice_defaults a d = record a {
  defaults = record no_defaults {
    guild_id = trim d.guild_id;
    voice_channel_id = trim d.voice_channel_id;
    text_channel_id = trim d.text_channel_id;
    auto_start_enabled = d.auto_start_enabled;
  };
}

abbrev override : String → String → String
override new old = if is_empty new then old else new

unfoldable pub merge_voice_defaults : VoiceDefaults → VoiceDefaults → VoiceDefaults
merge_voice_defaults base o = record base {
  guild_id = override o.guild_id base.guild_id;
  voice_channel_id = override o.voice_channel_id base.voice_channel_id;
  text_channel_id = override o.text_channel_id base.text_channel_id;
  auto_start_enabled = o.auto_start_enabled || base.auto_start_enabled;
}

abbrev defaults_for : StartState → String → VoiceDefaults
defaults_for a stream = elim (lookup (trim stream) a.stream_defaults) [
  | none ↦ a.defaults
  | some d ↦ merge_voice_defaults a.defaults d
]

abbrev or_default : String → String → String
or_default own default = if is_empty (trim own) then default else own

unfoldable pub apply_voice_defaults : StartState → VoiceJob → VoiceJob
unfolding merge_voice_defaults
apply_voice_defaults a job =
    let d = defaults_for a job.stream_id in
    record job {
      guild_id = or_default job.guild_id d.guild_id;
      voice_channel_id = or_default job.voice_channel_id d.voice_channel_id;
      text_channel_id = or_default job.text_channel_id d.text_channel_id;
    }

-- An entry of the new configuration, as it is kept.
abbrev normal : VoiceDefaults → VoiceDefaults
normal d = record d {
  guild_id = trim d.guild_id;
  voice_channel_id = trim d.voice_channel_id;
  text_channel_id = trim d.text_channel_id;
}

-- A stream whose epoch changed loses the cooldown of its pending start.
abbrev expire :
    Option VoiceDefaults → VoiceDefaults → String → List (String × ℕ) → List (String × ℕ)
expire none d stream pending = pending
expire (some old) d stream pending =
    if str_eq old.assignment_epoch d.assignment_epoch then pending else delete stream pending

-- The loop over the new configuration.
unfoldable pub accepted :
    List (String × VoiceDefaults) → List (String × VoiceDefaults) → List (String × VoiceDefaults)
accepted acc [] = acc
accepted acc ((stream, d) ∷ rest) =
    accepted (if is_empty (trim stream) then acc else insert (trim stream) (normal d) acc) rest

unfoldable pub unexpired :
    List (String × VoiceDefaults)
    → List (String × ℕ)
    → List (String × VoiceDefaults)
    → List (String × ℕ)
unexpired previous pending [] = pending
unexpired previous pending ((stream, d) ∷ rest) =
    unexpired previous
      (if is_empty (trim stream)
        then pending
        else expire (lookup (trim stream) previous) d (trim stream) pending)
      rest

-- A stream whose retained epoch may still be needed.
abbrev pub is_needed : Manager → List (String × ℕ) → List (String × Bool) → String → Bool
is_needed m pending authority stream =
    str_eq stream m.current.stream_id
    || get_or stream false authority
    || has_key stream m.auto_start.retries
    || has_key stream pending

abbrev put_all :
    List (String × VoiceDefaults) → List (String × VoiceDefaults) → List (String × VoiceDefaults)
put_all [] acc = acc
put_all ((k, d) ∷ rest) acc = put_all rest (insert k d acc)

abbrev needed_of :
    Manager
    → List (String × ℕ)
    → List (String × Bool)
    → List (String × VoiceDefaults)
    → List (String × VoiceDefaults)
needed_of m pending authority = keep (λ e. is_needed m pending authority e.0)

-- The retained snapshots: those still needed of the retained and the previous ones, under the new.
unfoldable pub retained :
    Manager
    → List (String × ℕ)
    → List (String × VoiceDefaults)
    → Option (List (String × Bool))
    → List (String × VoiceDefaults)
retained m pending current none =
    if is_nil current then m.auto_start.last_stream_defaults else current
retained m pending current (some authority) = put_all current (
    put_all (needed_of m pending authority m.auto_start.stream_defaults)
      (put_all (needed_of m pending authority m.auto_start.last_stream_defaults) []))

-- A retry stays while its stream waits, may start by itself, and has the epoch it was made for.
abbrev pub is_backed : List (String × VoiceDefaults) → String × AutoStartRetry → Bool
is_backed current (stream, r) = elim (lookup stream current) [
  | none ↦ false
  | some d ↦ d.auto_start_enabled && str_eq d.assignment_epoch r.assignment_epoch
]

-- A stopped stream is armed again by a waiting entry that differs from what was stopped.
abbrev pub is_rearmed : List (String × VoiceDefaults) → String × VoiceDefaults → Bool
is_rearmed current (stream, s) = elim (lookup stream current) [
  | none ↦ false
  | some d ↦
      not (str_eq d.assignment_epoch s.assignment_epoch)
      || not (str_eq d.guild_id s.guild_id)
      || not (str_eq d.voice_channel_id s.voice_channel_id)
]

abbrev pub unbacked_ids : List (String × VoiceDefaults) → List (String × AutoStartRetry) → List ℕ
unbacked_ids current [] = []
unbacked_ids current ((k, r) ∷ rest) =
    if is_backed current (k, r) then unbacked_ids current rest else r.id ∷ unbacked_ids current rest

-- `SetStreamVoiceDefaults`; the targets that it hands to the Discord client are left out.
unfoldable pub set_stream_voice_defaults : Manager → List (String × VoiceDefaults) → Manager
unfolding accepted unexpired retained
set_stream_voice_defaults m entries =
    let a = m.auto_start in
    let current = accepted [] entries in
    let pending = unexpired a.stream_defaults a.pending entries in
    let waiting = keep (λ e. has_key e.0 current) pending in
    let rearmed = keep (is_rearmed current) a.stopped in
    record m {
      auto_start = record a {
        stream_defaults = current;
        last_stream_defaults = retained m pending current a.authority_streams;
        retries = keep (is_backed current) a.retries;
        cancelled = unbacked_ids current a.retries ++ a.cancelled;
        stopped = keep (λ e. not (is_rearmed current e)) a.stopped;
        pending = keep (λ e. not (has_key e.0 rearmed)) waiting;
      };
    }

unfoldable pub set_execution_authority_streams : StartState → List (String × Bool) → StartState
set_execution_authority_streams a streams = record a {
  authority_streams = some (keep (λ e. e.1) streams);
}
