-- ===== src/Forward/Voice.antt =====
-- The loop that turns received voice packets into batches (`forwardOpus` in
-- internal/discord/audio_forward.go), with the part of the Discord client's state that it reads and
-- writes (internal/discord/client.go, voice.go and audio_speakers.go).
pub mod Tuning
pub mod Speakers
pub mod Loop
use autostream_discord_bot.Base.{
  ℕ, suc, ◌+◌, ◌*◌, String, Bool, true, false, not, ◌&&◌, ◌||◌, Option, none, some, List, [], ◌∷◌,
  ◌++◌, if◌then◌else◌, leb, ltb, ◌==◌, is_empty, str_eq, trim, lookup, insert, delete, has_key,
  keep, is_some,
}
use autostream_discord_bot.Types.{VoiceJob, VoiceParticipant}

-- The fields of `RealClient` and of its status that belong to the current voice connection.
pub record VoiceState : Type 0 where
  pub job : VoiceJob
  pub voice_generation : ℕ
  pub voice_connected : Bool
  -- The user of each SSRC, empty where none is known.
  pub ssrc_users : ℕ → String
  -- The speakers with the time of their last packet.
  pub audio_speakers : List (String × ℕ)
  pub audio_receiving : Bool
  pub audio_packets_received : ℕ
  pub audio_packets_forwarded : ℕ
  pub caption_packets_forwarded : ℕ
  pub audio_forward_errors : ℕ
  pub caption_forward_errors : ℕ
  pub audio_queue_drops : ℕ
  pub caption_queue_drops : ℕ

-- `sameVoiceJob`.
unfoldable pub same_voice_job : VoiceJob → VoiceJob → Bool
same_voice_job left right =
    str_eq (trim left.stream_id) (trim right.stream_id)
    && str_eq (trim left.guild_id) (trim right.guild_id)
    && str_eq (trim left.voice_channel_id) (trim right.voice_channel_id)
    && str_eq (trim left.text_channel_id) (trim right.text_channel_id)
    && left.discord_target_revision == right.discord_target_revision
    && left.job_generation == right.job_generation

-- `isCurrentVoiceJob`: the connection that a goroutine was started for is still the current one.
unfoldable pub is_current_voice_job : VoiceState → VoiceJob → ℕ → Bool
is_current_voice_job c job generation =
    c.voice_generation == generation && same_voice_job c.job job && c.voice_connected

-- `recordAudioPacketReceived`.
unfoldable pub record_audio_packet_received : VoiceState → VoiceJob → ℕ → VoiceState × Bool
record_audio_packet_received c job generation =
    if not (is_current_voice_job c job generation) then (c, false) else (
      record c { audio_receiving = true; audio_packets_received = suc c.audio_packets_received },
      true,
    )

-- `setForwardErrorForJob`.
unfoldable pub set_forward_error_for_job : VoiceState → VoiceJob → ℕ → Bool → VoiceState
set_forward_error_for_job c job generation caption =
    if not (is_current_voice_job c job generation)
    then c
    else if caption
    then record c { caption_forward_errors = suc c.caption_forward_errors }
    else record c { audio_forward_errors = suc c.audio_forward_errors }

-- `recordForwardQueueDropForJob`.
unfoldable pub record_forward_queue_drop_for_job : VoiceState → VoiceJob → ℕ → Bool → ℕ → VoiceState
record_forward_queue_drop_for_job c job generation caption count =
    if not (is_current_voice_job c job generation)
    then c
    else if caption
    then record c {
      caption_queue_drops = c.caption_queue_drops + count;
      caption_forward_errors = suc c.caption_forward_errors;
    }
    else record c {
      audio_queue_drops = c.audio_queue_drops + count;
      audio_forward_errors = suc c.audio_forward_errors;
    }

-- The result callback of `runOpusForwardTarget`, for `count` packets.
unfoldable pub record_forward_result : VoiceState → VoiceJob → ℕ → Bool → ℕ → Bool → VoiceState
record_forward_result c job generation caption count ok =
    if not ok
    then set_forward_error_for_job c job generation caption
    else if not (is_current_voice_job c job generation)
    then c
    else if caption
    then record c { caption_packets_forwarded = c.caption_packets_forwarded + count }
    else record c { audio_packets_forwarded = c.audio_packets_forwarded + count }

abbrev pub speaker_idle_timeout : ℕ
speaker_idle_timeout = 1_250_000_000

-- What the sink is told: a user, and whether it speaks.
abbrev pub Told : Type 0
Told = List (String × Bool)

-- `dispatchActiveSpeakerState`, for a client with a sink: what is told if the state still agrees.
unfoldable pub dispatch_active_speaker_state : VoiceState → VoiceJob → ℕ → String → Bool → Told
dispatch_active_speaker_state c job generation user speaking =
    if is_empty (trim user) || not (is_current_voice_job c job generation)
    then []
    else if (if speaking
        then has_key (trim user) c.audio_speakers
        else not (has_key (trim user) c.audio_speakers))
    then (if is_empty c.job.stream_id then [] else (trim user, speaking) ∷ [])
    else []

-- `recordAudioSpeakerActivity`. What is told depends on the state after `others`, which acts when
-- the lock is let go of.
unfoldable pub record_audio_speaker_activity :
    VoiceState → VoiceJob → ℕ → String → ℕ → (VoiceState → VoiceState) → VoiceState × Told
record_audio_speaker_activity c job generation user now others =
    let u = trim user in
    let spoken = record c { audio_speakers = insert u now c.audio_speakers } in
    if is_empty u || not (is_current_voice_job c job generation)
    then (c, [])
    else if has_key u c.audio_speakers
    then (spoken, [])
    else (others spoken, dispatch_active_speaker_state (others spoken) job generation u true)

abbrev pub is_idle : ℕ → String × ℕ → Bool
is_idle now e = leb (e.1 + speaker_idle_timeout) now

-- The stops are told one after the other; `others` acts before each.
unfoldable pub dispatch_stops :
    VoiceState → VoiceJob → ℕ → (VoiceState → VoiceState) → List (String × ℕ) → VoiceState × Told
dispatch_stops c job generation others [] = (c, [])
dispatch_stops c job generation others ((user, at) ∷ rest) =
    let r = dispatch_stops (others c) job generation others rest in
    (r.0, dispatch_active_speaker_state (others c) job generation user false ++ r.1)

-- `expireIdleAudioSpeakers`.
unfoldable pub expire_idle_audio_speakers :
    VoiceState → VoiceJob → ℕ → ℕ → (VoiceState → VoiceState) → VoiceState × Told
expire_idle_audio_speakers c job generation now others =
    let awake = record c { audio_speakers = keep (λ e. not (is_idle now e)) c.audio_speakers } in
    if not (is_current_voice_job c job generation)
    then (c, [])
    else dispatch_stops awake job generation others (keep (is_idle now) c.audio_speakers)

abbrev pub set_user : (ℕ → String) → ℕ → String → ℕ → String
set_user users ssrc user i = if i == ssrc then user else users i

-- `onVoiceSpeakingUpdate` for an event of the current connection.
unfoldable pub on_voice_speaking_update :
    VoiceState → ℕ → String → Bool → ℕ → (VoiceState → VoiceState) → VoiceState × Told
on_voice_speaking_update c ssrc user speaking now others =
    let heard = record c {
      ssrc_users =
          if ssrc == 0 || is_empty user then c.ssrc_users else set_user c.ssrc_users ssrc user;
      audio_speakers =
          if is_empty user
          then c.audio_speakers
          else if speaking
          then insert user now c.audio_speakers
          else delete user c.audio_speakers;
    } in
    if not c.voice_connected then (c, []) else (
      others heard,
      dispatch_active_speaker_state (others heard) c.job c.voice_generation user speaking,
    )

-- `resolveSSRCUserID` on the map of the Discord library.
abbrev pub resolve_ssrc_user_id : (ℕ → String) → ℕ → String
resolve_ssrc_user_id resolver ssrc = if ssrc == 0 then "" else trim (resolver ssrc)

-- `userForSSRC`, with no other goroutine between its two sections.
unfoldable pub user_for_ssrc : VoiceState → (ℕ → String) → ℕ → ℕ → VoiceState × String
user_for_ssrc c resolver ssrc generation =
    let resolved = resolve_ssrc_user_id resolver ssrc in
    if not (c.voice_generation == generation && c.voice_connected)
    then (c, "")
    else if not (is_empty (trim (c.ssrc_users ssrc)))
    then (c, trim (c.ssrc_users ssrc))
    else if is_empty resolved
    then (c, "")
    else (record c { ssrc_users = set_user c.ssrc_users ssrc resolved }, resolved)

-- `uniqueHumanVoiceParticipant` on the members that the client sees, if it sees the channel.
unfoldable pub unique_human : String → List VoiceParticipant → String
unique_human found [] = found
unique_human found (p ∷ rest) =
    let next = unique_human (trim p.user_id) rest in
    let others = unique_human found rest in
    if p.is_bot || is_empty (trim p.user_id)
    then others
    else if not (is_empty found)
    then ""
    else next
