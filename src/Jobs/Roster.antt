-- ===== src/Jobs/Roster.antt =====
-- The participants of the voice channel and who speaks (internal/jobs/participants.go and
-- internal/jobs/active_speakers.go). A handler answers the new state and the calls that it makes
-- after it let go of the lock, in order: these take the lock again, see Jobs/Delivery.antt and
-- Jobs/AutoStop/Check.antt.
pub mod Speakers
pub mod Invariant
pub mod Snapshots
pub mod Speaking
use autostream_discord_bot.Base.{
  ℕ, suc, ◌≤◌, String, Bool, true, false, not, ◌&&◌, ◌||◌, Option, none, some, List, [], ◌∷◌, ◌++◌,
  map, length, is_nil, leb, ltb, ◌==◌, keep, if◌then◌else◌, next64, str_eq, is_empty, trim, lookup,
  insert, delete, get_or, has_key,
}
use autostream_discord_bot.Types.{
  VoiceJob, Participant, ParticipantEvent, VoiceParticipant, ParticipantSnapshot,
}
use autostream_discord_bot.Jobs.{
  Manager, RosterState, Observation, Error, no_active_job, stream_mismatch, not_a_participant,
}
use autostream_discord_bot.Jobs.AutoStop.{update_auto_stop}

pub data Task : Type 0 where
  -- `reportParticipantsIfCurrent(…, true)`: job, participants, state revision, generation.
  reports_participants : VoiceJob → List Participant → ℕ → ℕ → Task
  -- `reportActiveSpeakerIfCurrent`: job, user, name, speaking, state revision, generation.
  reports_speaker : VoiceJob → String → String → Bool → ℕ → ℕ → Task
  -- `go m.autoStopWhenEmpty`: stream, observation, delay.
  watches_empty : String → Observation → ℕ → Task

unfoldable pub events_paused : Manager → Bool
events_paused m = m.stopping || m.disconnected

abbrev pub shown : RosterState → String × Participant → Participant
shown r (k, p) = record p { speaking = get_or p.user_id false r.active_speakers }

unfoldable pub participants_snapshot : RosterState → List Participant
participants_snapshot r = map (shown r) r.participants

unfoldable pub participants : Manager → String → Option Error × List Participant
participants m stream =
    if is_empty m.current.stream_id
    then (some no_active_job, [])
    else if not (is_empty stream) && not (str_eq stream m.current.stream_id)
    then (some stream_mismatch, [])
    else (none, participants_snapshot m.roster)

unfoldable pub any_active_speaker : List (String × Bool) → String
any_active_speaker [] = ""
any_active_speaker ((user, speaking) ∷ rest) = if speaking then user else any_active_speaker rest

abbrev filled : String → String → String
filled new old = if is_empty new then old else new

-- What a known participant keeps when it is seen again.
abbrev pub merged : Option Participant → Participant → Participant
merged none p = p
merged (some old) p = record p {
  username = filled p.username old.username;
  avatar_url = filled p.avatar_url old.avatar_url;
  is_bot = p.is_bot || old.is_bot;
  joined_at = if old.joined_at == 0 then p.joined_at else old.joined_at;
}

abbrev pub newcomer : ParticipantEvent → ℕ → Participant
newcomer event now = record {
  user_id = event.user_id;
  username = event.username;
  avatar_url = event.avatar_url;
  is_bot = event.is_bot;
  speaking = false;
  joined_at = now;
}

unfoldable pub join_roster : RosterState → ParticipantEvent → ℕ → RosterState
join_roster r event now = record r {
  participants =
      insert event.user_id (merged (lookup event.user_id r.participants) (newcomer event now))
        r.participants;
}

unfoldable pub leave_roster : RosterState → String → RosterState
unfolding any_active_speaker
leave_roster r user =
    let speakers = delete user r.active_speakers in
    record r {
      participants = delete user r.participants;
      active_speakers = speakers;
      active_speaker =
          if str_eq r.active_speaker user then any_active_speaker speakers else r.active_speaker;
    }

abbrev name_of : Option Participant → String
name_of none = ""
name_of (some p) = p.username

abbrev watch : Manager → Option Observation → List Task
watch m none = []
watch m (some o) = watches_empty m.current.stream_id o m.auto_stop.delay ∷ []

-- A change of the roster is counted in its state revision.
abbrev pub bumped : Manager → RosterState → ℕ → Manager
bumped m r now = record m {
  roster = record r { state_revision = next64 r.state_revision };
  last_event_at = now;
}

unfoldable pub moved : RosterState → ParticipantEvent → ℕ → RosterState
unfolding join_roster leave_roster
moved r event now = if event.present then join_roster r event now else leave_roster r event.user_id

unfoldable pub ignores_event : Manager → ParticipantEvent → Bool
unfolding events_paused
ignores_event m event =
    is_empty (trim event.user_id)
    || events_paused m
    || is_empty m.current.stream_id
    || not (str_eq event.stream_id m.current.stream_id)

abbrev stop_report : Manager → ParticipantEvent → ℕ → List Task
stop_report m event revision =
    if not event.present && get_or event.user_id false m.roster.active_speakers
    then reports_speaker m.current event.user_id
        (name_of (lookup event.user_id m.roster.participants)) false revision m.reconnect_generation
      ∷ []
    else []

unfoldable pub take_event : Manager → ParticipantEvent → ℕ → Manager × List Task
unfolding moved participants_snapshot
take_event m event now =
    let changed = bumped m (moved m.roster event now) now in
    let updated =
      update_auto_stop changed m.current now "voice_event" changed.roster.snapshot_revision in
    (
      updated.0,
      reports_participants m.current (participants_snapshot changed.roster)
            changed.roster.state_revision m.reconnect_generation
          ∷ (stop_report m event changed.roster.state_revision ++ watch updated.0 updated.1),
    )

unfoldable pub participant_changed : Manager → ParticipantEvent → ℕ → Manager × List Task
unfolding ignores_event take_event
participant_changed m event now = if ignores_event m event then (m, []) else take_event m event now

-- `participantSnapshotApplyOptions`.
pub record ApplyOptions : Type 0 where
  pub expected_generation : ℕ
  pub require_generation : Bool
  pub authoritative_replay : Bool
  pub expected_state_revision : ℕ
  pub require_state_revision : Bool

abbrev pub listed : VoiceParticipant → ℕ → Participant
listed item now = record {
  user_id = trim item.user_id;
  username = trim item.username;
  avatar_url = trim item.avatar_url;
  is_bot = item.is_bot;
  speaking = false;
  joined_at = now;
}

-- One round of the loop over the participants of a snapshot.
unfoldable pub seat :
    List (String × Participant)
    → ℕ
    → List (String × Participant)
    → VoiceParticipant
    → List (String × Participant)
seat old now acc item =
    if is_empty (trim item.user_id)
    then acc
    else insert (trim item.user_id) (merged (lookup (trim item.user_id) old) (listed item now)) acc

unfoldable pub replaced :
    List (String × Participant)
    → ℕ
    → List (String × Participant)
    → List VoiceParticipant
    → List (String × Participant)
replaced old now acc [] = acc
replaced old now acc (item ∷ items) = replaced old now (seat old now acc item) items

abbrev pub stays : List (String × Participant) → String × Bool → Bool
stays participants speaker = has_key speaker.0 participants

-- The roster after a snapshot: its participants, and of the speakers those that are present.
unfoldable pub sync_roster : RosterState → ParticipantSnapshot → ℕ → RosterState
unfolding seat replaced any_active_speaker
sync_roster r snapshot now =
    let present = replaced r.participants now [] snapshot.participants in
    let speakers = keep (stays present) r.active_speakers in
    record r {
      participants = present;
      active_speakers = speakers;
      active_speaker =
          if get_or r.active_speaker false speakers
          then r.active_speaker
          else any_active_speaker speakers;
      snapshot_revision =
          if ltb r.snapshot_revision snapshot.revision
          then snapshot.revision
          else r.snapshot_revision;
    }

abbrev report_again : Manager → List Task
report_again m =
    reports_participants m.current (participants_snapshot m.roster) m.roster.state_revision
      m.reconnect_generation
    ∷ []

-- The snapshot names no channel, or is not for the current execution of the stream.
unfoldable pub is_foreign : Manager → ParticipantSnapshot → ApplyOptions → Bool
unfolding events_paused
is_foreign m s options =
    is_empty s.stream_id
    || is_empty s.guild_id
    || is_empty s.voice_channel_id
    || events_paused m
    || not (str_eq m.current.stream_id s.stream_id)
    || not (str_eq m.current.guild_id s.guild_id)
    || not (str_eq m.current.voice_channel_id s.voice_channel_id)
    || (options.require_generation && not (m.reconnect_generation == options.expected_generation))

abbrev pub trimmed : ParticipantSnapshot → ParticipantSnapshot
trimmed s = record s {
  stream_id = trim s.stream_id;
  guild_id = trim s.guild_id;
  voice_channel_id = trim s.voice_channel_id;
}

-- The snapshot was made before the state that it would replace: the participants or the speakers
-- changed since it was asked for.
abbrev pub is_overtaken : Manager → ApplyOptions → Bool
is_overtaken m options =
    options.require_state_revision
    && not (m.roster.state_revision == options.expected_state_revision)

-- A snapshot with this revision or a newer one was applied before.
abbrev pub is_old : Manager → ParticipantSnapshot → Bool
is_old m s = not (s.revision == 0) && leb s.revision m.roster.snapshot_revision

abbrev replay : Manager → ParticipantSnapshot → ApplyOptions → List Task
replay m s options =
    if options.authoritative_replay && s.revision == m.roster.snapshot_revision
    then report_again m
    else []

unfoldable pub take_snapshot : Manager → ParticipantSnapshot → ℕ → Manager × Bool × List Task
unfolding sync_roster participants_snapshot
take_snapshot m s now =
    let changed = bumped m (sync_roster m.roster s now) now in
    let updated = update_auto_stop changed m.current now "authoritative_snapshot" s.revision in
    (updated.0, true, report_again changed ++ watch updated.0 updated.1)

-- `participantsSynced` on a snapshot with trimmed identifiers.
unfoldable pub apply_snapshot :
    Manager → ParticipantSnapshot → ApplyOptions → ℕ → Manager × Bool × List Task
unfolding is_foreign take_snapshot participants_snapshot
apply_snapshot m s options now =
    if is_foreign m s options
    then (m, false, [])
    else if is_overtaken m options
    then (m, true, report_again m)
    else if is_old m s
    then (m, true, replay m s options)
    else take_snapshot m s now

unfoldable pub participants_synced :
    Manager → ParticipantSnapshot → ApplyOptions → ℕ → Manager × Bool × List Task
unfolding apply_snapshot
participants_synced m snapshot options now = apply_snapshot m (trimmed snapshot) options now
