-- ===== src/Jobs/Roster/Speakers.antt =====
-- Who speaks (internal/jobs/active_speakers.go, lines 11 to 109 and 150 to 157).
use autostream_discord_bot.Base.{
  ℕ, String, Bool, true, false, not, ◌&&◌, ◌||◌, Option, none, some, List, [], ◌∷◌, length, is_nil,
  ◌==◌, if◌then◌else◌, str_eq, is_empty, lookup, insert, delete, get_or, has_key,
}
use autostream_discord_bot.Types.{Participant}
use autostream_discord_bot.Jobs.{
  Manager, RosterState, Error, no_active_job, stream_mismatch, not_a_participant,
}
use autostream_discord_bot.Jobs.Roster.{
  Task, reports_participants, reports_speaker, events_paused, participants_snapshot,
  any_active_speaker, bumped,
}

-- The state of `setSpeakerState` after its checks.
unfoldable pub speak : RosterState → String → Bool → Bool → RosterState
unfolding any_active_speaker
speak r user speaking preserve_others =
    let others = delete user r.active_speakers in
    if speaking
    then record r {
      active_speakers = insert user true (if preserve_others then r.active_speakers else []);
      active_speaker = user;
    }
    else record r {
      active_speakers = others;
      active_speaker =
          if str_eq r.active_speaker user then any_active_speaker others else r.active_speaker;
    }

-- The speaker is shown as asked already, so nothing is to be done.
unfoldable pub already : RosterState → String → Bool → Bool → Bool
already r user speaking preserve_others =
    let currently = get_or user false r.active_speakers in
    (preserve_others && (if currently then speaking else not speaking))
    || (speaking && not preserve_others && currently && length r.active_speakers == 1)

abbrev name_of : Option Participant → String
name_of none = ""
name_of (some p) = p.username

abbrev speaker_tasks : Manager → String → String → Bool → List Task
speaker_tasks m user name speaking =
    reports_participants m.current (participants_snapshot m.roster) m.roster.state_revision
      m.reconnect_generation
    ∷ reports_speaker m.current user name speaking m.roster.state_revision m.reconnect_generation
    ∷ []

unfoldable pub take_speaker :
    Manager → String → Bool → Bool → ℕ → Manager × Option Error × List Task
unfolding speak participants_snapshot
take_speaker m user speaking preserve_others now =
    let changed = bumped m (speak m.roster user speaking preserve_others) now in
    (
      changed,
      none,
      speaker_tasks changed user (name_of (lookup user m.roster.participants)) speaking,
    )

abbrev pub is_other : Manager → String → Bool
is_other m stream = not (is_empty stream) && not (str_eq stream m.current.stream_id)

unfoldable pub set_speaker_state :
    Manager → String → String → Bool → Bool → ℕ → Manager × Option Error × List Task
unfolding events_paused take_speaker already
set_speaker_state m stream user speaking preserve_others now =
    if events_paused m || is_empty m.current.stream_id
    then (m, some no_active_job, [])
    else if is_other m stream
    then (m, some stream_mismatch, [])
    else if not (has_key user m.roster.participants)
    then (m, some not_a_participant, [])
    else if already m.roster user speaking preserve_others
    then (m, none, [])
    else take_speaker m user speaking preserve_others now

unfoldable pub clear_speakers : Manager → ℕ → Manager × Option Error × List Task
unfolding participants_snapshot
clear_speakers m now =
    let changed = bumped m (record m.roster { active_speakers = []; active_speaker = "" }) now in
    (changed, none, speaker_tasks changed "" "" false)

unfoldable pub clear_speaker_states : Manager → String → ℕ → Manager × Option Error × List Task
unfolding clear_speakers
clear_speaker_states m stream now =
    if is_empty m.current.stream_id
    then (m, some no_active_job, [])
    else if is_other m stream
    then (m, some stream_mismatch, [])
    else if is_nil m.roster.active_speakers
    then (m, none, [])
    else clear_speakers m now

unfoldable pub set_active_speaker :
    Manager → String → String → ℕ → Manager × Option Error × List Task
unfolding set_speaker_state clear_speaker_states
set_active_speaker m stream user now =
    if is_empty user
    then clear_speaker_states m stream now
    else set_speaker_state m stream user true false now

-- `ActiveSpeakerDetected` and `ActiveSpeakerStateChanged` drop the error.
unfoldable pub active_speaker_detected : Manager → String → String → ℕ → Manager × List Task
unfolding set_active_speaker
active_speaker_detected m stream user now =
    let r = set_active_speaker m stream user now in (r.0, r.2)

unfoldable pub active_speaker_state_changed :
    Manager → String → String → Bool → ℕ → Manager × List Task
unfolding set_speaker_state
active_speaker_state_changed m stream user speaking now =
    let r = set_speaker_state m stream user speaking true now in (r.0, r.2)
