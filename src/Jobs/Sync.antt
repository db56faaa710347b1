-- ===== src/Jobs/Sync.antt =====
-- Keeping the participants in step with the Discord client's view of the channel: the snapshots
-- that are read by the handlers and by the periodic loop (internal/jobs/participants.go, lines 197
-- to 298). What the client answers is a `View`.
use autostream_discord_bot.Base.{
  ℕ, suc, Bool, true, false, not, ◌&&◌, ◌≡◌, ◌≢◌, refl, Option, none, some, List, [], ◌∷◌, arith,
  is_nil, if◌then◌else◌, if_case,
}
use autostream_discord_bot.Types.{VoiceJob, ParticipantSnapshot}
use autostream_discord_bot.Jobs.{Manager}
use autostream_discord_bot.Jobs.AutoStop.Check.{View, no_source, unavailable, seen}
use autostream_discord_bot.Jobs.Delivery.{is_current}
use autostream_discord_bot.Jobs.Roster.{
  Task, ApplyOptions, events_paused, is_foreign, apply_snapshot, participants_synced,
}

abbrev pub cancel_sync : Option ℕ → List ℕ → List ℕ
cancel_sync none cancelled = cancelled
cancel_sync (some c) cancelled = c ∷ cancelled

-- `restartParticipantSyncLocked`.
unfoldable pub restart_participant_sync : Manager → Manager
restart_participant_sync m = record m {
  cancelled = cancel_sync m.sync m.cancelled;
  sync = some m.next_id;
  next_id = suc m.next_id;
}

abbrev plain_options : ApplyOptions
plain_options = record {
  expected_generation = 0;
  require_generation = false;
  authoritative_replay = false;
  expected_state_revision = 0;
  require_state_revision = false;
}

-- `hydrateVoiceParticipants`.
unfoldable pub hydrate_voice_participants : Manager → View → Bool → ℕ → Manager × List Task
hydrate_voice_participants m no_source suppress now = (m, [])
hydrate_voice_participants m unavailable suppress now = (m, [])
hydrate_voice_participants m (seen s) suppress now =
    let synced = participants_synced m s plain_options now in
    if suppress && is_nil s.participants then (m, []) else (synced.0, synced.2)

unfoldable pub participant_job_current : Manager → VoiceJob → ℕ → Bool
unfolding events_paused is_current
participant_job_current m job generation = not (events_paused m) && is_current m job generation

abbrev sync_options : ℕ → ℕ → ApplyOptions
sync_options generation state_revision = record {
  expected_generation = generation;
  require_generation = true;
  authoritative_replay = true;
  expected_state_revision = state_revision;
  require_state_revision = true;
}

-- The snapshot once it is read, or not; the Boolean tells whether the loop goes on.
unfoldable pub apply_view :
    Manager → VoiceJob → Bool → ℕ → ℕ → View → ℕ → Manager × Bool × List Task
unfolding participant_job_current
apply_view m job suppress generation state_revision no_source now = (m, false, [])
apply_view m job suppress generation state_revision unavailable now =
    (m, participant_job_current m job generation, [])
apply_view m job suppress generation state_revision (seen s) now =
    if suppress && is_nil s.participants
    then (m, participant_job_current m job generation, [])
    else participants_synced m s (sync_options generation state_revision) now

-- `hydrateVoiceParticipantsForGeneration`; `others` acts while the client is asked.
unfoldable pub hydrate_for_generation :
    Manager → VoiceJob → Bool → ℕ → (Manager → Manager) → View → ℕ → Manager × Bool × List Task
unfolding is_current apply_view
hydrate_for_generation m job suppress generation others view now =
    if not (is_current m job generation)
    then (m, false, [])
    else apply_view (others m) job suppress generation m.roster.state_revision view now

foreign_snapshot :
    (m : Manager) (s : ParticipantSnapshot) (generation state_revision now : ℕ)
    → m.reconnect_generation ≢ generation
    → participants_synced m s (sync_options generation state_revision) now ≡ (m, false, [])
unfolding participants_synced apply_snapshot is_foreign
foreign_snapshot m s generation state_revision now moved = ground arith

not_current :
    (m : Manager) (job : VoiceJob) (generation : ℕ)
    → m.reconnect_generation ≢ generation
    → participant_job_current m job generation ≡ false
unfolding participant_job_current is_current
not_current m job generation moved = ground arith

apply_view-fenced :
    (m : Manager) (job : VoiceJob) (suppress : Bool) (generation state_revision : ℕ) (view : View)
    (now : ℕ)
    → m.reconnect_generation ≢ generation
    → apply_view m job suppress generation state_revision view now ≡ (m, false, [])
unfolding apply_view
apply_view-fenced m job suppress generation state_revision no_source now moved = refl
apply_view-fenced m job suppress generation state_revision unavailable now moved =
    rw (not_current m job generation moved) refl
apply_view-fenced m job suppress generation state_revision (seen s) now moved =
    rw
      (not_current m job generation moved, foreign_snapshot m s generation state_revision now moved)
      (if_case (λ (p : Manager × Bool × List Task). p ≡ (m, false, []))
        (suppress && is_nil s.participants) (λ _. refl) (λ _. refl))

-- A look of the synchronising loop at the channel, begun in its own run, changes nothing, reports
-- nothing and ends the loop if the generation is another one when the client has answered,
-- whatever the answer.
hydrate_for_generation-fenced :
    (m : Manager) (job : VoiceJob) (suppress : Bool) (generation : ℕ) (others : Manager → Manager)
    (view : View) (now : ℕ)
    → is_current m job generation ≡ true
    → (others m).reconnect_generation ≢ generation
    → hydrate_for_generation m job suppress generation others view now ≡ (others m, false, [])
unfolding hydrate_for_generation
hydrate_for_generation-fenced m job suppress generation others view now ours moved =
    rw (ours, hydrate_for_generation)
      (apply_view-fenced (others m) job suppress generation m.roster.state_revision view now moved)
