-- ===== src/Jobs/Delivery/Fence.antt =====
-- What is sent is of the current execution and of now (internal/jobs/event_retry.go,
-- internal/jobs/participants.go): the fences of the publishing paths.
use autostream_discord_bot.Base.{ℕ, true, false, ◌≡◌, some, List, arith, ◌==◌, if◌then◌else◌}
use autostream_discord_bot.Types.{VoiceJob, Participant, same_worker_event_job}
use autostream_discord_bot.Retry.{Report}
use autostream_discord_bot.Jobs.{Manager}
use autostream_discord_bot.Jobs.Roster.{events_paused, participants_snapshot}
use autostream_discord_bot.Jobs.Delivery.{participants_report}

-- A participant report goes out only while events are not paused and the execution that it was
-- made for is the current one; it holds the participants that it was made with if nothing changed
-- since, and the current ones otherwise.
participants_report-current :
    (m : Manager) (job : VoiceJob) (participants : List Participant) (revision generation : ℕ)
    (r : Report)
    → participants_report m job participants revision generation ≡ some r
    → (events_paused m ≡ false)
      × (same_worker_event_job m.current job ≡ true)
      × (m.reconnect_generation ≡ generation)
      × (r.job ≡ m.current)
      × (r.state_revision ≡ m.roster.state_revision)
      × (r.participants ≡ (
          if m.roster.state_revision == revision
          then participants
          else participants_snapshot m.roster))
unfolding participants_report
participants_report-current m job participants revision generation r h = ground arith
