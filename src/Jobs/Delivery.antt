-- ===== src/Jobs/Delivery.antt =====
-- Publishing to the Worker, at once and again from the retry queue: the manager's side of
-- internal/jobs/event_retry.go (lines 289 to 423), `reportParticipantsIfCurrent` and
-- `reportActiveSpeakerIfCurrent`, and internal/jobs/worker_reporting.go. What the reporter answers
-- to a payload is a parameter, `publish`; log lines are left out.
pub mod Fence
pub mod Chat
use autostream_discord_bot.Base.{
  ℕ, suc, ◌+◌, String, Bool, true, false, not, ◌&&◌, ◌||◌, Option, none, some, List, [], ◌∷◌, leb,
  ltb, ◌==◌, if◌then◌else◌, next64, str_eq, is_empty, is_some, append, trim, lookup, insert, get_or,
  has_key,
}
use autostream_discord_bot.Types.{
  VoiceJob, Participant, ChatMessage, same_worker_event_job, no_chat,
}
use autostream_discord_bot.Retry.Classify.{PublishFault, should_retry_worker_publish}
use autostream_discord_bot.Retry.{
  Report, Queue, no_report, enqueue, supersede, is_latest, mark_dropped,
}
use autostream_discord_bot.Retry.Invariant.{settle}
use autostream_discord_bot.Jobs.{Manager}
use autostream_discord_bot.Jobs.Roster.{events_paused, participants_snapshot}

unfoldable pub participants_retry_key : VoiceJob → String
participants_retry_key job = append (trim job.stream_id) "\0participants"

unfoldable pub speaker_retry_key : VoiceJob → String
speaker_retry_key job = append (trim job.stream_id) "\0active_speaker"

unfoldable pub chat_retry_key : VoiceJob → ChatMessage → String
chat_retry_key job message =
    append (trim job.stream_id) (append "\0chat\0" (trim message.message_id))

abbrev log_key : String → String → String
log_key event_type stream =
    append (if is_empty (trim event_type) then "unknown" else trim event_type)
      (append "\0" (trim stream))

abbrev should_log : Manager → String → ℕ → Bool
should_log m key now =
    let last = get_or key 0 m.failure_log_at in
    last == 0 || m.failure_log_interval == 0 || not (ltb now (last + m.failure_log_interval))

-- `recordWorkerPublishFailureAttempt`: the counter, and the time of the last log line of its kind.
unfoldable pub record_publish_failure : Manager → String → String → ℕ → Manager
record_publish_failure m event_type stream now = record m {
  worker_failures = next64 m.worker_failures;
  failure_log_at =
      if should_log m (log_key event_type stream) now
      then insert (log_key event_type stream) now m.failure_log_at
      else m.failure_log_at;
}

-- The execution that a report was made for is still the current one.
unfoldable pub is_current : Manager → VoiceJob → ℕ → Bool
is_current m job generation =
    same_worker_event_job m.current job && m.reconnect_generation == generation

abbrev enqueue_on : Manager → Option (ℕ × Queue) → Report → ℕ → Manager × Bool
enqueue_on m none r now = (m, false)
enqueue_on m (some (id, q)) r now =
    (record m { worker_retry = some (id, (enqueue q r now).0) }, (enqueue q r now).1)

unfoldable pub enqueue_retry : Manager → Report → ℕ → Manager × Bool
unfolding is_current
enqueue_retry m r now =
    if not (should_retry_worker_publish r.err)
    then (m, false)
    else if not (is_current m r.job r.reconnect_generation)
    then (m, false)
    else enqueue_on m m.worker_retry (record r { err = none }) now

abbrev supersede_on : Manager → Option (ℕ × Queue) → String → Manager
supersede_on m none key = m
supersede_on m (some (id, q)) key = record m { worker_retry = some (id, supersede q key) }

unfoldable pub supersede_retry : Manager → VoiceJob → ℕ → String → Manager
unfolding is_current
supersede_retry m job generation key =
    if is_current m job generation then supersede_on m m.worker_retry key else m

-- What follows a publish: on a failure it is counted and the report queued, on success a report of
-- the same key that waits in the queue is superseded.
unfoldable pub note_result : Manager → Report → Option PublishFault → ℕ → Manager
unfolding supersede_retry record_publish_failure enqueue_retry
note_result m r none now = supersede_retry m r.job r.reconnect_generation r.key
note_result m r (some f) now =
    (enqueue_retry (record_publish_failure m r.event_type r.job.stream_id now)
      (record r { err = some f }) now).0

-- `reportParticipantsIfCurrent` (with `requireGeneration`) up to the publish: the report to publish,
-- `none` if the execution is over, paused or another one. Participants that were overtaken are
-- replaced by the current ones.
unfoldable pub participants_report : Manager → VoiceJob → List Participant → ℕ → ℕ → Option Report
unfolding events_paused is_current participants_snapshot
participants_report m job participants state_revision generation =
    if events_paused m || not (is_current m job generation)
    then none
    else some (record no_report {
      key = participants_retry_key m.current;
      event_type = "overlay.participants";
      job = m.current;
      reconnect_generation = m.reconnect_generation;
      participants =
          if m.roster.state_revision == state_revision
          then participants
          else participants_snapshot m.roster;
      state_revision = m.roster.state_revision;
    })

-- `reportActiveSpeakerIfCurrent` up to the publish: an overtaken report is dropped.
unfoldable pub speaker_report : Manager → VoiceJob → String → String → Bool → ℕ → ℕ → Option Report
unfolding events_paused is_current
speaker_report m job user name speaking state_revision generation =
    if events_paused m
      || not (is_current m job generation)
      || not (m.roster.state_revision == state_revision)
    then none
    else some (record no_report {
      key = speaker_retry_key m.current;
      event_type = "overlay.active_speaker";
      job = m.current;
      reconnect_generation = generation;
      state_revision = state_revision;
      speaker_user_id = user;
      speaker_display_name = name;
      speaking = speaking;
    })

-- A report, if there is one and a reporter is set, is published with no lock held, while other
-- goroutines may act (`others`), and its result is noted.
unfoldable pub publish_report :
    Manager → Option Report → (Report → Option PublishFault) → (Manager → Manager) → ℕ → Manager
unfolding note_result
publish_report m none publish others now = m
publish_report m (some r) publish others now =
    if not m.reporter then m else note_result (others m) r (publish r) now

abbrev owns : Option (ℕ × Queue) → ℕ → Bool
owns none id = false
owns (some (i, q)) id = i == id

-- The queue with this address is the manager's, and the execution of the report the current one.
unfoldable pub is_own_report : Manager → ℕ → Report → Bool
unfolding is_current
is_own_report m id r = owns m.worker_retry id && is_current m r.job r.reconnect_generation

-- `isCurrentWorkerRetryReport` for the queue with this address.
unfoldable pub is_current_retry_report : Manager → ℕ → Queue → Report → Bool
unfolding is_own_report
is_current_retry_report m id q r = is_latest q r && is_own_report m id r

abbrev display_name : Manager → Report → String
display_name m r = elim (lookup r.speaker_user_id m.roster.participants) [
  | none ↦ r.speaker_display_name
  | some p ↦ p.username
]

-- `refreshWorkerRetryReport`: the state that is sent is that of now, not of the first try.
unfoldable pub refreshed : Manager → Report → Report
unfolding participants_snapshot
refreshed m r =
    let base = record r { job = m.current } in
    if str_eq r.event_type "overlay.participants"
    then record base {
      participants = participants_snapshot m.roster;
      state_revision = m.roster.state_revision;
    }
    else if str_eq r.event_type "overlay.active_speaker"
    then record base {
      speaking =
          not (is_empty r.speaker_user_id)
          && get_or r.speaker_user_id false m.roster.active_speakers;
      speaker_display_name = display_name m r;
    }
    else base

-- How the sections before the publish end: this report is dropped, or this one is published.
pub data Prepared : Type 0 where
  drops : Report → Prepared
  publishes : Report → Prepared

-- `refreshWorkerRetryReport` and what its answer leads to. A report that is not of the current
-- execution any more is overwritten by an empty one, and that is what is dropped.
unfoldable pub refresh_retry_report : Manager → ℕ → Report → Prepared
unfolding is_own_report refreshed
refresh_retry_report m id r =
    if not (is_own_report m id r)
    then drops no_report
    else if not m.reporter
    then drops (refreshed m r)
    else publishes (record (refreshed m r) { attempts = suc r.attempts })

-- The queue with this address, as the manager has it now, or as the loop last had it.
abbrev queue_now : Option (ℕ × Queue) → ℕ → Queue → Queue
queue_now none id q = q
queue_now (some (i, p)) id q = if i == id then p else q

-- `deliverWorkerEventRetry` up to the publish, by the loop of queue `q`. The report is checked
-- before and after the publish lock is awaited, and then refreshed; `waits` and `meanwhile` are
-- what other goroutines do between these sections.
unfoldable pub begin_delivery :
    Manager → ℕ → Queue → Report → (Manager → Manager) → (Manager → Manager) → Manager × Prepared
unfolding is_current_retry_report refresh_retry_report
begin_delivery m id q r waits meanwhile =
    let w = waits m in
    if q.cancelled || not (is_current_retry_report m id q r)
    then (m, drops r)
    else if not (is_current_retry_report w id (queue_now w.worker_retry id q) r)
    then (w, drops r)
    else (meanwhile w, refresh_retry_report (meanwhile w) id r)

abbrev count_failure : Manager → Report → Option PublishFault → ℕ → Manager
count_failure m r none now = m
count_failure m r (some f) now = record_publish_failure m r.event_type r.job.stream_id now

abbrev on_queue : Manager → Option (ℕ × Queue) → ℕ → (Queue → Queue) → Manager
on_queue m none id f = m
on_queue m (some (i, q)) id f = if i == id then record m { worker_retry = some (i, f q) } else m

-- The end of the delivery, on the queue with this address if it is still the manager's; a queue
-- that is not was stopped, and what its loop does to it is seen by nobody.
unfoldable pub end_delivery : Manager → ℕ → Report → Option PublishFault → Bool → ℕ → ℕ → Manager
unfolding record_publish_failure
end_delivery m id r e cancelled now later =
    let counted = count_failure m r e now in
    on_queue counted counted.worker_retry id λ q. settle q r e cancelled now later

abbrev finish_delivery :
    Manager × Prepared
    → ℕ
    → (Report → Option PublishFault)
    → (Manager → Manager)
    → Bool
    → ℕ
    → ℕ
    → Manager
finish_delivery (m, drops r) id publish others cancelled now later =
    on_queue m m.worker_retry id λ q. mark_dropped q r
finish_delivery (m, publishes r) id publish others cancelled now later =
    end_delivery (others m) id r (publish r) cancelled now later

-- `deliverWorkerEventRetry`; `others` acts while the report is published, and `cancelled` tells
-- whether the queue's context was cancelled meanwhile.
unfoldable pub deliver :
    Manager
    → ℕ
    → Queue
    → Report
    → (Manager → Manager)
    → (Manager → Manager)
    → (Report → Option PublishFault)
    → (Manager → Manager)
    → Bool
    → ℕ
    → ℕ
    → Manager
unfolding begin_delivery end_delivery
deliver m id q r waits meanwhile publish others cancelled now later =
    finish_delivery (begin_delivery m id q r waits meanwhile) id publish others cancelled now later
