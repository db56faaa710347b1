-- ===== src/Jobs/AutoStop/Check.antt =====
-- The check of a voice channel that was found empty (`autoStopWhenEmpty` and
-- `scheduleAutoStopRetry` in internal/jobs/auto_stop.go), as its critical sections. What the
-- Discord client answers when the channel is read again is a `View`, and what the Control Panel
-- answers to the stop request a parameter.
pub mod Confirmed
use autostream_discord_bot.Base.{
  ℕ, suc, ◌+◌, String, Bool, true, false, not, ◌&&◌, ◌||◌, Option, none, some, List, [], ◌∷◌,
  length, is_nil, get_elem?, leb, ◌==◌, if◌then◌else◌, str_eq, is_empty, trim, lookup, insert,
  delete, get_or, has_key,
}
use autostream_discord_bot.Types.{VoiceJob, VoiceParticipant, ParticipantSnapshot}
use autostream_discord_bot.Jobs.{Manager, StopState, InFlight, Observation, RejoinIntent}
use autostream_discord_bot.Jobs.AutoStop.{
  auto_stop_still_valid, auto_stop_still_valid_for_job, cancel_auto_stop, clear_auto_stop_in_flight,
  finish_auto_stop,
}
use autostream_discord_bot.Jobs.Roster.{Task, ApplyOptions, participants_synced}

-- The client cannot be asked, does not know, or has read the channel.
pub data View : Type 0 where
  no_source : View
  unavailable : View
  seen : ParticipantSnapshot → View

-- What the check read under the lock before it looked at the channel.
pub record Basis : Type 0 where
  pub job : VoiceJob
  pub reconnect_generation : ℕ
  pub state_revision : ℕ
  pub empty_confirm_delay : ℕ

unfoldable pub begin_check : Manager → String → Observation → Option Basis
begin_check m stream o =
    if not (auto_stop_still_valid m stream o.auto_stop_generation)
    then none
    else some (record {
      job = m.current;
      reconnect_generation = m.reconnect_generation;
      state_revision = m.roster.state_revision;
      empty_confirm_delay = m.auto_stop.empty_confirm_delay;
    })

abbrev pub still_valid : Manager → String → Observation → Basis → Bool
still_valid m stream o b =
    auto_stop_still_valid_for_job m stream o.auto_stop_generation b.job b.reconnect_generation

unfoldable pub call_off : Manager → String → Observation → Basis → Manager
unfolding auto_stop_still_valid_for_job cancel_auto_stop
call_off m stream o b =
    if still_valid m stream o b
    then record m { auto_stop = cancel_auto_stop m.auto_stop stream }
    else m

-- What a look at the channel leads to.
pub data Verdict : Type 0 where
  -- The check ends here, after these calls.
  ends : List Task → Verdict
  -- The channel is to be looked at once more, after a delay.
  looks_again : Observation → ℕ → Verdict
  -- The stop is to be requested.
  requests : Observation → Verdict

abbrev replay_options : Basis → ApplyOptions
replay_options b = record {
  expected_generation = b.reconnect_generation;
  require_generation = true;
  authoritative_replay = true;
  expected_state_revision = b.state_revision;
  require_state_revision = true;
}

abbrev confirmed_by : Observation → Basis → ParticipantSnapshot → Observation
confirmed_by o b s = record o {
  snapshot_revision = s.revision;
  participant_state_revision = b.state_revision;
}

unfoldable pub found_occupied :
    Manager → String → Observation → Basis → ParticipantSnapshot → ℕ → Manager × Verdict
found_occupied m stream o b s now =
    let synced = participants_synced m s (replay_options b) now in
    (call_off synced.0 stream o b, ends synced.2)

unfoldable pub found_empty : Manager → String → Observation → Basis → ParticipantSnapshot → Verdict
found_empty m stream o b s =
    if not (still_valid m stream o b)
    then ends []
    else if not o.empty_revalidation_passed
    then looks_again (record (confirmed_by o b s) { empty_revalidation_passed = true })
        b.empty_confirm_delay
    else requests (confirmed_by o b s)

unfoldable pub revalidate : Manager → String → Observation → Basis → View → ℕ → Manager × Verdict
revalidate m stream o b no_source now = (m, requests o)
revalidate m stream o b unavailable now = (call_off m stream o b, ends [])
revalidate m stream o b (seen s) now =
    if not (is_nil s.participants)
    then found_occupied m stream o b s now
    else (m, found_empty m stream o b s)

abbrev pub requested : Manager → String → Observation → ℕ → Manager
requested m stream o now = record m {
  auto_stop = record m.auto_stop {
    last_attempt = insert stream now m.auto_stop.last_attempt;
    in_flight =
        insert stream
          (record {
            assignment_epoch = m.assignment_epoch;
            generation = o.auto_stop_generation;
            request = m.next_id;
            job = m.current;
          })
          m.auto_stop.in_flight;
  };
  next_id = suc m.next_id;
}

-- The section before the request goes out: `none` if it does not.
unfoldable pub begin_request : Manager → String → Observation → Basis → ℕ → Option Manager
begin_request m stream o b now =
    if not (still_valid m stream o b) then none else some (requested m stream o now)

-- What follows the answer of the Control Panel.
pub data Outcome : Type 0 where
  done : Outcome
  retries_after : ℕ → Outcome

-- `scheduleAutoStopRetry` for an error that may be retried or not.
unfoldable pub schedule_auto_stop_retry : Manager → String → ℕ → Bool → Manager × Outcome
unfolding auto_stop_still_valid finish_auto_stop
schedule_auto_stop_retry m stream generation retryable =
    let finished = record m { auto_stop = finish_auto_stop m.auto_stop stream generation } in
    let attempt = get_or stream 0 m.auto_stop.attempts in
    if not retryable
    then (finished, done)
    else if not (auto_stop_still_valid m stream generation)
    then (m, done)
    else elim (get_elem? m.auto_stop.retry_delays attempt) [
      | none ↦ (finished, done)
      | some delay ↦ (
        record m {
          auto_stop = record m.auto_stop {
            attempts = insert stream (suc attempt) m.auto_stop.attempts;
          };
        },
        retries_after delay,
      )
    ]

abbrev has_source : String → List (String × RejoinIntent) → Bool
has_source stream [] = false
has_source stream ((k, i) ∷ rest) = str_eq i.source_stream_id stream || has_source stream rest

-- `scheduleAutoStopRejoinReconciliation`: marks the reconciliation as running.
unfoldable pub schedule_reconciliation : Manager → String → Manager
schedule_reconciliation m stream =
    let s = trim stream in
    if is_empty s || not (has_source s m.rejoin.intents) || get_or s false m.rejoin.reconcile_run
    then m
    else record m {
      rejoin = record m.rejoin { reconcile_run = insert s true m.rejoin.reconcile_run };
    }

-- The answer to a request: none for success, else whether the error may be retried.
unfoldable pub end_request : Manager → String → Observation → Option Bool → Manager × Outcome
unfolding clear_auto_stop_in_flight auto_stop_still_valid schedule_reconciliation
    schedule_auto_stop_retry finish_auto_stop
end_request m stream o answer =
    let g = o.auto_stop_generation in
    let cleared = record m { auto_stop = clear_auto_stop_in_flight m.auto_stop stream g } in
    let reconciled =
      if has_source (trim stream) cleared.rejoin.intents
      then schedule_reconciliation cleared stream
      else cleared in
    if not (auto_stop_still_valid cleared stream g) then (reconciled, done) else elim answer [
      | none ↦ (record cleared { auto_stop = finish_auto_stop cleared.auto_stop stream g }, done)
      | some retryable ↦ schedule_auto_stop_retry cleared stream g retryable
    ]

-- How a whole check ends.
pub data Answer : Type 0 where
  ended : List Task → Answer
  again : Observation → ℕ → Answer
  sent : Observation → Answer

abbrev pub send : Manager → Option Manager → Observation → Manager × Answer
send m none o = (m, ended [])
send m (some u) o = (u, sent o)

unfoldable pub conclude :
    Manager × Verdict → String → Basis → (Manager → Manager) → ℕ → Manager × Answer
conclude (m, ends tasks) stream b others now = (m, ended tasks)
conclude (m, looks_again o delay) stream b others now = (m, again o delay)
conclude (m, requests o) stream b others now =
    send (others m) (begin_request (others m) stream o b now) o

-- `autoStopWhenEmpty` from the end of its delay to the stop request; `others` and `meanwhile` are
-- what other goroutines do while the channel is looked at, and before the request is prepared.
unfoldable pub auto_stop_when_empty :
    Manager
    → String
    → Observation
    → (Manager → Manager)
    → View
    → ℕ
    → (Manager → Manager)
    → ℕ
    → Manager × Answer
auto_stop_when_empty m stream o others view now meanwhile later = elim (begin_check m stream o) [
  | none ↦ (m, ended [])
  | some b ↦ conclude (revalidate (others m) stream o b view now) stream b meanwhile later
]
