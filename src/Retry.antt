-- ===== src/Retry.antt =====
-- The queue of failed worker events (internal/jobs/event_retry.go, lines 13 to 216): state and
-- operations. Each operation is one critical section under `q.mu`. `wake` is the channel of
-- capacity 1, `cancelled` the queue's context. `time.Now()` is an argument, once for each call.
pub mod Classify
pub mod Selection
pub mod Backoff
pub mod Eviction
pub mod Coalescing
pub mod Invariant
pub mod Schedule
pub mod Bounds
use autostream_discord_bot.Base.{
  ℕ, zero, suc, ◌+◌, ◌-◌, ◌*◌, String, Bool, true, false, not, ◌&&◌, ◌||◌, Option, none, some, List,
  [], ◌∷◌, length, ltb, leb, ◌==◌, if◌then◌else◌, next64, str_eq, is_empty, lookup, insert, delete,
  get_or, has_key,
}
use autostream_discord_bot.Types.{VoiceJob, Participant, ChatMessage, no_job, no_chat}
use Classify.{PublishFault}

abbrev pub max_pending : ℕ
max_pending = 256

abbrev pub max_attempts : ℕ
max_attempts = 4

-- 250 ms and 3 s, in nanoseconds.
abbrev pub retry_base : ℕ
retry_base = 250_000_000

abbrev pub retry_max : ℕ
retry_max = 3_000_000_000

pub record Report : Type 0 where
  pub key : String
  pub event_type : String
  pub job : VoiceJob
  pub reconnect_generation : ℕ
  pub participants : List Participant
  pub state_revision : ℕ
  pub speaker_user_id : String
  pub speaker_display_name : String
  pub speaking : Bool
  pub chat : ChatMessage
  pub sequence : ℕ
  pub attempts : ℕ
  pub next_try_at : ℕ
  pub queued_at : ℕ
  pub err : Option PublishFault

-- `workerEventRetryReport{}`.
abbrev pub no_report : Report
no_report = record {
  key = "";
  event_type = "";
  job = no_job;
  reconnect_generation = 0;
  participants = [];
  state_revision = 0;
  speaker_user_id = "";
  speaker_display_name = "";
  speaking = false;
  chat = no_chat;
  sequence = 0;
  attempts = 0;
  next_try_at = 0;
  queued_at = 0;
  err = none;
}

pub record Queue : Type 0 where
  pub pending : List (String × Report)
  pub latest : List (String × ℕ)
  pub sequence : ℕ
  pub stopped : Bool
  pub cancelled : Bool
  pub wake : Bool

unfoldable pub new_queue : Queue
new_queue = record {
  pending = [];
  latest = [];
  sequence = 0;
  stopped = false;
  cancelled = false;
  wake = false;
}

-- `signalLocked`: a send on a full channel is skipped.
unfoldable pub signal : Queue → Queue
signal q = record q { wake = true }

-- The state that `stopAndWait` leaves. The wait for the loop's goroutine is not a state change.
unfoldable pub stop : Queue → Queue
unfolding signal
stop q =
    let emptied = if q.stopped then q else record q { stopped = true; pending = []; latest = [] } in
    signal (record emptied { cancelled = true })

abbrev pub is_chat : Report → Bool
is_chat r = str_eq r.event_type "overlay.discord_chat"

-- One round of the scan for the oldest chat message; `oldest_key` is "" until one is found.
unfoldable pub older_chat : String → ℕ → String → Report → String × ℕ
older_chat oldest_key oldest key r =
    if not (is_chat r)
    then (oldest_key, oldest)
    else if is_empty oldest_key || ltb r.queued_at oldest
    then (key, r.queued_at)
    else (oldest_key, oldest)

unfoldable pub oldest_chat : String → ℕ → List (String × Report) → String
unfolding older_chat
oldest_chat oldest_key oldest [] = oldest_key
oldest_chat oldest_key oldest ((key, r) ∷ rest) =
    let found = older_chat oldest_key oldest key r in oldest_chat found.0 found.1 rest

-- `dropOldestChatLocked`; `none` stands for the result false.
unfoldable pub drop_oldest_chat : Queue → Option Queue
drop_oldest_chat q =
    let key = oldest_chat "" 0 q.pending in
    if is_empty key
    then none
    else some (record q { pending = delete key q.pending; latest = delete key q.latest })

-- The part of `enqueue` below the room check.
unfoldable pub admit : Queue → Report → ℕ → Queue
unfolding signal
admit q report now =
    let seq = next64 q.sequence in
    let queued = record report {
      sequence = seq;
      attempts = 0;
      queued_at = now;
      next_try_at = now + retry_base;
    } in
    signal (record q {
      sequence = seq;
      latest = insert report.key seq q.latest;
      pending = insert report.key queued q.pending;
    })

-- Room for a key that is not pending is made by giving up the oldest chat message.
unfoldable pub make_room : Queue → String → Option Queue
make_room q key =
    if not (has_key key q.pending) && leb max_pending (length q.pending)
    then drop_oldest_chat q
    else some q

unfoldable pub enqueue : Queue → Report → ℕ → Queue × Bool
enqueue q report now =
    if q.stopped
    then (q, false)
    else elim (make_room q report.key) [ none ↦ (q, false) | some r ↦ (admit r report now, true) ]

-- The result of `next` as the loop reads it: a report to deliver, a positive wait, or neither.
pub data Next : Type 0 where
  ready : Report → Next
  wait_for : ℕ → Next
  idle : Next

-- `nextTryAt.IsZero() || !nextTryAt.After(now)`.
abbrev pub is_due : ℕ → Report → Bool
is_due now r = r.next_try_at == 0 || leb r.next_try_at now

-- One round of the scan of `next` for the report that is due and was queued first; the key of the
-- selected report is "" until one is found.
unfoldable pub choose : ℕ → Report → Report → Report
choose now selected r =
    if is_due now r && (is_empty selected.key || ltb r.queued_at selected.queued_at)
    then r
    else selected

-- The same round for the earliest time of those that are not due yet; 0 until one is found.
unfoldable pub nearer : ℕ → ℕ → Report → ℕ
nearer now soonest r =
    if not (is_due now r) && (soonest == 0 || ltb r.next_try_at soonest)
    then r.next_try_at
    else soonest

unfoldable pub pick : ℕ → Report → ℕ → List (String × Report) → Report × ℕ
pick now selected soonest [] = (selected, soonest)
pick now selected soonest ((_, r) ∷ rest) =
    pick now (choose now selected r) (nearer now soonest r) rest

-- `next`; `later` is the second reading of the clock, in `time.Until`. A wait that is over by then is
-- not positive, and the loop takes that for `idle`.
unfoldable pub answer : Queue → ℕ → Report × ℕ → Queue × Next
answer q later (selected, soonest) =
    if not (is_empty selected.key)
    then (record q { pending = delete selected.key q.pending }, ready selected)
    else if soonest == 0 || leb soonest later
    then (q, idle)
    else (q, wait_for (soonest - later))

unfoldable pub next : Queue → ℕ → ℕ → Queue × Next
unfolding answer
next q now later = answer q later (pick now no_report 0 q.pending)

-- `q.latest[report.key] == report.sequence`, with 0 for a missing key.
abbrev pub has_latest : Queue → Report → Bool
has_latest q r = get_or r.key 0 q.latest == r.sequence

unfoldable pub is_latest : Queue → Report → Bool
is_latest q r = not q.stopped && has_latest q r

unfoldable pub mark_delivered : Queue → Report → Queue
mark_delivered q r =
    if has_latest q r
    then record q { pending = delete r.key q.pending; latest = delete r.key q.latest }
    else q

-- `markDropped` has the same effect as `markDelivered`.
unfoldable pub mark_dropped : Queue → Report → Queue
mark_dropped q r =
    if has_latest q r
    then record q { pending = delete r.key q.pending; latest = delete r.key q.latest }
    else q

-- The loop that doubles the delay: `rounds` rounds are left.
unfoldable pub doubled : ℕ → ℕ → ℕ
doubled zero delay = delay
doubled (suc rounds) delay =
    let more = doubled rounds (delay * 2) in if leb retry_max (delay * 2) then retry_max else more

unfoldable pub retry_delay : ℕ → ℕ
retry_delay attempts = doubled (attempts - 1) retry_base

-- `requeue`; `now` and `later` are its two readings of the clock.
unfoldable pub requeue : Queue → Report → ℕ → ℕ → Queue
unfolding signal
requeue q r now later =
    if q.stopped || not (has_latest q r)
    then q
    else if has_key r.key q.pending
    then q
    else if leb max_attempts r.attempts
    then record q { latest = delete r.key q.latest }
    else signal (record q {
      pending =
          insert r.key (record r { next_try_at = now + retry_delay r.attempts; queued_at = later })
            q.pending;
    })

-- The part of `supersedeWorkerEventRetry` that acts on the queue.
unfoldable pub supersede : Queue → String → Queue
unfolding signal
supersede q key = signal (
    if q.stopped
    then q
    else record q { pending = delete key q.pending; latest = delete key q.latest })
