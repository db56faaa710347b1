-- ===== src/Jobs/Notify.antt =====
-- The YouTube live notification of internal/jobs/notification.go: one message per event into the
-- text channel of the current job, with a receipt for each event under the hash of its id. The hash
-- function and the client's `SendMessage` are arguments. `begin_notify` is the first critical
-- section, `end_notify` the second; the message is sent between them with no lock held.
pub mod Scan
pub mod Receipts
pub mod Repeat
pub mod Invariant
pub mod Schedule
pub mod Kept
use autostream_discord_bot.Base.{
  ℕ, zero, suc, ◌-◌, String, Bool, true, false, not, ◌&&◌, ◌||◌, Option, none, some, List, [], ◌∷◌,
  if◌then◌else◌, ltb, leb, ◌==◌, is_empty, trim, append, str_eq, lookup, insert, delete, keep,
  length,
}
use autostream_discord_bot.Jobs.{Manager, Receipt, seconds}

-- `SendMessageError` (internal/discord/message.go).
pub record SendError : Type 0 where
  pub code : String
  pub retryable : Bool
  pub retry_after : ℕ

abbrev pub unavailable : SendError
unavailable = record { code = "discord_unavailable"; retryable = true; retry_after = 0 }

pub data NotifyError : Type 0 where
  stream_id_required event_id_required watch_url_required : NotifyError
  no_active_live_job live_job_stream_mismatch : NotifyError
  text_channel_missing text_channel_mismatch : NotifyError
  event_id_conflict receipt_capacity : NotifyError
  send_failed : SendError → NotifyError

-- What `SendMessage` answers: the id of the message, or its error.
pub data Sent : Type 0 where
  sent : String → Sent
  not_sent : SendError → Sent

-- `NotificationResult` with its error.
pub data Answer : Type 0 where
  failed : NotifyError → Answer
  notified : (message_id : String) → (already_sent : Bool) → Answer

abbrev pub receipt_ttl : ℕ
receipt_ttl = seconds 86400

abbrev pub max_receipts : ℕ
max_receipts = 2048

abbrev pub message_prefix : String
message_prefix = "YouTube配信を開始しました。\n"

-- `ActiveLiveJobTextChannelID`.
unfoldable pub active_live_job_text_channel_id : Manager → String → Option String
active_live_job_text_channel_id m stream =
    if is_empty (trim stream) || not (str_eq (trim m.current.stream_id) (trim stream))
    then none
    else if is_empty (trim m.current.text_channel_id)
    then none
    else some (trim m.current.text_channel_id)

-- `validateLiveNotificationStateLocked`.
unfoldable pub validate_state : Manager → String → String → Option NotifyError
validate_state m stream channel =
    if is_empty m.current.stream_id
    then some no_active_live_job
    else if not (str_eq m.current.stream_id stream)
    then some live_job_stream_mismatch
    else if is_empty (trim m.current.text_channel_id) || is_empty channel
    then some text_channel_missing
    else if not (str_eq (trim m.current.text_channel_id) channel)
    then some text_channel_mismatch
    else none

-- A receipt whose message was sent 24 hours ago or more.
abbrev pub is_expired : ℕ → Receipt → Bool
is_expired now r = not (r.completed_at == 0) && leb receipt_ttl (now - r.completed_at)

-- The scan for the completed receipt that is oldest: its key and its time.
unfoldable pub older : Option (String × ℕ) → String → ℕ → Option (String × ℕ)
older none key at = some (key, at)
older (some (key', best)) key at = if ltb at best then some (key, at) else some (key', best)

unfoldable pub oldest : Option (String × ℕ) → List (String × Receipt) → Option (String × ℕ)
oldest best [] = best
oldest best ((key, r) ∷ rest) =
    oldest (if r.completed_at == 0 then best else older best key r.completed_at) rest

-- The receipt that a round of the loop drops: none below the limit, and none if none is completed.
unfoldable pub victim : List (String × Receipt) → Option (String × ℕ)
victim receipts = if leb max_receipts (length receipts) then oldest none receipts else none

unfoldable pub drop_oldest : ℕ → List (String × Receipt) → List (String × Receipt)
drop_oldest zero receipts = receipts
drop_oldest (suc fuel) receipts = elim (victim receipts) [
  | none ↦ receipts
  | some (key, at) ↦ drop_oldest fuel (delete key receipts)
]

abbrev pub unexpired : ℕ → List (String × Receipt) → List (String × Receipt)
unexpired now receipts = keep (λ e. not (is_expired now e.1)) receipts

-- `pruneNotificationReceiptsLocked`. Each round of the second loop takes out an entry.
unfoldable pub prune : ℕ → List (String × Receipt) → List (String × Receipt)
prune now receipts = drop_oldest (length (unexpired now receipts)) (unexpired now receipts)

-- What the first section decides: an error, to wait for the receipt of an earlier call, or to send
-- under a key with a new receipt.
pub data Begun : Type 0 where
  refused : NotifyError → Begun
  joins : Receipt → Begun
  sends : (key : String) → (id : ℕ) → Begun

abbrev pub payload : String → String → String → String
payload stream channel url = append stream (append "\0" (append channel (append "\0" url)))

module _ (hash : String → String) where
  -- A receipt that is there is of this payload, or the event's id was used before.
  unfoldable pub same_event : Receipt → String → String → String → Begun
  same_event r stream channel url =
      if not (str_eq r.stream_id stream)
        || not (str_eq r.payload_hash (hash (payload stream channel url)))
      then refused event_id_conflict
      else joins r

  -- A new receipt, if there is room.
  unfoldable pub reserve : Manager → String → String → String → String → Manager × Begun
  reserve m stream event channel url =
      if leb max_receipts (length m.receipts) then (m, refused receipt_capacity) else (
        record m {
          receipts =
              insert (hash event)
                (record {
                  id = m.next_id;
                  stream_id = stream;
                  payload_hash = hash (payload stream channel url);
                  message_id = "";
                  completed_at = 0;
                })
                m.receipts;
          next_id = suc m.next_id;
        },
        sends (hash event) m.next_id,
      )

  unfoldable pub find_or_reserve :
      Manager → Option Receipt → String → String → String → String → Manager × Begun
  find_or_reserve m (some r) stream event channel url = (m, same_event r stream channel url)
  find_or_reserve m none stream event channel url = reserve m stream event channel url

  -- The first critical section of `NotifyYouTubeLive`, its arguments trimmed.
  unfoldable pub begin_notify : Manager → String → String → String → String → ℕ → Manager × Begun
  begin_notify m stream event channel url now = elim (validate_state m stream channel) [
    | some e ↦ (m, refused e)
    | none ↦
        find_or_reserve (record m { receipts = prune now m.receipts })
          (lookup (hash event) (prune now m.receipts)) stream event channel url
  ]

-- A message without an id counts as not sent.
unfoldable pub check_id : Sent → Sent
check_id (not_sent e) = not_sent e
check_id (sent id) = if is_empty (trim id) then not_sent unavailable else sent (trim id)

-- `SendMessage` of the client, if there is one: the channel and the text.
unfoldable pub send_message : Option (String → String → Sent) → String → String → Sent
send_message none channel url = not_sent unavailable
send_message (some client) channel url = check_id (client channel (append message_prefix url))

-- The receipt of a call is the object that it made.
unfoldable pub complete :
    String → ℕ → String → ℕ → List (String × Receipt) → List (String × Receipt)
complete key id message now receipts = elim (lookup key receipts) [
  | none ↦ receipts
  | some r ↦
      if r.id == id
      then insert key (record r { message_id = message; completed_at = now }) receipts
      else receipts
]

-- The second critical section.
unfoldable pub end_notify : Manager → String → ℕ → Sent → ℕ → Manager × Answer
end_notify m key id (not_sent e) now =
    (record m { receipts = delete key m.receipts }, failed (send_failed e))
end_notify m key id (sent message) now = (
  record m { receipts = complete key id message now m.receipts; last_event_at = now },
  notified message false,
)

-- A call that waits: nothing if its own context ends first, else how the other call ended.
unfoldable pub joined : Option Sent → Answer
joined none = failed (send_failed unavailable)
joined (some (not_sent e)) = failed (send_failed e)
joined (some (sent message)) = notified message true

-- How the call ended that owns a receipt, where that is known from the receipt.
unfoldable pub ending : Receipt → Option Sent → Option Sent
ending r later = if r.completed_at == 0 then later else some (sent r.message_id)

module _ (hash : String → String) (client : Option (String → String → Sent)) where
  -- `later` is how the call that is waited for ends, `others` what other goroutines do while the
  -- message is sent.
  unfoldable pub go_on :
      Manager × Begun → String → String → Option Sent → (Manager → Manager) → ℕ → Manager × Answer
  go_on (m, refused e) channel url later others now = (m, failed e)
  go_on (m, joins r) channel url later others now = (m, joined (ending r later))
  go_on (m, sends key id) channel url later others now =
      end_notify (others m) key id (send_message client channel url) now

  -- `NotifyYouTubeLive`. The context of a call that finds a completed receipt has not ended.
  unfoldable pub notify_youtube_live :
      Manager
      → String
      → String
      → String
      → String
      → ℕ
      → Option Sent
      → (Manager → Manager)
      → ℕ
      → Manager × Answer
  notify_youtube_live m stream event channel url now later others done =
      if is_empty (trim stream)
      then (m, failed stream_id_required)
      else if is_empty (trim event)
      then (m, failed event_id_required)
      else if is_empty (trim url)
      then (m, failed watch_url_required)
      else go_on (begin_notify hash m (trim stream) (trim event) (trim channel) (trim url) now)
          (trim channel) (trim url) later others done
