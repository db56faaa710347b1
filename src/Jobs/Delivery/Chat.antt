-- ===== src/Jobs/Delivery/Chat.antt =====
-- Chat messages (internal/jobs/worker_reporting.go, lines 83 to 159).
use autostream_discord_bot.Base.{
  ◌⊎◌, ◌<◌, ℕ, zero, suc, ◌≤◌, ◌≡◌, refl, String, Bool, not, ◌||◌, Option, none, some, arith, leb,
  ◌==◌, if◌then◌else◌, if_case, str_eq, is_empty, trim, trim_left, trim_right, trim_idem,
}
use autostream_discord_bot.Types.{VoiceJob, ChatMessage, ChatMessageEvent}
use autostream_discord_bot.Retry.Classify.{PublishFault}
use autostream_discord_bot.Retry.{Report, no_report}
use autostream_discord_bot.Jobs.{Manager}
use autostream_discord_bot.Jobs.Roster.{events_paused}
use autostream_discord_bot.Jobs.Delivery.{is_current, chat_retry_key, publish_report}

-- The number of characters, and the first `n` of them.
unfoldable pub rune_count : String → ℕ
rune_count String.[] = 0
rune_count (String.◌∷◌ c s) = suc (rune_count s)

unfoldable pub first_runes : ℕ → String → String
first_runes zero s = ""
first_runes (suc n) String.[] = ""
first_runes (suc n) (String.◌∷◌ c s) = String.◌∷◌ c (first_runes n s)

unfoldable pub trim_chat_field : String → ℕ → String
unfolding rune_count first_runes
trim_chat_field value max_runes =
    let v = trim value in
    if max_runes == 0
    then ""
    else if leb (rune_count v) max_runes
    then v
    else trim (first_runes max_runes v)

abbrev trim_chat_content : String → String
trim_chat_content content = trim_chat_field content 1000

abbrev chat_message : ChatMessageEvent → ℕ → ChatMessage
chat_message event now = record {
  message_id = trim_chat_field event.message_id 128;
  user_id = trim_chat_field event.user_id 128;
  username = trim_chat_field event.username 100;
  avatar_url = trim_chat_field event.avatar_url 2048;
  is_bot = event.is_bot;
  content = trim_chat_content event.content;
  text_channel_id = trim_chat_field event.text_channel_id 128;
  created_at = if event.created_at == 0 then now else event.created_at;
}

unfoldable pub ignores_chat : Manager → ChatMessageEvent → Bool
unfolding events_paused trim_chat_field
ignores_chat m event =
    is_empty (trim_chat_content event.content)
    || is_empty (trim_chat_field event.message_id 128)
    || is_empty (trim_chat_field event.user_id 128)
    || events_paused m
    || is_empty m.current.stream_id
    || not (str_eq event.stream_id m.current.stream_id)
    || not (str_eq event.guild_id m.current.guild_id)
    || not (str_eq event.text_channel_id m.current.text_channel_id)

abbrev chat_report : VoiceJob → ℕ → ChatMessage → Report
chat_report job generation message = record no_report {
  key = chat_retry_key job message;
  event_type = "overlay.discord_chat";
  job = job;
  reconnect_generation = generation;
  chat = message;
}

-- The second section: the message goes out if the execution is still the one it was taken in for.
unfoldable pub chat_to_publish : Manager → VoiceJob → ℕ → ChatMessage → Option Report
unfolding events_paused is_current
chat_to_publish m job generation message =
    if events_paused m || not (is_current m job generation)
    then none
    else some (chat_report job generation message)

-- `ChatMessageReceived`; `meanwhile` acts while the publish lock is awaited, `others` while the
-- message is published.
unfoldable pub chat_message_received :
    Manager
    → ChatMessageEvent
    → (Manager → Manager)
    → (Report → Option PublishFault)
    → (Manager → Manager)
    → ℕ
    → ℕ
    → Manager
unfolding ignores_chat chat_to_publish publish_report
chat_message_received m event meanwhile publish others now later =
    let taken = record m { last_event_at = now } in
    let waited = meanwhile taken in
    let report = chat_to_publish waited m.current m.reconnect_generation (chat_message event now) in
    if ignores_chat m event
    then m
    else if not m.reporter
    then taken
    else publish_report waited report publish others later

rune_count-trim_left : (s : String) → rune_count (trim_left s) ≤ rune_count s
unfolding rune_count trim_left
rune_count-trim_left String.[] = omega arith
rune_count-trim_left (String.◌∷◌ c s) = ground (arith, rune_count-trim_left s)

rune_count-trim_right : (s : String) → rune_count (trim_right s) ≤ rune_count s
unfolding rune_count trim_right
rune_count-trim_right String.[] = omega arith
rune_count-trim_right (String.◌∷◌ c s) = ground (arith, rune_count-trim_right s)

rune_count-trim : (s : String) → rune_count (trim s) ≤ rune_count s
unfolding trim
rune_count-trim s = omega (arith, rune_count-trim_right (trim_left s), rune_count-trim_left s)

rune_count-first_runes : (n : ℕ) (s : String) → rune_count (first_runes n s) ≤ n
unfolding rune_count first_runes
rune_count-first_runes zero s = omega arith
rune_count-first_runes (suc n) String.[] = omega arith
rune_count-first_runes (suc n) (String.◌∷◌ c s) = omega (arith, rune_count-first_runes n s)

-- A field of a chat message has at most the given number of characters and no white space at its
-- ends, and a field that is short enough is only trimmed.
pub trim_chat_field_bounded :
    (value : String) (n : ℕ)
    → (rune_count (trim_chat_field value n) ≤ n)
      × (trim (trim_chat_field value n) ≡ trim_chat_field value n)
      × ((n ≡ 0) ⊎ (n < rune_count (trim value)) ⊎ (trim_chat_field value n ≡ trim value))
unfolding trim_chat_field
trim_chat_field_bounded value n = (
  ground (
    arith,
    rune_count-first_runes n (trim value),
    rune_count-trim (first_runes n (trim value)),
    rune_count-empty,
  ),
  if_case Trimmed (n == 0) (λ _. trim-empty)
      λ _.
        if_case Trimmed (leb (rune_count (trim value)) n) (λ _. trim_idem value)
          (λ _. trim_idem (first_runes n (trim value))),
  ground arith,
)
  where
    Trimmed : String → Type 0
    Trimmed s = trim s ≡ s

    rune_count-empty : rune_count "" ≡ 0
    rune_count-empty = unfold rune_count in refl

    trim-empty : trim "" ≡ ""
    trim-empty = unfold trim in refl
