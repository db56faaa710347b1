-- ===== src/Forward/Client.antt =====
-- The delivery of one batch over HTTP (internal/audioforward/client.go): its checks, its retries and
-- the time that they may take. `url.Parse` and the answers of the HTTP client are arguments.
pub mod Attempts
pub mod Budget
use autostream_discord_bot.Base.{
  ℕ, zero, suc, ◌+◌, ◌-◌, ◌*◌, ◌%◌, ◌^◌, String, Bool, true, false, not, ◌&&◌, ◌||◌, Option, none,
  some, List, [], ◌∷◌, if◌then◌else◌, ltb, leb, ◌==◌, is_nil, is_empty, str_eq, trim, keep,
}
use autostream_discord_bot.Control.{Url, is_local_dev_host}
use autostream_discord_bot.Jobs.{seconds}
use autostream_discord_bot.Forward.{OpusPacket, Batch}

-- `Config`. A number or a time that is not positive is 0.
pub record Config : Type 0 where
  pub timeout : ℕ
  pub retry_max : ℕ
  pub retry_base_delay : ℕ

abbrev pub default_request_timeout : ℕ
default_request_timeout = seconds 5

abbrev pub max_request_timeout : ℕ
max_request_timeout = seconds 30

-- `delay *= 2`, `times` times, on a 64-bit word.
unfoldable pub double_delay : ℕ → ℕ → ℕ
double_delay zero delay = delay
double_delay (suc times) delay = double_delay times ((delay * 2) % 2 ^ 64)

-- A word from 2 ^ 63 on is a negative time, which is not waited for: 0.
unfoldable pub cap_delay : ℕ → ℕ
cap_delay delay =
    if leb (2 ^ 63) delay then 0 else if ltb (seconds 30) delay then seconds 30 else delay

-- `retryDelay`, for an attempt from 1 on.
unfoldable pub retry_delay : ℕ → ℕ → ℕ
retry_delay base attempt = if base == 0 then 0 else cap_delay (double_delay (attempt - 1) base)

abbrev pub attempts_of : Config → ℕ
attempts_of c = if c.retry_max == 0 then 1 else c.retry_max

abbrev pub per_attempt : Config → ℕ
per_attempt c = if c.timeout == 0 then default_request_timeout else c.timeout

abbrev pub finish_budget : ℕ → ℕ
finish_budget budget =
    if ltb budget default_request_timeout
    then default_request_timeout
    else if ltb max_request_timeout budget
    then max_request_timeout
    else budget

-- A round of `ForwardOpusRequestTimeout`: `left` attempts come after it, with the result `rest`.
unfoldable pub budget_round : ℕ → ℕ → ℕ → ℕ → ℕ → ℕ
budget_round one delay left budget rest =
    if leb (max_request_timeout - budget) one
    then max_request_timeout
    else if left == 0
    then finish_budget (budget + one)
    else if leb (max_request_timeout - (budget + one)) delay
    then max_request_timeout
    else rest

-- Its loop: `left` attempts are to come, the next is `attempt`.
unfoldable pub budget_loop : Config → ℕ → ℕ → ℕ → ℕ
budget_loop c zero attempt budget = finish_budget budget
budget_loop c (suc left) attempt budget =
    let delay = retry_delay c.retry_base_delay attempt in
    budget_round (per_attempt c) delay left budget
      (budget_loop c left (suc attempt) (budget + per_attempt c + delay))

-- `ForwardOpusRequestTimeout`.
unfoldable pub forward_opus_request_timeout : Config → ℕ
forward_opus_request_timeout c = budget_loop c (attempts_of c) 1 (seconds 1)

pub data ForwardError : Type 0 where
  url_required stream_id_required token_required : ForwardError
  url_not_absolute url_scheme url_credentials url_query url_not_https : ForwardError
  no_response : ForwardError
  bad_status : ℕ → ForwardError
  sleep_cancelled : ForwardError

unfoldable pub check_audio_url : Url → Option ForwardError
check_audio_url u =
    if is_empty u.scheme || is_empty u.host
    then some url_not_absolute
    else if not (str_eq u.scheme "https") && not (str_eq u.scheme "http")
    then some url_scheme
    else if u.has_user
    then some url_credentials
    else if not (is_empty u.raw_query) || not (is_empty u.fragment)
    then some url_query
    else if str_eq u.scheme "http" && not (is_local_dev_host u.hostname)
    then some url_not_https
    else none

-- The verdict of `audioEndpoint`.
unfoldable pub audio_endpoint : Option Url → Option ForwardError
audio_endpoint none = some url_not_absolute
audio_endpoint (some u) = check_audio_url u

unfoldable pub is_retryable_status : ℕ → Bool
is_retryable_status status = status == 408 || status == 409 || status == 429 || leb 500 status

-- The packets that go on the wire: those with Opus data, with the time of now where they have none.
unfoldable pub wire_packets : ℕ → Batch → Batch
wire_packets now [] = []
wire_packets now (p ∷ rest) =
    let others = wire_packets now rest in
    if is_nil p.opus
    then others
    else record p { received_at = if p.received_at == 0 then now else p.received_at } ∷ others

-- What each attempt meets: the status of its response or none, and whether the wait after it goes
-- through.
pub record Exchange : Type 0 where
  pub answer : ℕ → Option ℕ
  pub sleeps : ℕ → Bool

abbrev pub is_success : ℕ → Bool
is_success status = leb 200 status && ltb status 300

-- The verdict on a response: done, or an error with whether it may be tried again.
pub data Verdict : Type 0 where
  delivered : Verdict
  may_retry : ForwardError → Verdict
  gives_up : ForwardError → Verdict

unfoldable pub judge : Option ℕ → Verdict
judge none = may_retry no_response
judge (some status) =
    if is_success status
    then delivered
    else if is_retryable_status status
    then may_retry (bad_status status)
    else gives_up (bad_status status)

-- What an attempt with this verdict leads to: the number of requests made and the error, if any.
-- `left` attempts are to come after it, with the result `rest`.
unfoldable pub after_attempt :
    Exchange → ℕ → ℕ → ℕ × Option ForwardError → Verdict → ℕ × Option ForwardError
after_attempt x attempt left rest delivered = (attempt, none)
after_attempt x attempt left rest (gives_up e) = (attempt, some e)
after_attempt x attempt left rest (may_retry e) =
    if left == 0
    then (attempt, some e)
    else if x.sleeps attempt
    then rest
    else (attempt, some sleep_cancelled)

-- The loop of `ForwardOpus`.
unfoldable pub attempt_loop : Exchange → ℕ → ℕ → ℕ × Option ForwardError
attempt_loop x zero attempt = (attempt - 1, none)
attempt_loop x (suc left) attempt =
    after_attempt x attempt left (attempt_loop x left (suc attempt)) (judge (x.answer attempt))

-- `ForwardOpus`. `parsed` is what `url.Parse` makes of the encoder's URL.
unfoldable pub forward_opus :
    Config → String → String → String → Option Url → Batch → ℕ → Exchange → ℕ × Option ForwardError
forward_opus c url stream token parsed packets now x =
    if is_empty (trim url)
    then (0, some url_required)
    else if is_empty (trim stream)
    then (0, some stream_id_required)
    else if is_nil packets
    then (0, none)
    else if is_empty (trim token)
    then (0, some token_required)
    else elim (audio_endpoint parsed) [
      | some e ↦ (0, some e)
      | none ↦
          if is_nil (wire_packets now packets) then (0, none) else attempt_loop x (attempts_of c) 1
    ]
