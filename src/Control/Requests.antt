-- ===== src/Control/Requests.antt =====
-- The requests of the Control Panel client (internal/control/client.go). What the HTTP client
-- answers is an argument: no response, or a status with a body that was decoded.
use autostream_discord_bot.Base.{
  ℕ, String, Bool, true, false, not, ◌&&◌, ◌||◌, Option, none, some, if◌then◌else◌, leb, ltb, ◌==◌,
  is_empty, trim,
}
use autostream_discord_bot.Control.{ConfigError, ControlPanelError, retryable_auto_stop}

-- A body as `json.Decoder` finds it: at its end, not decodable, or a value.
pub data Body {ℓ} (V : Type ℓ) : Type ℓ where
  no_body bad_body : Body V
  decoded : V → Body V

-- A response: its status, its body, and the code in the body of an error.
pub record Response {ℓ} (V : Type ℓ) : Type ℓ where
  pub status_code : ℕ
  pub body : Body V
  pub error_code : Option String

pub data PanelError : Type 0 where
  invalid_config : ConfigError → PanelError
  no_response : PanelError
  refused : ControlPanelError → PanelError
  undecodable : PanelError

-- `controlPanelErrorFromResponse`.
unfoldable pub error_from_response {ℓ} : {V : Type ℓ} → String → Response V → ControlPanelError
error_from_response endpoint r = record {
  endpoint = endpoint;
  status_code = r.status_code;
  code = elim r.error_code [ none ↦ "" | some code ↦ trim code ];
}

-- Whether the status is a success.
abbrev pub is_success : ℕ → Bool
is_success status = leb 200 status && ltb status 300

module _ {ℓ} {V : Type ℓ} where
  -- The value of a successful response; `zero` is what `out` holds before.
  unfoldable pub read_body : V → Bool → Body V → V × Option PanelError
  read_body zero allow_empty no_body =
      if allow_empty then (zero, none) else (zero, some undecodable)
  read_body zero allow_empty bad_body = (zero, some undecodable)
  read_body zero allow_empty (decoded v) = (v, none)

  unfoldable pub read_response : String → V → Bool → Option (Response V) → ℕ × V × Option PanelError
  read_response endpoint zero allow_empty none = (0, zero, some no_response)
  read_response endpoint zero allow_empty (some r) =
      if not (is_success r.status_code)
      then (r.status_code, zero, some (refused (error_from_response endpoint r)))
      else (
        r.status_code,
        (read_body zero allow_empty r.body).0,
        (read_body zero allow_empty r.body).1,
      )

  -- `postDecodeWithOptionalBody`, with the verdict of `Config.Validate`.
  unfoldable pub post_decode :
      Option ConfigError → String → V → Bool → Option (Response V) → ℕ × V × Option PanelError
  post_decode (some e) endpoint zero allow_empty answer = (0, zero, some (invalid_config e))
  post_decode none endpoint zero allow_empty answer = read_response endpoint zero allow_empty answer

-- The receipt of a stop request.
pub record StopReceipt : Type 0 where
  pub already_stopping : Bool
  pub already_stopped : Bool

abbrev pub no_receipt : StopReceipt
no_receipt = record { already_stopping = false; already_stopped = false }

pub data StopResult : Type 0 where
  stop_done : StopResult
  -- `AutoStopPendingError`.
  stop_pending : (stream : String) → StopResult
  stop_refused : ControlPanelError → StopResult
  -- `AutoStopTransportError`.
  stop_transport : PanelError → StopResult
  stop_invalid : ConfigError → StopResult
  stop_unnamed : StopResult

-- A successful status with its receipt.
unfoldable pub stop_receipt : String → ℕ → StopReceipt → StopResult
stop_receipt stream status receipt =
    if status == 202
    then (if receipt.already_stopped then stop_done else stop_pending stream)
    else if receipt.already_stopping
    then stop_pending stream
    else if status == 200 || status == 204
    then stop_done
    else stop_pending stream

unfoldable pub stop_answer : String → ℕ × StopReceipt × Option PanelError → StopResult
stop_answer stream (status, receipt, none) = stop_receipt stream status receipt
stop_answer stream (status, receipt, some (refused e)) = stop_refused e
stop_answer stream (status, receipt, some e) = stop_transport e

-- `StopStream`.
unfoldable pub stop_stream :
    Option ConfigError → String → String → Option (Response StopReceipt) → StopResult
stop_stream (some e) stream endpoint answer =
    if is_empty (trim stream) then stop_unnamed else stop_invalid e
stop_stream none stream endpoint answer =
    if is_empty (trim stream)
    then stop_unnamed
    else stop_answer (trim stream) (post_decode none endpoint no_receipt true answer)

-- Which results the manager may try again: `RetryableAutoStop` of the three errors.
unfoldable pub retryable_stop : StopResult → Bool
retryable_stop (stop_pending stream) = true
retryable_stop (stop_transport e) = true
retryable_stop (stop_refused e) = retryable_auto_stop e
retryable_stop _ = false
