-- ===== src/Control/StopRequest.antt =====
-- What a stop request to the Control Panel is taken for (`StopStream` in
-- internal/control/client.go).
use autostream_discord_bot.Base.{
  ℕ, String, true, false, not, ◌≡◌, refl, ◌⊎◌, Option, none, some, arith, if_case, is_empty, trim,
  ◌↔◌,
}
use autostream_discord_bot.Control.{ConfigError}
use autostream_discord_bot.Control.Requests.{
  Body, no_body, bad_body, decoded, Response, StopReceipt, StopResult, stop_done, stop_stream,
  stop_answer, stop_receipt, post_decode, read_response, read_body, is_success, no_receipt,
  PanelError, stop_transport, no_response,
}

-- The receipt of a body: none sent is a receipt that says nothing.
abbrev pub receipt_of : Body StopReceipt → StopReceipt
receipt_of (decoded r) = r
receipt_of _ = no_receipt

abbrev pub IsTerminal : ℕ → StopReceipt → Type 0
IsTerminal status receipt =
    (status ≡ 202) × (receipt.already_stopped ≡ true)
    ⊎ ((status ≡ 200) ⊎ (status ≡ 204)) × (receipt.already_stopping ≡ false)

-- A body that ends at once or that is decoded.
abbrev pub IsRead : Body StopReceipt → Type 0
IsRead bad_body = ⊥
IsRead _ = Unit

-- The Panel answered the request, and said that the stream has stopped.
abbrev pub IsDone : Option ConfigError → String → Option (Response StopReceipt) → Type 0
IsDone (some e) stream answer = ⊥
IsDone none stream none = ⊥
IsDone none stream (some r) =
    (is_empty (trim stream) ≡ false) × IsRead r.body × IsTerminal r.status_code (receipt_of r.body)

stop_receipt-done :
    (stream : String) (status : ℕ) (receipt : StopReceipt)
    → stop_receipt stream status receipt ≡ stop_done
    → IsTerminal status receipt
unfolding stop_receipt
stop_receipt-done stream status receipt h = ground arith

-- The body of a successful response is read, or it is an error.
stop_answer-done :
    (stream : String) (status : ℕ) (body : Body StopReceipt)
    → stop_answer stream
        (status, (read_body no_receipt true body).0, (read_body no_receipt true body).1)
      ≡ stop_done
    → IsRead body × IsTerminal status (receipt_of body)
unfolding stop_answer read_body
stop_answer-done stream status no_body h = (tt, stop_receipt-done stream status no_receipt h)
stop_answer-done stream status bad_body h = cc h
stop_answer-done stream status (decoded r) h = (tt, stop_receipt-done stream status r h)

stop_receipt-finishes :
    (stream : String) (status : ℕ) (receipt : StopReceipt)
    → IsTerminal status receipt
    → stop_receipt stream status receipt ≡ stop_done
unfolding stop_receipt
stop_receipt-finishes stream status receipt h = ground arith

stop_answer-finishes :
    (stream : String) (status : ℕ) (body : Body StopReceipt)
    → IsRead body
    → IsTerminal status (receipt_of body)
    → stop_answer stream
        (status, (read_body no_receipt true body).0, (read_body no_receipt true body).1)
      ≡ stop_done
unfolding stop_answer read_body
stop_answer-finishes stream status no_body read h = stop_receipt-finishes stream status no_receipt h
stop_answer-finishes stream status bad_body read h = absurd read
stop_answer-finishes stream status (decoded r) read h = stop_receipt-finishes stream status r h

read_response-done :
    (stream endpoint : String) (r : Response StopReceipt)
    → stop_answer stream (read_response endpoint no_receipt true (some r)) ≡ stop_done
    → IsRead r.body × IsTerminal r.status_code (receipt_of r.body)
unfolding stop_answer read_response
read_response-done stream endpoint r h =
    if_case
      (λ (p : ℕ × StopReceipt × Option PanelError).
        stop_answer stream p ≡ stop_done
        → IsRead r.body × IsTerminal r.status_code (receipt_of r.body))
      (not (is_success r.status_code)) (λ bad e. cc e)
      (λ good. stop_answer-done stream r.status_code r.body) h

read_response-finishes :
    (stream endpoint : String) (r : Response StopReceipt)
    → IsRead r.body
    → IsTerminal r.status_code (receipt_of r.body)
    → stop_answer stream (read_response endpoint no_receipt true (some r)) ≡ stop_done
unfolding stop_answer read_response
read_response-finishes stream endpoint r read h =
    if_case (λ (p : ℕ × StopReceipt × Option PanelError). stop_answer stream p ≡ stop_done)
      (not (is_success r.status_code)) (λ bad. absurd (ground arith))
      (λ good. stop_answer-finishes stream r.status_code r.body read h)

lost :
    (stream endpoint : String)
    → stop_answer stream (post_decode none endpoint no_receipt true none)
      ≡ stop_transport no_response
unfolding stop_answer post_decode read_response
lost stream endpoint = refl

stop_stream-finishes :
    (check : Option ConfigError) (stream endpoint : String) (answer : Option (Response StopReceipt))
    → IsDone check stream answer
    → stop_stream check stream endpoint answer ≡ stop_done
unfolding stop_stream post_decode
stop_stream-finishes (some e) stream endpoint answer h = absurd h
stop_stream-finishes none stream endpoint none h = absurd h
stop_stream-finishes none stream endpoint (some r) (named, read, terminal) =
    rw named (read_response-finishes (trim stream) endpoint r read terminal)

stop_stream-ends :
    (check : Option ConfigError) (stream endpoint : String) (answer : Option (Response StopReceipt))
    → stop_stream check stream endpoint answer ≡ stop_done
    → IsDone check stream answer
unfolding stop_stream post_decode
stop_stream-ends (some e) stream endpoint answer h =
    if_case (λ (s : StopResult). s ≡ stop_done → ⊥) (is_empty (trim stream)) (λ _ x. cc x)
      (λ _ x. cc x) h
stop_stream-ends none stream endpoint none h =
    if_case (λ (s : StopResult). s ≡ stop_done → ⊥) (is_empty (trim stream)) (λ _ x. cc x)
      (λ _ x. cc (lost (trim stream) endpoint, x)) h
stop_stream-ends none stream endpoint (some r) h =
    if_case (λ (s : StopResult). s ≡ stop_done → IsDone none stream (some r))
      (is_empty (trim stream)) (λ _ x. cc x)
      (λ named x.
        let (read, terminal) = read_response-done (trim stream) endpoint r x in
        (named, read, terminal))
      h

-- A stop request counts as done exactly if the configuration is valid, the stream has a name, and
-- the Panel answered with a body that is empty or decodes, by 202 and a receipt that the stream
-- has stopped, or by 200 or 204 and no receipt that it is stopping.
pub stop_stream-IsDone :
    (check : Option ConfigError) (stream endpoint : String) (answer : Option (Response StopReceipt))
    → (stop_stream check stream endpoint answer ≡ stop_done) ↔ IsDone check stream answer
stop_stream-IsDone check stream endpoint answer = (
  stop_stream-ends check stream endpoint answer,
  stop_stream-finishes check stream endpoint answer,
)
