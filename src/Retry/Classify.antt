-- ===== src/Retry/Classify.antt =====
-- How a failed publish is classified (internal/jobs/event_retry.go, lines 246 to 287). What
-- `errors.Is` and `errors.As` find in an error is the record `PublishFault`.
use autostream_discord_bot.Base.{
  ◌&&◌, ℕ, ◌≤◌, String, Bool, true, false, ◌||◌, ◌≡◌, refl, ◌⊎◌, inl, if_case, Option, none, some,
  arith, ltb, if◌then◌else◌, str_eq, eq_iff, trim,
}

-- `workerPublishErrorClassification`.
pub record Classified : Type 0 where
  pub error_class : String
  pub http_status_code : ℕ
  pub retryable_publish : Bool

pub record PublishFault : Type 0 where
  pub canceled : Bool
  pub deadline_exceeded : Bool
  pub classified : Option Classified

unfoldable pub safe_worker_error_class : String → String
safe_worker_error_class text =
    let t = trim text in
    if str_eq t "http_status"
      || str_eq t "transport"
      || str_eq t "timeout"
      || str_eq t "canceled"
      || str_eq t "configuration"
      || str_eq t "unknown"
    then t
    else "unknown"

abbrev safe_status : ℕ → ℕ
safe_status status = if ltb status 100 || ltb 599 status then 0 else status

abbrev classified_metadata : Option Classified → String × ℕ × Bool
classified_metadata none = ("unknown", 0, false)
classified_metadata (some c) =
    (safe_worker_error_class c.error_class, safe_status c.http_status_code, c.retryable_publish)

abbrev classify : PublishFault → String × ℕ × Bool
classify f =
    if f.canceled
    then ("canceled", 0, false)
    else if f.deadline_exceeded
    then ("timeout", 0, true)
    else classified_metadata f.classified

-- `workerPublishMetadata`: class, status and whether to retry; `none` is the nil error.
unfoldable pub worker_publish_metadata : Option PublishFault → String × ℕ × Bool
worker_publish_metadata none = ("unknown", 0, false)
worker_publish_metadata (some f) = classify f

unfoldable pub should_retry_worker_publish : Option PublishFault → Bool
unfolding worker_publish_metadata
should_retry_worker_publish e = (worker_publish_metadata e).2

-- The words that a log line may show for the class of an error.
abbrev pub IsSafeClass : String → Type 0
IsSafeClass c =
    (c ≡ "http_status")
    ⊎ (c ≡ "transport")
    ⊎ (c ≡ "timeout")
    ⊎ (c ≡ "canceled")
    ⊎ (c ≡ "configuration")
    ⊎ (c ≡ "unknown")

safe_worker_error_class-IsSafeClass : (s : String) → IsSafeClass (safe_worker_error_class s)
unfolding safe_worker_error_class
safe_worker_error_class-IsSafeClass s = ground (
  arith,
  eq_iff (trim s) "http_status",
  eq_iff (trim s) "transport",
  eq_iff (trim s) "timeout",
  eq_iff (trim s) "canceled",
  eq_iff (trim s) "configuration",
  eq_iff (trim s) "unknown",
)

abbrev pub IsSafeStatus : ℕ → Type 0
IsSafeStatus n = (n ≡ 0) ⊎ ((100 ≤ n) × (n ≤ 599))

classified_metadata-IsSafe :
    (c : Option Classified)
    → IsSafeClass (classified_metadata c).0 × IsSafeStatus (classified_metadata c).1
classified_metadata-IsSafe none = (ground arith, inl refl)
classified_metadata-IsSafe (some c) =
    (safe_worker_error_class-IsSafeClass c.error_class, ground arith)

-- Whatever error a publish returns, its class is one of six fixed words, its status is 0 or from
-- 100 to 599, and a cancelled publish is not retried.
pub worker_publish_metadata_safe :
    (f : PublishFault)
    → IsSafeClass (worker_publish_metadata (some f)).0
      × IsSafeStatus (worker_publish_metadata (some f)).1
      × ((f.canceled && (worker_publish_metadata (some f)).2) ≡ false)
unfolding worker_publish_metadata
worker_publish_metadata_safe f = (
  if_case (λ (t : String × ℕ × Bool). IsSafeClass t.0) f.canceled (λ _. ground arith)
      λ _.
        if_case (λ (t : String × ℕ × Bool). IsSafeClass t.0) f.deadline_exceeded (λ _. ground arith)
          (λ _. (classified_metadata-IsSafe f.classified).0),
  if_case (λ (t : String × ℕ × Bool). IsSafeStatus t.1) f.canceled (λ _. inl refl)
      λ _.
        if_case (λ (t : String × ℕ × Bool). IsSafeStatus t.1) f.deadline_exceeded (λ _. inl refl)
          (λ _. (classified_metadata-IsSafe f.classified).1),
  ground arith,
)
