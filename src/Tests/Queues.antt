-- ===== src/Tests/Queues.antt =====
-- The retry queue of internal/jobs/event_retry.go on concrete reports.
use Prim.Native.Nat.{min}
use autostream_discord_bot.Base.{
  insert, suc, ◌*◌, ◌^◌, ◌-◌, ◌≤◌, true, false, ◌≡◌, refl, ap, ◌⊎◌, inl, inr, some, List, [], ◌∷◌,
  arith, is_empty, sym, ◌∙◌, Bool-cases, trim, delete, lookup, length, has_key, str_eq, eq_iff,
  IsMap, ◌&&◌, any,
}
use autostream_discord_bot.Tests.{report}
use autostream_discord_bot.Retry.Classify.{
  PublishFault, worker_publish_metadata, safe_worker_error_class, IsSafeClass, IsSafeStatus,
  worker_publish_metadata_safe,
}
use autostream_discord_bot.Retry.{
  idle, make_room, admit, Report, Queue, no_report, new_queue, signal, stop, enqueue, next, answer,
  pick, choose, nearer, requeue, is_latest, mark_delivered, mark_dropped, retry_delay, retry_base,
  retry_max, max_pending, is_chat,
}
use autostream_discord_bot.Retry.Selection.{Keyed, Serves, next-Serves}
use autostream_discord_bot.Retry.Coalescing.{queued, enqueue-supersedes, enqueue-refused}
use autostream_discord_bot.Retry.Schedule.{
  Action, enqueues, supersedes, stops, takes, gives_up, settles, run, start, SystemInv, AllNamed,
  run-start-SystemInv,
}
use autostream_discord_bot.Retry.Bounds.{kept, run-start-kept}
use autostream_discord_bot.Jobs.Delivery.Chat.{rune_count}
use autostream_discord_bot.Retry.Backoff.{retry_delay-eq}

-- The separator of keys is one character.
separator_length : rune_count "\0" ≡ 1
unfolding rune_count
separator_length = refl

abbrev refused : PublishFault
refused = record {
  canceled = false;
  deadline_exceeded = false;
  classified =
      some (record {
        error_class = " http_status ";
        http_status_code = 503;
        retryable_publish = true;
      });
}

refused-metadata : worker_publish_metadata (some refused) ≡ ("http_status", 503, true)
unfolding worker_publish_metadata safe_worker_error_class trim
refused-metadata = refl

worker_publish_metadata_safe_example :
    IsSafeClass (worker_publish_metadata (some refused)).0
    × IsSafeStatus (worker_publish_metadata (some refused)).1
    × ((refused.canceled && (worker_publish_metadata (some refused)).2) ≡ false)
worker_publish_metadata_safe_example = worker_publish_metadata_safe refused

-- A report is taken in, tried, refused and put back, and then the queue is stopped.
abbrev one_retry : List Action
one_retry =
    enqueues report 5
    ∷ takes 250_000_005 250_000_005
    ∷ settles (some refused) false 300_000_000 300_000_000
    ∷ supersedes "stream\0active_speaker"
    ∷ stops
    ∷ gives_up
    ∷ []

abbrev one_retry-named : AllNamed one_retry
one_retry-named = (refl, (tt, (tt, (tt, (tt, (tt, tt))))))

run-start-SystemInv_example : SystemInv (run start one_retry)
run-start-SystemInv_example = run-start-SystemInv one_retry one_retry-named

run-start-kept_example : kept (run start one_retry) ≤ suc max_pending
run-start-kept_example = run-start-kept one_retry one_retry-named

-- One chat message and one participant report are pending.
abbrev chat : Report
chat = record no_report {
  key = "stream\0chat\01";
  event_type = "overlay.discord_chat";
  sequence = 1;
  queued_at = 4;
  next_try_at = 9;
}

abbrev second : Report
second = record report { sequence = 2; queued_at = 5; next_try_at = 8 }

abbrev two : Queue
two = record new_queue {
  pending = (chat.key, chat) ∷ (second.key, second) ∷ [];
  latest = (chat.key, 1) ∷ (second.key, 2) ∷ [];
  sequence = 2;
}

two-IsMap : IsMap two.pending
unfolding lookup new_queue
two-IsMap = (refl, (refl, tt))

two-Keyed : Keyed two.pending
unfolding lookup new_queue
two-Keyed k r e = elim (Bool-cases (str_eq chat.key k)) [
  | inl here ↦
      let named : chat.key ≡ k = (eq_iff chat.key k).0 here in
      let same : chat ≡ r = ground (arith, e, here) in
      (ap (λ (x : Report). x.key) (sym same) ∙ named, ap is_empty (sym named))
  | inr there ↦ elim (Bool-cases (str_eq second.key k)) [
    | inl here ↦
        let named : second.key ≡ k = (eq_iff second.key k).0 here in
        let same : second ≡ r = ground (arith, e, here, there) in
        (ap (λ (x : Report). x.key) (sym same) ∙ named, ap is_empty (sym named))
    | inr absent ↦ ground (arith, e, there, absent)
  ]
]

second-pending : lookup "stream\0participants" two.pending ≡ some second
unfolding new_queue lookup
second-pending = refl

-- Both are due at 10, and the chat message was queued first.
next-Serves_example : Serves two 10 11 "stream\0participants" second (next two 10 11)
next-Serves_example =
    next-Serves two 10 11 "stream\0participants" second two-IsMap two-Keyed second-pending

next-two : (next two 10 11).0.pending ≡ ("stream\0participants", second) ∷ []
unfolding next answer pick choose nearer new_queue delete
next-two = refl

-- The report becomes due between the two readings of the clock, and the loop is told to idle.
overdue :
    next
      (record two { pending = ("stream\0participants", record second { next_try_at = 20 }) ∷ [] })
      19
      20
    ≡ (
      record two { pending = ("stream\0participants", record second { next_try_at = 20 }) ∷ [] },
      idle,
    )
unfolding next answer pick choose nearer new_queue
overdue = refl

-- A newer report of the key of the second one comes while that one is delivered.
abbrev newer : Queue
newer = (enqueue two second 12).0

taken : enqueue two second 12 ≡ (newer, true)
unfolding enqueue make_room admit signal new_queue lookup insert
taken = refl

enqueue-supersedes_example :
    (is_latest newer second ≡ false)
    × (mark_delivered newer second ≡ newer)
    × (mark_dropped newer second ≡ newer)
    × (requeue newer second 20 21 ≡ newer)
    × (lookup second.key newer.pending ≡ some (queued two second 12))
    × (is_latest newer (queued two second 12) ≡ true)
enqueue-supersedes_example =
    enqueue-supersedes two newer second second 12 20 21 taken refl
      (unfold new_queue in λ e. ground (arith, e))

enqueue-refused_example :
    (stop new_queue ≡ stop new_queue)
    × (((stop new_queue).stopped ≡ true)
        ⊎ ((has_key report.key (stop new_queue).pending ≡ false)
            × (max_pending ≤ length (stop new_queue).pending)
            × (any (λ p. is_chat p.1) (stop new_queue).pending ≡ false)))
enqueue-refused_example =
    enqueue-refused (stop new_queue) (stop new_queue) report 20 (unfold stop signal new_queue in tt)
      (unfold stop signal new_queue lookup in λ k r e. cc)
      (unfold enqueue stop signal new_queue in refl)

retry_delay-eq_example : retry_delay 3 ≡ min (retry_base * 2 ^ (3 - 1)) retry_max
retry_delay-eq_example = retry_delay-eq 3
