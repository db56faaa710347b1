-- ===== src/Retry/Bounds.antt =====
-- How many reports are kept (internal/jobs/event_retry.go): `requeue` does not look at
-- `maxWorkerEventRetryPending`, so the bound is that of `enqueue` and one more for the report in
-- flight.
use autostream_discord_bot.Base.{
  ℕ, suc, ◌+◌, ◌≤◌, ◌<◌, String, Bool, true, false, not, ◌||◌, ◌≡◌, ap, ◌⊎◌, inl, inr, Option, none,
  some, List, [], ◌∷◌, arith, is_empty, lookup, delete, has_key, length, length-insert,
  length-delete-le, length-delete-lt, leb, if_case, ◌==◌, if◌then◌else◌,
}
use autostream_discord_bot.Retry.Classify.{PublishFault, should_retry_worker_publish}
use autostream_discord_bot.Retry.{
  Report, Queue, Next, new_queue, make_room, drop_oldest_chat, oldest_chat, admit, enqueue, next,
  mark_dropped, mark_delivered, requeue, supersede, signal, max_attempts, max_pending, answer,
  no_report, pick, is_due, retry_delay,
}
use autostream_discord_bot.Retry.Selection.{pick-found}
use autostream_discord_bot.Retry.Eviction.{oldest_chat-found}
use autostream_discord_bot.Retry.Coalescing.{enqueue-cases, queued}
use autostream_discord_bot.Retry.Invariant.{Inv, settle, stop-pending}
use autostream_discord_bot.Retry.Schedule.{
  System, Action, enqueues, supersedes, stops, takes, gives_up, settles, take_next, end_flight,
  step, run, start, tried, SystemInv, AllNamed, step-SystemInv, run-start-SystemInv, flying,
}

abbrev pub size : Queue → ℕ
size q = length q.pending

drop_oldest_chat-size : (q r : Queue) → Inv q → drop_oldest_chat q ≡ some r → size r < size q
unfolding drop_oldest_chat
drop_oldest_chat-size q r v made = elim (oldest_chat-found "" 0 q.pending v.is_map) [
  | inl blank ↦ ground (arith, ap is_empty blank)
  | inr (y, f, chat) ↦ ground (arith, length-delete-lt (oldest_chat "" 0 q.pending) q.pending y f)
]

-- Room for a key: it is pending, or fewer than 256 are, or one less than before.
make_room-size :
    (q r : Queue) (key : String)
    → Inv q
    → make_room q key ≡ some r
    → ((has_key key r.pending ≡ true) × (r ≡ q)) ⊎ (size r < max_pending) ⊎ (size r < size q)
unfolding make_room
make_room-size q r key v made = ground (arith, drop_oldest_chat-size q r v)

admit-size :
    (q : Queue) (x : Report) (now : ℕ)
    → size (admit q x now) ≡ (if has_key x.key q.pending then size q else suc (size q))
unfolding admit
admit-size q x now = length-insert x.key (queued q x now) q.pending

enqueue-size :
    (q : Queue) (x : Report) (now : ℕ)
    → Inv q
    → (size (enqueue q x now).0 ≤ max_pending) ⊎ (size (enqueue q x now).0 ≤ size q)
enqueue-size q x now v = elim (enqueue-cases q x now) [
  | inl (refused, _) ↦ inr (ground (arith, refused))
  | inr (room, made, live, taken) ↦
      ground (arith, make_room-size q room x.key v made, admit-size room x now)
]

-- The reports that are kept: the pending ones and the one in flight.
abbrev pub flights : Option Report → ℕ
flights none = 0
flights (some r) = 1

abbrev pub kept : System → ℕ
kept s = size s.queue + flights s.flight

selected-size :
    (q : Queue) (now : ℕ) (s : Report)
    → (s ≡ no_report) ⊎ ((lookup s.key q.pending ≡ some s) × (is_due now s ≡ true))
    → is_empty s.key ≡ false
    → length (delete s.key q.pending) < size q
selected-size q now s (inl blank) named = cc
selected-size q now s (inr (e, _)) named = length-delete-lt s.key q.pending s e

answer-size :
    (q : Queue) (now later : ℕ) (p : Report × ℕ)
    → (p.0 ≡ no_report) ⊎ ((lookup p.0.key q.pending ≡ some p.0) × (is_due now p.0 ≡ true))
    → size (answer q later p).0 + flights (flying (answer q later p).1) ≤ size q
unfolding answer
answer-size q now later (s, t) found =
    if_case Fits (not (is_empty s.key))
      (λ named. omega (arith, selected-size q now s found (ground arith)))
      λ nothing. if_case Fits (t == 0 || leb t later) (λ never. omega arith) (λ wait. omega arith)
  where
    Fits : Queue × Next → Type 0
    Fits a = size a.0 + flights (flying a.1) ≤ size q

next-size :
    (q : Queue) (now later : ℕ)
    → Inv q
    → size (next q now later).0 + flights (flying (next q now later).1) ≤ size q
unfolding next
next-size q now later v = answer-size q now later (pick now no_report 0 q.pending) (
    pick-found now no_report 0 q.pending v.is_map
      λ k r e. ((v.entries k r e).0, (v.entries k r e).1))

requeue-size :
    (q : Queue) (r : Report) (now later : ℕ) → size (requeue q r now later) ≤ suc (size q)
unfolding requeue signal
requeue-size q r now later = ground (
  arith,
  length-insert r.key (record r { next_try_at = now + retry_delay r.attempts; queued_at = later })
      q.pending,
)

mark_dropped-size : (q : Queue) (r : Report) → size (mark_dropped q r) ≤ size q
unfolding mark_dropped
mark_dropped-size q r = ground (arith, length-delete-le r.key q.pending)

settle-size :
    (q : Queue) (r : Report) (e : Option PublishFault) (cancelled : Bool) (now later : ℕ)
    → size (settle q r e cancelled now later) ≤ suc (size q)
unfolding settle mark_delivered
settle-size q r none cancelled now later = ground (arith, length-delete-le r.key q.pending)
settle-size q r (some f) cancelled now later =
    if_case (λ (x : Queue). size x ≤ suc (size q))
      (not (should_retry_worker_publish (some f)) || cancelled || leb max_attempts r.attempts)
      (λ over. omega (arith, mark_dropped-size q r)) (λ again. requeue-size q r now later)

supersede-size : (q : Queue) (key : String) → size (supersede q key) ≤ size q
unfolding supersede signal
supersede-size q key = ground (arith, length-delete-le key q.pending)

take_next-kept :
    (q : Queue) (f : Option Report) (now later : ℕ)
    → Inv q
    → kept (take_next q f now later) ≤ size q + flights f
unfolding take_next
take_next-kept q none now later v = omega (arith, next-size q now later v)
take_next-kept q (some r) now later v = omega arith

end_flight-kept :
    (q : Queue) (f : Option Report) (finish : Queue → Report → Queue)
    → ((r : Report) → size (finish q r) ≤ suc (size q))
    → kept (end_flight q f finish) ≤ size q + flights f
unfolding end_flight
end_flight-kept q none finish h = omega arith
end_flight-kept q (some r) finish h = omega (arith, h r)

flights-le : (f : Option Report) → flights f ≤ 1
flights-le none = omega arith
flights-le (some r) = omega arith

step-kept :
    (s : System) (a : Action)
    → SystemInv s
    → kept s ≤ suc max_pending
    → kept (step s a) ≤ suc max_pending
unfolding step
step-kept s (enqueues r now) v h =
    omega (arith, enqueue-size s.queue r now v.queue_inv, flights-le s.flight)
step-kept s (supersedes key) v h = omega (arith, supersede-size s.queue key)
step-kept s stops v h = rw (stop-pending s.queue v.queue_inv) (omega (arith, flights-le s.flight))
step-kept s (takes now later) v h =
    omega (arith, take_next-kept s.queue s.flight now later v.queue_inv)
step-kept s gives_up v h = omega (
  arith,
  end_flight-kept s.queue s.flight mark_dropped λ r. omega (arith, mark_dropped-size s.queue r),
)
step-kept s (settles e cancelled now later) v h = omega (
  arith,
  end_flight-kept s.queue s.flight (λ q r. settle q (tried r) e cancelled now later)
      λ r. settle-size s.queue (tried r) e cancelled now later,
)

run-kept :
    (s : System) (actions : List Action)
    → AllNamed actions
    → SystemInv s
    → kept s ≤ suc max_pending
    → kept (run s actions) ≤ suc max_pending
unfolding run
run-kept s [] named v h = h
run-kept s (a ∷ actions) named v h =
    run-kept (step s a) actions named.1 (step-SystemInv s a named.0 v) (step-kept s a v h)

-- After any sequence of enqueues, supersedings, stops and delivery steps of reports with keys that
-- are not empty, at most 257 reports are kept, pending and in flight together.
pub run-start-kept :
    (actions : List Action) → AllNamed actions → kept (run start actions) ≤ suc max_pending
unfolding start new_queue run
run-start-kept actions named =
    run-kept start actions named (run-start-SystemInv [] tt) (omega arith)
